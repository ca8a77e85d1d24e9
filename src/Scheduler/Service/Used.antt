-- ===== src/Scheduler/Service/Used.antt =====
-- An evaluation that `reserve` of services/scheduler/src/scheduler-service.js has used.
use pixel_hq_oss.Common.{
  ℕ, ◌+◌, Bool, true, not, ◌&&◌, ◌||◌, [], ◌∷◌, Text, same_text, if◌then◌else◌,
}
use pixel_hq_oss.Common.Dict.{Dict}
use pixel_hq_oss.Scheduler.Service.{Issuance}

-- How many entries the records have under an identifier; a `Map` has one at most.
unfoldable pub entries_under : Text → Dict Issuance → ℕ
entries_under id [] = 0
entries_under id ((k, i) ∷ d) =
    let rest = entries_under id d in if same_text k id then rest + 1 else rest

-- All that is recorded under the identifier is used.
used_under : Text → Dict Issuance → Bool
used_under id [] = true
used_under id ((k, i) ∷ d) = (not (same_text k id) || i.consumed) && used_under id d
