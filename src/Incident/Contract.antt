-- ===== src/Incident/Contract.antt =====
-- `validateIncidentV1` and its field checks, in packages/contracts/src/incident-v1.js. The model
-- keeps whether the list of errors is empty, and not the messages.
use pixel_hq_oss.Common.{
  ℕ, Bool, true, false, not, ◌&&◌, ◌||◌, Option, none, some, List, [], ◌∷◌, Text, same_text,
  utf16_length, Value, str, is_text, is_some, is_none, all_of, any_of, length, leb, ◌==◌,
}
use pixel_hq_oss.Time.{max_safe_integer}
use pixel_hq_oss.Incident.Names.{
  IncidentStatus, open_status, resolved, closed, ResponsePhase, CommandTransfer, Incident,
  incident_class_of, severity_of, phase_index, verify, close,
}

abbrev pub identifier_max : ℕ
identifier_max = 160

abbrev pub max_affected : ℕ
max_affected = 16

abbrev pub max_transfers : ℕ
max_transfers = 8

abbrev pub is_alphanumeric : ℕ → Bool
is_alphanumeric c =
    (leb b'A' c && leb c b'Z') || (leb b'a' c && leb c b'z') || (leb b'0' c && leb c b'9')

-- `[A-Za-z0-9._:-]`
abbrev pub is_identifier_char : ℕ → Bool
is_identifier_char c = is_alphanumeric c || c == b'.' || c == b'_' || c == b':' || c == b'-'

-- `IDENTIFIER.test(value)`
unfoldable pub matches_identifier : Text → Bool
matches_identifier [] = false
matches_identifier (c ∷ cs) = is_alphanumeric c && all_of is_identifier_char cs

-- The test of `identifier` on a string.
unfoldable pub is_identifier : Text → Bool
is_identifier value = leb (utf16_length value) identifier_max && matches_identifier value

unfoldable pub identifier_ok : Value → Bool
identifier_ok (str value) = is_identifier value
identifier_ok _ = false

-- The characters that `trim` removes.
abbrev pub is_trimmed : ℕ → Bool
is_trimmed c =
    (leb 9 c && leb c 13)
    || c == 32
    || c == 160
    || c == 0x1680
    || (leb 0x2000 c && leb c 0x200a)
    || c == 0x2028
    || c == 0x2029
    || c == 0x202f
    || c == 0x205f
    || c == 0x3000
    || c == 0xfeff

-- `boundedText` on a string: not blank, and at most `maximum` units long.
unfoldable pub is_bounded_text : ℕ → Text → Bool
is_bounded_text maximum value = not (all_of is_trimmed value) && leb (utf16_length value) maximum

abbrev pub bounded_text_ok : ℕ → Value → Bool
bounded_text_ok maximum (str value) = is_bounded_text maximum value
bounded_text_ok maximum _ = false

abbrev pub nullable_text_ok : ℕ → Option Text → Bool
nullable_text_ok maximum none = true
nullable_text_ok maximum (some value) = is_bounded_text maximum value

abbrev pub revision_ok : ℕ → Bool
revision_ok r = leb 1 r && leb r max_safe_integer

-- The loop of `boundedRefArray`: `seen` holds the entries passed.
unfoldable pub refs_ok : List Text → List Text → Bool
refs_ok seen [] = true
refs_ok seen (entry ∷ rest) =
    is_identifier entry && not (any_of (same_text entry) seen) && refs_ok (entry ∷ seen) rest

unfoldable pub bounded_ref_array_ok : List Text → Bool
unfolding refs_ok
bounded_ref_array_ok refs = leb (length refs) max_affected && refs_ok [] refs

unfoldable pub validate_transfer : CommandTransfer → Bool
validate_transfer t =
    identifier_ok t.prior_commander_ref
    && is_identifier t.new_commander_ref
    && is_identifier t.reason_code
    && is_identifier t.actor_ref
    && revision_ok t.revision

-- Each transfer starts from the commander that the one before it appointed.
unfoldable pub chain_ok : List CommandTransfer → Bool
chain_ok [] = true
chain_ok (t ∷ []) = true
chain_ok (t ∷ u ∷ rest) = is_text u.prior_commander_ref t.new_commander_ref && chain_ok (u ∷ rest)

-- The last transfer, if there is one, appointed the commander of the record.
unfoldable pub ends_at : List CommandTransfer → Value → Bool
ends_at [] commander = true
ends_at (t ∷ []) commander = is_text commander t.new_commander_ref
ends_at (t ∷ u ∷ rest) commander = ends_at (u ∷ rest) commander

abbrev pub not_before : Option ℕ → Option ℕ → Bool
not_before (some earlier) (some later) = leb earlier later
not_before _ _ = true

-- The checks that depend on `status`.
unfoldable pub status_ok : IncidentStatus → ResponsePhase → Option ℕ → Option ℕ → Bool
unfolding phase_index
status_ok open_status phase resolved_at closed_at =
    is_none resolved_at && is_none closed_at && leb (phase_index phase) (phase_index verify)
status_ok resolved phase resolved_at closed_at = is_some resolved_at
status_ok closed phase resolved_at closed_at =
    is_some resolved_at && is_some closed_at && leb (phase_index close) (phase_index phase)

-- The checks on the fields that operations leave alone, and on those that they change.
unfoldable pub identity_ok : Incident → Bool
identity_ok v =
    identifier_ok v.incident_id
    && is_some (incident_class_of v.incident_class)
    && is_some (severity_of v.severity)
    && is_some v.current_impact_code
    && identifier_ok v.source_ref
    && bounded_text_ok 80 v.summary_code
    && bounded_ref_array_ok v.affected_resource_refs
    && bounded_ref_array_ok v.affected_job_refs

unfoldable pub command_ok : Incident → Bool
command_ok v =
    identifier_ok v.commander_ref
    && leb (length v.commander_transfers) max_transfers
    && all_of validate_transfer v.commander_transfers
    && chain_ok v.commander_transfers
    && ends_at v.commander_transfers v.commander_ref

unfoldable pub progress_ok : Incident → Bool
progress_ok v =
    revision_ok v.revision
    && bounded_ref_array_ok v.evidence_refs
    && nullable_text_ok 80 v.remaining_risk_code
    && not_before (some v.declared_at) v.acknowledged_at
    && status_ok v.status v.response_phase v.resolved_at v.closed_at
    && not_before v.resolved_at v.closed_at

-- `validateIncidentV1(value).ok`
unfoldable pub validate_incident : Incident → Bool
validate_incident v = identity_ok v && command_ok v && progress_ok v
