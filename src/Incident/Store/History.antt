-- ===== src/Incident/Store/History.antt =====
-- Sequences of calls of `put` of
-- adapters/simulator/src/incident-store-simulator-adapter.js.
use pixel_hq_oss.Common.{
  ℕ, ◌+◌, ◌≡◌, sym, ◌∙◌, ap, subst, true, ◌&&◌, some, List, [], ◌∷◌, arith, Text, Value, str,
  is_text, same_text_iff, if◌then◌else◌,
}
use pixel_hq_oss.Common.Dict.{lookup, lookup-insert}
use pixel_hq_oss.Incident.Names.{Incident}
use pixel_hq_oss.Incident.Contract.{validate_incident}
use pixel_hq_oss.Incident.Port.{
  PutReply, created, updated, op_replay, stale, conflict, ambiguous, rejected,
}
use pixel_hq_oss.Incident.Store.{IncidentStore, new_store, put}
use pixel_hq_oss.Incident.Store.Laws.{revision_of, IsWrite, PutEffect, put-PutEffect, is_written}

pub record PutCall : Type 0 where
  pub value : Incident
  pub expected : Value
  pub operation : Value

abbrev pub after_call : IncidentStore → PutCall → IncidentStore
after_call s c = (put c.value c.expected c.operation s).1

pub run_puts : IncidentStore → List PutCall → IncidentStore
run_puts s [] = s
run_puts s (c ∷ cs) = run_puts (after_call s c) cs

-- 1 if the call wrote a record of the incident `id`.
abbrev pub wrote : Text → IncidentStore → PutCall → ℕ
wrote id s c =
    if is_written (put c.value c.expected c.operation s).0 && is_text c.value.incident_id id
    then 1
    else 0

-- How many of the calls wrote a record of the incident.
unfoldable pub writes : Text → IncidentStore → List PutCall → ℕ
writes id s [] = 0
writes id s (c ∷ cs) = wrote id s c + writes id (after_call s c) cs

pub lookup-write :
    (id : Text) {value : Incident} {operation : Value} {s t : IncidentStore}
    → IsWrite value operation s t
    → lookup id t.incidents
      ≡ (if is_text value.incident_id id then some value else lookup id s.incidents)
lookup-write id {value} {operation} {s} w =
    ap (λ (u : IncidentStore). lookup id u.incidents) w.leaves
    ∙ lookup-insert (w.first ∷ w.rest) id value s.incidents
    ∙ ap (λ (n : Value). if is_text n id then some value else lookup id s.incidents) (sym w.named)

write-revision :
    (id : Text) {value : Incident} {operation : Value} {s t : IncidentStore}
    → IsWrite value operation s t
    → revision_of (lookup id t.incidents)
      ≡ (if is_text value.incident_id id then 1 else 0) + revision_of (lookup id s.incidents)
write-revision id {value} {operation} {s} {t} w = ground (
  arith,
  lookup-write id w,
  w.next,
  ap (λ (n : Value). is_text n id) w.named,
  same_text_iff (w.first ∷ w.rest) id,
)

effect-revision :
    (id : Text) (value : Incident) (operation : Value) (s t : IncidentStore) (reply : PutReply)
    → PutEffect value operation s reply t
    → revision_of (lookup id t.incidents)
      ≡ (if is_written reply && is_text value.incident_id id then 1 else 0)
        + revision_of (lookup id s.incidents)
effect-revision id value operation s t (created v) e = write-revision id e.1
effect-revision id value operation s t (updated v) e = write-revision id e.1
effect-revision id value operation s t (op_replay v) e = rw e.1 (omega arith)
effect-revision id value operation s t (stale c) e = rw e (omega arith)
effect-revision id value operation s t conflict e = rw e (omega arith)
effect-revision id value operation s t ambiguous e = absurd e
effect-revision id value operation s t (rejected r c) e = rw e (omega arith)

-- Whatever calls of `put` are made on whatever store, the revision of every incident, 0 if there is
-- none, grows by the number of calls that were answered CREATED or UPDATED for it.
pub run_puts-revision :
    (id : Text) (s : IncidentStore) (calls : List PutCall)
    → revision_of (lookup id (run_puts s calls).incidents)
      ≡ revision_of (lookup id s.incidents) + writes id s calls
unfolding run_puts writes
run_puts-revision id s [] = omega arith
run_puts-revision id s (c ∷ cs) = omega (
  arith,
  run_puts-revision id (after_call s c) cs,
  effect-revision id c.value c.operation s (after_call s c) (put c.value c.expected c.operation s).0
      (put-PutEffect c.value c.expected c.operation s),
)

-- Every stored record is valid and stands under its own identifier.
abbrev pub IsSound : IncidentStore → Type 0
IsSound s =
    (id : Text) (i : Incident)
    → lookup id s.incidents ≡ some i
    → (i.incident_id ≡ str id) × (validate_incident i ≡ true)

pub write-IsSound :
    {value : Incident} {operation : Value} {s t : IncidentStore}
    → IsWrite value operation s t
    → IsSound s
    → IsSound t
write-IsSound {value} {operation} {s} {t} w h id i e = ground (
  arith,
  lookup-write id w,
  w.named,
  w.valid,
  ap (λ (n : Value). is_text n id) w.named,
  same_text_iff (w.first ∷ w.rest) id,
  h id i,
)

effect-IsSound :
    (value : Incident) (operation : Value) (s t : IncidentStore) (reply : PutReply)
    → PutEffect value operation s reply t
    → IsSound s
    → IsSound t
effect-IsSound value operation s t (created v) e h = write-IsSound e.1 h
effect-IsSound value operation s t (updated v) e h = write-IsSound e.1 h
effect-IsSound value operation s t (op_replay v) e h = subst IsSound (sym e.1) h
effect-IsSound value operation s t (stale c) e h = subst IsSound (sym e) h
effect-IsSound value operation s t conflict e h = subst IsSound (sym e) h
effect-IsSound value operation s t ambiguous e h = absurd e
effect-IsSound value operation s t (rejected r c) e h = subst IsSound (sym e) h

pub new_store-IsSound : IsSound new_store
unfolding lookup
new_store-IsSound id i e = cc

-- Every call of `put` keeps the store sound: whatever the caller passes, only valid records are
-- stored, each under its own identifier.
pub put-IsSound :
    (value : Incident) (expected operation : Value) (s : IncidentStore)
    → IsSound s
    → IsSound (put value expected operation s).1
put-IsSound value expected operation s h =
    effect-IsSound value operation s (put value expected operation s).1
      (put value expected operation s).0 (put-PutEffect value expected operation s) h
