-- ===== src/Incident/Move.antt =====
-- The lifecycle of an incident as a relation: what one recorded operation of
-- services/incident/src/incident-service.js may do to a record.
use pixel_hq_oss.Common.{ℕ, ◌+◌, ◌≤◌, ◌≡◌, false, none, List, arith, Text, is_text}
use pixel_hq_oss.Incident.Names.{
  IncidentStatus, open_status, resolved, closed, ResponsePhase, verify, close, recovered, Incident,
  phase_index,
}
use pixel_hq_oss.Incident.Operations.{
  acknowledged, advanced, transferred, resolved_at_time, closed_at_time, reviewed, has_no_refs,
}

pub data Move (i j : Incident) : Type 0 where
  acknowledge :
      (t : ℕ) → i.status ≡ open_status → i.acknowledged_at ≡ none → j ≡ acknowledged i t → Move i j
  advance :
      (p : ResponsePhase)
      → i.status ≡ open_status
      → phase_index p ≡ phase_index i.response_phase + 1
      → j ≡ advanced i p
      → Move i j
  transfer :
      (commander reason actor : Text) (t : ℕ)
      → i.status ≡ open_status
      → is_text i.commander_ref commander ≡ false
      → j ≡ transferred i commander reason actor t
      → Move i j
  resolve :
      (refs : List Text) (t : ℕ)
      → i.status ≡ open_status
      → i.response_phase ≡ verify
      → i.recovery_state ≡ recovered
      → has_no_refs refs ≡ false
      → j ≡ resolved_at_time i refs t
      → Move i j
  shut :
      (risk : Text) (refs : List Text) (t : ℕ)
      → i.status ≡ resolved
      → i.response_phase ≡ verify
      → has_no_refs refs ≡ false
      → j ≡ closed_at_time i risk refs t
      → Move i j
  review :
      (refs : List Text)
      → i.status ≡ closed
      → i.response_phase ≡ close
      → has_no_refs refs ≡ false
      → j ≡ reviewed i refs
      → Move i j

-- Any number of operations.
pub data Moves (i : Incident) : Incident → Type 0 where
  here : Moves i i
  next : {j k : Incident} → Moves i j → Move j k → Moves i k

abbrev pub status_rank : IncidentStatus → ℕ
status_rank open_status = 0
status_rank resolved = 1
status_rank closed = 2

-- What no operation may undo.
pub record IsLater (i j : Incident) : Type 0 where
  pub status_up : status_rank i.status ≤ status_rank j.status
  pub phase_up : phase_index i.response_phase ≤ phase_index j.response_phase
  pub revision_up : i.revision ≤ j.revision
  pub opened_same : j.opened_at ≡ i.opened_at
  pub class_same : j.incident_class ≡ i.incident_class
  pub severity_same : j.severity ≡ i.severity
  pub id_same : j.incident_id ≡ i.incident_id

Move-IsLater : {i j : Incident} → Move i j → IsLater i j
unfolding acknowledged advanced transferred resolved_at_time closed_at_time reviewed phase_index
Move-IsLater {i} (acknowledge t s a e) = ground arith
Move-IsLater {i} (advance p s n e) = ground arith
Move-IsLater {i} (transfer c r a t s n e) = ground arith
Move-IsLater {i} (resolve refs t s p r h e) = ground arith
Move-IsLater {i} (shut risk refs t s p h e) = ground arith
Move-IsLater {i} (review refs s p h e) = ground arith

IsLater-refl : (i : Incident) → IsLater i i
IsLater-refl i = ground arith

IsLater-trans : {i j k : Incident} → IsLater i j → IsLater j k → IsLater i k
IsLater-trans a b = ground arith

-- Over any number of recorded operations the status only goes from OPEN to RESOLVED to CLOSED, the
-- response phase never goes back, the revision never falls, and the identity, class, severity and
-- opening instant of an incident never change.
pub Moves-IsLater : {i j : Incident} → Moves i j → IsLater i j
Moves-IsLater {i} here = IsLater-refl i
Moves-IsLater (next r m) = IsLater-trans (Moves-IsLater r) (Move-IsLater m)
