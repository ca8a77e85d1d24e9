-- ===== src/Incident/Service.antt =====
-- services/incident/src/incident-service.js over any store. Trace and span identifiers are left
-- out; a throwing accessor of an input is not modelled.
use pixel_hq_oss.Common.{
  ℕ, Bool, true, false, not, Option, none, some, List, [], ◌∷◌, ◌++◌, Text, text, contains,
  union_of, take, Value, null, str, num, same_value, is_some, length, leb, ◌==◌, if◌then◌else◌,
}
use pixel_hq_oss.Time.{TrustedClock, now}
use pixel_hq_oss.Incident.Names.{
  IncidentClass, security, infrastructure, power, thermal, IncidentStatus, open_status, resolved,
  closed, ResponsePhase, contain, recover, verify, RecoveryState, contained, recovering, recovered,
  Incident, phase_index,
}
use pixel_hq_oss.Incident.Contract.{is_identifier, validate_incident}
use pixel_hq_oss.Incident.Port.{
  Reason, incident_invalid, reconciliation_required, stale_revision, op_conflict, PutReply, created,
  updated, op_replay, stale, conflict, ambiguous, rejected, IncidentStorePort,
}

-- What the service appends to the evidence log: a refusal, or an operation that was recorded. The
-- attributes of the latter are fields of the record that it carries.
pub data EventName : Type 0 where
  incident_created incident_acknowledged phase_advanced command_transferred : EventName
  incident_resolved incident_closed post_review_recorded : EventName

pub data Event : Type 0 where
  refused_event : Text → Reason → Event
  recorded_event : EventName → Incident → Event

pub record Service (S : Type 0) : Type 0 where
  pub store : S
  pub clock : TrustedClock
  pub evidence : List Event

pub data Response : Type 0 where
  recorded : Incident → Response
  refused : Reason → Option Incident → Response
  thrown : Response

-- `boundedId(value)`
unfoldable pub bounded_id : Value → Option Text
bounded_id (str t) = if is_identifier t then some t else none
bounded_id _ = none

abbrev pub max_array : ℕ
max_array = 16

abbrev pub add_bounded : List Text → Option Text → List Text
add_bounded out none = out
add_bounded out (some item) = if contains item out then out else out ++ (item ∷ [])

-- The loop of `boundedRefArray`; `seen` and `out` hold the same identifiers.
unfoldable pub bounded_refs_from : List Text → List Value → List Text
unfolding bounded_id
bounded_refs_from out [] = out
bounded_refs_from out (entry ∷ rest) =
    let out' = add_bounded out (bounded_id entry) in
    let later = bounded_refs_from out' rest in if leb max_array (length out') then out' else later

-- `boundedRefArray`; `none` is a value that is no array.
unfoldable pub bounded_ref_array : Option (List Value) → List Text
unfolding bounded_refs_from
bounded_ref_array none = []
bounded_ref_array (some entries) = bounded_refs_from [] entries

-- `[...new Set([...current, ...added])].slice(0, MAX_EVIDENCE)`
unfoldable pub merged_evidence : List Text → List Text → List Text
merged_evidence current added = take 16 (union_of (union_of [] current) added)

-- `#recoveryState`
unfoldable pub recovery_state : RecoveryState → ResponsePhase → RecoveryState
recovery_state current contain = contained
recovery_state current recover = recovering
recovery_state current verify = recovered
recovery_state current _ = current

unfoldable pub class_text : IncidentClass → Text
class_text security = text "SECURITY"
class_text infrastructure = text "INFRASTRUCTURE"
class_text power = text "POWER"
class_text thermal = text "THERMAL"

abbrev pub is_open : IncidentStatus → Bool
is_open open_status = true
is_open _ = false

abbrev pub is_resolved : IncidentStatus → Bool
is_resolved resolved = true
is_resolved _ = false

abbrev pub is_closed : IncidentStatus → Bool
is_closed closed = true
is_closed _ = false

abbrev pub is_recovered : RecoveryState → Bool
is_recovered recovered = true
is_recovered _ = false

-- `phase === other`
abbrev pub same_phase : ResponsePhase → ResponsePhase → Bool
same_phase a b = phase_index a == phase_index b

-- The answer of `#commit` to what `put` answered, where that was not AMBIGUOUS.
unfoldable pub settle : PutReply → Response
settle (created r) = recorded r
settle (updated r) = recorded r
settle (op_replay r) = recorded r
settle (stale r) = refused stale_revision r
settle conflict = refused op_conflict none
settle (rejected reason r) = refused reason r
settle ambiguous = refused incident_invalid none

abbrev pub or_unknown : Option Text → Text
or_unknown none = text "unknown.incident"
or_unknown (some t) = t

module _ {S : Type 0} where
  -- `#append`
  abbrev pub append : Event → Service S → Service S
  append event service = record service { evidence = service.evidence ++ (event ∷ []) }

  -- `#refused`
  unfoldable pub refuse : Reason → Option Incident → Value → Service S → Response × Service S
  unfolding bounded_id
  refuse reason r id service =
      (refused reason r, append (refused_event (or_unknown (bounded_id id)) reason) service)

  -- What `#commit` and the operations do with an answer: refusals are recorded as evidence, and so
  -- is a success, under the name of the operation.
  unfoldable pub finish : EventName → Value → Response → Service S → Response × Service S
  unfolding refuse
  finish name id (recorded r) service = (recorded r, append (recorded_event name r) service)
  finish name id (refused reason r) service = refuse reason r id service
  finish name id thrown service = (thrown, service)

  -- `this.#clock()`; where it throws, so does the operation.
  unfoldable pub with_clock :
      Option ℕ → Service S → (ℕ → Service S → Response × Service S) → Response × Service S
  with_clock raw service body =
      let (reading, clock') = now service.clock raw in
      let service' = record service { clock = clock' } in
      elim reading [ none ↦ (thrown, service') | some t ↦ body t service' ]

-- The stored record is the one that was attempted.
abbrev pub is_read_back : Option Incident → Value → Bool
is_read_back none id = false
is_read_back (some r) id = same_value r.incident_id id

-- `expectedRevision === null ? !current : (current?.revision ?? null) === expectedRevision`
abbrev pub revision_unchanged : Value → Option Incident → Bool
revision_unchanged null current = not (is_some current)
revision_unchanged (num n) (some current) = current.revision == n
revision_unchanged _ _ = false

module _ {S : Type 0} (port : IncidentStorePort S) where
  -- After a second AMBIGUOUS: read back once more.
  unfoldable pub reread : Incident → Value → S → Response
  reread r operation s = elim (port.read_operation s operation) [
    | none ↦ refused reconciliation_required (port.get s r.incident_id)
    | some read ↦
        if same_value read.incident_id r.incident_id
        then recorded read
        else refused reconciliation_required (port.get s r.incident_id)
  ]

  abbrev pub settle_retry : Incident → Value → PutReply → S → Response
  settle_retry r operation ambiguous s = reread r operation s
  settle_retry r operation reply s = settle reply

  -- The retry of the same operation, once, if the expected revision is unchanged.
  unfoldable pub retry : Incident → Value → Value → S → Response × S
  unfolding settle reread
  retry r expected operation s =
      if revision_unchanged expected (port.get s r.incident_id)
      then (let (reply, s') = port.put r expected operation s in
          (settle_retry r operation reply s', s'))
      else (refused reconciliation_required (port.get s r.incident_id), s)

  -- The branch of `#commit` on AMBIGUOUS.
  unfoldable pub reconcile : Incident → Value → Value → S → Response × S
  unfolding retry
  reconcile r expected operation s = elim (port.read_operation s operation) [
    | none ↦ retry r expected operation s
    | some read ↦
        if same_value read.incident_id r.incident_id
        then (recorded read, s)
        else retry r expected operation s
  ]

  abbrev pub settle_first : Incident → Value → Value → PutReply → S → Response × S
  settle_first r expected operation ambiguous s = reconcile r expected operation s
  settle_first r expected operation reply s = (settle reply, s)

  -- `#commit`, without its evidence.
  unfoldable pub commit : Incident → Value → Value → S → Response × S
  unfolding settle reconcile
  commit r expected operation s =
      let (reply, s') = port.put r expected operation s in
      settle_first r expected operation reply s'

  -- The tail that the operations share: `#validated`, `#commit`, `#recorded`.
  unfoldable pub store_record :
      EventName → Incident → Value → Value → Service S → Response × Service S
  unfolding finish refuse commit
  store_record name r expected operation service =
      if validate_incident r
      then (let (answer, s') = commit r expected operation service.store in
          finish name r.incident_id answer (record service { store = s' }))
      else refuse incident_invalid (some r) r.incident_id service
