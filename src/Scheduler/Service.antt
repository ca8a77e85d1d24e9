-- ===== src/Scheduler/Service.antt =====
-- `reserve`, `release` and the issuance records of services/scheduler/src/scheduler-service.js.
-- An instant `now` is what the trusted clock reads, `event_id` what the id source returns. Trace
-- identifiers are left out; a throwing accessor of an input is not modelled.
pub mod Calls
pub mod Once
pub mod Used
pub mod Kept
use pixel_hq_oss.Common.{
  ℕ, suc, ◌+◌, ◌-◌, ◌*◌, Bool, true, false, not, ◌&&◌, ◌||◌, Option, none, some, List, [], ◌∷◌,
  ◌++◌, Text, text, same_text, Value, undefined, null, str, num, same_value, is_text, as_text,
  is_none, leb, ltb, if◌then◌else◌,
}
use pixel_hq_oss.Common.Dict.{Dict, lookup, insert}
use pixel_hq_oss.Incident.Contract.{is_identifier}
use pixel_hq_oss.Scheduler.Contract.{
  reason_of, class_or_deny, Decision, eligible, wait, deny, Reason, eligible_now, wait_dependency,
  wait_capacity, wait_off_duty, wait_maintenance, wait_holiday, wait_night, wait_qualification,
  wait_approval, wait_not_before, hold_security, hold_policy, hold_owner, hold_maintenance,
  deny_authority_missing, deny_delegation_invalid, deny_environment, deny_resource_ineligible,
  deny_company_state, deny_workforce, deny_input_invalid, decision_class_for_reason, active,
  Reservation, validate_reservation,
}
use pixel_hq_oss.Scheduler.Store.{
  SchedulerStore, ReserveReply, reservation_invalid, resource_busy, reservation_id_conflict,
  reserved, reserve, current, TransitionReply, not_found, stale_revision, invalid_transition,
  updated, to_released, transition,
}

-- RESERVATION_LEASE_MS
abbrev pub reservation_lease_ms : ℕ
reservation_lease_ms = 300000

-- An entry of `#traces`.
pub record Issuance : Type 0 where
  pub job_id : Text
  pub decision : Decision
  pub reason_code : Reason
  pub resource_ref : Text
  pub consumed : Bool
  pub requirement_hash : Option Text
  pub issued_at : ℕ

pub data Event : Type 0 where
  reservation_rejected reservation_activated reservation_released : Text → Event
  start_rejected start_confirmed_event : Text → Event

pub record SchedulerService : Type 0 where
  pub traces : Dict Issuance
  pub store : SchedulerStore
  pub evidence : List Event

-- `boundedId(value)`
unfoldable pub bounded_id : Value → Option Text
bounded_id (str t) = if is_identifier t then some t else none
bounded_id _ = none

-- The entry can no longer authorize anything at `now`.
unfoldable pub is_spent : ℕ → Issuance → Bool
is_spent now i =
    ltb (if i.consumed then reservation_lease_ms * 2 else reservation_lease_ms) (now - i.issued_at)

unfoldable pub evict : ℕ → Dict Issuance → Dict Issuance
unfolding is_spent
evict now [] = []
evict now ((k, i) ∷ d) = if is_spent now i then evict now d else (k, i) ∷ evict now d

-- `#recordIssuance`
unfoldable pub record_issuance : Text → Issuance → Dict Issuance → Dict Issuance
unfolding evict
record_issuance id entry traces = evict entry.issued_at (insert id entry traces)

-- What `reserve` reads; a field that is missing is `null`.
pub record ReserveInput : Type 0 where
  pub eval_reason : Value
  pub eval_decision : Value
  pub eval_job_id : Value
  pub eval_eligibility_id : Value
  pub eval_resource_ref : Value
  pub job_id : Value
  pub execution_id : Value
  pub resource_ref : Value

pub data ReserveResult : Type 0 where
  declined : Decision → ReserveResult
  waiting : Option Reservation → ReserveResult
  activated : Reservation → ReserveResult
  thrown : ReserveResult

abbrev pub is_eligible : Decision → Bool
is_eligible eligible = true
is_eligible _ = false

abbrev pub is_eligible_now : Reason → Bool
is_eligible_now eligible_now = true
is_eligible_now _ = false

abbrev pub names_job : Option Text → Value → Bool
names_job none v = false
names_job (some t) v = is_text v t

abbrev pub is_null : Value → Bool
is_null null = true
is_null _ = false

-- The guards of `reserve` on the issuance that the evaluation names.
unfoldable pub admits : ReserveInput → Issuance → ℕ → Bool
unfolding bounded_id
admits input issued now =
    not issued.consumed
    && is_text input.eval_job_id issued.job_id
    && is_eligible issued.decision
    && is_eligible_now issued.reason_code
    && is_text input.eval_resource_ref issued.resource_ref
    && names_job (bounded_id input.job_id) input.eval_job_id
    && (is_null input.resource_ref || same_value input.resource_ref input.eval_resource_ref)
    && leb (now - issued.issued_at) reservation_lease_ms

-- The reservation that `reserve` builds.
unfoldable pub new_reservation : Text → ℕ → ReserveInput → Text → Issuance → Reservation
unfolding bounded_id
new_reservation event_id now input eligibility_id issued = record {
  reservation_id = event_id;
  state = active;
  revision = 1;
  created_at = now;
  updated_at = now;
  job_id = issued.job_id;
  execution_id = bounded_id input.execution_id;
  resource_ref = issued.resource_ref;
  eligibility_id = eligibility_id;
  expires_at = some (now + reservation_lease_ms);
}

abbrev pub append : Event → SchedulerService → SchedulerService
append event service = record service { evidence = service.evidence ++ (event ∷ []) }

abbrev pub consume : Text → Issuance → SchedulerService → SchedulerService
consume id issued service = record service {
  traces = insert id (record issued { consumed = true }) service.traces;
}

-- What `reserve` does with the answer of the store.
unfoldable pub settle_reserve :
    Text → Issuance → ReserveReply → SchedulerService → ReserveResult × SchedulerService
settle_reserve id issued (reserved r) service =
    (activated r, append (reservation_activated r.reservation_id) (consume id issued service))
settle_reserve id issued (resource_busy r) service =
    (waiting (some r), append (reservation_rejected issued.job_id) service)
settle_reserve id issued reservation_id_conflict service =
    (waiting none, append (reservation_rejected issued.job_id) service)
settle_reserve id issued reservation_invalid service =
    (waiting none, append (reservation_rejected issued.job_id) service)

-- The part of `reserve` behind its guards.
unfoldable pub claim :
    Text → Issuance → Reservation → ℕ → SchedulerService → ReserveResult × SchedulerService
unfolding settle_reserve
claim id issued r now service =
    if validate_reservation r
    then (let (reply, store') = reserve r now service.store in
        settle_reserve id issued reply (record service { store = store' }))
    else (thrown, service)

abbrev pub reserve_issued :
    Option Issuance
    → Text
    → Text
    → ℕ
    → ReserveInput
    → SchedulerService
    → ReserveResult × SchedulerService
reserve_issued none id event_id now input service = (declined deny, service)
reserve_issued (some issued) id event_id now input service =
    if admits input issued now
    then claim id issued (new_reservation event_id now input id issued) now service
    else (declined deny, service)

abbrev pub reserve_named :
    Value → Text → ℕ → ReserveInput → SchedulerService → ReserveResult × SchedulerService
reserve_named (str id) event_id now input service =
    reserve_issued (lookup id service.traces) id event_id now input service
reserve_named _ event_id now input service = (declined deny, service)

-- `reserve`
unfoldable pub reserve_capacity :
    Text → ℕ → ReserveInput → SchedulerService → ReserveResult × SchedulerService
unfolding reason_of
reserve_capacity event_id now input service =
    if is_text input.eval_decision (text "ELIGIBLE")
      && is_text input.eval_reason (text "ELIGIBLE_NOW")
    then reserve_named input.eval_eligibility_id event_id now input service
    else (declined (class_or_deny (reason_of input.eval_reason)), service)

-- What `release` does with the answer of the store.
unfoldable pub settle_release :
    TransitionReply → SchedulerService → TransitionReply × SchedulerService
settle_release (updated r) service =
    (updated r, append (reservation_released r.reservation_id) service)
settle_release reply service = (reply, service)

-- `release`; the first reading of the clock serves to find the trace.
unfoldable pub release :
    Text → Value → ℕ → ℕ → SchedulerService → TransitionReply × SchedulerService
unfolding settle_release
release id expected before now service =
    let seen = (current id before service.store).1 in
    let (reply, store') = transition id to_released now expected seen in
    settle_release reply (record service { store = store' })
