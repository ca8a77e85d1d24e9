-- ===== src/Scheduler/Start.antt =====
-- `confirmExecutionStart` of services/scheduler/src/scheduler-service.js: the re-check before a job
-- runs. `jobs.getJob`, the contract's check of the requirement and the evaluation of its inputs enter
-- by their results, `none` where they fail; `facts` and `hash` read a requirement that was checked.
pub mod Confirmed
use pixel_hq_oss.Common.{
  ℕ, Bool, true, false, not, ◌&&◌, ◌||◌, Option, none, some, List, [], ◌∷◌, Text, text, same_text,
  Value, str, is_text, ◌==◌, is_none, if◌then◌else◌,
}
use pixel_hq_oss.Common.Dict.{Dict, lookup}
use pixel_hq_oss.Time.{is_expired_at}
use pixel_hq_oss.Scheduler.Contract.{
  Reservation, ReservationState, StartReason, start_confirmed, rejected_job_state,
  rejected_reservation, rejected_revision, rejected_dependency, rejected_input_invalid,
}
use pixel_hq_oss.Scheduler.Store.{SchedulerStore, is_active, current}
use pixel_hq_oss.Scheduler.Decide.{JobFacts, Requirement, Inputs, Verdict, decide, start_reason}
use pixel_hq_oss.Scheduler.Service.{
  Issuance, SchedulerService, start_rejected, start_confirmed_event, append, bounded_id,
  is_eligible,
}

-- What the relay's lookup returns of a job.
pub record JobView : Type 0 where
  pub job_facts : JobFacts
  pub current_state : Text
  pub job_revision : ℕ

-- The revision that the caller expects: a safe integer, by its sign and size, or any other value.
pub data RevisionInput : Type 0 where
  natural : ℕ → RevisionInput
  negative : ℕ → RevisionInput
  no_integer : RevisionInput

-- `Number.isSafeInteger`
abbrev pub is_integer : RevisionInput → Bool
is_integer no_integer = false
is_integer _ = true

-- `job.job_revision === expected_job_revision`
abbrev pub is_revision : RevisionInput → ℕ → Bool
is_revision (natural n) revision = n == revision
is_revision _ revision = false

pub record StartConfirmation : Type 0 where
  pub job_id : Text
  pub execution_id : Option Text
  pub reservation_id : Text
  pub reason_code : StartReason

-- `boundedId(value, null)` of a string or `null`.
abbrev pub bounded_option : Option Text → Option Text
bounded_option none = none
bounded_option (some t) = bounded_id (str t)

abbrev pub or_text : Option Text → Text → Text
or_text none default = default
or_text (some t) default = t

abbrev pub same_hash : Text → Option Text → Bool
same_hash hash none = false
same_hash hash (some issued) = same_text hash issued

abbrev pub start_verdict : Verdict → StartReason
start_verdict v = if is_eligible v.decision then start_confirmed else start_reason v.reason_code

module _ {R : Type 0} (facts : R → Requirement) (hash : R → Text) where
  -- The input and what the dependencies return for it; `decided_at` is the clock in `#decide`.
  pub record StartCall : Type 0 where
    pub job_id : Value
    pub expected_job_revision : RevisionInput
    pub reservation_id : Value
    pub requirement : Option R
    pub job : Option JobView
    pub inputs : Option Inputs
    pub now : ℕ
    pub decided_at : ℕ

  -- The checks on the inputs and the eligibility ladder.
  unfoldable pub check_inputs : Text → StartCall → JobView → R → StartReason
  check_inputs environment call job q = elim call.inputs [
    | none ↦ rejected_dependency
    | some i ↦ start_verdict (decide environment job.job_facts (facts q) i call.decided_at)
  ]

  -- The checks of the requirement against the issuance and the reservation.
  unfoldable pub check_requirement :
      Text → StartCall → JobView → Reservation → Option Issuance → StartReason
  check_requirement environment call job r issuance = elim call.requirement [
    | none ↦ rejected_input_invalid
    | some q ↦ elim issuance [
      | none ↦ rejected_input_invalid
      | some issued ↦
          if not (is_text call.job_id issued.job_id)
            || not (same_hash (hash q) issued.requirement_hash)
          then rejected_input_invalid
          else if not (same_text (facts q).resource_ref r.resource_ref)
          then rejected_reservation
          else check_inputs environment call job q
    ]
  ]

  -- The checks of the reservation.
  unfoldable pub check_reservation :
      Text → StartCall → JobView → Option Reservation → Dict Issuance → StartReason
  check_reservation environment call job reservation traces = elim reservation [
    | none ↦ rejected_reservation
    | some r ↦
        if not (is_active r.state)
        then rejected_reservation
        else if is_expired_at r.expires_at call.now
        then rejected_reservation
        else if not (is_text call.job_id r.job_id)
        then rejected_reservation
        else check_requirement environment call job r (lookup r.eligibility_id traces)
  ]

  -- The checks of the input and of the job.
  unfoldable pub check_start : Text → StartCall → Option Reservation → Dict Issuance → StartReason
  check_start environment call reservation traces =
      if is_none (bounded_id call.job_id) || not (is_integer call.expected_job_revision)
      then rejected_input_invalid
      else elim call.job [
        | none ↦ rejected_job_state
        | some job ↦
            if not (same_text job.current_state (text "ACCEPTED"))
            then rejected_job_state
            else if not (is_revision call.expected_job_revision job.job_revision)
            then rejected_revision
            else check_reservation environment call job reservation traces
      ]

  abbrev pub is_confirmed : StartReason → Bool
  is_confirmed start_confirmed = true
  is_confirmed _ = false

  abbrev pub read_reservation : StartCall → SchedulerStore → Option Reservation × SchedulerStore
  read_reservation call store = elim call.reservation_id [
    | str id ↦ current id call.now store
    | _ ↦ (none, store)
  ]

  -- The two identifiers of the record that is returned: `refuse` bounds what it is given, a
  -- confirmation takes those of the reservation.
  abbrev pub execution_of : Bool → Option Reservation → Option Text
  execution_of confirmed none = none
  execution_of true (some r) = r.execution_id
  execution_of false (some r) = bounded_option r.execution_id

  abbrev pub reservation_of : Bool → Option Reservation → Text → Text
  reservation_of true (some r) given = r.reservation_id
  reservation_of _ _ given = given

  -- `confirmExecutionStart`
  unfoldable pub confirm_execution_start :
      Text → StartCall → SchedulerService → StartConfirmation × SchedulerService
  unfolding check_start check_reservation check_requirement check_inputs bounded_id
  confirm_execution_start environment call service =
      let (reservation, store') = read_reservation call service.store in
      let reason = check_start environment call reservation service.traces in
      let confirmed = is_confirmed reason in
      let given = or_text (bounded_id call.reservation_id) (text "unknown.reservation") in
      let id = reservation_of confirmed reservation given in
      let event = if confirmed then start_confirmed_event id else start_rejected id in
      (
        record {
          job_id = or_text (bounded_id call.job_id) (text "unknown.job");
          execution_id = execution_of confirmed reservation;
          reservation_id = id;
          reason_code = reason;
        },
        append event (record service { store = store' }),
      )
