-- ===== src/Scheduler/Examples.antt =====
-- A lease taken, used and released in services/scheduler/src/scheduler-service.js.
use pixel_hq_oss.Common.{
  ℕ, ◌≡◌, refl, ◌≢◌, ◌⊎◌, ◌↔◌, true, false, Option, none, some, List, [], ◌∷◌, arith, Text, text,
  Value, null, undefined, str, num,
}
use pixel_hq_oss.Common.Dict.{lookup}
use pixel_hq_oss.Scheduler.Contract.{
  Reservation, eligible, wait, deny, active, released, eligible_now, deny_company_state,
  wait_qualification, start_confirmed, decision_class_for_reason, decision_class_for_confirmation,
}
use pixel_hq_oss.Scheduler.Store.{
  SchedulerStore, StoreCall, call_reserve, call_current, call_transition, call_active, to_released,
  run_calls, moved_to,
}
use pixel_hq_oss.Scheduler.Store.Exclusive.{IsExclusive, run_calls-IsExclusive}
use pixel_hq_oss.Scheduler.Store.Terminal.{run_calls_terminal}
use pixel_hq_oss.Scheduler.Decide.{JobFacts, Requirement, Inputs, decide, start_reason}
use pixel_hq_oss.Scheduler.Decide.Eligible.{MayStart, decide_eligible_iff}
use pixel_hq_oss.Scheduler.Decide.Classes.{decide-class, start_reason-class}
use pixel_hq_oss.Scheduler.Service.{Issuance, SchedulerService, ReserveInput, reserve_capacity}
use pixel_hq_oss.Scheduler.Service.Calls.{
  ServiceCall, recording, reserving, releasing, run_service_calls,
}
use pixel_hq_oss.Scheduler.Service.Once.{Granted, reserve_capacity-Granted}
use pixel_hq_oss.Scheduler.Start.{natural, JobView, StartCall, read_reservation}
use pixel_hq_oss.Scheduler.Start.Confirmed.{Confirmed, confirm_execution_start-Confirmed}

-- All of the code of the component, for tests that run it.
scheduler_code : Unit {0}
unfolding pixel_hq_oss.Common.Dict.lookup pixel_hq_oss.Common.Dict.insert
    pixel_hq_oss.Common.same_text pixel_hq_oss.Common.same_value pixel_hq_oss.Common.utf16_length
    pixel_hq_oss.Time.is_expired_at pixel_hq_oss.Incident.Contract.is_identifier
    pixel_hq_oss.Incident.Contract.matches_identifier pixel_hq_oss.Incident.Contract.is_bounded_text
    pixel_hq_oss.Scheduler.Contract.decision_class_for_reason
    pixel_hq_oss.Scheduler.Contract.decision_class_for_confirmation
    pixel_hq_oss.Scheduler.Contract.expiry_ok pixel_hq_oss.Scheduler.Contract.validate_reservation
    pixel_hq_oss.Scheduler.Store.active_for pixel_hq_oss.Scheduler.Store.active_in
    pixel_hq_oss.Scheduler.Store.active_reservations pixel_hq_oss.Scheduler.Store.after_call
    pixel_hq_oss.Scheduler.Store.current pixel_hq_oss.Scheduler.Store.expire_all
    pixel_hq_oss.Scheduler.Store.expire_if_needed pixel_hq_oss.Scheduler.Store.reserve
    pixel_hq_oss.Scheduler.Store.reserve_free pixel_hq_oss.Scheduler.Store.run_calls
    pixel_hq_oss.Scheduler.Store.transition pixel_hq_oss.Scheduler.Store.transition_entry
    pixel_hq_oss.Scheduler.Decide.decide pixel_hq_oss.Scheduler.Decide.first_match
    pixel_hq_oss.Scheduler.Decide.gate_checks pixel_hq_oss.Scheduler.Decide.start_reason
    pixel_hq_oss.Scheduler.Decide.timing_checks pixel_hq_oss.Scheduler.Service.admits
    pixel_hq_oss.Scheduler.Service.bounded_id pixel_hq_oss.Scheduler.Service.claim
    pixel_hq_oss.Scheduler.Service.new_reservation pixel_hq_oss.Scheduler.Contract.reason_of
    pixel_hq_oss.Scheduler.Service.reserve_capacity pixel_hq_oss.Scheduler.Service.settle_reserve
    pixel_hq_oss.Scheduler.Service.Calls.after_service_call
    pixel_hq_oss.Scheduler.Service.Calls.run_service_calls
    pixel_hq_oss.Scheduler.Service.Used.entries_under
    pixel_hq_oss.Scheduler.Start.confirm_execution_start
scheduler_code = tt

abbrev job_facts : JobFacts
job_facts = record { environment = text "dev"; requested_capability = none }

abbrev requirement : Requirement
requirement = record {
  authority_ref = some (text "auth.1");
  requires_delegation = false;
  requires_approval = true;
  not_before = some 500;
  resource_ref = text "rack.1";
}

abbrev inputs : Inputs
inputs = record {
  authority_state = str (text "ALLOW");
  delegation_state = null;
  approval_state = str (text "APPROVED");
  incident_seam_unavailable = false;
  calendar_seam_unavailable = false;
  workforce_seam_unavailable = false;
  workforce_globally_ineligible = false;
  workforce_agent_id = null;
  workforce_qualification_status = undefined;
  company_state = str (text "WORKDAY");
  incident_containment_eligible = false;
  resource_state = str (text "READY");
  capacity = str (text "NORMAL");
  dependency_state = str (text "READY");
  active_hold = none;
  off_duty = false;
}

ladder_passes : (decide (text "dev") job_facts requirement inputs 1000).decision ≡ eligible
unfolding scheduler_code
ladder_passes = refl

-- One hour too early, the job waits; with no approval it waits as well.
ladder_waits : (decide (text "dev") job_facts requirement inputs 400).decision ≡ wait
unfolding scheduler_code
ladder_waits = refl

decide_eligible_iff_example :
    ((decide (text "dev") job_facts requirement inputs 1000).decision ≡ eligible)
    ↔ MayStart (text "dev") job_facts requirement inputs 1000
decide_eligible_iff_example = decide_eligible_iff (text "dev") job_facts requirement inputs 1000

decide-class_example :
    let v = decide (text "dev") job_facts requirement inputs 400 in
    v.decision ≡ decision_class_for_reason v.reason_code
decide-class_example = decide-class (text "dev") job_facts requirement inputs 400

start_reason-class_example :
    ((deny_company_state ≢ wait_qualification)
      × (deny_company_state ≢ deny_company_state)
      × (decision_class_for_confirmation (start_reason deny_company_state)
          ≡ decision_class_for_reason deny_company_state))
    ⊎ ((deny_company_state ≡ wait_qualification)
        × (decision_class_for_reason deny_company_state ≡ wait)
        × (decision_class_for_confirmation (start_reason deny_company_state) ≡ deny))
    ⊎ ((deny_company_state ≡ deny_company_state)
        × (decision_class_for_reason deny_company_state ≡ deny)
        × (decision_class_for_confirmation (start_reason deny_company_state) ≡ wait))
start_reason-class_example = start_reason-class deny_company_state (λ e. cc)

-- An evaluation that was issued at instant 900, and the call of `reserve` that uses it.
abbrev issuance : Issuance
issuance = record {
  job_id = text "job.1";
  decision = eligible;
  reason_code = eligible_now;
  resource_ref = text "rack.1";
  consumed = false;
  requirement_hash = some (text "sha256:00");
  issued_at = 900;
}

abbrev service : SchedulerService
service = record { traces = (text "elig.1", issuance) ∷ []; store = []; evidence = [] }

abbrev reserve_input : ReserveInput
reserve_input = record {
  eval_reason = str (text "ELIGIBLE_NOW");
  eval_decision = str (text "ELIGIBLE");
  eval_job_id = str (text "job.1");
  eval_eligibility_id = str (text "elig.1");
  eval_resource_ref = str (text "rack.1");
  job_id = str (text "job.1");
  execution_id = str (text "exec.1");
  resource_ref = null;
}

abbrev lease : Reservation
lease = record {
  reservation_id = text "res.1";
  state = active;
  revision = 1;
  created_at = 1000;
  updated_at = 1000;
  job_id = text "job.1";
  execution_id = some (text "exec.1");
  resource_ref = text "rack.1";
  eligibility_id = text "elig.1";
  expires_at = some 301000;
}

abbrev reserved_service : SchedulerService
reserved_service = (reserve_capacity (text "res.1") 1000 reserve_input service).1

reserve_capacity-Granted_example : Granted reserve_input 1000 lease service reserved_service
unfolding scheduler_code
reserve_capacity-Granted_example =
    reserve_capacity-Granted (text "res.1") 1000 reserve_input service {r = lease} refl

-- An evaluation that is recorded when the reservation expires.
abbrev late_issuance : Issuance
late_issuance = record issuance { issued_at = 301000 }

-- A second attempt, that evaluation, and a release, after a reservation was activated.
abbrev later_calls : List ServiceCall
later_calls =
    reserving (text "res.2") 1200 reserve_input
    ∷ recording (text "elig.2") late_issuance
    ∷ releasing (text "res.1") (num 1) 301000 301000
    ∷ []

abbrev later_service : SchedulerService
later_service = run_service_calls later_calls reserved_service

abbrev other_lease : Reservation
other_lease = record lease { reservation_id = text "res.2" }

-- A lease, a refused one, a release at the old revision, a release, and a second lease.
abbrev store_calls : List StoreCall
store_calls =
    call_reserve lease 1000
    ∷ call_reserve other_lease 1100
    ∷ call_transition (text "res.1") to_released 1150 (num 2)
    ∷ call_transition (text "res.1") to_released 1200 (num 1)
    ∷ call_reserve other_lease 1300
    ∷ call_active 1400
    ∷ []

store_calls_run :
    (run_calls store_calls []
      ≡ (text "res.1", moved_to released 1200 lease) ∷ (text "res.2", other_lease) ∷ [])
unfolding scheduler_code
store_calls_run = refl

run_calls-IsExclusive_example : IsExclusive (run_calls store_calls [])
run_calls-IsExclusive_example = run_calls-IsExclusive store_calls [] (λ resource. omega arith)

run_calls_terminal_example :
    lookup
      (text "res.1")
      (run_calls store_calls ((text "res.1", moved_to released 1200 lease) ∷ []))
    ≡ some (moved_to released 1200 lease)
unfolding scheduler_code
run_calls_terminal_example =
    run_calls_terminal store_calls (text "res.1") (moved_to released 1200 lease)
      ((text "res.1", moved_to released 1200 lease) ∷ []) refl refl

abbrev same_requirement : Requirement → Requirement
same_requirement q = q

abbrev constant_hash : Requirement → Text
constant_hash q = text "sha256:00"

abbrev start_call : StartCall same_requirement constant_hash
start_call = record {
  job_id = str (text "job.1");
  expected_job_revision = natural 4;
  reservation_id = str (text "res.1");
  requirement = some requirement;
  job = some (record { job_facts = job_facts; current_state = text "ACCEPTED"; job_revision = 4 });
  inputs = some inputs;
  now = 1100;
  decided_at = 1101;
}

confirm_execution_start-Confirmed_example :
    Confirmed same_requirement constant_hash
      (text "dev")
      start_call
      (read_reservation same_requirement constant_hash start_call reserved_service.store).0
      reserved_service.traces
unfolding scheduler_code
confirm_execution_start-Confirmed_example =
    confirm_execution_start-Confirmed same_requirement constant_hash (text "dev") start_call
      reserved_service refl
