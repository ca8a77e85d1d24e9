-- ===== src/Relay/Service/Schedule.antt =====
-- services/relay/src/relay-service.js: `#schedulerAdmit`, `#schedulerConfirm` and the reservations that
-- the service holds.
pub mod Keeps
use pixel_hq_oss.Common.{Bool, true, false, not, Option, none, some, Text, if◌then◌else◌}
use pixel_hq_oss.Common.Dict.{lookup, insert, remove}
use pixel_hq_oss.Scheduler.Contract.{
  Decision, eligible, wait, deny, wait_capacity, rejected_job_state, rejected_dependency,
  rejected_input_invalid, StartReason, decision_class_for_confirmation,
}
use pixel_hq_oss.Relay.Job.{Job}
use pixel_hq_oss.Relay.Methods.{is_accepted}
use pixel_hq_oss.Relay.Action.{
  Reservation, reservation_granted, start_confirmed, reservation_released, packages_released,
  Action, pure, throw, ◌>>=◌, ◌>>◌, record_call, get_job, await,
}
use pixel_hq_oss.Relay.Service.Ports.{
  EvaluationAnswer, evaluated, evaluation_shapeless, ReservationAnswer, reserved, unreserved,
  reservation_shapeless, StartAnswer, start_answered, start_shapeless, SchedulerPorts, HoldReason,
  of_evaluation, of_start, of_unknown, Admission, unscheduled, admitted, not_admitted, StartGate,
  open_gate, shut_gate,
}

abbrev pub is_eligible : Decision → Bool
is_eligible eligible = true
is_eligible _ = false

abbrev pub no_start : Action Admission
no_start = pure (not_admitted wait (of_start rejected_dependency))

-- The end of `#schedulerAdmit`, on what `reserve` answers.
unfoldable pub admit_reserved : Option ReservationAnswer → Text → Action Admission
admit_reserved none requirement = no_start
admit_reserved (some (reserved r)) requirement = do
  record_call (reservation_granted requirement r)
  pure (admitted r requirement)
admit_reserved (some unreserved) requirement =
    pure (not_admitted wait (of_evaluation wait_capacity))
admit_reserved (some reservation_shapeless) requirement = no_start

-- The part of `#schedulerAdmit` on what `evaluate` answers.
unfoldable pub admit_evaluated :
    SchedulerPorts → Text → Option EvaluationAnswer → Text → Action Admission
admit_evaluated s id none requirement = no_start
admit_evaluated s id (some evaluation_shapeless) requirement = no_start
admit_evaluated s id (some (evaluated decision reason)) requirement =
    if is_eligible decision
    then admit_reserved (s.reserve id) requirement
    else pure (not_admitted decision (of_evaluation reason))

unfoldable pub admit_required : SchedulerPorts → Text → Option Text → Action Admission
admit_required s id none = pure (not_admitted deny (of_start rejected_input_invalid))
admit_required s id (some requirement) = do
  await s.during_evaluate
  admit_evaluated s id (s.evaluate id requirement) requirement

-- `#schedulerAdmit`
unfoldable pub scheduler_admit : Option SchedulerPorts → Job → Action Admission
scheduler_admit none job = pure unscheduled
scheduler_admit (some s) job = admit_required s job.envelope.job_id (s.resolve_requirement job)

-- `#releaseReservation`, with a scheduler: that of the service is there where there is a reservation.
unfoldable pub release_reservation : Reservation → Action (Unit {0})
release_reservation r = record_call (reservation_released r)

-- The answer of `#schedulerConfirm` to a start that is rejected.
unfoldable pub reject_start :
    Reservation → Action (Unit {0}) → Decision → HoldReason → Action StartGate
reject_start r on_reject decision reason = do
  release_reservation r
  on_reject
  pure (shut_gate decision reason)

-- `decisionClassForConfirmation(reason_code) ?? 'WAIT'`
abbrev pub class_or_wait : Option StartReason → Decision
class_or_wait none = wait
class_or_wait (some r) = decision_class_for_confirmation r

abbrev pub start_hold_reason : Option StartReason → HoldReason
start_hold_reason none = of_unknown
start_hold_reason (some r) = of_start r

-- The end of `#schedulerConfirm`, on what `confirmExecutionStart` answers; reading a field of an answer
-- that is `undefined` or `null` throws.
unfoldable pub confirm_answered :
    Option StartAnswer → Text → Reservation → Action (Unit {0}) → Action StartGate
confirm_answered none id r on_reject = reject_start r on_reject wait (of_start rejected_dependency)
confirm_answered (some start_shapeless) id r on_reject = throw
confirm_answered (some (start_answered true reason)) id r on_reject = do
  record_call (start_confirmed id)
  pure open_gate
confirm_answered (some (start_answered false reason)) id r on_reject =
    reject_start r on_reject (class_or_wait reason) (start_hold_reason reason)

-- The part of `#schedulerConfirm` on the job that the store now has.
unfoldable pub confirm_fresh :
    SchedulerPorts → Option Job → Text → Reservation → Text → Action (Unit {0}) → Action StartGate
confirm_fresh s none id r requirement on_reject =
    reject_start r on_reject deny (of_start rejected_job_state)
confirm_fresh s (some fresh) id r requirement on_reject =
    if not (is_accepted fresh.current_state)
    then reject_start r on_reject deny (of_start rejected_job_state)
    else do
      await s.during_confirm
      confirm_answered (s.confirm id requirement r.reservation_id fresh.revision) id r on_reject

-- `#schedulerConfirm`
unfoldable pub scheduler_confirm :
    Option SchedulerPorts → Job → Admission → Action (Unit {0}) → Action StartGate
scheduler_confirm (some s) job (admitted r requirement) on_reject = do
  fresh ← get_job job.envelope.job_id
  confirm_fresh s fresh job.envelope.job_id r requirement on_reject
scheduler_confirm _ job admission on_reject = pure open_gate

-- `#trackReservation`
unfoldable pub track_reservation : Text → Admission → Action (Unit {0})
track_reservation id (admitted r requirement) w =
    pure tt (record w { reservations = insert id r w.reservations })
track_reservation id _ w = pure tt w

abbrev pub release_found : Option Reservation → Text → Action (Unit {0})
release_found none id w = pure tt w
release_found (some r) id w =
    release_reservation r (record w { reservations = remove id w.reservations })

-- `#releaseTrackedReservation`
unfoldable pub release_tracked : Text → Action (Unit {0})
release_tracked id w = release_found (lookup id w.reservations) id w

-- `#releaseApprovedPackages`
unfoldable pub release_packages : Bool → Text → Action (Unit {0})
release_packages keeps id = if keeps then record_call (packages_released id) else pure tt
