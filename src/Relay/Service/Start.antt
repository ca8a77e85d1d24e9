-- ===== src/Relay/Service/Start.antt =====
-- The start of a job by services/relay/src/relay-service.js, when the scheduler reserves for it.
use pixel_hq_oss.Common.{◌≡◌, refl, Bool, true, false, Option, some, [], ◌∷◌, Text}
use pixel_hq_oss.Common.Dict.{lookup}
use pixel_hq_oss.Scheduler.Contract.{eligible, Reason, StartReason, decision_class_for_confirmation}
use pixel_hq_oss.Relay.Job.{Job}
use pixel_hq_oss.Relay.Methods.{is_accepted}
use pixel_hq_oss.Relay.Action.{
  returned, Reservation, reservation_granted, start_confirmed, reservation_released, World,
  PortCall, ◌>>=◌, pure, record_call, get_job,
}
use pixel_hq_oss.Relay.Gateway.Open.{await_none}
use pixel_hq_oss.Relay.Service.Ports.{
  evaluated, reserved, StartAnswer, start_answered, SchedulerPorts, ServicePorts, of_start, held,
  admitted, StartGate, open_gate, shut_gate,
}
use pixel_hq_oss.Relay.Service.Schedule.{
  admit_reserved, admit_evaluated, admit_required, scheduler_admit, release_reservation,
  reject_start, confirm_answered, confirm_fresh, scheduler_confirm,
}
use pixel_hq_oss.Relay.Service.{hold_start, execute_gated, execute_confirm, execute_found, execute}

-- The scheduler finds the job eligible, reserves `r` for the requirement `t` and answers `a` to the
-- confirmation; no one uses the store meanwhile.
pub record IsReserving (s : SchedulerPorts) (job : Job) (r : Reservation) (t : Text)
    (a : StartAnswer) : Type 0 where
  pub reason : Reason
  pub required : s.resolve_requirement job ≡ some t
  pub quiet_evaluate : s.during_evaluate ≡ []
  pub is_eligible : s.evaluate job.envelope.job_id t ≡ some (evaluated eligible reason)
  pub reserves : s.reserve job.envelope.job_id ≡ some (reserved r)
  pub quiet_confirm : s.during_confirm ≡ []
  pub answers : s.confirm job.envelope.job_id t r.reservation_id job.revision ≡ some a

admit_required-reserving :
    (s : SchedulerPorts) (job : Job) (r : Reservation) (t : Text) (a : StartAnswer) (w : World)
    → IsReserving s job r t a
    → admit_required s job.envelope.job_id (some t) w
      ≡ (returned (admitted r t), record w { calls = reservation_granted t r ∷ w.calls })
unfolding admit_required admit_evaluated admit_reserved ◌>>=◌ record_call pure
admit_required-reserving s job r t a w h =
    rw (await_none s.during_evaluate w h.quiet_evaluate, h.is_eligible, h.reserves) refl

admit-reserving :
    (o : Option SchedulerPorts) (s : SchedulerPorts) (job : Job) (r : Reservation) (t : Text)
    (a : StartAnswer) (w : World)
    → o ≡ some s
    → IsReserving s job r t a
    → scheduler_admit o job w
      ≡ (returned (admitted r t), record w { calls = reservation_granted t r ∷ w.calls })
unfolding scheduler_admit
admit-reserving o s job r t a w e h = rw (e, h.required) (admit_required-reserving s job r t a w h)

abbrev pub gate_of : Bool → StartReason → StartGate
gate_of true reason = open_gate
gate_of false reason = shut_gate (decision_class_for_confirmation reason) (of_start reason)

abbrev pub confirm_call : Bool → Text → Reservation → PortCall
confirm_call true id r = start_confirmed id
confirm_call false id r = reservation_released r

confirm_answered-gate :
    (confirmed : Bool) (reason : StartReason) (id : Text) (r : Reservation) (w : World)
    → confirm_answered (some (start_answered confirmed (some reason))) id r (pure tt) w ≡ (
      returned (gate_of confirmed reason),
      record w { calls = confirm_call confirmed id r ∷ w.calls },
    )
unfolding confirm_answered reject_start release_reservation ◌>>=◌ record_call pure
confirm_answered-gate true reason id r w = refl
confirm_answered-gate false reason id r w = refl

confirm_fresh-reserving :
    (s : SchedulerPorts) (job : Job) (r : Reservation) (t : Text) (confirmed : Bool)
    (reason : StartReason) (w : World)
    → IsReserving s job r t (start_answered confirmed (some reason))
    → is_accepted job.current_state ≡ true
    → confirm_fresh s (some job) job.envelope.job_id r t (pure tt) w ≡ (
      returned (gate_of confirmed reason),
      record w { calls = confirm_call confirmed job.envelope.job_id r ∷ w.calls },
    )
unfolding confirm_fresh ◌>>=◌
confirm_fresh-reserving s job r t confirmed reason w h open_state =
    rw (open_state, await_none s.during_confirm w h.quiet_confirm, h.answers)
      (confirm_answered-gate confirmed reason job.envelope.job_id r w)

confirm-reserving :
    (o : Option SchedulerPorts) (s : SchedulerPorts) (job : Job) (r : Reservation) (t : Text)
    (confirmed : Bool) (reason : StartReason) (w : World)
    → o ≡ some s
    → IsReserving s job r t (start_answered confirmed (some reason))
    → lookup job.envelope.job_id w.store.jobs ≡ some job
    → is_accepted job.current_state ≡ true
    → scheduler_confirm o job (admitted r t) (pure tt) w ≡ (
      returned (gate_of confirmed reason),
      record w { calls = confirm_call confirmed job.envelope.job_id r ∷ w.calls },
    )
unfolding scheduler_confirm ◌>>=◌ get_job
confirm-reserving o s job r t confirmed reason w e h found open_state =
    rw (e, found) (confirm_fresh-reserving s job r t confirmed reason w h open_state)

-- What the execution of an ACCEPTED job that the scheduler reserves for comes to: the gate's answer,
-- after the calls of the scheduler.
pub execute-gated :
    (p : ServicePorts) (s : SchedulerPorts) (job : Job) (r : Reservation) (t : Text)
    (confirmed : Bool) (reason : StartReason) (w : World)
    → p.scheduler ≡ some s
    → IsReserving s job r t (start_answered confirmed (some reason))
    → lookup job.envelope.job_id w.store.jobs ≡ some job
    → is_accepted job.current_state ≡ true
    → execute p job.envelope.job_id w
      ≡ execute_gated p
          (gate_of confirmed reason)
          job.envelope.job_id
          job
          (admitted r t)
          (record w {
            calls =
                confirm_call confirmed job.envelope.job_id r ∷ reservation_granted t r ∷ w.calls;
          })
unfolding execute execute_found execute_confirm ◌>>=◌ get_job
execute-gated p s job r t confirmed reason w e h found open_state =
    let granted = record w { calls = reservation_granted t r ∷ w.calls } in
    rw
      (
        found,
        open_state,
        admit-reserving p.scheduler s job r t (start_answered confirmed (some reason)) w e h,
        confirm-reserving p.scheduler s job r t confirmed reason granted e h found open_state,
      )
      refl

-- When the scheduler finds an ACCEPTED job eligible and reserves for it, but does not confirm the
-- start, the answer is the decision class of its reason with the job as it was: the store is
-- unchanged, and the reservation is released at once.
pub execute_unconfirmed :
    (p : ServicePorts) (s : SchedulerPorts) (job : Job) (r : Reservation) (t : Text)
    (reason : StartReason) (w : World)
    → p.scheduler ≡ some s
    → IsReserving s job r t (start_answered false (some reason))
    → lookup job.envelope.job_id w.store.jobs ≡ some job
    → is_accepted job.current_state ≡ true
    → execute p job.envelope.job_id w ≡ (
      returned (record {
        disposition = held (decision_class_for_confirmation reason) (of_start reason);
        job = some job;
      }),
      record w { calls = reservation_released r ∷ reservation_granted t r ∷ w.calls },
    )
unfolding execute_gated hold_start ◌>>=◌ get_job pure
execute_unconfirmed p s job r t reason w e h found open_state =
    rw (execute-gated p s job r t false reason w e h found open_state, found) refl
