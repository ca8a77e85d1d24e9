-- ===== src/Relay/Service/Schedule/Keeps.antt =====
-- What the scheduler's part of services/relay/src/relay-service.js keeps.
use pixel_hq_oss.Common.{◌≡◌, Bool, true, false, ◌&&◌, &&-eq-true, Option, none, some, Text, all_of}
use pixel_hq_oss.Common.Dict.{lookup}
use pixel_hq_oss.Scheduler.Contract.{Decision}
use pixel_hq_oss.Relay.Job.{Job}
use pixel_hq_oss.Relay.Store.{StoreOperation}
use pixel_hq_oss.Relay.Action.{EvidenceOutcome, Reservation, World, Action}
use pixel_hq_oss.Relay.Action.Keeps.{Keeps}
use pixel_hq_oss.Relay.Action.Stable.{IsStable, stable_rules}
use pixel_hq_oss.Relay.Service.Ports.{
  EvaluationAnswer, evaluated, evaluation_shapeless, ReservationAnswer, reserved, unreserved,
  reservation_shapeless, StartAnswer, start_answered, start_shapeless, SchedulerPorts, HoldReason,
  Admission, unscheduled, admitted, not_admitted,
}
use pixel_hq_oss.Relay.Service.Schedule.{
  admit_reserved, admit_evaluated, admit_required, scheduler_admit, release_reservation,
  reject_start, confirm_answered, confirm_fresh, scheduler_confirm, track_reservation,
  release_found, release_tracked, release_packages,
}

-- What others do while the scheduler is awaited is allowed.
abbrev pub is_allowed_while : (StoreOperation → Bool) → Option SchedulerPorts → Bool
is_allowed_while allowed none = true
is_allowed_while allowed (some s) =
    all_of allowed s.during_evaluate && all_of allowed s.during_confirm

module _ {κ} (P : World → Type κ) (allowed : StoreOperation → Bool) (s : IsStable P allowed) where
  release_reservation-Keeps : (r : Reservation) → Keeps P (release_reservation r)
  unfolding release_reservation
  release_reservation-Keeps r = search stable_rules

  admit_reserved-Keeps :
      (o : Option ReservationAnswer) (requirement : Text) → Keeps P (admit_reserved o requirement)
  unfolding admit_reserved
  admit_reserved-Keeps none requirement = search stable_rules
  admit_reserved-Keeps (some (reserved r)) requirement = search stable_rules
  admit_reserved-Keeps (some unreserved) requirement = search stable_rules
  admit_reserved-Keeps (some reservation_shapeless) requirement = search stable_rules

  admit_evaluated-Keeps :
      (c : SchedulerPorts) (id : Text) (o : Option EvaluationAnswer) (requirement : Text)
      → Keeps P (admit_evaluated c id o requirement)
  unfolding admit_evaluated
  admit_evaluated-Keeps c id none requirement = search stable_rules
  admit_evaluated-Keeps c id (some evaluation_shapeless) requirement = search stable_rules
  admit_evaluated-Keeps c id (some (evaluated d r)) requirement =
      search (stable_rules, admit_reserved-Keeps)

  admit_required-Keeps :
      (c : SchedulerPorts) (id : Text) (o : Option Text)
      → all_of allowed c.during_evaluate ≡ true
      → Keeps P (admit_required c id o)
  unfolding admit_required
  admit_required-Keeps c id none e = search stable_rules
  admit_required-Keeps c id (some t) e = search (stable_rules, admit_evaluated-Keeps)

  pub scheduler_admit-Keeps :
      (o : Option SchedulerPorts) (job : Job)
      → is_allowed_while allowed o ≡ true
      → Keeps P (scheduler_admit o job)
  unfolding scheduler_admit
  scheduler_admit-Keeps none job e = search stable_rules
  scheduler_admit-Keeps (some c) job e =
      admit_required-Keeps c job.envelope.job_id (c.resolve_requirement job)
        (&&-eq-true (all_of allowed c.during_evaluate) (all_of allowed c.during_confirm) e).0

  reject_start-Keeps :
      (r : Reservation) (m : Action (Unit {0})) (d : Decision) (reason : HoldReason)
      → Keeps P m
      → Keeps P (reject_start r m d reason)
  unfolding reject_start
  reject_start-Keeps r m d reason k = search (stable_rules, release_reservation-Keeps)

  confirm_answered-Keeps :
      (o : Option StartAnswer) (id : Text) (r : Reservation) (m : Action (Unit {0}))
      → Keeps P m
      → Keeps P (confirm_answered o id r m)
  unfolding confirm_answered
  confirm_answered-Keeps none id r m k = search (stable_rules, reject_start-Keeps)
  confirm_answered-Keeps (some start_shapeless) id r m k = search stable_rules
  confirm_answered-Keeps (some (start_answered true reason)) id r m k = search stable_rules
  confirm_answered-Keeps (some (start_answered false reason)) id r m k =
      search (stable_rules, reject_start-Keeps)

  confirm_fresh-Keeps :
      (c : SchedulerPorts) (o : Option Job) (id : Text) (r : Reservation) (requirement : Text)
      (m : Action (Unit {0}))
      → all_of allowed c.during_confirm ≡ true
      → Keeps P m
      → Keeps P (confirm_fresh c o id r requirement m)
  unfolding confirm_fresh
  confirm_fresh-Keeps c none id r requirement m e k = search (stable_rules, reject_start-Keeps)
  confirm_fresh-Keeps c (some job) id r requirement m e k =
      search (stable_rules, reject_start-Keeps, confirm_answered-Keeps)

  pub scheduler_confirm-Keeps :
      (o : Option SchedulerPorts) (job : Job) (a : Admission) (m : Action (Unit {0}))
      → is_allowed_while allowed o ≡ true
      → Keeps P m
      → Keeps P (scheduler_confirm o job a m)
  unfolding scheduler_confirm
  scheduler_confirm-Keeps none job a m e k = search stable_rules
  scheduler_confirm-Keeps (some c) job unscheduled m e k = search stable_rules
  scheduler_confirm-Keeps (some c) job (not_admitted d r) m e k = search stable_rules
  scheduler_confirm-Keeps (some c) job (admitted r requirement) m e k =
      let (_, confirming) =
        &&-eq-true (all_of allowed c.during_evaluate) (all_of allowed c.during_confirm) e in
      search (stable_rules, confirm_fresh-Keeps)

  pub track_reservation-Keeps : (id : Text) (a : Admission) → Keeps P (track_reservation id a)
  unfolding track_reservation pixel_hq_oss.Relay.Action.pure
  track_reservation-Keeps id (admitted r requirement) = record { at = λ w h. s.reserve w _ h }
  track_reservation-Keeps id unscheduled = record { at = λ w h. h }
  track_reservation-Keeps id (not_admitted d r) = record { at = λ w h. h }

  release_found_at :
      (o : Option Reservation) (id : Text) (w : World) → P w → P (release_found o id w).1
  unfolding pixel_hq_oss.Relay.Action.pure
  release_found_at none id w h = h
  release_found_at (some r) id w h = (release_reservation-Keeps r).at _ (s.reserve w _ h)

  pub release_tracked-Keeps : (id : Text) → Keeps P (release_tracked id)
  unfolding release_tracked
  release_tracked-Keeps id = record {
    at = λ w h. release_found_at (lookup id w.reservations) id w h;
  }

  pub release_packages-Keeps : (b : Bool) (id : Text) → Keeps P (release_packages b id)
  unfolding release_packages
  release_packages-Keeps b id = search stable_rules
