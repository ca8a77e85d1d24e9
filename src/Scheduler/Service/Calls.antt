-- ===== src/Scheduler/Service/Calls.antt =====
-- Sequences of calls of services/scheduler/src/scheduler-service.js, by what they do to the issuance
-- records.
use pixel_hq_oss.Common.{
  ℕ, ◌≡◌, refl, ◌⊎◌, inl, inr, Bool, true, false, not, none, some, List, [], ◌∷◌, arith, Text, text,
  same_text, Value, str, is_text, leb, Bool-cases, ◌&&◌, Option,
}
use pixel_hq_oss.Common.Dict.{Dict, lookup, insert}
use pixel_hq_oss.Scheduler.Contract.{Reservation, validate_reservation}
use pixel_hq_oss.Scheduler.Store.{
  SchedulerStore, ReserveReply, reserved, resource_busy, reservation_id_conflict,
  reservation_invalid, TransitionReply, reserve,
}
use pixel_hq_oss.Scheduler.Service.{
  Issuance, Event, SchedulerService, ReserveInput, admits, new_reservation, settle_reserve, claim,
  reserve_issued, reserve_named, reserve_capacity, record_issuance, settle_release, release,
}

-- A call, with what it reads of the clock and the source of identifiers. `evaluate` enters by the
-- issuance that it records; `elsewhere` is what changes only the store and the evidence, as
-- `confirmExecutionStart` does.
pub data ServiceCall : Type 0 where
  recording : Text → Issuance → ServiceCall
  reserving : Text → ℕ → ReserveInput → ServiceCall
  releasing : Text → Value → ℕ → ℕ → ServiceCall
  elsewhere : SchedulerStore → List Event → ServiceCall

unfoldable pub after_service_call : ServiceCall → SchedulerService → SchedulerService
after_service_call (recording id entry) s = record s { traces = record_issuance id entry s.traces }
after_service_call (reserving event_id now input) s = (reserve_capacity event_id now input s).1
after_service_call (releasing id expected before now) s = (release id expected before now s).1
after_service_call (elsewhere store evidence) s = record s { store = store; evidence = evidence }

unfoldable pub run_service_calls : List ServiceCall → SchedulerService → SchedulerService
run_service_calls [] s = s
run_service_calls (c ∷ cs) s = run_service_calls cs (after_service_call c s)

-- The call records no evaluation under the identifier.
abbrev pub records_other : Text → ServiceCall → Bool
records_other id (recording k entry) = not (same_text k id)
records_other id _ = true

-- An evaluation that the call records is issued by then.
abbrev pub records_by : ℕ → ServiceCall → Bool
records_by t (recording k entry) = leb entry.issued_at t
records_by t _ = true

-- `reserve` marks an unused issuance that it names, or leaves the records.
abbrev pub Marks : ReserveInput → Dict Issuance → Dict Issuance → Type 0
Marks input before after =
    (after ≡ before)
    ⊎ ((id : Text) × (i : Issuance) × (input.eval_eligibility_id ≡ str id)
        × (lookup id before ≡ some i)
        × (i.consumed ≡ false)
        × (after ≡ insert id (record i { consumed = true }) before))

settle_reserve-Marks :
    (input : ReserveInput) (id : Text) (i : Issuance) (reply : ReserveReply) (s : SchedulerService)
    → input.eval_eligibility_id ≡ str id
    → lookup id s.traces ≡ some i
    → i.consumed ≡ false
    → Marks input s.traces (settle_reserve id i reply s).1.traces
unfolding settle_reserve
settle_reserve-Marks input id i (reserved r) s named found unused =
    inr (id, i, named, found, unused, refl)
settle_reserve-Marks input id i (resource_busy r) s named found unused = inl refl
settle_reserve-Marks input id i reservation_id_conflict s named found unused = inl refl
settle_reserve-Marks input id i reservation_invalid s named found unused = inl refl

claim-Marks :
    (input : ReserveInput) (id : Text) (i : Issuance) (r : Reservation) (now : ℕ)
    (s : SchedulerService)
    → input.eval_eligibility_id ≡ str id
    → lookup id s.traces ≡ some i
    → i.consumed ≡ false
    → Marks input s.traces (claim id i r now s).1.traces
unfolding claim
claim-Marks input id i r now s named found unused = elim (Bool-cases (validate_reservation r)) [
  | inl e ↦
      let reply = reserve r now s.store in
      rw e
        (settle_reserve-Marks input id i reply.0 (record s { store = reply.1 }) named found unused)
  | inr e ↦ rw e (inl refl)
]

reserve_issued-Marks :
    (event_id : Text) (now : ℕ) (input : ReserveInput) (id : Text) (o : Option Issuance)
    (s : SchedulerService)
    → input.eval_eligibility_id ≡ str id
    → lookup id s.traces ≡ o
    → Marks input s.traces (reserve_issued o id event_id now input s).1.traces
reserve_issued-Marks event_id now input id none s named found = inl refl
reserve_issued-Marks event_id now input id (some i) s named found =
    elim (Bool-cases (admits input i now)) [
      | inl e ↦ rw e (
          claim-Marks input id i (new_reservation event_id now input id i) now s named found
            (unfold admits in ground (arith, e)))
      | inr e ↦ rw e (inl refl)
    ]

reserve_named-Marks :
    (event_id : Text) (now : ℕ) (input : ReserveInput) (v : Value) (s : SchedulerService)
    → input.eval_eligibility_id ≡ v
    → Marks input s.traces (reserve_named v event_id now input s).1.traces
reserve_named-Marks event_id now input (str id) s named =
    reserve_issued-Marks event_id now input id (lookup id s.traces) s named refl
reserve_named-Marks event_id now input _ s named = inl refl

pub reserve_capacity-Marks :
    (event_id : Text) (now : ℕ) (input : ReserveInput) (s : SchedulerService)
    → Marks input s.traces (reserve_capacity event_id now input s).1.traces
unfolding reserve_capacity
reserve_capacity-Marks event_id now input s =
    elim (Bool-cases (
      is_text input.eval_decision (text "ELIGIBLE")
      && is_text input.eval_reason (text "ELIGIBLE_NOW"))) [
        | inl e ↦ rw e (reserve_named-Marks event_id now input input.eval_eligibility_id s refl)
        | inr e ↦ rw e (inl refl)
      ]

settle_release-traces :
    (reply : TransitionReply) (s : SchedulerService) → (settle_release reply s).1.traces ≡ s.traces
unfolding settle_release
settle_release-traces reply s = ground arith

pub release-traces :
    (id : Text) (expected : Value) (before now : ℕ) (s : SchedulerService)
    → (release id expected before now s).1.traces ≡ s.traces
unfolding release
release-traces id expected before now s = settle_release-traces _ _
