-- ===== src/Scheduler/Service/Once.antt =====
-- What `reserve` of services/scheduler/src/scheduler-service.js asks of an
-- evaluation before it activates a reservation.
use pixel_hq_oss.Common.{
  ℕ, ◌+◌, ◌≤◌, ◌≡◌, refl, ap, ◌∙◌, inl, inr, true, false, ◌&&◌, Option, none, some, arith, Text,
  text, Value, str, is_text, Bool-cases,
}
use pixel_hq_oss.Common.Dict.{lookup, lookup-insert_self}
use pixel_hq_oss.Scheduler.Contract.{eligible, Reservation, validate_reservation}
use pixel_hq_oss.Scheduler.Store.{
  ReserveReply, reserved, resource_busy, reservation_id_conflict, reservation_invalid,
  SchedulerStore, reserve, reserve_free, active_for,
}
use pixel_hq_oss.Scheduler.Service.{
  reservation_lease_ms, Issuance, SchedulerService, ReserveInput, activated, admits,
  new_reservation, settle_reserve, claim, reserve_issued, reserve_named, reserve_capacity,
}

-- Where a reservation came from.
pub record Granted (input : ReserveInput) (now : ℕ) (r : Reservation)
    (before after : SchedulerService) : Type 0 where
  pub id : Text
  pub issued : Issuance
  pub named : input.eval_eligibility_id ≡ str id
  pub was_issued : lookup id before.traces ≡ some issued
  pub unused : issued.consumed ≡ false
  pub was_eligible : issued.decision ≡ eligible
  pub fresh : now ≤ issued.issued_at + reservation_lease_ms
  pub same_job : r.job_id ≡ issued.job_id
  pub same_resource : r.resource_ref ≡ issued.resource_ref
  pub lease : r.expires_at ≡ some (now + reservation_lease_ms)
  pub used_up : lookup id after.traces ≡ some (record issued { consumed = true })

reserve_free-reserved :
    (value r : Reservation) (o : Option Reservation) (d : SchedulerStore)
    → (reserve_free value (o, d)).0 ≡ reserved r
    → r ≡ value
unfolding reserve_free
reserve_free-reserved value r o d h = ground arith

reserve-reserved :
    (value r : Reservation) (now : ℕ) (store : SchedulerStore)
    → (reserve value now store).0 ≡ reserved r
    → r ≡ value
unfolding reserve
reserve-reserved value r now store h =
    let found = active_for value.resource_ref now store in
    ground (arith, reserve_free-reserved value r found.0 found.1)

settle_reserve-activated :
    (id : Text) (issued : Issuance) (reply : ReserveReply) (service : SchedulerService)
    {r : Reservation}
    → (settle_reserve id issued reply service).0 ≡ activated r
    → (reply ≡ reserved r)
      × (lookup id (settle_reserve id issued reply service).1.traces
          ≡ some (record issued { consumed = true }))
unfolding settle_reserve
settle_reserve-activated id issued (reserved s) service h =
    (ground arith, lookup-insert_self id (record issued { consumed = true }) service.traces)
settle_reserve-activated id issued (resource_busy s) service h = ground arith
settle_reserve-activated id issued reservation_id_conflict service h = ground arith
settle_reserve-activated id issued reservation_invalid service h = ground arith

claim-activated :
    (id : Text) (issued : Issuance) (value r : Reservation) (now : ℕ) (service : SchedulerService)
    → (claim id issued value now service).0 ≡ activated r
    → (r ≡ value)
      × (lookup id (claim id issued value now service).1.traces
          ≡ some (record issued { consumed = true }))
unfolding claim
claim-activated id issued value r now service h = elim (Bool-cases (validate_reservation value)) [
  | inl e ↦
      let reply = reserve value now service.store in
      let both =
        settle_reserve-activated id issued reply.0 (record service { store = reply.1 })
          (rw e at h) in
      (reserve-reserved value r now service.store both.0, rw e both.1)
  | inr e ↦ ground arith
]

-- What the guards say.
admits_facts :
    (input : ReserveInput) (issued : Issuance) (now : ℕ)
    → admits input issued now ≡ true
    → (issued.consumed ≡ false)
      × (issued.decision ≡ eligible)
      × (now ≤ issued.issued_at + reservation_lease_ms)
unfolding admits
admits_facts input issued now h = ground arith

module _ (event_id : Text) (now : ℕ) (input : ReserveInput) (service : SchedulerService) where
  reserve_issued-Granted :
      (o : Option Issuance) (id : Text) (r : Reservation)
      → lookup id service.traces ≡ o
      → input.eval_eligibility_id ≡ str id
      → (reserve_issued o id event_id now input service).0 ≡ activated r
      → Granted input now r service (reserve_issued o id event_id now input service).1
  reserve_issued-Granted none id r found named h = cc
  reserve_issued-Granted (some issued) id r found named h =
      elim (Bool-cases (admits input issued now)) [
        | inl e ↦
            let new = new_reservation event_id now input id issued in
            let both = claim-activated id issued new r now service (rw e at h) in
            let facts = admits_facts input issued now e in
            record {
              id = id;
              issued = issued;
              named = named;
              was_issued = found;
              unused = facts.0;
              was_eligible = facts.1;
              fresh = facts.2;
              same_job = ap (λ (q : Reservation). q.job_id) both.0 ∙ unfold new_reservation in refl;
              same_resource =
                  ap (λ (q : Reservation). q.resource_ref) both.0 ∙ unfold new_reservation in refl;
              lease =
                  ap (λ (q : Reservation). q.expires_at) both.0 ∙ unfold new_reservation in refl;
              used_up = rw e both.1;
            }
        | inr e ↦ ground arith
      ]

  reserve_named-Granted :
      (named : Value) (r : Reservation)
      → input.eval_eligibility_id ≡ named
      → (reserve_named named event_id now input service).0 ≡ activated r
      → Granted input now r service (reserve_named named event_id now input service).1
  reserve_named-Granted (str id) r e h =
      reserve_issued-Granted (lookup id service.traces) id r refl e h
  reserve_named-Granted _ r e h = cc

  -- Whenever `reserve` activates a reservation, the evaluation that it names was issued by this
  -- instance, was ELIGIBLE, had not been used and is one lease old at most; the reservation is for its
  -- job and its resource and lasts one lease from now; and the issuance is used up afterwards.
  pub reserve_capacity-Granted :
      {r : Reservation}
      → (reserve_capacity event_id now input service).0 ≡ activated r
      → Granted input now r service (reserve_capacity event_id now input service).1
  unfolding reserve_capacity
  reserve_capacity-Granted {r} h =
      elim (Bool-cases (
        is_text input.eval_decision (text "ELIGIBLE")
        && is_text input.eval_reason (text "ELIGIBLE_NOW"))) [
          | inl e ↦ rw e (reserve_named-Granted input.eval_eligibility_id r refl (rw e at h))
          | inr e ↦ ground arith
        ]
