-- ===== src/Scheduler/Start/Confirmed.antt =====
-- When `confirmExecutionStart` of services/scheduler/src/scheduler-service.js
-- confirms.
use pixel_hq_oss.Common.{
  ℕ, ap, ◌≡◌, refl, ◌≢◌, inl, inr, true, false, Option, none, some, arith, Text, text, same_text,
  is_text, Option-cases,
}
use pixel_hq_oss.Common.Dict.{Dict, lookup}
use pixel_hq_oss.Time.{is_expired_at}
use pixel_hq_oss.Scheduler.Contract.{eligible, Reservation, active, start_confirmed, Reason}
use pixel_hq_oss.Scheduler.Decide.{Requirement, Inputs, Verdict, decide, start_reason}
use pixel_hq_oss.Scheduler.Decide.Eligible.{MayStart, decide_eligible_iff}
use pixel_hq_oss.Scheduler.Service.{Issuance, SchedulerService}
use pixel_hq_oss.Scheduler.Start.{
  RevisionInput, natural, is_revision, JobView, StartCall, same_hash, start_verdict, check_inputs,
  check_requirement, check_reservation, check_start, read_reservation, confirm_execution_start,
}

is_revision-natural :
    (v : RevisionInput) (revision : ℕ) → is_revision v revision ≡ true → v ≡ natural revision
is_revision-natural (natural n) revision h = ap natural (ground (arith, h))
is_revision-natural _ revision h = absurd (ground (arith, h))

start_reason-rejects : (r : Reason) → start_reason r ≢ start_confirmed
unfolding start_reason
start_reason-rejects r h = ground arith

start_verdict_confirmed : (v : Verdict) → start_verdict v ≡ start_confirmed → v.decision ≡ eligible
start_verdict_confirmed v h = ground (arith, start_reason-rejects v.reason_code)

module _ {R : Type 0} (facts : R → Requirement) (hash : R → Text) (environment : Text)
    (call : StartCall facts hash) where
  -- The facts under which a start is confirmed.
  pub record Confirmed (reservation : Option Reservation) (traces : Dict Issuance) : Type 0 where
    pub job : JobView
    pub held : Reservation
    pub requirement : R
    pub issued : Issuance
    pub inputs : Inputs
    pub job_read : call.job ≡ some job
    pub reservation_read : reservation ≡ some held
    pub requirement_valid : call.requirement ≡ some requirement
    pub was_issued : lookup held.eligibility_id traces ≡ some issued
    pub inputs_read : call.inputs ≡ some inputs
    pub accepted : same_text job.current_state (text "ACCEPTED") ≡ true
    pub same_revision : call.expected_job_revision ≡ natural job.job_revision
    pub is_held : held.state ≡ active
    pub unexpired : is_expired_at held.expires_at call.now ≡ false
    pub for_job : is_text call.job_id held.job_id ≡ true
    pub issued_for_job : is_text call.job_id issued.job_id ≡ true
    pub same_requirement : same_hash (hash requirement) issued.requirement_hash ≡ true
    pub same_resource : same_text (facts requirement).resource_ref held.resource_ref ≡ true
    pub may_start : MayStart environment job.job_facts (facts requirement) inputs call.decided_at

  check_inputs_confirmed :
      (job : JobView) (q : R)
      → check_inputs facts hash environment call job q ≡ start_confirmed
      → (i : Inputs) × (call.inputs ≡ some i)
        × MayStart environment job.job_facts (facts q) i call.decided_at
  unfolding check_inputs
  check_inputs_confirmed job q h = elim (Option-cases call.inputs) [
    | inl n ↦ absurd (ground arith)
    | inr (i, e) ↦ (
      i,
      e,
      (decide_eligible_iff environment job.job_facts (facts q) i call.decided_at).0 (
          start_verdict_confirmed (decide environment job.job_facts (facts q) i call.decided_at)
            (ground arith)),
    )
  ]

  check_requirement_confirmed :
      (job : JobView) (r : Reservation) (issuance : Option Issuance)
      → check_requirement facts hash environment call job r issuance ≡ start_confirmed
      → (q : R) × (issued : Issuance) × (call.requirement ≡ some q)
        × (issuance ≡ some issued)
        × (is_text call.job_id issued.job_id ≡ true)
        × (same_hash (hash q) issued.requirement_hash ≡ true)
        × (same_text (facts q).resource_ref r.resource_ref ≡ true)
        × (check_inputs facts hash environment call job q ≡ start_confirmed)
  unfolding check_requirement
  check_requirement_confirmed job r none h = elim (Option-cases call.requirement) [
    | inl n ↦ absurd (ground arith)
    | inr (q, e) ↦ absurd (ground arith)
  ]
  check_requirement_confirmed job r (some issued) h = elim (Option-cases call.requirement) [
    | inl n ↦ absurd (ground arith)
    | inr (q, e) ↦ (q, issued, e, refl, ground arith, ground arith, ground arith, ground arith)
  ]

  check_reservation_confirmed :
      (job : JobView) (reservation : Option Reservation) (traces : Dict Issuance)
      → check_reservation facts hash environment call job reservation traces ≡ start_confirmed
      → (r : Reservation) × (reservation ≡ some r)
        × (r.state ≡ active)
        × (is_expired_at r.expires_at call.now ≡ false)
        × (is_text call.job_id r.job_id ≡ true)
        × (check_requirement facts hash environment call job r (lookup r.eligibility_id traces)
            ≡ start_confirmed)
  unfolding check_reservation
  check_reservation_confirmed job none traces h = absurd (ground arith)
  check_reservation_confirmed job (some r) traces h =
      (r, refl, ground arith, ground arith, ground arith, ground arith)

  check_start_confirmed :
      (reservation : Option Reservation) (traces : Dict Issuance)
      → check_start facts hash environment call reservation traces ≡ start_confirmed
      → (job : JobView) × (call.job ≡ some job)
        × (same_text job.current_state (text "ACCEPTED") ≡ true)
        × (call.expected_job_revision ≡ natural job.job_revision)
        × (check_reservation facts hash environment call job reservation traces ≡ start_confirmed)
  unfolding check_start
  check_start_confirmed reservation traces h = elim (Option-cases call.job) [
    | inl n ↦ absurd (ground arith)
    | inr (job, e) ↦ (
      job,
      e,
      ground arith,
      is_revision-natural call.expected_job_revision job.job_revision (ground arith),
      ground arith,
    )
  ]

  -- A start is confirmed only if the job is read back as ACCEPTED at the expected revision, the
  -- reservation is active, unexpired and for this job, its issuance is of this job and of the very
  -- requirement given, the resource is the one that is held, and every fact of `MayStart` holds at
  -- this moment.
  pub confirm_execution_start-Confirmed :
      (service : SchedulerService)
      → (confirm_execution_start facts hash environment call service).0.reason_code
        ≡ start_confirmed
      → Confirmed (read_reservation facts hash call service.store).0 service.traces
  unfolding confirm_execution_start
  confirm_execution_start-Confirmed service h =
      let reservation = (read_reservation facts hash call service.store).0 in
      let (job, j, accepted, revision, h1) = check_start_confirmed reservation service.traces h in
      let (r, found, held, live, for_job, h2) =
        check_reservation_confirmed job reservation service.traces h1 in
      let (q, issued, valid, was, same, hashes, resource, h3) =
        check_requirement_confirmed job r (lookup r.eligibility_id service.traces) h2 in
      let (i, read, may) = check_inputs_confirmed job q h3 in
      record {
        job = job;
        held = r;
        requirement = q;
        issued = issued;
        inputs = i;
        job_read = j;
        reservation_read = found;
        requirement_valid = valid;
        was_issued = was;
        inputs_read = read;
        accepted = accepted;
        same_revision = revision;
        is_held = held;
        unexpired = live;
        for_job = for_job;
        issued_for_job = same;
        same_requirement = hashes;
        same_resource = resource;
        may_start = may;
      }
