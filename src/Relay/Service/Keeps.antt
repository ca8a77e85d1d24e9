-- ===== src/Relay/Service/Keeps.antt =====
-- What the methods of services/relay/src/relay-service.js keep.
use pixel_hq_oss.Common.{◌≡◌, Bool, true, Option, none, some, Text, all_of}
use pixel_hq_oss.Relay.Contract.{JobState, TransitionReason, Transition}
use pixel_hq_oss.Relay.Request.{Request, Envelope, SubmitIntent}
use pixel_hq_oss.Relay.Job.{Job}
use pixel_hq_oss.Relay.Store.{
  StoreOperation, ClaimReply, claim_rejected, claim_conflict, existing, claimed,
}
use pixel_hq_oss.Relay.Action.{EvidenceOutcome, World}
use pixel_hq_oss.Relay.Action.Keeps.{Keeps}
use pixel_hq_oss.Relay.Action.Stable.{IsStable, stable_rules}
use pixel_hq_oss.Relay.Gateway.Contracts.{GatewayReply}
use pixel_hq_oss.Relay.Gateway.{gateway_execute}
use pixel_hq_oss.Relay.Intent.{Plain}
use pixel_hq_oss.Relay.Service.Ports.{
  JobContext, ServicePorts, Rejection, ServiceDisposition, ServiceReply, Admission, unscheduled,
  admitted, not_admitted, StartGate, open_gate, shut_gate,
}
use pixel_hq_oss.Relay.Service.Schedule.Keeps.{
  is_allowed_while, scheduler_admit-Keeps, scheduler_confirm-Keeps, track_reservation-Keeps,
  release_tracked-Keeps, release_packages-Keeps,
}
use pixel_hq_oss.Relay.Service.Accept.{
  report, reject, accept_created, accept_claimed, accept_context, accept_intent, accept_received,
  accept,
}
use pixel_hq_oss.Relay.Service.{
  record_rejection, record_rejection_of, execute_answered, execute_requested, execute_running,
  execute_noted, execute_admitted, hold_start, execute_gated, execute_confirm, refuse_start,
  execute_found, execute, submit_accepted, submit, attempt_found, attempt_transition,
}

module _ {κ} (P : World → Type κ) (allowed : StoreOperation → Bool) (s : IsStable P allowed)
    (p : ServicePorts) where
  report-Keeps :
      (trace span : Text) (parent : Option Text) (event : Text) (outcome : EvidenceOutcome)
      → Keeps P (report trace span parent event outcome)
  unfolding report
  report-Keeps trace span parent event outcome = search stable_rules

  reject-Keeps :
      (trace parent : Text) (r : Rejection) (event : Text) → Keeps P (reject p trace parent r event)
  unfolding reject
  reject-Keeps trace parent r event = search (stable_rules, report-Keeps) depth 12

  accept_created-Keeps :
      (v : Envelope) (trace root : Text) → Keeps P (accept_created p v trace root)
  unfolding accept_created
  accept_created-Keeps v trace root = search (stable_rules, report-Keeps) depth 12

  pub accept_claimed-Keeps :
      (c : ClaimReply) (v : Envelope) (trace root : Text)
      → Keeps P (accept_claimed p c v trace root)
  unfolding accept_claimed
  accept_claimed-Keeps claim_conflict v trace root = search (stable_rules, report-Keeps) depth 12
  accept_claimed-Keeps (existing job) v trace root = search (stable_rules, report-Keeps) depth 12
  accept_claimed-Keeps claim_rejected v trace root = search reject-Keeps
  accept_claimed-Keeps (claimed job) v trace root = search accept_created-Keeps

  module _ (context : all_of allowed p.during_context ≡ true)
      (storing : (c : JobContext) (i : SubmitIntent) (trace root : Text)
        → Keeps P (accept_context p (some c) i trace root)) where
    accept_context-Keeps :
        (o : Option JobContext) (i : SubmitIntent) (trace root : Text)
        → Keeps P (accept_context p o i trace root)
    unfolding accept_context
    accept_context-Keeps none i trace root = search reject-Keeps
    accept_context-Keeps (some c) i trace root = storing c i trace root

    accept_intent-Keeps :
        (o : Option SubmitIntent) (trace root : Text) → Keeps P (accept_intent p o trace root)
    unfolding accept_intent
    accept_intent-Keeps none trace root = search reject-Keeps
    accept_intent-Keeps (some i) trace root = search (stable_rules, accept_context-Keeps)

    accept_received-Keeps :
        (intent : Plain) (trace root : Text) → Keeps P (accept_received p intent trace root)
    unfolding accept_received
    accept_received-Keeps intent trace root =
        search (stable_rules, reject-Keeps, accept_intent-Keeps)

    pub accept-Keeps : (intent : Plain) → Keeps P (accept p intent)
    unfolding accept
    accept-Keeps intent = search (stable_rules, report-Keeps, accept_received-Keeps) depth 12

  record_rejection-Keeps : (job : Job) → Keeps P (record_rejection p job)
  unfolding record_rejection
  record_rejection-Keeps job = search (stable_rules, report-Keeps)

  record_rejection_of-Keeps : (o : Option Job) → Keeps P (record_rejection_of p o)
  unfolding record_rejection_of
  record_rejection_of-Keeps none = search stable_rules
  record_rejection_of-Keeps (some job) = search record_rejection-Keeps

  ruleset service_rules = (
    stable_rules, report-Keeps, record_rejection-Keeps, record_rejection_of-Keeps,
    scheduler_admit-Keeps, scheduler_confirm-Keeps, track_reservation-Keeps, release_tracked-Keeps,
    release_packages-Keeps,
  )

  execute_answered-Keeps : (o : Option GatewayReply) (id : Text) → Keeps P (execute_answered p o id)
  unfolding execute_answered
  execute_answered-Keeps none id = search service_rules
  execute_answered-Keeps (some r) id = search service_rules

  hold_start-Keeps : (id : Text) (d : ServiceDisposition) → Keeps P (hold_start p id d)
  unfolding hold_start
  hold_start-Keeps id d = search service_rules

  refuse_start-Keeps : (job : Job) → Keeps P (refuse_start p job)
  unfolding refuse_start
  refuse_start-Keeps job = search service_rules

  attempt_found-Keeps :
      (id : Text) (state : JobState) (reason : TransitionReason) (o : Option Job)
      → Keeps P (attempt_found p id state reason o)
  unfolding attempt_found
  attempt_found-Keeps id state reason none = search service_rules
  attempt_found-Keeps id state reason (some job) = search service_rules depth 14

  pub attempt_transition-Keeps :
      (id : Text) (state : JobState) (reason : TransitionReason)
      → Keeps P (attempt_transition p id state reason)
  unfolding attempt_transition
  attempt_transition-Keeps id state reason = search (service_rules, attempt_found-Keeps)

  module _ (scheduling : is_allowed_while allowed p.scheduler ≡ true)
      (executing : (q : Request) (parent : Text)
        → Keeps P (gateway_execute p.gateway q parent)) where
    execute_requested-Keeps : (id : Text) (q : Request) → Keeps P (execute_requested p id q)
    unfolding execute_requested
    execute_requested-Keeps id q = search (service_rules, executing, execute_answered-Keeps)

    execute_running-Keeps :
        (id : Text) (job : Job) (execution_id span : Text)
        → Keeps P (execute_running p id job execution_id span)
    unfolding execute_running
    execute_running-Keeps id job execution_id span =
        search (service_rules, execute_requested-Keeps) depth 14

    execute_noted-Keeps :
        (o : Option Transition) (id : Text) (job : Job) (execution_id span : Text)
        → Keeps P (execute_noted p o id job execution_id span)
    unfolding execute_noted
    execute_noted-Keeps none id job execution_id span = search service_rules
    execute_noted-Keeps (some t) id job execution_id span =
        search (service_rules, execute_running-Keeps)

    execute_admitted-Keeps : (id : Text) (job : Job) → Keeps P (execute_admitted p id job)
    unfolding execute_admitted
    execute_admitted-Keeps id job = search (service_rules, execute_noted-Keeps) depth 14

    execute_gated-Keeps :
        (g : StartGate) (id : Text) (job : Job) (a : Admission)
        → Keeps P (execute_gated p g id job a)
    unfolding execute_gated
    execute_gated-Keeps open_gate id job a = search (service_rules, execute_admitted-Keeps)
    execute_gated-Keeps (shut_gate d r) id job a = search hold_start-Keeps

    execute_confirm-Keeps :
        (a : Admission) (id : Text) (job : Job) → Keeps P (execute_confirm p a id job)
    unfolding execute_confirm
    execute_confirm-Keeps unscheduled id job = search (service_rules, execute_gated-Keeps)
    execute_confirm-Keeps (admitted r t) id job = search (service_rules, execute_gated-Keeps)
    execute_confirm-Keeps (not_admitted d r) id job = search hold_start-Keeps

    execute_found-Keeps : (id : Text) (o : Option Job) → Keeps P (execute_found p id o)
    unfolding execute_found
    execute_found-Keeps id none = search service_rules
    execute_found-Keeps id (some job) =
        search (service_rules, refuse_start-Keeps, execute_confirm-Keeps)

    pub execute-Keeps : (id : Text) → Keeps P (execute p id)
    unfolding execute
    execute-Keeps id = search (service_rules, execute_found-Keeps)

    submit_accepted-Keeps : (a : ServiceReply) → Keeps P (submit_accepted p a)
    unfolding submit_accepted
    submit_accepted-Keeps a = search (service_rules, execute-Keeps)

    pub submit-Keeps : (intent : Plain) → Keeps P (accept p intent) → Keeps P (submit p intent)
    unfolding submit
    submit-Keeps intent k = search (service_rules, submit_accepted-Keeps)
