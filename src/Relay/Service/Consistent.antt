-- ===== src/Relay/Service/Consistent.antt =====
-- The jobs of the store under services/relay/src/relay-service.js and
-- services/tool-gateway/src/tool-gateway.js.
use pixel_hq_oss.Common.{◌≡◌, refl, Bool, true, Option, none, some, List, [], ◌∷◌, Text, all_of}
use pixel_hq_oss.Relay.Request.{Envelope, Request, GatewayDecision, SubmitIntent}
use pixel_hq_oss.Relay.Store.{StoreOperation}
use pixel_hq_oss.Relay.Store.Consistent.{
  AreConsistent, claim-AreConsistent, after_operation-AreConsistent,
}
use pixel_hq_oss.Relay.Action.{PortCall, World, record_call, store_claim}
use pixel_hq_oss.Relay.Action.Keeps.{Keeps}
use pixel_hq_oss.Relay.Action.Stable.{IsStable, stable_rules}
use pixel_hq_oss.Relay.Gateway.Contracts.{GatewayPorts}
use pixel_hq_oss.Relay.Gateway.{claim_worker, invoke_worker, gateway_execute}
use pixel_hq_oss.Relay.Gateway.Keeps.{note-Keeps, finish_worker-Keeps, gateway_execute-Keeps}
use pixel_hq_oss.Relay.Intent.{Plain}
use pixel_hq_oss.Relay.Service.Ports.{JobContext, SchedulerPorts, ServicePorts}
use pixel_hq_oss.Relay.Service.Schedule.Keeps.{is_allowed_while}
use pixel_hq_oss.Relay.Service.Accept.{accept_context, accept}
use pixel_hq_oss.Relay.Service.Keeps.{
  accept_claimed-Keeps, accept-Keeps, execute-Keeps, submit-Keeps, attempt_transition-Keeps,
}
use pixel_hq_oss.Relay.Service.Requests.{
  ServiceCall, accept_call, submit_call, execute_call, attempt_call, handle, serve, serve_induction,
}

-- Every job of the store is consistent.
abbrev pub HasConsistentJobs : World → Type 0
HasConsistentJobs w = AreConsistent w.store.jobs

abbrev any_operation : StoreOperation → Bool
any_operation o = true

HasConsistentJobs-IsStable : IsStable HasConsistentJobs any_operation
HasConsistentJobs-IsStable = record {
  issue = λ w n le h. h;
  observe = λ w es h. h;
  reserve = λ w rs h. h;
  enter = λ w c e h. h;
  store = λ w o e h. after_operation-AreConsistent o w.store h;
  job_allowed = λ id c. refl;
}

record_call-consistent : (c : PortCall) → Keeps HasConsistentJobs (record_call c)
unfolding record_call
record_call-consistent c = record { at = λ w h. h }

store_claim-consistent :
    (namespace fingerprint : Text) (v : Envelope)
    → Keeps HasConsistentJobs (store_claim namespace fingerprint v)
unfolding store_claim
store_claim-consistent namespace fingerprint v = record {
  at = λ w h. claim-AreConsistent namespace fingerprint v w.store h;
}

any_operations : (os : List StoreOperation) → all_of any_operation os ≡ true
any_operations [] = refl
any_operations (o ∷ os) = any_operations os

any_scheduler : (o : Option SchedulerPorts) → is_allowed_while any_operation o ≡ true
any_scheduler none = refl
any_scheduler (some s) = simp (any_operations s.during_evaluate, any_operations s.during_confirm)

module _ (g : GatewayPorts) where
  invoke_worker-consistent :
      (q : Request) (parent : Text) → Keeps HasConsistentJobs (invoke_worker g q parent)
  unfolding invoke_worker
  invoke_worker-consistent q parent =
      let s = HasConsistentJobs-IsStable in
      let quiet = any_operations g.during_worker in
      search (stable_rules, note-Keeps, record_call-consistent, finish_worker-Keeps) depth 12

  claim_worker-consistent :
      (q : Request) (d : GatewayDecision) → Keeps HasConsistentJobs (claim_worker g q d)
  unfolding claim_worker
  claim_worker-consistent q d =
      let s = HasConsistentJobs-IsStable in search (stable_rules, invoke_worker-consistent) depth 12

  pub gateway_execute-consistent :
      (q : Request) (parent : Text) → Keeps HasConsistentJobs (gateway_execute g q parent)
  gateway_execute-consistent q parent =
      gateway_execute-Keeps HasConsistentJobs any_operation HasConsistentJobs-IsStable g
        (any_operations g.during_resolve) claim_worker-consistent q parent

module _ (p : ServicePorts) where
  accept_context-consistent :
      (c : JobContext) (i : SubmitIntent) (trace root : Text)
      → Keeps HasConsistentJobs (accept_context p (some c) i trace root)
  unfolding accept_context
  accept_context-consistent c i trace root =
      let s = HasConsistentJobs-IsStable in
      search (stable_rules, store_claim-consistent, accept_claimed-Keeps) depth 12

  accept-consistent : (intent : Plain) → Keeps HasConsistentJobs (accept p intent)
  accept-consistent intent =
      accept-Keeps HasConsistentJobs any_operation HasConsistentJobs-IsStable p
        (any_operations p.during_context) accept_context-consistent intent

  handle-consistent : (c : ServiceCall) → Keeps HasConsistentJobs (handle p c)
  unfolding handle
  handle-consistent (accept_call intent) = accept-consistent intent
  handle-consistent (submit_call intent) =
      submit-Keeps HasConsistentJobs any_operation HasConsistentJobs-IsStable p
        (any_scheduler p.scheduler) (gateway_execute-consistent p.gateway) intent
        (accept-consistent intent)
  handle-consistent (execute_call id) =
      execute-Keeps HasConsistentJobs any_operation HasConsistentJobs-IsStable p
        (any_scheduler p.scheduler) (gateway_execute-consistent p.gateway) id
  handle-consistent (attempt_call id state reason) =
      attempt_transition-Keeps HasConsistentJobs any_operation HasConsistentJobs-IsStable p id state
        reason

  -- Whatever is requested of the service, whatever its dependencies answer or throw, and whatever
  -- others do with the store meanwhile: from a store whose jobs are consistent every job stays so, with
  -- a legal path of transitions, at most one of a worker and a model claimed, and a result only on a
  -- finished job.
  pub serve-consistent :
      (cs : List ServiceCall) (w : World) → HasConsistentJobs w → HasConsistentJobs (serve p cs w)
  serve-consistent = serve_induction p handle-consistent
