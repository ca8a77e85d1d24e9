-- ===== src/Relay/Service/Executed.antt =====
-- Executions of the worker over any requests to services/relay/src/relay-service.js.
use pixel_hq_oss.Common.{◌+◌, refl, inl, inr, some, List, Text, Bool-cases, arith}
use pixel_hq_oss.Relay.Request.{Request, SubmitIntent, validate_envelope}
use pixel_hq_oss.Relay.Calls.{worker_call}
use pixel_hq_oss.Relay.Action.{World, ◌>>=◌, assert, next, store_claim, pure, throw}
use pixel_hq_oss.Relay.Action.Keeps.{Keeps}
use pixel_hq_oss.Relay.Gateway.{gateway_execute}
use pixel_hq_oss.Relay.Gateway.Once.{is_job_operation, claimed-IsOnce}
use pixel_hq_oss.Relay.Gateway.Executed.{gateway_execute-coupled}
use pixel_hq_oss.Relay.Intent.{Plain}
use pixel_hq_oss.Relay.Service.Ports.{JobContext, ServicePorts}
use pixel_hq_oss.Relay.Service.Accept.{
  namespace_of, fingerprint_of, envelope_of, accept_context, accept,
}
use pixel_hq_oss.Relay.Service.Keeps.{
  accept_claimed-Keeps, accept-Keeps, execute-Keeps, submit-Keeps, attempt_transition-Keeps,
}
use pixel_hq_oss.Relay.Service.Requests.{
  ServiceCall, accept_call, submit_call, execute_call, attempt_call, handle, serve, serve_induction,
}
use pixel_hq_oss.Relay.Service.Served.{
  IsServed, IsServed-IsStable, call-IsServed, claim-IsServed, AreShared,
}

module _ (p : ServicePorts) (h : AreShared p) where
  accept_context-IsServed :
      (c : JobContext) (i : SubmitIntent) (trace root : Text)
      → Keeps (IsServed p.sources.job_id) (accept_context p (some c) i trace root)
  unfolding accept_context ◌>>=◌ next assert pure throw store_claim envelope_of
  accept_context-IsServed c i trace root = record {
    at = λ w k.
        let job_id = p.sources.job_id w.issued in
        let v = envelope_of p job_id trace root i c in
        elim (Bool-cases (validate_envelope v)) [
          | inl valid ↦ rw valid (
              (accept_claimed-Keeps (IsServed p.sources.job_id) is_job_operation
                  (IsServed-IsStable p.sources.job_id) p _ v trace root).at
                _
                (claim-IsServed p.sources.job_id (namespace_of p i c) (fingerprint_of p i c) v w
                  h.distinct refl k))
          | inr invalid ↦
              rw invalid
                ((IsServed-IsStable p.sources.job_id).issue w (w.issued + 1) (omega arith) k)
        ];
  }

  gateway_execute-IsServed :
      (q : Request) (parent : Text)
      → Keeps (IsServed p.sources.job_id) (gateway_execute p.gateway q parent)
  gateway_execute-IsServed =
      gateway_execute-coupled (IsServed p.sources.job_id) is_job_operation
        (IsServed-IsStable p.sources.job_id) p.gateway h.resolving h.working
        (λ q d w e k. record {
          once = claimed-IsOnce p.gateway.claim_fails q d w e k.once;
          ahead =
              let kept =
                call-IsServed p.sources.job_id q.job_id (worker_call p.gateway.claim_fails q d) w
                  k in
              kept.ahead;
        })

  accept-IsServed : (intent : Plain) → Keeps (IsServed p.sources.job_id) (accept p intent)
  accept-IsServed =
      accept-Keeps (IsServed p.sources.job_id) is_job_operation (IsServed-IsStable p.sources.job_id)
        p h.context accept_context-IsServed

  handle-IsServed : (c : ServiceCall) → Keeps (IsServed p.sources.job_id) (handle p c)
  unfolding handle
  handle-IsServed (accept_call intent) = accept-IsServed intent
  handle-IsServed (submit_call intent) =
      submit-Keeps (IsServed p.sources.job_id) is_job_operation (IsServed-IsStable p.sources.job_id)
        p h.scheduling gateway_execute-IsServed intent (accept-IsServed intent)
  handle-IsServed (execute_call id) =
      execute-Keeps (IsServed p.sources.job_id) is_job_operation
        (IsServed-IsStable p.sources.job_id) p h.scheduling gateway_execute-IsServed id
  handle-IsServed (attempt_call id state reason) =
      attempt_transition-Keeps (IsServed p.sources.job_id) is_job_operation
        (IsServed-IsStable p.sources.job_id) p id state reason

  -- Where job identifiers are given once and others only call methods on jobs meanwhile: over any
  -- requests to the service, whatever the providers and the worker answer or throw, the worker is
  -- executed at most once for each job, only where the job's invocation is claimed, and only for a
  -- request that the decision recorded with that request allows.
  pub serve-IsServed :
      (cs : List ServiceCall) (w : World)
      → IsServed p.sources.job_id w
      → IsServed p.sources.job_id (serve p cs w)
  serve-IsServed = serve_induction p handle-IsServed
