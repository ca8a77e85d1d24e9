-- ===== src/Relay/Gateway/Executed.antt =====
-- The claim of the worker in `execute` of services/tool-gateway/src/tool-gateway.js, and the call of
-- the worker after it.
use pixel_hq_oss.Common.{◌+◌, ◌≡◌, inl, inr, Bool, true, ◌∷◌, arith, Text, Bool-cases, all_of}
use pixel_hq_oss.Relay.Request.{Request, GatewayDecision}
use pixel_hq_oss.Relay.Methods.{Reply, invoke_now}
use pixel_hq_oss.Relay.Calls.{worker_call}
use pixel_hq_oss.Relay.Store.{StoreOperation, job_operation, after_operation, call}
use pixel_hq_oss.Relay.Action.{
  World, worker_executed, ◌>>=◌, next, append, record_call, store_call, get_job, pure,
}
use pixel_hq_oss.Relay.Action.Keeps.{Keeps}
use pixel_hq_oss.Relay.Action.Stable.{IsStable}
use pixel_hq_oss.Relay.Gateway.Contracts.{GatewayPorts}
use pixel_hq_oss.Relay.Gateway.{
  is_invoke_now_reply, note, invoke_worker, claim_worker, gateway_execute,
}
use pixel_hq_oss.Relay.Gateway.Keeps.{finish_worker-Keeps, gateway_execute-Keeps}

is_invoke_now_reply_lem : (r : Reply) → is_invoke_now_reply r ≡ true → r ≡ invoke_now
is_invoke_now_reply_lem r e = ground arith

-- `coupled`: the claim of the worker and the call of it keep `P` together.
module _ {κ} (P : World → Type κ) (allowed : StoreOperation → Bool) (s : IsStable P allowed)
    (g : GatewayPorts) (resolving : all_of allowed g.during_resolve ≡ true)
    (working : all_of allowed g.during_worker ≡ true)
    (coupled : (q : Request) (d : GatewayDecision) (w : World)
      → (call q.job_id (worker_call g.claim_fails q d) w.store).0 ≡ invoke_now
      → P w
      → P (record w {
        store = (call q.job_id (worker_call g.claim_fails q d) w.store).1;
        calls = worker_executed q ∷ w.calls;
      })) where
  invoke_worker-called :
      (q : Request) (parent : Text) (w : World)
      → P (record w { calls = worker_executed q ∷ w.calls })
      → P (invoke_worker g q parent w).1
  unfolding invoke_worker note next append record_call ◌>>=◌
  invoke_worker-called q parent w h =
      (finish_worker-Keeps P allowed s g q (g.sources.span_id w.issued) working).at _
        (s.observe _ _ (s.issue _ (w.issued + 1) (omega arith) h))

  claim_worker-coupled : (q : Request) (d : GatewayDecision) → Keeps P (claim_worker g q d)
  unfolding claim_worker ◌>>=◌ store_call get_job pure after_operation
  claim_worker-coupled q d = record {
    at = λ w h.
        let c = worker_call g.claim_fails q d in
        let after = record w { store = (call q.job_id c w.store).1 } in
        elim (Bool-cases (is_invoke_now_reply (call q.job_id c w.store).0)) [
          | inl e ↦ rw e (
              invoke_worker-called q d.span_id after
                (coupled q d w (is_invoke_now_reply_lem (call q.job_id c w.store).0 e) h))
          | inr e ↦ rw e (s.store w (job_operation q.job_id c) (s.job_allowed q.job_id c) h)
        ];
  }

  pub gateway_execute-coupled : (q : Request) (parent : Text) → Keeps P (gateway_execute g q parent)
  gateway_execute-coupled = gateway_execute-Keeps P allowed s g resolving claim_worker-coupled
