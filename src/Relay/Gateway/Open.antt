-- ===== src/Relay/Gateway/Open.antt =====
-- The store's part in `execute` of services/tool-gateway/src/tool-gateway.js, on a job that no one else
-- touches meanwhile.
use pixel_hq_oss.Common.{
  ◌+◌, ◌≡◌, refl, Bool, true, false, none, some, List, [], arith, same_text, same_text_comm,
}
use pixel_hq_oss.Common.Dict.{lookup, insert}
use pixel_hq_oss.Relay.Contract.{is_running}
use pixel_hq_oss.Relay.Request.{
  Request, validate_request, GatewayDecision, validate_decision, is_source,
}
use pixel_hq_oss.Relay.Job.{Job, is_execution, same_execution_binding}
use pixel_hq_oss.Relay.Methods.{
  recorded, invoke_now, record_gateway_decision, is_recorded, claim_worker_invocation,
}
use pixel_hq_oss.Relay.Calls.{on_job, decision_call, worker_call}
use pixel_hq_oss.Relay.Store.{RelayStore, StoreOperation, call, run_operations}
use pixel_hq_oss.Relay.Action.{returned, World, await}
use pixel_hq_oss.Relay.Gateway.Context.{is_request_of}
use pixel_hq_oss.Relay.Gateway.Contracts.{GatewayPorts}
use pixel_hq_oss.Relay.Gateway.Ready.{
  AreWellFormed, same_request_refl, same_decision_refl, is_request_of-matches_envelope,
}

-- The ports make identifiers and sources of the contract's form, the adapter has no fault, and no one
-- uses the store while a dependency is awaited.
pub record AreUndisturbed (g : GatewayPorts) : Type 0 where
  pub ids : AreWellFormed g.sources
  pub grants_named : is_source g.grant_source ≡ true
  pub worker_named : is_source g.worker_source ≡ true
  pub resolving : g.during_resolve ≡ []
  pub working : g.during_worker ≡ []
  pub claims : g.claim_fails ≡ false
  pub commits : g.commit_fails ≡ false

-- The job runs the request, and nothing is decided or claimed of it.
pub record IsOpen (q : Request) (job : Job) : Type 0 where
  pub request : is_request_of job q ≡ true
  pub undecided : job.gateway_decision ≡ none
  pub unclaimed : job.invocation_claimed ≡ false
  pub no_context : job.model_context_claimed ≡ false
  pub no_model : job.model_invocation ≡ none

abbrev pub decided_job : Request → GatewayDecision → Job → Job
decided_job q d job = record job {
  execution_request = some q;
  gateway_decision = some d;
  revision = job.revision + 1;
}

abbrev pub invoked_job : Request → GatewayDecision → Job → Job
invoked_job q d job = record (decided_job q d job) {
  invocation_claimed = true;
  revision = job.revision + 1 + 1;
}

pub is_request_of_facts :
    (job : Job) (q : Request)
    → is_request_of job q ≡ true
    → (is_running job.current_state ≡ true)
      × (is_execution q.execution_id job.execution_id ≡ true)
      × (same_text q.trace_id job.envelope.trace_id ≡ true)
unfolding is_request_of
is_request_of_facts job q e =
    (ground arith, ground arith, ground (arith, same_text_comm job.envelope.trace_id q.trace_id))

record_gateway_decision_open :
    (q : Request) (d : GatewayDecision) (job : Job)
    → IsOpen q job
    → validate_request q ≡ true
    → validate_decision d ≡ true
    → same_execution_binding q d ≡ true
    → record_gateway_decision q d job ≡ (recorded, decided_job q d job)
unfolding record_gateway_decision
record_gateway_decision_open q d job h v dv binding = ground (
  arith,
  (is_request_of_facts job q h.request).0,
  h.undecided,
  h.no_context,
  h.no_model,
  v,
  dv,
  is_request_of-matches_envelope job q h.request,
  binding,
)

pub call-decision :
    (q : Request) (d : GatewayDecision) (store : RelayStore) (job : Job)
    → lookup q.job_id store.jobs ≡ some job
    → IsOpen q job
    → validate_request q ≡ true
    → validate_decision d ≡ true
    → same_execution_binding q d ≡ true
    → call q.job_id (decision_call q d) store
      ≡ (recorded, record store { jobs = insert q.job_id (decided_job q d job) store.jobs })
unfolding call on_job
call-decision q d store job found h v dv binding =
    rw (found, record_gateway_decision_open q d job h v dv binding) refl

is_recorded_self :
    (q : Request) (d : GatewayDecision)
    → same_execution_binding q d ≡ true
    → d.allowed ≡ true
    → is_recorded (some q) (some d) q d ≡ true
unfolding is_recorded
is_recorded_self q d binding allowed =
    ground (arith, binding, allowed, same_request_refl q, same_decision_refl d)

claim_worker_invocation_open :
    (q : Request) (d : GatewayDecision) (job : Job)
    → IsOpen q job
    → same_execution_binding q d ≡ true
    → d.allowed ≡ true
    → claim_worker_invocation false q d (decided_job q d job) ≡ (invoke_now, invoked_job q d job)
unfolding claim_worker_invocation
claim_worker_invocation_open q d job h binding allowed = ground (
  arith,
  (is_request_of_facts job q h.request).0,
  h.unclaimed,
  h.no_model,
  is_recorded_self q d binding allowed,
)

pub call-worker :
    (fails : Bool) (q : Request) (d : GatewayDecision) (store : RelayStore) (job : Job)
    → fails ≡ false
    → lookup q.job_id store.jobs ≡ some (decided_job q d job)
    → IsOpen q job
    → same_execution_binding q d ≡ true
    → d.allowed ≡ true
    → call q.job_id (worker_call fails q d) store
      ≡ (invoke_now, record store { jobs = insert q.job_id (invoked_job q d job) store.jobs })
unfolding call on_job
call-worker fails q d store job fault found h binding allowed =
    rw (fault, found, claim_worker_invocation_open q d job h binding allowed) refl

pub await_none : (os : List StoreOperation) (w : World) → os ≡ [] → await os w ≡ (returned tt, w)
unfolding await run_operations
await_none os w e = rw e refl
