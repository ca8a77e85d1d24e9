-- ===== src/Relay/Gateway/Outcomes.antt =====
-- How `execute` of services/tool-gateway/src/tool-gateway.js ends a request on a job that no one else
-- touches meanwhile.
use pixel_hq_oss.Common.{
  ◌≡◌, refl, Bool, true, false, Option, none, some, List, ◌∷◌, arith, Text, text, same_text_refl,
  if◌then◌else◌,
}
use pixel_hq_oss.Common.Dict.{lookup, lookup-insert_self}
use pixel_hq_oss.Relay.Contract.{Outcome, provenance_ok, is_denied}
use pixel_hq_oss.Relay.Request.{
  Request, validate_request, GatewayDecision, validate_decision, is_source,
}
use pixel_hq_oss.Relay.Job.{Job, same_execution_binding}
use pixel_hq_oss.Relay.Commit.{path_ok}
use pixel_hq_oss.Relay.Action.{
  World, PortCall, worker_executed, ◌>>=◌, next, append, record_call, store_call,
}
use pixel_hq_oss.Relay.Gateway.Context.{Grants, worker_outcome, WorkerAnswer}
use pixel_hq_oss.Relay.Gateway.Contracts.{GatewayPorts, result_of, state_of, provenance_of}
use pixel_hq_oss.Relay.Gateway.{
  note, finish_worker, invoke_worker, claim_worker, enforce, refusal, commit_terminal,
}
use pixel_hq_oss.Relay.Gateway.Ends.{Ends, CanEnd, commit_terminal-Ends}
use pixel_hq_oss.Relay.Gateway.Open.{
  AreUndisturbed, IsOpen, decided_job, invoked_job, is_request_of_facts, call-decision, call-worker,
  await_none,
}

worker_outcome-is_denied : (o : Option WorkerAnswer) → is_denied (worker_outcome o) ≡ false
unfolding worker_outcome
worker_outcome-is_denied o = ground arith

worker_outcome-provenance :
    (o : Outcome) (source : Text)
    → is_denied o ≡ false
    → is_source source ≡ true
    → provenance_ok (state_of o) o (provenance_of (some source)) ≡ true
unfolding provenance_ok
worker_outcome-provenance o source d e =
    ground (arith, d, e, same_text_refl (text "pixel.system-status-worker.v1"))

refusal-provenance :
    (grants : Option Grants)
    → provenance_ok (state_of (refusal grants)) (refusal grants) (provenance_of none) ≡ true
unfolding provenance_ok
refusal-provenance none = refl
refusal-provenance (some a) = refl

invoked_job-CanEnd :
    (q : Request) (d : GatewayDecision) (job : Job) (o : Outcome) (source : Text)
    → IsOpen q job
    → d.allowed ≡ true
    → is_denied o ≡ false
    → is_source source ≡ true
    → CanEnd q o (some source) (invoked_job q d job)
unfolding path_ok result_of
invoked_job-CanEnd q d job o source h allowed denied named =
    let (executing, execution, trace) = is_request_of_facts job q h.request in
    record {
      is_executing = executing;
      execution = execution;
      trace = trace;
      path = λ span id. ground (arith, h.no_model, allowed, denied);
      provenance = worker_outcome-provenance o source denied named;
    }

decided_job-CanEnd :
    (q : Request) (d : GatewayDecision) (job : Job) (grants : Option Grants)
    → IsOpen q job
    → d.allowed ≡ false
    → CanEnd q (refusal grants) none (decided_job q d job)
unfolding path_ok result_of
decided_job-CanEnd q d job grants h allowed =
    let (executing, execution, trace) = is_request_of_facts job q h.request in
    record {
      is_executing = executing;
      execution = execution;
      trace = trace;
      path = λ span id. ground (arith, h.no_model, h.unclaimed, allowed);
      provenance = refusal-provenance grants;
    }

-- How a request ends that the gateway decided on with these grants.
abbrev pub outcome_for : GatewayPorts → Request → Option Grants → Bool → Outcome
outcome_for g q grants true = worker_outcome (g.worker_execute q)
outcome_for g q grants false = refusal grants

-- The calls of the worker that this takes, before those that were made.
abbrev pub calls_for : Request → Bool → List PortCall → List PortCall
calls_for q true calls = worker_executed q ∷ calls
calls_for q false calls = calls

module _ (g : GatewayPorts) (quiet : AreUndisturbed g) (q : Request) (d : GatewayDecision)
    (valid : validate_request q ≡ true) (job : Job) (h : IsOpen q job) where
  finish_worker-Ends :
      (start : Text) (w : World)
      → d.allowed ≡ true
      → lookup q.job_id w.store.jobs ≡ some (invoked_job q d job)
      → Ends (worker_outcome (g.worker_execute q)) w.calls (finish_worker g q start w)
  unfolding finish_worker ◌>>=◌ next note append
  finish_worker-Ends start w allowed found = rw (await_none g.during_worker w quiet.working) (
      commit_terminal-Ends g quiet.ids quiet.commits q (worker_outcome (g.worker_execute q))
        (some g.worker_source) _ _ (invoked_job q d job) valid found
        (invoked_job-CanEnd q d job (worker_outcome (g.worker_execute q)) g.worker_source h allowed
          (worker_outcome-is_denied (g.worker_execute q)) quiet.worker_named))

  invoke_worker-Ends :
      (parent : Text) (w : World)
      → d.allowed ≡ true
      → lookup q.job_id w.store.jobs ≡ some (invoked_job q d job)
      → Ends
          (worker_outcome (g.worker_execute q))
          (worker_executed q ∷ w.calls)
          (invoke_worker g q parent w)
  unfolding invoke_worker ◌>>=◌ next note append record_call
  invoke_worker-Ends parent w allowed found = finish_worker-Ends _ _ allowed found

  claim_worker-Ends :
      (w : World)
      → d.allowed ≡ true
      → same_execution_binding q d ≡ true
      → lookup q.job_id w.store.jobs ≡ some (decided_job q d job)
      → Ends
          (worker_outcome (g.worker_execute q))
          (worker_executed q ∷ w.calls)
          (claim_worker g q d w)
  unfolding claim_worker ◌>>=◌ store_call
  claim_worker-Ends w allowed binding found =
      rw (call-worker g.claim_fails q d w.store job quiet.claims found h binding allowed) (
        invoke_worker-Ends d.span_id _ allowed
          (lookup-insert_self q.job_id (invoked_job q d job) w.store.jobs))

  -- The end of `enforce`, by the decision.
  decided-Ends :
      (grants : Option Grants) (b : Bool) (w : World)
      → d.allowed ≡ b
      → same_execution_binding q d ≡ true
      → lookup q.job_id w.store.jobs ≡ some (decided_job q d job)
      → Ends (outcome_for g q grants b) (calls_for q b w.calls) (
          (if b then claim_worker g q d else commit_terminal g q (refusal grants) none d.span_id) w)
  decided-Ends grants true w allowed binding found = claim_worker-Ends w allowed binding found
  decided-Ends grants false w refused binding found =
      commit_terminal-Ends g quiet.ids quiet.commits q (refusal grants) none d.span_id w
        (decided_job q d job) valid found (decided_job-CanEnd q d job grants h refused)

  pub enforce-Ends :
      (grants : Option Grants) (gate : Text) (w : World)
      → same_execution_binding q d ≡ true
      → validate_decision d ≡ true
      → lookup q.job_id w.store.jobs ≡ some job
      → Ends
          (outcome_for g q grants d.allowed)
          (calls_for q d.allowed w.calls)
          (enforce g q grants d gate w)
  unfolding enforce ◌>>=◌ store_call note append
  enforce-Ends grants gate w binding decision found =
      let stored = lookup-insert_self q.job_id (decided_job q d job) w.store.jobs in
      rw (call-decision q d w.store job found h valid decision binding)
        (decided-Ends grants d.allowed _ refl binding stored)
