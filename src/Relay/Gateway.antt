-- ===== src/Relay/Gateway.antt =====
-- services/tool-gateway/src/tool-gateway.js: the methods of `ToolGateway`. The grant provider and the
-- worker are given by their answers, and by what others do with the store while an answer is awaited.
pub mod Context
pub mod Contracts
pub mod Keeps
pub mod Once
pub mod Ready
pub mod Ends
pub mod Open
pub mod Outcomes
pub mod Refines
pub mod Expected
pub mod Executed
use pixel_hq_oss.Common.{
  ℕ, Bool, true, false, not, Option, none, some, Text, text, same_text, is_some, is_none,
  if◌then◌else◌,
}
use pixel_hq_oss.Relay.Contract.{
  is_completed, Outcome, status_available, outcome_denied, outcome_unauthorized, Transition,
  validate_transition, Result, validate_result,
}
use pixel_hq_oss.Relay.Request.{Request, validate_request, GatewayDecision, validate_decision}
use pixel_hq_oss.Relay.Job.{Job, same_execution_binding}
use pixel_hq_oss.Relay.Methods.{Reply, recorded, invoke_now, committed}
use pixel_hq_oss.Relay.Calls.{decision_call, worker_call, commit_call}
use pixel_hq_oss.Relay.Action.{
  EvidenceOutcome, success, failure, denied, capabilities_resolved, worker_executed, World, Action,
  pure, ◌>>=◌, ◌>>◌, assert, next, append, record_call, get_job, store_call, await, gets,
}
use pixel_hq_oss.Relay.Gateway.Context.{
  AuthorizationContext, authorization_context_for, Grants, usable_grants, is_granted,
  worker_outcome,
}
use pixel_hq_oss.Relay.Gateway.Contracts.{
  GatewayPorts, Disposition, unavailable, finished, unclaimed, GatewayReply, state_of, evidence_of,
  decision_of, result_of, transition_of,
}

abbrev pub is_recorded_reply : Reply → Bool
is_recorded_reply recorded = true
is_recorded_reply _ = false

abbrev pub is_invoke_now_reply : Reply → Bool
is_invoke_now_reply invoke_now = true
is_invoke_now_reply _ = false

abbrev pub is_committed_reply : Reply → Bool
is_committed_reply committed = true
is_committed_reply _ = false

abbrev pub is_available : Outcome → Bool
is_available status_available = true
is_available _ = false

-- The outcome of a request that is not granted.
abbrev pub refusal : Option Grants → Outcome
refusal none = outcome_unauthorized
refusal (some g) = outcome_denied

module _ (g : GatewayPorts) where
  -- `this.#append`, on the request's trace.
  unfoldable pub note : Request → Text → Text → Text → EvidenceOutcome → Action (Unit {0})
  note q span parent event outcome = append (record {
    trace_id = q.trace_id;
    span_id = span;
    parent_span_id = some parent;
    event_name = event;
    outcome = outcome;
  })

  -- The answer UNAVAILABLE with the job as it is.
  unfoldable pub give_up : Request → Action GatewayReply
  give_up q = do job ← get_job q.job_id; pure (record { disposition = unavailable; job = job })

  -- `#decision`
  unfoldable pub make_decision : Request → Option Grants → Action GatewayDecision
  make_decision q grants = do
    id ← next g.sources.event_id
    time ← gets (λ w. g.sources.clock w.issued)
    span ← next g.sources.span_id
    assert (validate_decision (decision_of g.grant_source id time span q grants))
    pure (decision_of g.grant_source id time span q grants)

  -- `#terminalContracts`
  unfoldable pub terminal_result : Request → Outcome → Option Text → Action Result
  terminal_result q outcome source = do
    span ← next g.sources.span_id
    id ← next g.sources.event_id
    assert (validate_result (result_of span id q outcome source))
    pure (result_of span id q outcome source)

  unfoldable pub terminal_transition : Request → Outcome → Action Transition
  terminal_transition q outcome = do
    id ← next g.sources.event_id
    span ← next g.sources.span_id
    assert (validate_transition (transition_of id span q outcome))
    pure (transition_of id span q outcome)

  -- `#commitTerminal`, after the commit.
  unfoldable pub project : Request → Result → Transition → Text → Action GatewayReply
  project q r t parent = do
    note q r.span_id parent (text "job.result.projected")
        (evidence_of (is_completed r.state) failure)
    note q t.span_id r.span_id
        (if is_completed r.state then text "relay.job.completed" else text "relay.job.failed")
        (evidence_of (is_completed r.state) failure)
    job ← get_job q.job_id
    pure (record { disposition = finished r.state; job = job })

  -- `#commitTerminal`
  unfoldable pub commit_terminal : Request → Outcome → Option Text → Text → Action GatewayReply
  commit_terminal q outcome source parent = do
    r ← terminal_result q outcome source
    t ← terminal_transition q outcome
    span ← next g.sources.span_id
    note q span parent (text "contract.job_result.validated") success
    reply ← store_call q.job_id (commit_call g.commit_fails t r)
    if is_committed_reply reply then project q r t span else give_up q

  -- The part of `execute` that asks the provider.
  unfoldable pub resolve_with : Request → Option AuthorizationContext → Action (Option Grants)
  resolve_with q none = pure none
  resolve_with q (some context) = do
    record_call (capabilities_resolved context.job_id)
    await g.during_resolve
    job ← get_job q.job_id
    pure (
        usable_grants g.grant_source context (authorization_context_for job q)
          (g.resolve_capabilities context))

  unfoldable pub resolve_grants : Request → Action (Option Grants)
  resolve_grants q = do job ← get_job q.job_id; resolve_with q (authorization_context_for job q)

  -- The part of `execute` after the call of the worker.
  unfoldable pub finish_worker : Request → Text → Action GatewayReply
  finish_worker q start = do
    await g.during_worker
    end ← next g.sources.span_id
    note q end start (text "worker.execution.finished")
        (evidence_of (is_available (worker_outcome (g.worker_execute q))) failure)
    commit_terminal q (worker_outcome (g.worker_execute q)) (some g.worker_source) end

  -- The part of `execute` after the claim of the invocation.
  unfoldable pub invoke_worker : Request → Text → Action GatewayReply
  invoke_worker q parent = do
    start ← next g.sources.span_id
    note q start parent (text "worker.execution.started") success
    record_call (worker_executed q)
    finish_worker q start

  unfoldable pub claim_worker : Request → GatewayDecision → Action GatewayReply
  claim_worker q d = do
    reply ← store_call q.job_id (worker_call g.claim_fails q d)
    if is_invoke_now_reply reply
        then invoke_worker q d.span_id
        else do job ← get_job q.job_id; pure (record { disposition = unclaimed reply; job = job })

  -- The part of `execute` after the decision.
  unfoldable pub enforce : Request → Option Grants → GatewayDecision → Text → Action GatewayReply
  enforce q grants d gate = do
    note q d.span_id gate
        (if d.allowed then text "tool.capability.allowed" else text "tool.capability.denied")
        (evidence_of d.allowed denied)
    reply ← store_call q.job_id (decision_call q d)
    if not (is_recorded_reply reply)
        then give_up q
        else if d.allowed
        then claim_worker q d
        else commit_terminal q (refusal grants) none d.span_id

  -- The part of `execute` that decides.
  unfoldable pub judge : Request → Text → Action GatewayReply
  judge q gate = do
    grants ← resolve_grants q
    d ← make_decision q grants
    if same_execution_binding q d then enforce q grants d gate else give_up q

  unfoldable pub evaluate_request : Request → Text → Action GatewayReply
  evaluate_request q parent = do
    gate ← next g.sources.span_id
    note q gate parent (text "tool_gateway.evaluation.started") success
    judge q gate

  -- `execute`
  unfoldable pub gateway_execute : Request → Text → Action GatewayReply
  gateway_execute q parent = do
    assert (validate_request q)
    if same_text q.environment g.environment then evaluate_request q parent else give_up q
