-- ===== src/Relay/Gateway/Contracts.antt =====
-- The values of services/tool-gateway/src/tool-gateway.js: what the gateway is built with, its answers,
-- and the decisions, results and transitions that it makes from a request.
use pixel_hq_oss.Common.{Bool, true, false, Option, none, some, List, Text, text, str, null}
use pixel_hq_oss.Relay.Contract.{
  JobState, running, completed, failed, TransitionReason, execution_completed, capability_denied,
  authorization_unavailable, worker_failed, worker_result_invalid, Outcome, status_available,
  outcome_denied, outcome_unauthorized, worker_unavailable, result_invalid, Transition, Provenance,
  of_worker, Result,
}
use pixel_hq_oss.Relay.Request.{
  Request, DecisionReason, capability_granted, capability_not_granted, authorization_missing,
  GatewayDecision,
}
use pixel_hq_oss.Relay.Job.{Job}
use pixel_hq_oss.Relay.Methods.{Reply}
use pixel_hq_oss.Relay.Store.{StoreOperation}
use pixel_hq_oss.Relay.Action.{Sources, EvidenceOutcome, success}
use pixel_hq_oss.Relay.Gateway.Context.{AuthorizationContext, Grants, is_granted, WorkerAnswer}

-- What the gateway is built with. `during_…` is what others do with the store while the dependency is
-- awaited; the last two are the faults of the store's adapter.
pub record GatewayPorts : Type 0 where
  pub environment : Text
  pub sources : Sources
  pub grant_source : Text
  pub resolve_capabilities : AuthorizationContext → Option Grants
  pub during_resolve : List StoreOperation
  pub worker_source : Text
  pub worker_execute : Request → Option WorkerAnswer
  pub during_worker : List StoreOperation
  pub claim_fails : Bool
  pub commit_fails : Bool

-- The `disposition` of an answer: UNAVAILABLE, the final state, or that of the refused claim.
pub data Disposition : Type 0 where
  unavailable : Disposition
  finished : JobState → Disposition
  unclaimed : Reply → Disposition

pub record GatewayReply : Type 0 where
  pub disposition : Disposition
  pub job : Option Job

-- SUMMARY_BY_OUTCOME
abbrev pub summary_of : Outcome → Text
summary_of status_available = text "Pixel system status is available."
summary_of outcome_denied = text "Pixel denied this job capability before tool execution."
summary_of outcome_unauthorized = text "Pixel could not verify this job capability."
summary_of worker_unavailable = text "Pixel could not retrieve system status."
summary_of result_invalid = text "Pixel rejected an invalid worker result."

-- `reasonCode` of the final transition.
abbrev pub reason_of : Outcome → TransitionReason
reason_of status_available = execution_completed
reason_of outcome_denied = capability_denied
reason_of outcome_unauthorized = authorization_unavailable
reason_of worker_unavailable = worker_failed
reason_of result_invalid = worker_result_invalid

abbrev pub state_of : Outcome → JobState
state_of status_available = completed
state_of _ = failed

abbrev pub provenance_of : Option Text → Provenance
provenance_of none = of_worker null null
provenance_of (some source) = of_worker (str (text "pixel.system-status-worker.v1")) (str source)

-- `reasonCode` of the decision.
abbrev pub decision_reason : Option Grants → Bool → DecisionReason
decision_reason grants true = capability_granted
decision_reason none false = authorization_missing
decision_reason (some g) false = capability_not_granted

abbrev pub policy_of : Option Grants → Option Text
policy_of none = none
policy_of (some g) = some g.policy_id

abbrev pub evidence_of : Bool → EvidenceOutcome → EvidenceOutcome
evidence_of true e = success
evidence_of false e = e

-- `#decision`, with the identifiers and the time that it is given.
unfoldable pub decision_of : Text → Text → Text → Text → Request → Option Grants → GatewayDecision
unfolding is_granted
decision_of source id time span q grants = record {
  decision_id = id;
  decided_at = time;
  environment = q.environment;
  trace_id = q.trace_id;
  span_id = span;
  request_id = q.request_id;
  job_id = q.job_id;
  execution_id = q.execution_id;
  execution = q.execution;
  allowed = is_granted q grants;
  reason_code = decision_reason grants (is_granted q grants);
  policy_id = policy_of grants;
  grant_source = source;
}

-- `#terminalContracts`: the result.
unfoldable pub result_of : Text → Text → Request → Outcome → Option Text → Result
result_of span id q outcome source = record {
  result_id = id;
  job_id = q.job_id;
  execution_id = q.execution_id;
  state = state_of outcome;
  outcome_code = outcome;
  summary = summary_of outcome;
  environment = q.environment;
  trace_id = q.trace_id;
  span_id = span;
  provenance = provenance_of source;
}

-- `#terminalContracts`: the transition.
unfoldable pub transition_of : Text → Text → Request → Outcome → Transition
transition_of id span q outcome = record {
  transition_id = id;
  job_id = q.job_id;
  execution_id = some q.execution_id;
  from_state = running;
  to_state = state_of outcome;
  reason_code = reason_of outcome;
  environment = q.environment;
  trace_id = q.trace_id;
  span_id = span;
}
