-- ===== src/Relay/Job.antt =====
-- One job of adapters/simulator/src/relay-store-simulator-adapter.js and what the store's methods do
-- with it. A model invocation comes with the outcome of its own contract's check (`is_valid`) and, for
-- the comparison of whole records, with the text of its other fields (`rest`).
use pixel_hq_oss.Common.{
  ℕ, Bool, true, false, not, ◌&&◌, Option, none, some, List, Text, same_text, if◌then◌else◌,
}
use pixel_hq_oss.Relay.Contract.{JobState, Transition, Result}
use pixel_hq_oss.Relay.Request.{
  WorkerBinding, Execution, Envelope, Request, DecisionReason, capability_granted,
  capability_not_granted, authorization_missing, GatewayDecision,
}

pub record Invocation : Type 0 where
  pub is_valid : Bool
  pub invocation_id : Text
  pub job_id : Text
  pub execution_id : Text
  pub environment : Text
  pub trace_id : Text
  pub job_type : Text
  pub capability : Text
  pub tool_class : Text
  pub target : Text
  pub pixel_agent_binding : WorkerBinding
  pub rest : Text

-- A job of the store.
pub record Job : Type 0 where
  pub envelope : Envelope
  pub current_state : JobState
  pub execution_id : Option Text
  pub transitions : List Transition
  pub execution_request : Option Request
  pub gateway_decision : Option GatewayDecision
  pub invocation_claimed : Bool
  pub model_context_claimed : Bool
  pub model_invocation : Option Invocation
  pub model_invocation_claimed : Bool
  pub result : Option Result
  pub revision : ℕ

-- `sameWorkerBinding`
unfoldable pub same_worker_binding : WorkerBinding → WorkerBinding → Bool
same_worker_binding a b =
    same_text a.worker_id b.worker_id
    && same_text a.department_ref b.department_ref
    && same_text a.role_ref b.role_ref

unfoldable pub same_execution : Execution → Execution → Bool
unfolding same_worker_binding
same_execution a b =
    same_text a.capability b.capability
    && same_text a.tool_class b.tool_class
    && same_text a.target b.target
    && same_text a.parameter_hash b.parameter_hash
    && same_worker_binding a.worker_binding b.worker_binding

-- `sameExecutionBinding`
unfoldable pub same_execution_binding : Request → GatewayDecision → Bool
unfolding same_execution
same_execution_binding q d =
    same_text q.request_id d.request_id
    && same_text q.job_id d.job_id
    && same_text q.execution_id d.execution_id
    && same_text q.environment d.environment
    && same_execution q.execution d.execution

abbrev pub same_flag : Bool → Bool → Bool
same_flag a b = if a then b else not b

abbrev pub same_reason : DecisionReason → DecisionReason → Bool
same_reason capability_granted capability_granted = true
same_reason capability_not_granted capability_not_granted = true
same_reason authorization_missing authorization_missing = true
same_reason _ _ = false

abbrev pub same_option : Option Text → Option Text → Bool
same_option none none = true
same_option (some a) (some b) = same_text a b
same_option _ _ = false

-- `sameRecord`, on requests, decisions and invocations.
unfoldable pub same_request : Request → Request → Bool
unfolding same_execution
same_request a b =
    same_text a.request_id b.request_id
    && same_text a.occurred_at b.occurred_at
    && same_text a.environment b.environment
    && same_text a.trace_id b.trace_id
    && same_text a.span_id b.span_id
    && same_text a.job_id b.job_id
    && same_text a.execution_id b.execution_id
    && same_execution a.execution b.execution

unfoldable pub same_decision : GatewayDecision → GatewayDecision → Bool
unfolding same_execution
same_decision a b =
    same_text a.decision_id b.decision_id
    && same_text a.decided_at b.decided_at
    && same_text a.environment b.environment
    && same_text a.trace_id b.trace_id
    && same_text a.span_id b.span_id
    && same_text a.request_id b.request_id
    && same_text a.job_id b.job_id
    && same_text a.execution_id b.execution_id
    && same_execution a.execution b.execution
    && same_flag a.allowed b.allowed
    && same_reason a.reason_code b.reason_code
    && same_option a.policy_id b.policy_id
    && same_text a.grant_source b.grant_source

unfoldable pub same_invocation : Invocation → Invocation → Bool
unfolding same_worker_binding
same_invocation a b =
    same_text a.invocation_id b.invocation_id
    && same_text a.job_id b.job_id
    && same_text a.execution_id b.execution_id
    && same_text a.environment b.environment
    && same_text a.trace_id b.trace_id
    && same_text a.job_type b.job_type
    && same_text a.capability b.capability
    && same_text a.tool_class b.tool_class
    && same_text a.target b.target
    && same_worker_binding a.pixel_agent_binding b.pixel_agent_binding
    && same_text a.rest b.rest

abbrev pub is_execution : Text → Option Text → Bool
is_execution t none = false
is_execution t (some u) = same_text t u

-- `matchesEnvelope`
unfoldable pub matches_envelope : Job → Request → Bool
unfolding same_execution
matches_envelope job q =
    same_text q.job_id job.envelope.job_id
    && is_execution q.execution_id job.execution_id
    && same_text q.environment job.envelope.environment
    && same_text q.trace_id job.envelope.trace_id
    && same_execution q.execution job.envelope.execution

-- `matchesModelEnvelope`
unfoldable pub matches_model_envelope : Job → Invocation → Bool
unfolding same_worker_binding
matches_model_envelope job i =
    same_text i.job_id job.envelope.job_id
    && is_execution i.execution_id job.execution_id
    && same_text i.environment job.envelope.environment
    && same_text i.trace_id job.envelope.trace_id
    && same_text i.job_type job.envelope.job_type
    && same_text i.capability job.envelope.execution.capability
    && same_text i.tool_class job.envelope.execution.tool_class
    && same_text i.target job.envelope.execution.target
    && same_worker_binding i.pixel_agent_binding job.envelope.execution.worker_binding
