-- ===== src/Relay/Gateway/Context.antt =====
-- services/tool-gateway/src/tool-gateway.js: what it asks the grant provider and what it takes from the
-- answers of the provider and the worker, with their checks in
-- packages/adapter-sdk/src/job-runtime-adapters.js. A value without the shape of a record is no value
-- of the record's type.
use pixel_hq_oss.Common.{
  Bool, true, false, not, ◌&&◌, ◌||◌, Option, none, some, List, [], ◌∷◌, Text, text, same_text,
  contains, Value, is_text, all_of, if◌then◌else◌,
}
use pixel_hq_oss.Incident.Contract.{matches_identifier}
use pixel_hq_oss.Relay.Contract.{
  JobState, is_running, Outcome, status_available, worker_unavailable, result_invalid,
  is_environment,
}
use pixel_hq_oss.Relay.Request.{has_text, is_source, Owner, Execution, execution_ok, Request}
use pixel_hq_oss.Relay.Job.{Job, is_execution, same_execution}
use pixel_hq_oss.Relay.Methods.{same_state}

pub record AuthorizationContext : Type 0 where
  pub job_id : Text
  pub execution_id : Text
  pub requester_id : Text
  pub owner : Owner
  pub current_state : JobState
  pub environment : Text
  pub job_type : Text
  pub execution : Execution

-- `validateCapabilityAuthorizationContext(value).ok`
unfoldable pub validate_authorization : AuthorizationContext → Bool
unfolding execution_ok
validate_authorization c =
    matches_identifier c.job_id
    && matches_identifier c.execution_id
    && matches_identifier c.requester_id
    && has_text c.owner.department_ref
    && has_text c.owner.role_ref
    && same_text c.owner.department_ref c.execution.worker_binding.department_ref
    && same_text c.owner.role_ref c.execution.worker_binding.role_ref
    && is_running c.current_state
    && is_environment c.environment
    && same_text c.job_type (text "system-status")
    && execution_ok c.execution

-- The guards of `authorizationContextFor` on the job that the store has.
unfoldable pub is_request_of : Job → Request → Bool
unfolding same_execution
is_request_of job q =
    is_running job.current_state
    && is_execution q.execution_id job.execution_id
    && same_text job.envelope.job_id q.job_id
    && same_text job.envelope.trace_id q.trace_id
    && same_text job.envelope.environment q.environment
    && same_execution job.envelope.execution q.execution

-- The job's execution is the request's where this is used.
unfoldable pub context_of : Job → Request → AuthorizationContext
context_of job q = record {
  job_id = job.envelope.job_id;
  execution_id = q.execution_id;
  requester_id = job.envelope.requester_id;
  owner = job.envelope.owner;
  current_state = job.current_state;
  environment = job.envelope.environment;
  job_type = job.envelope.job_type;
  execution = job.envelope.execution;
}

-- `authorizationContextFor`
unfoldable pub authorization_context_for : Option Job → Request → Option AuthorizationContext
unfolding is_request_of context_of validate_authorization
authorization_context_for none q = none
authorization_context_for (some job) q =
    if is_request_of job q && validate_authorization (context_of job q)
    then some (context_of job q)
    else none

-- `sameRecord(authorizationContext, currentContext)`
unfoldable pub same_context : AuthorizationContext → Option AuthorizationContext → Bool
unfolding same_execution
same_context a none = false
same_context a (some b) =
    same_text a.job_id b.job_id
    && same_text a.execution_id b.execution_id
    && same_text a.requester_id b.requester_id
    && same_text a.owner.department_ref b.owner.department_ref
    && same_text a.owner.role_ref b.owner.role_ref
    && same_state a.current_state b.current_state
    && same_text a.environment b.environment
    && same_text a.job_type b.job_type
    && same_execution a.execution b.execution

-- What `resolveCapabilities` answers.
pub record Grants : Type 0 where
  pub capabilities : List Text
  pub policy_id : Text
  pub provider_contract : Text
  pub source : Text

-- `new Set(texts).size === texts.length`
unfoldable pub are_distinct : List Text → Bool
unfolding contains
are_distinct [] = true
are_distinct (t ∷ ts) = not (contains t ts) && are_distinct ts

-- `validateCapabilityGrantContext(value).ok`
unfoldable pub validate_grants : Grants → Bool
unfolding are_distinct
validate_grants g =
    all_of matches_identifier g.capabilities
    && are_distinct g.capabilities
    && matches_identifier g.policy_id
    && same_text g.provider_contract (text "pixel.capability-grant-provider.v1")
    && is_source g.source

-- The grants that `execute` may use, from the provider's answer (nothing when it throws) and the
-- contexts before and after it.
unfoldable pub usable_grants :
    Text → AuthorizationContext → Option AuthorizationContext → Option Grants → Option Grants
unfolding validate_grants same_context
usable_grants source before now none = none
usable_grants source before now (some g) =
    if not (validate_grants g) || not (same_text g.source source) || not (same_context before now)
    then none
    else some g

-- `allowed`, where no usable grants are an authorization that is unavailable.
unfoldable pub is_granted : Request → Option Grants → Bool
unfolding contains
is_granted q none = false
is_granted q (some g) =
    same_text q.execution.capability (text "pixel.system-status.read")
    && contains q.execution.capability g.capabilities

-- What the worker answers: a record with an `outcome_code` and no other field, or anything else.
pub data WorkerAnswer : Type 0 where
  coded : Value → WorkerAnswer
  shapeless : WorkerAnswer

-- `validateWorkerOutcome(value).ok`
unfoldable pub validate_worker_answer : WorkerAnswer → Bool
validate_worker_answer (coded v) =
    is_text v (text "SYSTEM_STATUS_AVAILABLE") || is_text v (text "WORKER_UNAVAILABLE")
validate_worker_answer shapeless = false

abbrev pub code_of : WorkerAnswer → Outcome
code_of (coded v) =
    if is_text v (text "SYSTEM_STATUS_AVAILABLE") then status_available else worker_unavailable
code_of shapeless = result_invalid

-- `outcomeCode`, from what the worker answers, or nothing when it throws.
unfoldable pub worker_outcome : Option WorkerAnswer → Outcome
unfolding validate_worker_answer
worker_outcome none = worker_unavailable
worker_outcome (some a) = if validate_worker_answer a then code_of a else result_invalid
