-- ===== src/Relay/Request.antt =====
-- packages/contracts/src/job-v1.js: submissions, envelopes, execution requests and capability
-- decisions, and their validation. Fields that only hold a constant of the contract (event name,
-- schema version, contract names) are left out, and so is the check that a time is an ISO 8601 one; a
-- value without the shape of a record is no value of the record's type.
use pixel_hq_oss.Common.{
  Bool, true, false, not, ◌&&◌, ◌||◌, Option, none, some, Text, text, same_text, ◌==◌, length,
  all_of,
}
use pixel_hq_oss.Incident.Contract.{matches_identifier, is_trimmed}
use pixel_hq_oss.Relay.Contract.{is_hex_digit, is_hex_id, is_environment}

-- HASH
abbrev pub is_hash : Text → Bool
is_hash t = (length t == 64) && all_of is_hex_digit t

-- `hasText`
abbrev pub has_text : Text → Bool
has_text t = not (all_of is_trimmed t)

-- CAPABILITIES
abbrev pub is_capability : Text → Bool
is_capability t =
    same_text t (text "pixel.system-status.read")
    || same_text t (text "pixel.system-status.raw.read")

-- SOURCES
abbrev pub is_source : Text → Bool
is_source t = same_text t (text "simulator") || same_text t (text "live")

pub record WorkerBinding : Type 0 where
  pub worker_id : Text
  pub department_ref : Text
  pub role_ref : Text

pub record Owner : Type 0 where
  pub department_ref : Text
  pub role_ref : Text

-- What a request asks for.
pub record Execution : Type 0 where
  pub capability : Text
  pub tool_class : Text
  pub target : Text
  pub parameter_hash : Text
  pub worker_binding : WorkerBinding

-- `requester_id` is the requester's `subject_id`, `key` and `fingerprint` those of `idempotency`.
pub record Envelope : Type 0 where
  pub job_id : Text
  pub environment : Text
  pub trace_id : Text
  pub span_id : Text
  pub requester_id : Text
  pub owner : Owner
  pub job_type : Text
  pub requested_capability : Text
  pub execution : Execution
  pub key : Text
  pub fingerprint : Text
  pub context_source : Text

pub record Request : Type 0 where
  pub request_id : Text
  pub occurred_at : Text
  pub environment : Text
  pub trace_id : Text
  pub span_id : Text
  pub job_id : Text
  pub execution_id : Text
  pub execution : Execution

pub data DecisionReason : Type 0 where
  capability_granted capability_not_granted authorization_missing : DecisionReason

-- `allowed`: the decision is ALLOW, and not DENY.
pub record GatewayDecision : Type 0 where
  pub decision_id : Text
  pub decided_at : Text
  pub environment : Text
  pub trace_id : Text
  pub span_id : Text
  pub request_id : Text
  pub job_id : Text
  pub execution_id : Text
  pub execution : Execution
  pub allowed : Bool
  pub reason_code : DecisionReason
  pub policy_id : Option Text
  pub grant_source : Text

pub record SubmitIntent : Type 0 where
  pub idempotency_key : Text
  pub job_type : Text
  pub requested_capability : Text

-- `validateJobSubmitIntentV1(value).ok`
unfoldable pub validate_intent : SubmitIntent → Bool
validate_intent i =
    matches_identifier i.idempotency_key
    && same_text i.job_type (text "system-status")
    && is_capability i.requested_capability

-- `validateWorkerBinding`
unfoldable pub worker_binding_ok : WorkerBinding → Bool
worker_binding_ok b =
    matches_identifier b.worker_id && has_text b.department_ref && has_text b.role_ref

-- `validateExecution`, and the same checks in `validateExecutionRequestShape`.
unfoldable pub execution_ok : Execution → Bool
unfolding worker_binding_ok
execution_ok e =
    is_capability e.capability
    && same_text e.tool_class (text "pixel.system-status")
    && same_text e.target (text "pixel.platform")
    && is_hash e.parameter_hash
    && worker_binding_ok e.worker_binding

-- The checks of `validateCommon` that do not fall on constants or on the time.
abbrev pub common_ok : Text → Text → Text → Bool
common_ok environment trace_id span_id =
    is_environment environment && is_hex_id 32 trace_id && is_hex_id 16 span_id

-- `validateJobEnvelopeV1(value).ok`
unfoldable pub validate_envelope : Envelope → Bool
unfolding execution_ok
validate_envelope v =
    common_ok v.environment v.trace_id v.span_id
    && matches_identifier v.job_id
    && matches_identifier v.requester_id
    && has_text v.owner.department_ref
    && has_text v.owner.role_ref
    && same_text v.job_type (text "system-status")
    && is_capability v.requested_capability
    && execution_ok v.execution
    && same_text v.execution.capability v.requested_capability
    && matches_identifier v.key
    && is_hash v.fingerprint
    && is_source v.context_source

-- `validateToolExecutionRequestV1(value).ok`
unfoldable pub validate_request : Request → Bool
unfolding execution_ok
validate_request q =
    common_ok q.environment q.trace_id q.span_id
    && matches_identifier q.request_id
    && matches_identifier q.job_id
    && matches_identifier q.execution_id
    && execution_ok q.execution

-- `validReason`
abbrev pub is_valid_reason : Bool → DecisionReason → Bool
is_valid_reason true capability_granted = true
is_valid_reason true _ = false
is_valid_reason false capability_granted = false
is_valid_reason false _ = true

-- The check of `policy_id`.
abbrev pub policy_ok : Bool → Option Text → Bool
policy_ok allowed (some t) = matches_identifier t
policy_ok allowed none = not allowed

-- `validateToolCapabilityDecisionV1(value).ok`
unfoldable pub validate_decision : GatewayDecision → Bool
unfolding execution_ok
validate_decision d =
    common_ok d.environment d.trace_id d.span_id
    && matches_identifier d.decision_id
    && matches_identifier d.request_id
    && matches_identifier d.job_id
    && matches_identifier d.execution_id
    && execution_ok d.execution
    && is_valid_reason d.allowed d.reason_code
    && policy_ok d.allowed d.policy_id
    && is_source d.grant_source
