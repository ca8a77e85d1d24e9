-- ===== src/Policy.antt =====
-- The policies of services/policy/src. A field of an object that a caller passes is a Value, which is
-- undefined where the object or the field is missing.
pub mod Allowed
mod Examples
use pixel_hq_oss.Common.{
  ℕ, Bool, true, false, not, ◌&&◌, ◌||◌, Option, none, some, List, Text, text, same_text, any_of,
  Value, is_text, same_value, if◌then◌else◌,
}

-- data-boundary-policy.js: its decision, with the reason of a denial.
pub data DataDecision : Type 0 where
  data_allowed : DataDecision
  no_identity finance_restricted not_granted : DataDecision

-- `grants` is nothing where it is no array.
pub record DataRequest : Type 0 where
  pub subject_id : Value
  pub department : Value
  pub grants : Option (List Value)
  pub action : Value
  pub domain : Value
  pub data_classification : Value

abbrev pub is_string : Value → Bool
is_string (Value.str t) = true
is_string _ = false

-- `Array.isArray(grants) && grants.includes(action)`
abbrev pub grants_action : Option (List Value) → Value → Bool
grants_action none action = false
grants_action (some grants) action = any_of (same_value action) grants

-- `evaluateDataAccess`
unfoldable pub evaluate_data_access : DataRequest → DataDecision
evaluate_data_access r =
    if not (is_string r.subject_id) || not (is_string r.department)
    then no_identity
    else if is_text r.domain (text "Finance & Opportunity")
        && is_text r.data_classification (text "RESTRICTED")
        && not (is_text r.department (text "Finance & Opportunity"))
    then finance_restricted
    else if not (grants_action r.grants r.action)
    then not_granted
    else data_allowed

-- memory-context-policy.js
pub data MemoryDecision : Type 0 where
  memory_allowed scope_mismatch restricted_scope_denied : MemoryDecision

-- `evaluateMemoryContextAccess`, on the scope's type and department, the handling, and the department
-- that asks.
unfoldable pub evaluate_memory_context_access : Value → Value → Value → Value → MemoryDecision
evaluate_memory_context_access scope_type scope_department handling department =
    if not (is_text scope_type (text "DEPARTMENT")) || not (same_value scope_department department)
    then (if is_text handling (text "RESTRICTED") then restricted_scope_denied else scope_mismatch)
    else memory_allowed

-- model-operation-policy.js: `evaluateModelOperationEligibility` on an execution with its four fields
-- and no other; the answer says whether it is ALLOW.
unfoldable pub evaluate_model_operation : Value → Value → Value → Value → Value → Bool
evaluate_model_operation operation job_type capability tool_class target =
    is_text operation (text "SYSTEM_STATUS_SUMMARY")
    && is_text job_type (text "system-status")
    && is_text capability (text "pixel.system-status.read")
    && is_text tool_class (text "pixel.system-status")
    && is_text target (text "pixel.platform")

-- model-routing-policy.js: an entry of ROUTES.
pub record Route : Type 0 where
  pub runtime_id : Text
  pub model_id : Text
  pub source : Text
  pub max_input_token_units : ℕ
  pub max_output_token_units : ℕ
  pub max_output_chars : ℕ

abbrev pub simulation_route : Route
simulation_route = record {
  runtime_id = text "pixel.simulator.model-runtime-a";
  model_id = text "pixel.fake-model-a.v1";
  source = text "simulator";
  max_input_token_units = 256;
  max_output_token_units = 64;
  max_output_chars = 512;
}

abbrev pub dev_route : Route
dev_route = record {
  runtime_id = text "pixel.simulator.model-runtime-b";
  model_id = text "pixel.fake-model-b.v1";
  source = text "simulator";
  max_input_token_units = 512;
  max_output_token_units = 96;
  max_output_chars = 512;
}

-- `selectAlphaModelRoute`: nothing is a denial.
unfoldable pub select_alpha_model_route : Text → Option Route
select_alpha_model_route environment =
    if same_text environment (text "simulation")
    then some simulation_route
    else if same_text environment (text "dev")
    then some dev_route
    else none

-- protected-app-policy.js: its decision, with the reason of a denial.
pub data AppDecision : Type 0 where
  access_allowed : AppDecision
  identity_not_verified device_not_enrolled device_revoked device_untrusted : AppDecision
  certificate_not_valid risk_not_acceptable app_not_permitted : AppDecision

-- `decision` is ALLOW, and not DENY.
unfoldable pub app_allowed : AppDecision → Bool
app_allowed access_allowed = true
app_allowed _ = false

pub record AppRequest : Type 0 where
  pub verification_status : Value
  pub role : Value
  pub enrollment_status : Value
  pub trust_status : Value
  pub certificate_status : Value
  pub risk_posture : Value
  pub app_id : Value
  pub capability : Value

-- `evaluateProtectedAppAccess`
unfoldable pub evaluate_protected_app_access : AppRequest → AppDecision
evaluate_protected_app_access r =
    if not (is_text r.verification_status (text "verified"))
    then identity_not_verified
    else if not (is_text r.enrollment_status (text "enrolled"))
    then device_not_enrolled
    else if is_text r.trust_status (text "revoked")
    then device_revoked
    else if not (is_text r.trust_status (text "trusted"))
    then device_untrusted
    else if not (is_text r.certificate_status (text "valid"))
    then certificate_not_valid
    else if not (is_text r.risk_posture (text "acceptable"))
    then risk_not_acceptable
    else if not (is_text r.role (text "Principal"))
        || not (is_text r.app_id (text "pixel-bench"))
        || not (is_text r.capability (text "launch"))
    then app_not_permitted
    else access_allowed
