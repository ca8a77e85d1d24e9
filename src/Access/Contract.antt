-- ===== src/Access/Contract.antt =====
-- packages/contracts/src/access-v1.js and packages/adapter-sdk/src/access-context-providers.js: what
-- the access gate reads and makes, and its validation. A field that a client or a provider fills is a
-- Value; fields that only hold a constant, the target among them, are left out, and so are the texts
-- for the owner.
use pixel_hq_oss.Common.{
  ℕ, Bool, true, false, not, ◌&&◌, ◌||◌, Option, none, some, List, [], ◌∷◌, Text, text, contains,
  Value, str, is_text, is_none, is_some,
}
use pixel_hq_oss.Incident.Contract.{matches_identifier}
use pixel_hq_oss.Relay.Contract.{is_hex_id, is_environment}
use pixel_hq_oss.Relay.Request.{has_text}
use pixel_hq_oss.Policy.{AppDecision, access_allowed, AppRequest}

pub record AccessIntent : Type 0 where
  pub app_id : Value
  pub capability : Value

-- `validateProtectedAppIntentV1(value).ok`; nothing is a value that is no object with these fields.
unfoldable pub validate_app_intent : Option AccessIntent → Bool
validate_app_intent none = false
validate_app_intent (some i) =
    is_text i.app_id (text "pixel-bench") && is_text i.capability (text "launch")

-- `validateIdentifier`
unfoldable pub pixel_identifier_ok : Value → Bool
pixel_identifier_ok (str t) = has_text t && matches_identifier t
pixel_identifier_ok _ = false

-- `set.has(value)`
abbrev pub is_among : List Text → Value → Bool
is_among ts (str t) = contains t ts
is_among ts _ = false

abbrev pub verification_statuses : List Text
verification_statuses = text "verified" ∷ text "not_verified" ∷ text "unknown" ∷ []

abbrev pub enrollment_statuses : List Text
enrollment_statuses = text "enrolled" ∷ text "not_enrolled" ∷ text "unknown" ∷ []

abbrev pub trust_statuses : List Text
trust_statuses = text "trusted" ∷ text "untrusted" ∷ text "revoked" ∷ text "unknown" ∷ []

abbrev pub certificate_statuses : List Text
certificate_statuses = text "valid" ∷ text "not_valid" ∷ text "unknown" ∷ []

abbrev pub risk_postures : List Text
risk_postures = text "acceptable" ∷ text "not_acceptable" ∷ text "unknown" ∷ []

abbrev pub provider_sources : List Text
provider_sources = text "simulator" ∷ text "live" ∷ []

pub record IdentityContext : Type 0 where
  pub subject_id : Value
  pub identity_class : Value
  pub role : Value
  pub verification_status : Value
  pub provider_contract : Value
  pub source : Value

pub record DeviceContext : Type 0 where
  pub device_id : Value
  pub enrollment_status : Value
  pub trust_status : Value
  pub certificate_status : Value
  pub risk_posture : Value
  pub provider_contract : Value
  pub source : Value

-- `validateIdentityContext(value).ok`
unfoldable pub validate_identity : IdentityContext → Bool
validate_identity i =
    pixel_identifier_ok i.subject_id
    && is_text i.identity_class (text "human")
    && pixel_identifier_ok i.role
    && is_among verification_statuses i.verification_status
    && is_text i.provider_contract (text "pixel.identity-context-provider.v1")
    && is_among provider_sources i.source

-- `validateDeviceTrustContext(value).ok`
unfoldable pub validate_device : DeviceContext → Bool
validate_device d =
    pixel_identifier_ok d.device_id
    && is_among enrollment_statuses d.enrollment_status
    && is_among trust_statuses d.trust_status
    && is_among certificate_statuses d.certificate_status
    && is_among risk_postures d.risk_posture
    && is_text d.provider_contract (text "pixel.device-trust-provider.v1")
    && is_among provider_sources d.source

-- The request with its `provenance`, which is what the contexts say of their providers.
pub record AccessRequest : Type 0 where
  pub request_id : Text
  pub occurred_at : Option ℕ
  pub environment : Text
  pub trace_id : Text
  pub span_id : Text
  pub identity : IdentityContext
  pub device : DeviceContext

-- The contract's check that a trusted device is enrolled.
abbrev pub trusted_is_enrolled : DeviceContext → Bool
trusted_is_enrolled d =
    not (is_text d.trust_status (text "trusted")) || is_text d.enrollment_status (text "enrolled")

-- `validateAccessRequestV1(value).ok`
unfoldable pub validate_access_request : AccessRequest → Bool
validate_access_request q =
    pixel_identifier_ok (str q.request_id)
    && is_some q.occurred_at
    && is_environment q.environment
    && is_hex_id 32 q.trace_id
    && is_hex_id 16 q.span_id
    && validate_identity q.identity
    && validate_device q.device
    && trusted_is_enrolled q.device

-- What the policy reads of a request.
abbrev pub app_request : AccessRequest → AppRequest
app_request q = record {
  verification_status = q.identity.verification_status;
  role = q.identity.role;
  enrollment_status = q.device.enrollment_status;
  trust_status = q.device.trust_status;
  certificate_status = q.device.certificate_status;
  risk_posture = q.device.risk_posture;
  app_id = str (text "pixel-bench");
  capability = str (text "launch");
}

-- ACCESS_REASON_CODES: those of the policy, and the others.
pub data AccessReason : Type 0 where
  by_policy : AppDecision → AccessReason
  claim_rejected intent_invalid : AccessReason
  identity_unavailable device_unavailable context_invalid : AccessReason

-- `reason_code === 'ACCESS_ALLOWED'`
unfoldable pub is_allowing : AccessReason → Bool
is_allowing (by_policy access_allowed) = true
is_allowing _ = false

-- EARLY_DENIAL_REASONS
abbrev pub is_early : AccessReason → Bool
is_early (by_policy d) = false
is_early _ = true

-- `owner.state`
pub data OwnerState : Type 0 where
  ready protected : OwnerState

-- `ownerProjection`, without its texts.
abbrev pub owner_state : Bool → OwnerState
owner_state true = ready
owner_state false = protected

-- `allowed`: the decision is ALLOW, and not DENY.
pub record AccessDecision : Type 0 where
  pub decision_id : Text
  pub decided_at : Option ℕ
  pub environment : Text
  pub trace_id : Text
  pub span_id : Text
  pub request_id : Option Text
  pub allowed : Bool
  pub reason_code : AccessReason
  pub owner : OwnerState
  pub policy_id : Option Text

abbrev pub owner_ok : Bool → OwnerState → Bool
owner_ok true ready = true
owner_ok false protected = true
owner_ok _ _ = false

-- The decision and its reason.
abbrev pub reason_ok : Bool → AccessReason → Bool
reason_ok true reason = is_allowing reason
reason_ok false reason = not (is_allowing reason)

abbrev pub optional_identifier_ok : Option Text → Bool
optional_identifier_ok none = true
optional_identifier_ok (some t) = pixel_identifier_ok (str t)

abbrev pub optional_has_text : Option Text → Bool
optional_has_text none = false
optional_has_text (some t) = has_text t

-- What a decision carries of the request and the policy, by whether its reason is an early one.
abbrev pub references_ok : Bool → Option Text → Option Text → Bool
references_ok true request_id policy_id = is_none request_id && is_none policy_id
references_ok false request_id policy_id =
    optional_has_text request_id && optional_has_text policy_id

-- `validateAccessDecisionV1(value).ok`
unfoldable pub validate_access_decision : AccessDecision → Bool
validate_access_decision d =
    pixel_identifier_ok (str d.decision_id)
    && is_some d.decided_at
    && is_environment d.environment
    && is_hex_id 32 d.trace_id
    && is_hex_id 16 d.span_id
    && optional_identifier_ok d.request_id
    && owner_ok d.allowed d.owner
    && reason_ok d.allowed d.reason_code
    && references_ok (is_early d.reason_code) d.request_id d.policy_id
