-- ===== src/Access.antt =====
-- services/access-gate/src/access-gate.js.
pub mod Contract
pub mod Allowed
pub mod Decides
mod Examples
use pixel_hq_oss.Common.{
  ℕ, ◌+◌, Bool, true, false, ◌&&◌, Option, none, some, List, ◌∷◌, Text, text, is_text, is_some,
  if◌then◌else◌,
}
use pixel_hq_oss.Relay.Contract.{is_hex_id}
use pixel_hq_oss.Relay.Action.{EvidenceOutcome, success, denied, Evidence}
use pixel_hq_oss.Policy.{AppDecision, app_allowed, evaluate_protected_app_access}
use pixel_hq_oss.Access.Contract.{
  AccessIntent, validate_app_intent, IdentityContext, validate_identity, DeviceContext,
  validate_device, AccessRequest, validate_access_request, app_request, AccessReason, by_policy,
  claim_rejected, intent_invalid, identity_unavailable, device_unavailable, context_invalid,
  is_allowing, AccessDecision, owner_state, validate_access_decision,
}

-- What the gate is built with. Identifiers and times are functions of the number of identifiers issued;
-- a time that is no timestamp is nothing. A provider's answer is nothing where it throws or is no
-- object.
pub record GatePorts : Type 0 where
  pub environment : Text
  pub trace_id : ℕ → Text
  pub span_id : ℕ → Text
  pub event_id : ℕ → Text
  pub clock : ℕ → Option ℕ
  pub identity_source : Text
  pub resolve_identity : Option IdentityContext
  pub device_source : Text
  pub resolve_device : Option DeviceContext

-- `evidence` has the latest entry first.
pub record GateState : Type 0 where
  pub issued : ℕ
  pub evidence : List Evidence

-- A decision, or nothing where the method throws.
abbrev pub GateReply : Type 0
GateReply = Option AccessDecision × GateState

abbrev pub issue_ids : ℕ → GateState → GateState
issue_ids n s = record s { issued = s.issued + n }

abbrev pub optional_span_ok : Option Text → Bool
optional_span_ok none = true
optional_span_ok (some span) = is_hex_id 16 span

-- What `append` of packages/telemetry/src/evidence-recorder.js asks of the identifiers.
abbrev pub is_recordable : Text → Text → Option Text → Bool
is_recordable trace span parent = is_hex_id 32 trace && is_hex_id 16 span && optional_span_ok parent

-- The state with one more entry of evidence.
abbrev pub with_evidence :
    Text → Text → Option Text → Text → EvidenceOutcome → GateState → GateState
with_evidence trace span parent name outcome s = record s {
  evidence =
      record {
        trace_id = trace;
        span_id = span;
        parent_span_id = parent;
        event_name = name;
        outcome = outcome;
      }
      ∷ s.evidence;
}

-- `#append`, and what follows it; the recorder throws on malformed identifiers.
unfoldable pub append_evidence :
    Text
    → Text
    → Option Text
    → Text
    → EvidenceOutcome
    → GateState
    → (GateState → GateReply)
    → GateReply
append_evidence trace span parent name outcome s next =
    if is_recordable trace span parent
    then next (with_evidence trace span parent name outcome s)
    else (none, s)

abbrev pub outcome_of : Bool → EvidenceOutcome
outcome_of true = success
outcome_of false = denied

-- The decision that `#issueDecision` makes, from a decision (whether it is ALLOW) and a reason.
unfoldable pub make_access_decision :
    GatePorts → Text → Option Text → Option Text → Bool → AccessReason → ℕ → AccessDecision
make_access_decision p trace request_id policy_id allowed reason n = record {
  decision_id = p.event_id (n + 1);
  decided_at = p.clock (n + 2);
  environment = p.environment;
  trace_id = trace;
  span_id = p.span_id n;
  request_id = request_id;
  allowed = allowed;
  reason_code = reason;
  owner = owner_state allowed;
  policy_id = policy_id;
}

-- `#issueDecision`
unfoldable pub issue_decision :
    GatePorts
    → Text
    → Text
    → Option Text
    → Option Text
    → Bool
    → AccessReason
    → GateState
    → GateReply
issue_decision p trace parent request_id policy_id allowed reason s =
    let d = make_access_decision p trace request_id policy_id allowed reason s.issued in
    if validate_access_decision d
    then append_evidence trace d.span_id (some parent) (text "access.decision.issued")
        (outcome_of allowed) (issue_ids 2 s) (λ t. (some d, t))
    else (none, issue_ids 2 s)

-- The event of an early denial, and its decision.
unfoldable pub deny : GatePorts → Text → Text → Text → AccessReason → GateState → GateReply
deny p trace parent name reason s =
    let span = p.span_id s.issued in
    append_evidence trace span (some parent) name denied (issue_ids 1 s)
      (issue_decision p trace span none none false reason)

unfoldable pub decide_by_policy : GatePorts → Text → AccessRequest → GateState → GateReply
decide_by_policy p trace q s =
    let decision = evaluate_protected_app_access (app_request q) in
    let span = p.span_id s.issued in
    append_evidence trace span (some q.span_id) (text "policy.protected_app.evaluated")
      (outcome_of (app_allowed decision)) (issue_ids 1 s)
      (issue_decision p trace span (some q.request_id) (some (text "pixel.protected-app-access.v1"))
        (app_allowed decision) (by_policy decision))

-- The request that `evaluate` makes.
unfoldable pub make_access_request :
    GatePorts → Text → IdentityContext → DeviceContext → ℕ → AccessRequest
make_access_request p trace i d n = record {
  request_id = p.event_id (n + 1);
  occurred_at = p.clock (n + 2);
  environment = p.environment;
  trace_id = trace;
  span_id = p.span_id n;
  identity = i;
  device = d;
}

unfoldable pub evaluate_contexts :
    GatePorts → Text → Text → IdentityContext → DeviceContext → GateState → GateReply
evaluate_contexts p trace parent i d s =
    let q = make_access_request p trace i d s.issued in
    if validate_access_request q
    then append_evidence trace q.span_id (some parent) (text "contract.access_request.validated")
        success (issue_ids 2 s) (decide_by_policy p trace q)
    else append_evidence trace q.span_id (some parent)
        (text "contract.access_request.validation_failed") denied (issue_ids 2 s)
        (issue_decision p trace q.span_id none none false context_invalid)

-- A valid answer from the provider's own source.
unfoldable pub usable_identity : Text → Option IdentityContext → Option IdentityContext
usable_identity source none = none
usable_identity source (some i) =
    if validate_identity i && is_text i.source source then some i else none

unfoldable pub usable_device : Text → Option DeviceContext → Option DeviceContext
usable_device source none = none
usable_device source (some d) =
    if validate_device d && is_text d.source source then some d else none

abbrev pub with_device :
    GatePorts → Text → Text → IdentityContext → Option DeviceContext → GateState → GateReply
with_device p trace parent i none s =
    deny p trace parent (text "device_trust.context.resolution_failed") device_unavailable s
with_device p trace parent i (some d) s =
    let span = p.span_id s.issued in
    append_evidence trace span (some parent) (text "device_trust.context.resolved") success
      (issue_ids 1 s) (evaluate_contexts p trace span i d)

abbrev pub with_identity : GatePorts → Text → Text → Option IdentityContext → GateState → GateReply
with_identity p trace parent none s =
    deny p trace parent (text "identity.context.resolution_failed") identity_unavailable s
with_identity p trace parent (some i) s =
    let span = p.span_id s.issued in
    append_evidence trace span (some parent) (text "identity.context.resolved") success
      (issue_ids 1 s) (with_device p trace span i (usable_device p.device_source p.resolve_device))

-- The part of `evaluate` after its first event: whether an authority claim was detected, and the intent.
unfoldable pub evaluate_intent :
    GatePorts → Text → Text → Bool → Option AccessIntent → GateState → GateReply
evaluate_intent p trace root claimed intent s =
    if claimed
    then deny p trace root (text "client.authority_claim.detected") claim_rejected s
    else if validate_app_intent intent
    then with_identity p trace root (usable_identity p.identity_source p.resolve_identity) s
    else deny p trace root (text "client.intent.rejected") intent_invalid s

-- `evaluate`
unfoldable pub evaluate_access : GatePorts → Bool → Option AccessIntent → GateState → GateReply
evaluate_access p claimed intent s =
    let trace = p.trace_id s.issued in
    let root = p.span_id (s.issued + 1) in
    append_evidence trace root none (text "access.evaluation.started") success (issue_ids 2 s)
      (evaluate_intent p trace root claimed intent)
