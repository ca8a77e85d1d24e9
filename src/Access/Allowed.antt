-- ===== src/Access/Allowed.antt =====
-- When the access gate allows.
use pixel_hq_oss.Common.{
  ◌≡◌, sym, ◌∙◌, refl, Bool, true, false, ◌&&◌, Option, none, some, arith, Text, text, is_text, str,
  if◌then◌else◌,
}
use pixel_hq_oss.Relay.Action.{EvidenceOutcome}
use pixel_hq_oss.Policy.{AppDecision, app_allowed, access_allowed, evaluate_protected_app_access}
use pixel_hq_oss.Policy.Allowed.{evaluate_protected_app_access_iff}
use pixel_hq_oss.Access.Contract.{
  AccessIntent, validate_app_intent, IdentityContext, validate_identity, DeviceContext,
  validate_device, AccessRequest, validate_access_request, app_request, AccessReason,
  validate_access_decision, AccessDecision,
}
use pixel_hq_oss.Access.{
  GatePorts, GateState, GateReply, evaluate_intent, append_evidence, with_evidence, is_recordable,
  make_access_decision, issue_decision, deny, decide_by_policy, make_access_request,
  evaluate_contexts, usable_identity, usable_device, with_device, with_identity, evaluate_access,
}

-- A valid context of the provider's own source, for a verified Principal.
pub record IsPrincipal (p : GatePorts) (i : IdentityContext) : Type 0 where
  pub resolved : p.resolve_identity ≡ some i
  pub valid : validate_identity i ≡ true
  pub own_source : is_text i.source p.identity_source ≡ true
  pub verified : i.verification_status ≡ str (text "verified")
  pub role : i.role ≡ str (text "Principal")

-- A valid context of the provider's own source, for a device in order.
pub record IsTrustedDevice (p : GatePorts) (d : DeviceContext) : Type 0 where
  pub resolved : p.resolve_device ≡ some d
  pub valid : validate_device d ≡ true
  pub own_source : is_text d.source p.device_source ≡ true
  pub enrolled : d.enrollment_status ≡ str (text "enrolled")
  pub trusted : d.trust_status ≡ str (text "trusted")
  pub certificate : d.certificate_status ≡ str (text "valid")
  pub risk : d.risk_posture ≡ str (text "acceptable")

-- By the branch that answered.
branch {κ} :
    {P : Type κ} (b : Bool) (x y : GateReply) (d : AccessDecision)
    → (if b then x else y).0 ≡ some d
    → (b ≡ true → x.0 ≡ some d → P)
    → (b ≡ false → y.0 ≡ some d → P)
    → P
branch true x y d e if_true if_false = if_true refl e
branch false x y d e if_true if_false = if_false refl e

-- An event that is appended on the way.
appended :
    (trace span : Text) (parent : Option Text) (name : Text) (outcome : EvidenceOutcome)
    (s : GateState) (next : GateState → GateReply) (d : AccessDecision)
    → (append_evidence trace span parent name outcome s next).0 ≡ some d
    → (next (with_evidence trace span parent name outcome s)).0 ≡ some d
unfolding append_evidence
appended trace span parent name outcome s next d e =
    branch (is_recordable trace span parent) _ _ d e (λ ok f. f) (λ bad f. ground (arith, f))

issue_decision-allowed :
    (p : GatePorts) (trace parent : Text) (request_id policy_id : Option Text) (allowed : Bool)
    (r : AccessReason) (s : GateState) (d : AccessDecision)
    → (issue_decision p trace parent request_id policy_id allowed r s).0 ≡ some d
    → d.allowed ≡ allowed
unfolding issue_decision make_access_decision
issue_decision-allowed p trace parent request_id policy_id allowed r s d e =
    let made = make_access_decision p trace request_id policy_id allowed r s.issued in
    branch (validate_access_decision made) _ _ d e
      (λ ok f. ground (arith, appended _ _ _ _ _ _ _ d f)) (λ bad f. ground (arith, f))

deny-refuses :
    (p : GatePorts) (trace parent name : Text) (r : AccessReason) (s : GateState)
    (d : AccessDecision)
    → (deny p trace parent name r s).0 ≡ some d
    → d.allowed ≡ false
unfolding deny
deny-refuses p trace parent name r s d e =
    issue_decision-allowed p trace (p.span_id s.issued) none none false r _ d
      (appended _ _ _ _ _ _ _ d e)

app_allowed-only : (d : AppDecision) → app_allowed d ≡ true → d ≡ access_allowed
unfolding app_allowed
app_allowed-only access_allowed e = refl
app_allowed-only _ e = ground (arith, e)

decide_by_policy-allowed :
    (p : GatePorts) (trace : Text) (q : AccessRequest) (s : GateState) (d : AccessDecision)
    → (decide_by_policy p trace q s).0 ≡ some d
    → d.allowed ≡ true
    → evaluate_protected_app_access (app_request q) ≡ access_allowed
unfolding decide_by_policy
decide_by_policy-allowed p trace q s d e allowed =
    let decision = evaluate_protected_app_access (app_request q) in
    app_allowed-only decision
      (sym (issue_decision-allowed p trace _ _ _ _ _ _ d (appended _ _ _ _ _ _ _ d e)) ∙ allowed)

evaluate_contexts-allowed :
    (p : GatePorts) (trace parent : Text) (i : IdentityContext) (v : DeviceContext) (s : GateState)
    (d : AccessDecision)
    → (evaluate_contexts p trace parent i v s).0 ≡ some d
    → d.allowed ≡ true
    → evaluate_protected_app_access (app_request (make_access_request p trace i v s.issued))
      ≡ access_allowed
unfolding evaluate_contexts
evaluate_contexts-allowed p trace parent i v s d e allowed =
    let q = make_access_request p trace i v s.issued in
    branch (validate_access_request q) _ _ d e
      (λ ok f. decide_by_policy-allowed p trace q _ d (appended _ _ _ _ _ _ _ d f) allowed)
      (λ bad f.
        ground (
          arith,
          allowed,
          issue_decision-allowed p trace _ _ _ _ _ _ d (appended _ _ _ _ _ _ _ d f),
        ))

evaluate_contexts-trusted :
    (p : GatePorts) (trace parent : Text) (i : IdentityContext) (v : DeviceContext) (s : GateState)
    (d : AccessDecision)
    → p.resolve_identity ≡ some i
    → (validate_identity i && is_text i.source p.identity_source) ≡ true
    → p.resolve_device ≡ some v
    → (validate_device v && is_text v.source p.device_source) ≡ true
    → (evaluate_contexts p trace parent i v s).0 ≡ some d
    → d.allowed ≡ true
    → IsPrincipal p i × IsTrustedDevice p v
unfolding make_access_request
evaluate_contexts-trusted p trace parent i v s d i_resolved i_ok v_resolved v_ok e allowed =
    let q = make_access_request p trace i v s.issued in
    let a = evaluate_contexts-allowed p trace parent i v s d e allowed in
    let (verified, enrolled, trusted, certificate, risk, role, app, capability) =
      (evaluate_protected_app_access_iff (app_request q)).0 a in
    (
      record {
        resolved = i_resolved;
        valid = ground (arith, i_ok);
        own_source = ground (arith, i_ok);
        verified = verified;
        role = role;
      },
      record {
        resolved = v_resolved;
        valid = ground (arith, v_ok);
        own_source = ground (arith, v_ok);
        enrolled = enrolled;
        trusted = trusted;
        certificate = certificate;
        risk = risk;
      },
    )

usable_identity_iff :
    (source : Text) (o : Option IdentityContext) (i : IdentityContext)
    → usable_identity source o ≡ some i
    → (o ≡ some i) × ((validate_identity i && is_text i.source source) ≡ true)
unfolding usable_identity
usable_identity_iff source none i e = absurd (ground (arith, e))
usable_identity_iff source (some j) i e = (ground (arith, e), ground (arith, e))

usable_device_iff :
    (source : Text) (o : Option DeviceContext) (v : DeviceContext)
    → usable_device source o ≡ some v
    → (o ≡ some v) × ((validate_device v && is_text v.source source) ≡ true)
unfolding usable_device
usable_device_iff source none v e = absurd (ground (arith, e))
usable_device_iff source (some u) v e = (ground (arith, e), ground (arith, e))

with_device-allowed :
    (p : GatePorts) (trace parent : Text) (i : IdentityContext) (o : Option DeviceContext)
    (s : GateState) (d : AccessDecision)
    → p.resolve_identity ≡ some i
    → (validate_identity i && is_text i.source p.identity_source) ≡ true
    → usable_device p.device_source p.resolve_device ≡ o
    → (with_device p trace parent i o s).0 ≡ some d
    → d.allowed ≡ true
    → IsPrincipal p i × ((v : DeviceContext) × IsTrustedDevice p v)
with_device-allowed p trace parent i none s d i_resolved i_ok o e allowed =
    absurd (ground (arith, allowed, deny-refuses p trace parent _ _ s d e))
with_device-allowed p trace parent i (some v) s d i_resolved i_ok o e allowed =
    let (v_resolved, v_ok) = usable_device_iff p.device_source p.resolve_device v o in
    let (a, b) =
      evaluate_contexts-trusted p trace _ i v _ d i_resolved i_ok v_resolved v_ok
        (appended _ _ _ _ _ _ _ d e) allowed in
    (a, (v, b))

with_identity-allowed :
    (p : GatePorts) (trace parent : Text) (o : Option IdentityContext) (s : GateState)
    (d : AccessDecision)
    → usable_identity p.identity_source p.resolve_identity ≡ o
    → (with_identity p trace parent o s).0 ≡ some d
    → d.allowed ≡ true
    → ((i : IdentityContext) × IsPrincipal p i) × ((v : DeviceContext) × IsTrustedDevice p v)
with_identity-allowed p trace parent none s d o e allowed =
    absurd (ground (arith, allowed, deny-refuses p trace parent _ _ s d e))
with_identity-allowed p trace parent (some i) s d o e allowed =
    let (i_resolved, i_ok) = usable_identity_iff p.identity_source p.resolve_identity i o in
    let (a, b) =
      with_device-allowed p trace _ i _ _ d i_resolved i_ok refl (appended _ _ _ _ _ _ _ d e)
        allowed in
    ((i, a), b)

-- The gate allows only where no authority was claimed and the intent is valid, to a verified Principal on
-- an enrolled and trusted device with a valid certificate and an acceptable risk, each by a valid
-- context from the source of its provider.
pub evaluate_access_allowed :
    (p : GatePorts) (claimed : Bool) (intent : Option AccessIntent) (s : GateState)
    (d : AccessDecision)
    → (evaluate_access p claimed intent s).0 ≡ some d
    → d.allowed ≡ true
    → (claimed ≡ false)
      × (validate_app_intent intent ≡ true)
      × ((i : IdentityContext) × IsPrincipal p i)
      × ((v : DeviceContext) × IsTrustedDevice p v)
unfolding evaluate_access evaluate_intent
evaluate_access_allowed p claimed intent s d e allowed =
    branch claimed _ _ d (appended _ _ _ _ _ _ _ d e)
      (λ c f. absurd (ground (arith, allowed, deny-refuses p _ _ _ _ _ d f)))
      (λ c f.
        branch (validate_app_intent intent) _ _ d f
          (λ ok g. let (i, v) = with_identity-allowed p _ _ _ _ d refl g allowed in (c, ok, i, v))
          (λ bad g. absurd (ground (arith, allowed, deny-refuses p _ _ _ _ _ d g))))
