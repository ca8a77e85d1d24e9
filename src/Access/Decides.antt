-- ===== src/Access/Decides.antt =====
-- The access gate with sources of identifiers and times that work.
use pixel_hq_oss.Common.{
  ℕ, ◌+◌, ◌≡◌, refl, Bool, true, false, Option, none, some, arith, Text, str, is_some,
  if◌then◌else◌,
}
use pixel_hq_oss.Relay.Contract.{is_hex_id, is_environment}
use pixel_hq_oss.Relay.Request.{has_text}
use pixel_hq_oss.Relay.Action.{EvidenceOutcome}
use pixel_hq_oss.Policy.{AppDecision, app_allowed, evaluate_protected_app_access}
use pixel_hq_oss.Access.Contract.{
  by_policy, app_request, AccessRequest, AccessIntent, validate_app_intent, IdentityContext,
  DeviceContext, pixel_identifier_ok, validate_access_request, AccessReason, context_invalid,
  is_allowing, is_early, AccessDecision, optional_identifier_ok, references_ok,
  validate_access_decision, owner_ok, owner_state, reason_ok,
}
use pixel_hq_oss.Access.{
  GatePorts, GateState, GateReply, append_evidence, with_evidence, optional_span_ok,
  evaluate_intent, make_access_decision, issue_decision, deny, decide_by_policy,
  make_access_request, evaluate_contexts, with_device, with_identity, evaluate_access,
}

pub record IsWorkingGate (p : GatePorts) : Type 0 where
  pub environment : is_environment p.environment ≡ true
  pub traces : (n : ℕ) → is_hex_id 32 (p.trace_id n) ≡ true
  pub spans : (n : ℕ) → is_hex_id 16 (p.span_id n) ≡ true
  pub events : (n : ℕ) → pixel_identifier_ok (str (p.event_id n)) ≡ true
  pub times : (n : ℕ) → is_some (p.clock n) ≡ true

-- A reply with a valid decision.
abbrev pub IsDecided : GateReply → Type 0
IsDecided r = (d : AccessDecision) × (r.0 ≡ some d) × (validate_access_decision d ≡ true)

owner_state-ok : (b : Bool) → owner_ok b (owner_state b) ≡ true
owner_state-ok true = refl
owner_state-ok false = refl

reason-ok : (b : Bool) (r : AccessReason) → is_allowing r ≡ b → reason_ok b r ≡ true
reason-ok true r e = e
reason-ok false r e = rw e refl

either :
    (b : Bool) (x y : GateReply)
    → (b ≡ true → IsDecided x)
    → (b ≡ false → IsDecided y)
    → IsDecided (if b then x else y)
either true x y f g = f refl
either false x y f g = g refl

identifier-has_text : (t : Text) → pixel_identifier_ok (str t) ≡ true → has_text t ≡ true
unfolding pixel_identifier_ok
identifier-has_text t e = ground (arith, e)

by_policy-allowing : (d : AppDecision) → is_allowing (by_policy d) ≡ app_allowed d
unfolding is_allowing app_allowed
by_policy-allowing d = ground (arith)

early-refused : (r : AccessReason) → is_early r ≡ true → is_allowing r ≡ false
unfolding is_allowing
early-refused (by_policy d) e = ground (arith, e)
early-refused _ e = refl

module _ (p : GatePorts) (works : IsWorkingGate p) (trace : Text)
    (t : is_hex_id 32 trace ≡ true) where
  append-decides :
      (span : Text) (parent : Option Text) (name : Text) (outcome : EvidenceOutcome) (s : GateState)
      (next : GateState → GateReply)
      → is_hex_id 16 span ≡ true
      → optional_span_ok parent ≡ true
      → IsDecided (next (with_evidence trace span parent name outcome s))
      → IsDecided (append_evidence trace span parent name outcome s next)
  unfolding append_evidence
  append-decides span parent name outcome s next a b h = rw (t, a, b) h

  make_access_decision-valid :
      (request_id policy_id : Option Text) (allowed : Bool) (r : AccessReason) (n : ℕ)
      → optional_identifier_ok request_id ≡ true
      → references_ok (is_early r) request_id policy_id ≡ true
      → is_allowing r ≡ allowed
      → validate_access_decision (make_access_decision p trace request_id policy_id allowed r n)
        ≡ true
  unfolding make_access_decision validate_access_decision
  make_access_decision-valid request_id policy_id allowed r n a b e =
      let reason : reason_ok allowed r ≡ true = reason-ok allowed r e in
      let owner : owner_ok allowed (owner_state allowed) ≡ true = owner_state-ok allowed in
      rw
        (
          works.environment,
          works.spans n,
          works.events (n + 1),
          works.times (n + 2),
          t,
          a,
          owner,
          reason,
          b,
        )
        refl

  issue_decision-decides :
      (parent : Text) (request_id policy_id : Option Text) (allowed : Bool) (r : AccessReason)
      (s : GateState)
      → is_hex_id 16 parent ≡ true
      → optional_identifier_ok request_id ≡ true
      → references_ok (is_early r) request_id policy_id ≡ true
      → is_allowing r ≡ allowed
      → IsDecided (issue_decision p trace parent request_id policy_id allowed r s)
  unfolding issue_decision
  issue_decision-decides parent request_id policy_id allowed r s h a b e =
      let d = make_access_decision p trace request_id policy_id allowed r s.issued in
      let v = make_access_decision-valid request_id policy_id allowed r s.issued a b e in
      either (validate_access_decision d) _ _
        (λ ok.
          append-decides d.span_id (some parent) _ _ _ (λ u. (some d, u))
            (unfold make_access_decision in works.spans s.issued) h (d, refl, v))
        (λ bad. absurd (ground (arith, bad, v)))

  deny-decides :
      (parent name : Text) (r : AccessReason) (s : GateState)
      → is_hex_id 16 parent ≡ true
      → is_early r ≡ true
      → IsDecided (deny p trace parent name r s)
  unfolding deny
  deny-decides parent name r s h early =
      append-decides (p.span_id s.issued) (some parent) name _ _ _ (works.spans s.issued) h (
        issue_decision-decides (p.span_id s.issued) none none false r _ (works.spans s.issued) refl
          (rw early refl) (early-refused r early))

  decide_by_policy-decides :
      (q : AccessRequest) (s : GateState)
      → is_hex_id 16 q.span_id ≡ true
      → pixel_identifier_ok (str q.request_id) ≡ true
      → IsDecided (decide_by_policy p trace q s)
  unfolding decide_by_policy
  decide_by_policy-decides q s h named =
      append-decides (p.span_id s.issued) (some q.span_id) _ _ _ _ (works.spans s.issued) h (
        issue_decision-decides (p.span_id s.issued) _ _ _ _ _ (works.spans s.issued) named
          (rw (identifier-has_text q.request_id named) refl)
          (by_policy-allowing (evaluate_protected_app_access (app_request q))))

  evaluate_contexts-decides :
      (parent : Text) (i : IdentityContext) (v : DeviceContext) (s : GateState)
      → is_hex_id 16 parent ≡ true
      → IsDecided (evaluate_contexts p trace parent i v s)
  unfolding evaluate_contexts make_access_request
  evaluate_contexts-decides parent i v s h =
      let n = s.issued in
      let q = make_access_request p trace i v n in
      either (validate_access_request q) _ _
        (λ ok.
          append-decides (p.span_id n) (some parent) _ _ _ _ (works.spans n) h
            (decide_by_policy-decides q _ (works.spans n) (works.events (n + 1))))
        (λ bad. append-decides (p.span_id n) (some parent) _ _ _ _ (works.spans n) h (
          issue_decision-decides (p.span_id n) none none false context_invalid _ (works.spans n)
            refl refl (early-refused context_invalid refl)))

  with_device-decides :
      (parent : Text) (i : IdentityContext) (o : Option DeviceContext) (s : GateState)
      → is_hex_id 16 parent ≡ true
      → IsDecided (with_device p trace parent i o s)
  with_device-decides parent i none s h = deny-decides _ _ _ _ h refl
  with_device-decides parent i (some v) s h =
      append-decides (p.span_id s.issued) (some parent) _ _ _ _ (works.spans s.issued) h
        (evaluate_contexts-decides (p.span_id s.issued) i v _ (works.spans s.issued))

  with_identity-decides :
      (parent : Text) (o : Option IdentityContext) (s : GateState)
      → is_hex_id 16 parent ≡ true
      → IsDecided (with_identity p trace parent o s)
  with_identity-decides parent none s h = deny-decides _ _ _ _ h refl
  with_identity-decides parent (some i) s h =
      append-decides (p.span_id s.issued) (some parent) _ _ _ _ (works.spans s.issued) h
        (with_device-decides (p.span_id s.issued) i _ _ (works.spans s.issued))

  evaluate_intent-decides :
      (root : Text) (claimed : Bool) (intent : Option AccessIntent) (s : GateState)
      → is_hex_id 16 root ≡ true
      → IsDecided (evaluate_intent p trace root claimed intent s)
  unfolding evaluate_intent
  evaluate_intent-decides root claimed intent s h =
      either claimed _ _ (λ c. deny-decides root _ _ _ h refl)
        (λ c.
          either (validate_app_intent intent) _ _ (λ ok. with_identity-decides root _ _ h)
            (λ bad. deny-decides root _ _ _ h refl))

-- Where the sources of identifiers and times work, the gate answers every request with a valid decision,
-- whatever the client sends and the providers answer.
pub evaluate_access_decides :
    (p : GatePorts) (claimed : Bool) (intent : Option AccessIntent) (s : GateState)
    → IsWorkingGate p
    → IsDecided (evaluate_access p claimed intent s)
unfolding evaluate_access
evaluate_access_decides p claimed intent s works =
    let trace = p.trace_id s.issued in
    let t = works.traces s.issued in
    let root = works.spans (s.issued + 1) in
    append-decides p works trace t _ none _ _ _ _ root refl
      (evaluate_intent-decides p works trace t _ claimed intent _ root)
