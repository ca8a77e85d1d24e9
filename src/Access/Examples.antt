-- ===== src/Access/Examples.antt =====
-- Runs of the access gate.
use pixel_hq_oss.Common.{
  ℕ, ◌≡◌, refl, Bool, true, false, Option, none, some, [], ◌∷◌, Text, text, Value, str, is_text,
}
use pixel_hq_oss.Policy.{access_allowed, device_revoked}
use pixel_hq_oss.Access.Contract.{
  AccessIntent, validate_app_intent, IdentityContext, DeviceContext, by_policy, claim_rejected,
  context_invalid, AccessDecision,
}
use pixel_hq_oss.Access.{GatePorts, GateState, GateReply, make_access_decision, evaluate_access}
use pixel_hq_oss.Access.Allowed.{IsPrincipal, IsTrustedDevice, evaluate_access_allowed}
use pixel_hq_oss.Access.Decides.{IsWorkingGate, IsDecided, evaluate_access_decides}

-- All of the code of the component, for tests that run it.
access_code : Unit {0}
unfolding pixel_hq_oss.Common.same_text pixel_hq_oss.Common.contains
    pixel_hq_oss.Incident.Contract.matches_identifier
    pixel_hq_oss.Policy.evaluate_protected_app_access pixel_hq_oss.Policy.app_allowed
    pixel_hq_oss.Access.evaluate_intent pixel_hq_oss.Access.Contract.validate_app_intent
    pixel_hq_oss.Access.Contract.pixel_identifier_ok pixel_hq_oss.Access.Contract.validate_identity
    pixel_hq_oss.Access.Contract.validate_device
    pixel_hq_oss.Access.Contract.validate_access_request pixel_hq_oss.Access.Contract.is_allowing
    pixel_hq_oss.Access.Contract.validate_access_decision pixel_hq_oss.Access.append_evidence
    make_access_decision pixel_hq_oss.Access.issue_decision pixel_hq_oss.Access.deny
    pixel_hq_oss.Access.decide_by_policy pixel_hq_oss.Access.make_access_request
    pixel_hq_oss.Access.evaluate_contexts pixel_hq_oss.Access.usable_identity
    pixel_hq_oss.Access.usable_device evaluate_access
access_code = tt

abbrev principal : IdentityContext
principal = record {
  subject_id = str (text "principal.1");
  identity_class = str (text "human");
  role = str (text "Principal");
  verification_status = str (text "verified");
  provider_contract = str (text "pixel.identity-context-provider.v1");
  source = str (text "simulator");
}

abbrev phone : DeviceContext
phone = record {
  device_id = str (text "device.1");
  enrollment_status = str (text "enrolled");
  trust_status = str (text "trusted");
  certificate_status = str (text "valid");
  risk_posture = str (text "acceptable");
  provider_contract = str (text "pixel.device-trust-provider.v1");
  source = str (text "simulator");
}

abbrev gate : GatePorts
gate = record {
  environment = text "dev";
  trace_id = λ n. text "0123456789abcdef0123456789abcdef";
  span_id = λ n. text "0123456789abcdef";
  event_id = λ n. text "event.1";
  clock = λ n. some 1000;
  identity_source = text "simulator";
  resolve_identity = some principal;
  device_source = text "simulator";
  resolve_device = some phone;
}

abbrev open_bench : Option AccessIntent
open_bench = some (record { app_id = str (text "pixel-bench"); capability = str (text "launch") })

abbrev idle : GateState
idle = record { issued = 0; evidence = [] }

abbrev allowed_decision : AccessDecision
allowed_decision = record {
  decision_id = text "event.1";
  decided_at = some 1000;
  environment = text "dev";
  trace_id = text "0123456789abcdef0123456789abcdef";
  span_id = text "0123456789abcdef";
  request_id = some (text "event.1");
  allowed = true;
  reason_code = by_policy access_allowed;
  owner = pixel_hq_oss.Access.Contract.ready;
  policy_id = some (text "pixel.protected-app-access.v1");
}

opened : (evaluate_access gate false open_bench idle).0 ≡ some allowed_decision
unfolding access_code
opened = refl

abbrev reason_given : GateReply → Option pixel_hq_oss.Access.Contract.AccessReason
reason_given (none, s) = none
reason_given (some d, s) = some d.reason_code

claimed_authority : reason_given (evaluate_access gate true open_bench idle) ≡ some claim_rejected
unfolding access_code
claimed_authority = refl

-- A device that is trusted without being enrolled is no valid context of a request.
trusted_unenrolled :
    reason_given (
      evaluate_access
        (record gate {
          resolve_device = some (record phone { enrollment_status = str (text "unknown") });
        })
        false
        open_bench
        idle)
    ≡ some context_invalid
unfolding access_code
trusted_unenrolled = refl

revoked :
    reason_given (
      evaluate_access
        (record gate {
          resolve_device = some (record phone { trust_status = str (text "revoked") });
        })
        false
        open_bench
        idle)
    ≡ some (by_policy device_revoked)
unfolding access_code
revoked = refl

evaluate_access_allowed_example :
    (false ≡ false)
    × (validate_app_intent open_bench ≡ true)
    × ((i : IdentityContext) × IsPrincipal gate i)
    × ((v : DeviceContext) × IsTrustedDevice gate v)
evaluate_access_allowed_example =
    evaluate_access_allowed gate false open_bench idle allowed_decision opened refl

gate-IsWorkingGate : IsWorkingGate gate
unfolding access_code
gate-IsWorkingGate = record {
  environment = refl;
  traces = λ n. refl;
  spans = λ n. refl;
  events = λ n. refl;
  times = λ n. refl;
}

evaluate_access_decides_example : IsDecided (evaluate_access gate false open_bench idle)
evaluate_access_decides_example =
    evaluate_access_decides gate false open_bench idle gate-IsWorkingGate
