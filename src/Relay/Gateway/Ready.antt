-- ===== src/Relay/Gateway/Ready.antt =====
-- The contracts that services/tool-gateway/src/tool-gateway.js makes from a request.
use pixel_hq_oss.Common.{
  ℕ, ◌≡◌, refl, Bool, true, false, ◌&&◌, Option, none, some, List, [], arith, Text, text, same_text,
  same_text_comm, same_text_refl, Option-cases, Bool-cases, inl, inr,
}
use pixel_hq_oss.Incident.Contract.{matches_identifier, is_bounded_text}
use pixel_hq_oss.Relay.Contract.{
  is_hex_id, Outcome, status_available, outcome_denied, outcome_unauthorized, worker_unavailable,
  result_invalid, is_outcome_of, is_legal, validate_transition, validate_result, provenance_ok,
}
use pixel_hq_oss.Relay.Request.{
  Execution, is_source, Request, validate_request, validate_decision, GatewayDecision,
  DecisionReason,
}
use pixel_hq_oss.Relay.Job.{
  Job, same_execution, same_worker_binding, same_execution_binding, matches_envelope, same_request,
  same_decision, same_flag, same_reason, same_option,
}
use pixel_hq_oss.Relay.Action.{Sources}
use pixel_hq_oss.Relay.Gateway.Context.{
  AuthorizationContext, is_request_of, Grants, validate_grants, usable_grants, is_granted,
}
use pixel_hq_oss.Relay.Gateway.Contracts.{
  state_of, summary_of, provenance_of, decision_of, result_of, transition_of,
}

-- Identifiers of the contract's form.
pub record AreWellFormed (s : Sources) : Type 0 where
  pub events : (n : ℕ) → matches_identifier (s.event_id n) ≡ true
  pub spans : (n : ℕ) → is_hex_id 16 (s.span_id n) ≡ true

summary_bounded : (o : Outcome) → is_bounded_text 160 (summary_of o) ≡ true
unfolding is_bounded_text pixel_hq_oss.Common.utf16_length
summary_bounded status_available = refl
summary_bounded outcome_denied = refl
summary_bounded outcome_unauthorized = refl
summary_bounded worker_unavailable = refl
summary_bounded result_invalid = refl

outcome_legal : (o : Outcome) → is_outcome_of (state_of o) o ≡ true
unfolding is_outcome_of
outcome_legal status_available = refl
outcome_legal outcome_denied = refl
outcome_legal outcome_unauthorized = refl
outcome_legal worker_unavailable = refl
outcome_legal result_invalid = refl

pub result_of_valid :
    (span id : Text) (q : Request) (o : Outcome) (source : Option Text)
    → validate_request q ≡ true
    → matches_identifier id ≡ true
    → is_hex_id 16 span ≡ true
    → provenance_ok (state_of o) o (provenance_of source) ≡ true
    → validate_result (result_of span id q o source) ≡ true
unfolding validate_result result_of validate_request
result_of_valid span id q o source v i s p =
    ground (arith, v, i, s, p, summary_bounded o, outcome_legal o)

pub transition_of_valid :
    (id span : Text) (q : Request) (o : Outcome)
    → validate_request q ≡ true
    → matches_identifier id ≡ true
    → is_hex_id 16 span ≡ true
    → validate_transition (transition_of id span q o) ≡ true
unfolding validate_transition transition_of validate_request is_legal
transition_of_valid id span q o v i s = ground (arith, v, i, s)

pub decision_of_valid :
    (source id time span : Text) (q : Request) (grants : Option Grants)
    → validate_request q ≡ true
    → matches_identifier id ≡ true
    → is_hex_id 16 span ≡ true
    → is_source source ≡ true
    → ((a : Grants) → grants ≡ some a → validate_grants a ≡ true)
    → validate_decision (decision_of source id time span q grants) ≡ true
unfolding validate_decision decision_of validate_request is_granted validate_grants
decision_of_valid source id time span q none v i s src usable = ground (arith, v, i, s, src)
decision_of_valid source id time span q (some a) v i s src usable =
    ground (arith, v, i, s, src, usable a refl)

-- What `usable_grants` lets through.
pub usable_grants-valid :
    (source : Text) (before : AuthorizationContext) (now : Option AuthorizationContext)
    (o : Option Grants) (a : Grants)
    → usable_grants source before now o ≡ some a
    → validate_grants a ≡ true
unfolding usable_grants
usable_grants-valid source before now none a e = absurd (ground arith)
usable_grants-valid source before now (some b) a e = ground arith

pub same_execution_binding_of :
    (source id time span : Text) (q : Request) (grants : Option Grants)
    → same_execution_binding q (decision_of source id time span q grants) ≡ true
unfolding same_execution_binding decision_of
same_execution_binding_of source id time span q grants = simp same_text_refl

pub same_request_refl : (q : Request) → same_request q q ≡ true
unfolding same_request
same_request_refl q = simp same_text_refl

same_flag_refl : (b : Bool) → same_flag b b ≡ true
same_flag_refl b = ground arith

same_reason_refl : (r : DecisionReason) → same_reason r r ≡ true
same_reason_refl r = ground arith

same_option_refl : (o : Option Text) → same_option o o ≡ true
same_option_refl none = refl
same_option_refl (some t) = same_text_refl t

pub same_decision_refl : (d : GatewayDecision) → same_decision d d ≡ true
unfolding same_decision
same_decision_refl d = simp (same_text_refl, same_flag_refl, same_reason_refl, same_option_refl)

same_execution_comm : (a b : Execution) → same_execution a b ≡ same_execution b a
unfolding same_execution same_worker_binding
same_execution_comm a b =
    rw
      (
        same_text_comm a.capability b.capability,
        same_text_comm a.tool_class b.tool_class,
        same_text_comm a.target b.target,
        same_text_comm a.parameter_hash b.parameter_hash,
        same_text_comm a.worker_binding.worker_id b.worker_binding.worker_id,
        same_text_comm a.worker_binding.department_ref b.worker_binding.department_ref,
        same_text_comm a.worker_binding.role_ref b.worker_binding.role_ref,
      )
      refl

-- The store compares the job with the request as the gateway does.
pub is_request_of-matches_envelope :
    (job : Job) (q : Request) → is_request_of job q ≡ true → matches_envelope job q ≡ true
unfolding is_request_of matches_envelope
is_request_of-matches_envelope job q e = ground (
  arith,
  e,
  same_text_comm job.envelope.job_id q.job_id,
  same_text_comm job.envelope.trace_id q.trace_id,
  same_text_comm job.envelope.environment q.environment,
  same_execution_comm job.envelope.execution q.execution,
)
