-- ===== src/Relay/Service/Accept.antt =====
-- services/relay/src/relay-service.js: `accept`.
use pixel_hq_oss.Common.{
  Bool, true, false, not, ◌&&◌, Option, none, some, [], ◌∷◌, Text, text, same_text, if◌then◌else◌,
}
use pixel_hq_oss.Relay.Contract.{
  JobState, submitted, accepted, TransitionReason, job_accepted, Transition, validate_transition,
}
use pixel_hq_oss.Relay.Request.{Owner, Execution, Envelope, validate_envelope, SubmitIntent}
use pixel_hq_oss.Relay.Methods.{Reply, applied}
use pixel_hq_oss.Relay.Calls.{transition_call}
use pixel_hq_oss.Relay.Store.{ClaimReply, claim_rejected, claim_conflict, existing, claimed}
use pixel_hq_oss.Relay.Action.{
  EvidenceOutcome, success, denied, Action, pure, ◌>>=◌, ◌>>◌, assert, next, append, get_job,
  store_call, store_claim, await,
}
use pixel_hq_oss.Relay.Intent.{Plain, authority_categories, is_empty_list, intent_of}
use pixel_hq_oss.Relay.Service.Ports.{
  JobContext, validate_job_context, ServicePorts, Rejection, authority_claimed, intent_invalid,
  context_unavailable, relay_unavailable, refused, conflict, existing_job, created, relay_out,
  ServiceReply,
}

abbrev pub is_applied : Reply → Bool
is_applied applied = true
is_applied _ = false

-- `this.#append`
unfoldable pub report : Text → Text → Option Text → Text → EvidenceOutcome → Action (Unit {0})
report trace span parent event outcome = append (record {
  trace_id = trace;
  span_id = span;
  parent_span_id = parent;
  event_name = event;
  outcome = outcome;
})

-- `sameRegistryBinding`; nothing in the registry is a throw.
abbrev pub matches_registry : Option Owner → JobContext → Bool
matches_registry none c = false
matches_registry (some b) c =
    same_text c.owner.department_ref b.department_ref
    && same_text c.owner.role_ref b.role_ref
    && same_text c.worker_binding.department_ref b.department_ref
    && same_text c.worker_binding.role_ref b.role_ref

-- The context that `accept` may use.
unfoldable pub usable_context : ServicePorts → Option JobContext → Option JobContext
usable_context p none = none
usable_context p (some c) =
    if validate_job_context c
      && same_text c.source p.context_source
      && matches_registry p.registry c
    then some c
    else none

unfoldable pub execution_of : ServicePorts → SubmitIntent → JobContext → Execution
execution_of p i c = record {
  capability = i.requested_capability;
  tool_class = text "pixel.system-status";
  target = text "pixel.platform";
  parameter_hash = p.hash [];
  worker_binding = c.worker_binding;
}

-- `fingerprint`
unfoldable pub fingerprint_of : ServicePorts → SubmitIntent → JobContext → Text
fingerprint_of p i c = p.hash (
    c.requester_id
    ∷ p.environment
    ∷ c.owner.department_ref
    ∷ c.owner.role_ref
    ∷ i.job_type
    ∷ i.requested_capability
    ∷ text "pixel.system-status"
    ∷ text "pixel.platform"
    ∷ p.hash []
    ∷ [])

-- `namespace`
unfoldable pub namespace_of : ServicePorts → SubmitIntent → JobContext → Text
namespace_of p i c = p.hash (c.requester_id ∷ p.environment ∷ i.idempotency_key ∷ [])

unfoldable pub envelope_of :
    ServicePorts → Text → Text → Text → SubmitIntent → JobContext → Envelope
unfolding execution_of fingerprint_of
envelope_of p job_id trace root i c = record {
  job_id = job_id;
  environment = p.environment;
  trace_id = trace;
  span_id = root;
  requester_id = c.requester_id;
  owner = c.owner;
  job_type = i.job_type;
  requested_capability = i.requested_capability;
  execution = execution_of p i c;
  key = i.idempotency_key;
  fingerprint = fingerprint_of p i c;
  context_source = c.source;
}

-- A transition of a job without a result, before RUNNING or into it.
abbrev pub move_of :
    ServicePorts
    → Text
    → Text
    → Text
    → Text
    → Option Text
    → JobState
    → JobState
    → TransitionReason
    → Transition
move_of p id span job_id trace execution from to reason = record {
  transition_id = id;
  job_id = job_id;
  execution_id = execution;
  from_state = from;
  to_state = to;
  reason_code = reason;
  environment = p.environment;
  trace_id = trace;
  span_id = span;
}

module _ (p : ServicePorts) where
  -- `#rejection`
  unfoldable pub reject : Text → Text → Rejection → Text → Action ServiceReply
  reject trace parent reason event = do
    span ← next p.sources.span_id
    report trace span (some parent) event denied
    pure (record { disposition = refused reason; job = none })

  -- The part of `accept` on a claim that stored the job.
  unfoldable pub accept_created : Envelope → Text → Text → Action ServiceReply
  accept_created v trace root = do
    span ← next p.sources.span_id
    id ← next p.sources.event_id
    assert (
        validate_transition (move_of p id span v.job_id trace none submitted accepted job_accepted))
    reply ←
        store_call v.job_id
          (transition_call (move_of p id span v.job_id trace none submitted accepted job_accepted))
    job ← get_job v.job_id
    if not (is_applied reply) then pure (record { disposition = relay_out; job = job }) else do
      report trace span (some root) (text "relay.job.accepted") success
      pure (record { disposition = created; job = job })

  unfoldable pub accept_claimed : ClaimReply → Envelope → Text → Text → Action ServiceReply
  accept_claimed claim_conflict v trace root = do
    span ← next p.sources.span_id
    report trace span (some root) (text "relay.idempotency.conflict") denied
    pure (record { disposition = conflict; job = none })
  accept_claimed (existing job) v trace root = do
    span ← next p.sources.span_id
    report trace span (some root) (text "relay.submission.replayed") success
    pure (record { disposition = existing_job; job = some job })
  accept_claimed claim_rejected v trace root =
      reject trace root relay_unavailable (text "relay.claim.failed")
  accept_claimed (claimed job) v trace root = accept_created v trace root

  -- The part of `accept` on the context.
  unfoldable pub accept_context :
      Option JobContext → SubmitIntent → Text → Text → Action ServiceReply
  accept_context none i trace root =
      reject trace root context_unavailable (text "job.context.resolution_failed")
  accept_context (some c) i trace root = do
    job_id ← next p.sources.job_id
    assert (validate_envelope (envelope_of p job_id trace root i c))
    claim ←
        store_claim (namespace_of p i c) (fingerprint_of p i c)
          (envelope_of p job_id trace root i c)
    accept_claimed claim (envelope_of p job_id trace root i c) trace root

  unfoldable pub accept_intent : Option SubmitIntent → Text → Text → Action ServiceReply
  accept_intent none trace root = reject trace root intent_invalid (text "job.submission.invalid")
  accept_intent (some i) trace root = do
    await p.during_context
    accept_context (usable_context p p.resolve_context) i trace root

  unfoldable pub accept_received : Plain → Text → Text → Action ServiceReply
  accept_received intent trace root =
      if is_empty_list (authority_categories intent [])
      then accept_intent (intent_of intent) trace root
      else reject trace root authority_claimed (text "job.submission.authority_rejected")

  -- `accept`
  unfoldable pub accept : Plain → Action ServiceReply
  accept intent = do
    trace ← next p.sources.trace_id
    root ← next p.sources.span_id
    report trace root none (text "job.submission.received") success
    accept_received intent trace root
