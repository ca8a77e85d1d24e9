-- ===== src/Relay/Gateway/Refines.antt =====
-- `execute` of services/tool-gateway/src/tool-gateway.js, against how a request should end.
use pixel_hq_oss.Common.{
  ◌+◌, ◌≡◌, refl, inl, inr, true, ◌&&◌, Option, none, some, List, ◌∷◌, arith, Text, same_text,
  same_text_refl, Bool-cases, if◌then◌else◌,
}
use pixel_hq_oss.Common.Dict.{lookup}
use pixel_hq_oss.Relay.Request.{Request, validate_request, validate_decision}
use pixel_hq_oss.Relay.Job.{Job, same_execution, same_worker_binding}
use pixel_hq_oss.Relay.Action.{
  returned, World, PortCall, capabilities_resolved, ◌>>=◌, pure, assert, gets, next, append,
  record_call, get_job,
}
use pixel_hq_oss.Relay.Gateway.Context.{
  AuthorizationContext, is_request_of, context_of, validate_authorization,
  authorization_context_for, same_context, Grants, validate_grants, usable_grants, is_granted,
}
use pixel_hq_oss.Relay.Gateway.Contracts.{GatewayPorts, decision_of}
use pixel_hq_oss.Relay.Gateway.{
  note, make_decision, resolve_with, resolve_grants, judge, evaluate_request, gateway_execute,
}
use pixel_hq_oss.Relay.Gateway.Ready.{decision_of_valid, same_execution_binding_of}
use pixel_hq_oss.Relay.Gateway.Ends.{Ends}
use pixel_hq_oss.Relay.Gateway.Open.{AreUndisturbed, IsOpen, await_none}
use pixel_hq_oss.Relay.Gateway.Outcomes.{outcome_for, calls_for, enforce-Ends}

-- What an answer of the provider grants: nothing, unless it is valid and from the provider's source.
abbrev pub given_grants : Text → Option Grants → Option Grants
given_grants source none = none
given_grants source (some a) =
    if validate_grants a && same_text a.source source then some a else none

-- The grants for a request of the job; the provider is not asked about a job without a valid owner,
-- requester or binding.
abbrev pub grants_for : GatewayPorts → Job → Request → Option Grants
grants_for g job q =
    if validate_authorization (context_of job q)
    then given_grants g.grant_source (g.resolve_capabilities (context_of job q))
    else none

-- The calls of the provider that this takes, before those that were made.
abbrev pub asked_for : Job → Request → List PortCall → List PortCall
asked_for job q calls =
    if validate_authorization (context_of job q)
    then capabilities_resolved job.envelope.job_id ∷ calls
    else calls

same_context_refl : (c : AuthorizationContext) → same_context c (some c) ≡ true
unfolding same_context same_execution same_worker_binding
same_context_refl c = grind (arith, same_text_refl)

usable_grants-given :
    (source : Text) (c : AuthorizationContext) (o : Option Grants)
    → usable_grants source c (some c) o ≡ given_grants source o
unfolding usable_grants
usable_grants-given source c none = refl
usable_grants-given source c (some a) = ground (arith, same_context_refl c)

given_grants-valid :
    (source : Text) (o : Option Grants) (a : Grants)
    → given_grants source o ≡ some a
    → validate_grants a ≡ true
given_grants-valid source none a e = absurd (ground arith)
given_grants-valid source (some b) a e = ground arith

authorization_context_for_open :
    (job : Job) (q : Request)
    → is_request_of job q ≡ true
    → authorization_context_for (some job) q
      ≡ (if validate_authorization (context_of job q) then some (context_of job q) else none)
unfolding authorization_context_for
authorization_context_for_open job q e = ground (arith, e)

module _ (g : GatewayPorts) (quiet : AreUndisturbed g) (q : Request) (job : Job)
    (h : IsOpen q job) where
  resolve_with-asked :
      (c : AuthorizationContext) (w : World)
      → authorization_context_for (lookup q.job_id w.store.jobs) q ≡ some c
      → resolve_with g q (some c) w ≡ (
        returned (given_grants g.grant_source (g.resolve_capabilities c)),
        record w { calls = capabilities_resolved c.job_id ∷ w.calls },
      )
  unfolding resolve_with ◌>>=◌ get_job record_call pure
  resolve_with-asked c w e =
      rw
        (
          await_none g.during_resolve
              (record w { calls = capabilities_resolved c.job_id ∷ w.calls }) quiet.resolving,
          e,
          usable_grants-given g.grant_source c (g.resolve_capabilities c),
        )
        refl

  resolve_grants-asked :
      (w : World)
      → lookup q.job_id w.store.jobs ≡ some job
      → resolve_grants g q w
        ≡ (returned (grants_for g job q), record w { calls = asked_for job q w.calls })
  unfolding resolve_grants resolve_with ◌>>=◌ get_job record_call pure context_of
  resolve_grants-asked w found =
      let e = authorization_context_for_open job q h.request in
      elim (Bool-cases (validate_authorization (context_of job q))) [
        | inl v ↦
            rw (found, e, v, resolve_with-asked (context_of job q) w (rw (found, e, v) refl)) refl
        | inr v ↦ rw (found, e, v) refl
      ]

  grants_for-valid : (a : Grants) → grants_for g job q ≡ some a → validate_grants a ≡ true
  grants_for-valid a e = elim (Bool-cases (validate_authorization (context_of job q))) [
    | inl v ↦
        given_grants-valid g.grant_source (g.resolve_capabilities (context_of job q)) a (rw v at e)
    | inr v ↦ absurd (ground (arith, e, v))
  ]

  make_decision-returns :
      (w : World)
      → validate_request q ≡ true
      → let d =
          decision_of g.grant_source
            (g.sources.event_id w.issued)
            (g.sources.clock (w.issued + 1))
            (g.sources.span_id (w.issued + 1))
            q
            (grants_for g job q) in
        (validate_decision d ≡ true)
        × (make_decision g q (grants_for g job q) w
            ≡ (returned d, record w { issued = w.issued + 1 + 1 }))
  unfolding make_decision ◌>>=◌ next gets assert pure
  make_decision-returns w v =
      let ok =
        decision_of_valid g.grant_source (g.sources.event_id w.issued)
          (g.sources.clock (w.issued + 1)) (g.sources.span_id (w.issued + 1)) q (grants_for g job q)
          v (quiet.ids.events w.issued) (quiet.ids.spans (w.issued + 1)) quiet.grants_named
          grants_for-valid in
      (ok, rw ok refl)

  judge-Ends :
      (gate : Text) (w : World)
      → validate_request q ≡ true
      → lookup q.job_id w.store.jobs ≡ some job
      → let granted = is_granted q (grants_for g job q) in
        Ends
          (outcome_for g q (grants_for g job q) granted)
          (calls_for q granted (asked_for job q w.calls))
          (judge g q gate w)
  unfolding judge ◌>>=◌ decision_of
  judge-Ends gate w v found =
      let asked = record w { calls = asked_for job q w.calls } in
      let (ok, decided) = make_decision-returns asked v in
      let d =
        decision_of g.grant_source (g.sources.event_id w.issued) (g.sources.clock (w.issued + 1))
          (g.sources.span_id (w.issued + 1)) q (grants_for g job q) in
      let binding =
        same_execution_binding_of g.grant_source (g.sources.event_id w.issued)
          (g.sources.clock (w.issued + 1)) (g.sources.span_id (w.issued + 1)) q
          (grants_for g job q) in
      rw (resolve_grants-asked w found, decided, binding)
        (enforce-Ends g quiet q d v job h (grants_for g job q) gate
          (record asked { issued = w.issued + 1 + 1 }) binding ok found)

  -- When the identifiers are well-formed, no one uses the store meanwhile and the adapter has no
  -- fault: the execution of a valid request for the gateway's environment, of a running job of which
  -- nothing is decided or claimed, ends the job, by COMPLETED or FAILED, with the result that the
  -- grants and the worker's answer call for. The provider is asked once at most, and the worker
  -- executed once if the capability is granted and not at all otherwise.
  pub gateway_execute-computed :
      (parent : Text) (w : World)
      → validate_request q ≡ true
      → same_text q.environment g.environment ≡ true
      → lookup q.job_id w.store.jobs ≡ some job
      → let granted = is_granted q (grants_for g job q) in
        Ends
          (outcome_for g q (grants_for g job q) granted)
          (calls_for q granted (asked_for job q w.calls))
          (gateway_execute g q parent w)
  unfolding gateway_execute evaluate_request assert pure ◌>>=◌ next note append
  gateway_execute-computed parent w v environment found =
      rw (v, environment) (judge-Ends _ _ v found)
