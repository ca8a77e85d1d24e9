-- ===== src/Relay/Gateway/Expected.antt =====
-- How a request to services/tool-gateway/src/tool-gateway.js should end, said of the answers that the
-- provider and the worker give.
use pixel_hq_oss.Common.{
  ◌≡◌, refl, subst, ◌≢◌, ◌↔◌, ap, inl, inr, Bool, true, false, Option, none, some, List, [], ◌∷◌,
  ◌++◌, Memᴰ, arith, Text, text, same_text, same_text_iff, contains_iff, Value, str, is_text,
  is_text_iff, is_text_not, Bool-cases,
}
use pixel_hq_oss.Common.Dict.{lookup}
use pixel_hq_oss.Relay.Contract.{
  Outcome, status_available, outcome_denied, outcome_unauthorized, worker_unavailable,
  result_invalid,
}
use pixel_hq_oss.Relay.Request.{Request, validate_request}
use pixel_hq_oss.Relay.Job.{Job}
use pixel_hq_oss.Relay.Action.{World, PortCall, worker_executed}
use pixel_hq_oss.Relay.Gateway.Context.{
  context_of, validate_authorization, Grants, validate_grants, is_granted, WorkerAnswer, coded,
  shapeless, worker_outcome,
}
use pixel_hq_oss.Relay.Gateway.Contracts.{GatewayPorts}
use pixel_hq_oss.Relay.Gateway.{gateway_execute}
use pixel_hq_oss.Relay.Gateway.Ends.{Ends}
use pixel_hq_oss.Relay.Gateway.Open.{AreUndisturbed, IsOpen}
use pixel_hq_oss.Relay.Gateway.Outcomes.{outcome_for, calls_for}
use pixel_hq_oss.Relay.Gateway.Refines.{
  given_grants, grants_for, asked_for, gateway_execute-computed,
}

-- What the provider answers for the job, whose authorization context is valid: grants that are valid and
-- name the provider's own source.
pub record IsGrantOf (g : GatewayPorts) (job : Job) (q : Request) (a : Grants) : Type 0 where
  pub asked : validate_authorization (context_of job q) ≡ true
  pub answered : g.resolve_capabilities (context_of job q) ≡ some a
  pub valid : validate_grants a ≡ true
  pub own_source : a.source ≡ g.grant_source

-- The request's capability is the one that workers offer, and among those granted.
pub record IsPermitted (q : Request) (a : Grants) : Type 0 where
  pub offered : q.execution.capability ≡ text "pixel.system-status.read"
  pub listed : Memᴰ q.execution.capability a.capabilities

-- The outcome of a request, with the calls of the worker that it takes.
pub data Expected (g : GatewayPorts) (job : Job) (q : Request)
    : Outcome → List PortCall → Type 0 where
  unauthorized : ((a : Grants) → IsGrantOf g job q a → ⊥) → Expected g job q outcome_unauthorized []
  not_permitted :
      (a : Grants)
      → IsGrantOf g job q a
      → (IsPermitted q a → ⊥)
      → Expected g job q outcome_denied []
  worker_throws :
      (a : Grants)
      → IsGrantOf g job q a
      → IsPermitted q a
      → g.worker_execute q ≡ none
      → Expected g job q worker_unavailable (worker_executed q ∷ [])
  worker_succeeds :
      (a : Grants)
      → IsGrantOf g job q a
      → IsPermitted q a
      → g.worker_execute q ≡ some (coded (str (text "SYSTEM_STATUS_AVAILABLE")))
      → Expected g job q status_available (worker_executed q ∷ [])
  worker_fails :
      (a : Grants)
      → IsGrantOf g job q a
      → IsPermitted q a
      → g.worker_execute q ≡ some (coded (str (text "WORKER_UNAVAILABLE")))
      → Expected g job q worker_unavailable (worker_executed q ∷ [])
  worker_invalid :
      (a : Grants) (answer : WorkerAnswer)
      → IsGrantOf g job q a
      → IsPermitted q a
      → g.worker_execute q ≡ some answer
      → answer ≢ coded (str (text "SYSTEM_STATUS_AVAILABLE"))
      → answer ≢ coded (str (text "WORKER_UNAVAILABLE"))
      → Expected g job q result_invalid (worker_executed q ∷ [])

coded_injective : {v u : Value} → coded v ≡ coded u → v ≡ u
coded_injective e = ground (arith, e)

given_grants_iff :
    (source : Text) (o : Option Grants) (a : Grants)
    → (given_grants source o ≡ some a)
      ↔ ((o ≡ some a) × (validate_grants a ≡ true) × (a.source ≡ source))
given_grants_iff source none a = (λ h. absurd (ground (arith, h)), λ (e, v, s). cc)
given_grants_iff source (some b) a = (
  λ h.
      let b≡a : b ≡ a = ground (arith, h) in
      (
        ap (λ (x : Grants). some x) b≡a,
        ground (arith, h),
        ground (arith, h, same_text_iff b.source source),
      ),
  λ (e, v, s). ground (arith, e, v, s, same_text_iff b.source source),
)

module _ (g : GatewayPorts) (job : Job) (q : Request) where
  grants_for-IsGrantOf : (a : Grants) → grants_for g job q ≡ some a → IsGrantOf g job q a
  grants_for-IsGrantOf a h = elim (Bool-cases (validate_authorization (context_of job q))) [
    | inl v ↦
        let (e, valid, source) =
          (given_grants_iff g.grant_source (g.resolve_capabilities (context_of job q)) a).0
            (rw v at h) in
        record { asked = v; answered = e; valid = valid; own_source = source }
    | inr v ↦ absurd (ground (arith, h, v))
  ]

  IsGrantOf-grants_for : (a : Grants) → IsGrantOf g job q a → grants_for g job q ≡ some a
  IsGrantOf-grants_for a h = rw h.asked (
      (given_grants_iff g.grant_source (g.resolve_capabilities (context_of job q)) a).1
        (h.answered, h.valid, h.own_source))

  is_granted_iff : (a : Grants) → (is_granted q (some a) ≡ true) ↔ IsPermitted q a
  unfolding is_granted
  is_granted_iff a =
      let offered = same_text_iff q.execution.capability (text "pixel.system-status.read") in
      let listed = contains_iff q.execution.capability a.capabilities in
      (
        λ h. record {
          offered = offered.0 (ground (arith, h));
          listed = listed.0 (ground (arith, h));
        },
        λ p. ground (arith, offered.1 p.offered, listed.1 p.listed),
      )

  worker_outcome-Expected :
      (a : Grants) (o : Option WorkerAnswer)
      → IsGrantOf g job q a
      → IsPermitted q a
      → g.worker_execute q ≡ o
      → Expected g job q (worker_outcome o) (worker_executed q ∷ [])
  unfolding worker_outcome
  worker_outcome-Expected a none grant permitted e = worker_throws a grant permitted e
  worker_outcome-Expected a (some shapeless) grant permitted e =
      worker_invalid a shapeless grant permitted e (λ f. cc) (λ f. cc)
  worker_outcome-Expected a (some (coded v)) grant permitted e =
      elim (Bool-cases (is_text v (text "SYSTEM_STATUS_AVAILABLE"))) [
        | inl available ↦
            rw available
              (worker_succeeds a grant permitted (rw ((is_text_iff v _).0 available) at e))
        | inr other ↦ elim (Bool-cases (is_text v (text "WORKER_UNAVAILABLE"))) [
          | inl down ↦
              rw (other, down) (worker_fails a grant permitted (rw ((is_text_iff v _).0 down) at e))
          | inr neither ↦
              rw (other, neither)
                (worker_invalid a (coded v) grant permitted e
                  (λ f.
                    (is_text_not v (text "SYSTEM_STATUS_AVAILABLE")).0 other (coded_injective f))
                  (λ f. (is_text_not v (text "WORKER_UNAVAILABLE")).0 neither (coded_injective f)))
        ]
      ]

  is_granted-none : is_granted q none ≡ false
  unfolding is_granted
  is_granted-none = refl

  grants_for-Expected :
      (o : Option Grants)
      → grants_for g job q ≡ o
      → Expected g job q (outcome_for g q o (is_granted q o)) (calls_for q (is_granted q o) [])
  grants_for-Expected none e =
      rw is_granted-none (unauthorized (λ a h. ground (arith, e, IsGrantOf-grants_for a h)))
  grants_for-Expected (some a) e = elim (Bool-cases (is_granted q (some a))) [
    | inl granted ↦ rw granted (
        worker_outcome-Expected a (g.worker_execute q) (grants_for-IsGrantOf a e)
          ((is_granted_iff a).0 granted) refl)
    | inr refused ↦ rw refused (
        not_permitted a (grants_for-IsGrantOf a e)
          (λ p. ground (arith, refused, (is_granted_iff a).1 p)))
  ]

  pub outcome_for-Expected :
      let grants = grants_for g job q in
      Expected g job q
        (outcome_for g q grants (is_granted q grants))
        (calls_for q (is_granted q grants) [])
  outcome_for-Expected = grants_for-Expected (grants_for g job q) refl

calls_for-append :
    (q : Request) (b : Bool) (calls : List PortCall)
    → calls_for q b calls ≡ calls_for q b [] ++ calls
calls_for-append q true calls = refl
calls_for-append q false calls = refl

-- When the identifiers are well-formed, no one uses the store meanwhile and the adapter has no fault:
-- the execution of a valid request for the gateway's environment, of a running job of which nothing is
-- decided or claimed, ends the job, by COMPLETED or FAILED, with the outcome that `Expected` has for
-- the answers of the provider and the worker; the worker is called as `Expected` has it, once or not at
-- all, and the provider is asked if the job's authorization context is valid.
pub gateway_execute-IsExpected :
    (g : GatewayPorts) (quiet : AreUndisturbed g) (q : Request) (job : Job) (h : IsOpen q job)
    (parent : Text) (w : World)
    → validate_request q ≡ true
    → same_text q.environment g.environment ≡ true
    → lookup q.job_id w.store.jobs ≡ some job
    → (outcome : Outcome) × (worker_calls : List PortCall) × Expected g job q outcome worker_calls
      × Ends outcome (worker_calls ++ asked_for job q w.calls) (gateway_execute g q parent w)
gateway_execute-IsExpected g quiet q job h parent w v environment found =
    let grants = grants_for g job q in
    let granted = is_granted q grants in
    (
      outcome_for g q grants granted,
      calls_for q granted [],
      outcome_for-Expected g job q,
      subst
          (λ (calls : List PortCall).
            Ends (outcome_for g q grants granted) calls (gateway_execute g q parent w))
          (calls_for-append q granted (asked_for job q w.calls))
          (gateway_execute-computed g quiet q job h parent w v environment found),
    )
