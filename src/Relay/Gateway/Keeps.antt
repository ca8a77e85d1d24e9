-- ===== src/Relay/Gateway/Keeps.antt =====
-- What the methods of services/tool-gateway/src/tool-gateway.js keep.
use pixel_hq_oss.Common.{◌≡◌, Bool, true, Option, none, some, Text, all_of}
use pixel_hq_oss.Relay.Contract.{Outcome, Transition, Result}
use pixel_hq_oss.Relay.Request.{Request, GatewayDecision}
use pixel_hq_oss.Relay.Store.{StoreOperation}
use pixel_hq_oss.Relay.Action.{EvidenceOutcome, World}
use pixel_hq_oss.Relay.Action.Keeps.{Keeps}
use pixel_hq_oss.Relay.Action.Stable.{IsStable, stable_rules}
use pixel_hq_oss.Relay.Gateway.Context.{AuthorizationContext, Grants}
use pixel_hq_oss.Relay.Gateway.Contracts.{GatewayPorts}
use pixel_hq_oss.Relay.Gateway.{
  note, give_up, make_decision, terminal_result, terminal_transition, project, commit_terminal,
  resolve_with, resolve_grants, finish_worker, claim_worker, enforce, judge, evaluate_request,
  gateway_execute,
}

module _ {κ} (P : World → Type κ) (allowed : StoreOperation → Bool) (s : IsStable P allowed)
    (g : GatewayPorts) where
  pub note-Keeps :
      (q : Request) (span parent event : Text) (outcome : EvidenceOutcome)
      → Keeps P (note g q span parent event outcome)
  unfolding note
  note-Keeps q span parent event outcome = search stable_rules

  give_up-Keeps : (q : Request) → Keeps P (give_up g q)
  unfolding give_up
  give_up-Keeps q = search stable_rules

  make_decision-Keeps : (q : Request) (grants : Option Grants) → Keeps P (make_decision g q grants)
  unfolding make_decision
  make_decision-Keeps q grants = search stable_rules depth 12

  terminal_result-Keeps :
      (q : Request) (outcome : Outcome) (source : Option Text)
      → Keeps P (terminal_result g q outcome source)
  unfolding terminal_result
  terminal_result-Keeps q outcome source = search stable_rules depth 12

  terminal_transition-Keeps :
      (q : Request) (outcome : Outcome) → Keeps P (terminal_transition g q outcome)
  unfolding terminal_transition
  terminal_transition-Keeps q outcome = search stable_rules depth 12

  project-Keeps :
      (q : Request) (r : Result) (t : Transition) (parent : Text) → Keeps P (project g q r t parent)
  unfolding project
  project-Keeps q r t parent = search (stable_rules, note-Keeps) depth 12

  ruleset terminal_rules = (
    stable_rules, note-Keeps, give_up-Keeps, make_decision-Keeps, terminal_result-Keeps,
    terminal_transition-Keeps, project-Keeps,
  )

  commit_terminal-Keeps :
      (q : Request) (outcome : Outcome) (source : Option Text) (parent : Text)
      → Keeps P (commit_terminal g q outcome source parent)
  unfolding commit_terminal
  commit_terminal-Keeps q outcome source parent = search terminal_rules depth 12

  module _ (resolving : all_of allowed g.during_resolve ≡ true) where
    resolve_with-Keeps :
        (q : Request) (o : Option AuthorizationContext) → Keeps P (resolve_with g q o)
    unfolding resolve_with
    resolve_with-Keeps q none = search stable_rules
    resolve_with-Keeps q (some c) = search stable_rules depth 12

    resolve_grants-Keeps : (q : Request) → Keeps P (resolve_grants g q)
    unfolding resolve_grants
    resolve_grants-Keeps q = search (stable_rules, resolve_with-Keeps)

  pub finish_worker-Keeps :
      (q : Request) (start : Text)
      → all_of allowed g.during_worker ≡ true
      → Keeps P (finish_worker g q start)
  unfolding finish_worker
  finish_worker-Keeps q start working = search (terminal_rules, commit_terminal-Keeps) depth 12

  module _ (resolving : all_of allowed g.during_resolve ≡ true)
      (claiming : (q : Request) (d : GatewayDecision) → Keeps P (claim_worker g q d)) where
    enforce-Keeps :
        (q : Request) (grants : Option Grants) (d : GatewayDecision) (gate : Text)
        → Keeps P (enforce g q grants d gate)
    unfolding enforce
    enforce-Keeps q grants d gate =
        search (terminal_rules, commit_terminal-Keeps, claiming) depth 12

    judge-Keeps : (q : Request) (gate : Text) → Keeps P (judge g q gate)
    unfolding judge
    judge-Keeps q gate = search (terminal_rules, resolve_grants-Keeps, enforce-Keeps) depth 12

    evaluate_request-Keeps : (q : Request) (parent : Text) → Keeps P (evaluate_request g q parent)
    unfolding evaluate_request
    evaluate_request-Keeps q parent = search (terminal_rules, judge-Keeps) depth 12

    pub gateway_execute-Keeps : (q : Request) (parent : Text) → Keeps P (gateway_execute g q parent)
    unfolding gateway_execute
    gateway_execute-Keeps q parent = search (terminal_rules, evaluate_request-Keeps) depth 12
