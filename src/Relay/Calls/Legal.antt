-- ===== src/Relay/Calls/Legal.antt =====
-- An invariant of the jobs of adapters/simulator/src/relay-store-simulator-adapter.js.
use pixel_hq_oss.Common.{
  ℕ, ◌≡◌, refl, sym, subst, ◌∙◌, inl, inr, Bool, true, false, not, ◌&&◌, Option, List, [], ◌∷◌,
  ◌++◌, arith, Text, is_some, Bool-cases,
}
use pixel_hq_oss.Relay.Contract.{
  JobState, submitted, running, TransitionReason, Transition, validate_transition, Result,
  validate_result, is_legal, is_outcome_of, is_running,
}
use pixel_hq_oss.Relay.Request.{Envelope, Request, GatewayDecision}
use pixel_hq_oss.Relay.Job.{Invocation, Job}
use pixel_hq_oss.Relay.Methods.{
  new_job, same_state, is_terminal, admits_transition, apply_transition, record_gateway_decision,
  is_recorded, claim_worker_invocation, claim_model_context, release_model_context,
  claim_invocation, claim_model_invocation,
}
use pixel_hq_oss.Relay.Commit.{admits_result, commit_terminal_result}
use pixel_hq_oss.Relay.Calls.{
  JobCall, transition_call, decision_call, worker_call, context_call, release_call, model_call,
  commit_call, on_job, run_job,
}

-- Legal transitions one after the other, from SUBMITTED to the state.
pub data Trail : List Transition → JobState → Type 0 where
  start : Trail [] submitted
  after :
      {ts : List Transition}
      → (t : Transition) → Trail ts t.from_state
      → is_legal t.from_state t.to_state t.reason_code ≡ true
      → Trail (ts ++ (t ∷ [])) t.to_state

-- The fields of a job agree.
pub record IsConsistent (job : Job) : Type 0 where
  pub trail : Trail job.transitions job.current_state
  pub one_path : is_some job.gateway_decision && is_some job.model_invocation ≡ false
  pub worker_decided : job.invocation_claimed ≡ true → is_some job.gateway_decision ≡ true
  pub model_claimed : job.model_invocation_claimed ≡ is_some job.model_invocation
  pub bound : is_running job.current_state ≡ true → is_some job.execution_id ≡ true
  pub finished : is_some job.result ≡ true → is_terminal job.current_state ≡ true

same_state-≡ : (a b : JobState) → same_state a b ≡ true → a ≡ b
same_state-≡ a b h = ground arith

transition_legal :
    (t : Transition)
    → validate_transition t ≡ true
    → is_legal t.from_state t.to_state t.reason_code ≡ true
unfolding validate_transition
transition_legal t h = ground arith

-- A legal transition out of anything but RUNNING enters no terminal state.
legal_end :
    (a b : JobState) (r : TransitionReason)
    → is_legal a b r ≡ true
    → is_terminal b ≡ true
    → a ≡ running
unfolding is_legal
legal_end a b r h e = ground arith

result_terminal : (r : Result) → validate_result r ≡ true → is_terminal r.state ≡ true
unfolding validate_result is_outcome_of
result_terminal r h = ground arith

running_bound :
    (t : Transition)
    → validate_transition t ≡ true
    → is_running t.to_state ≡ true
    → is_some t.execution_id ≡ true
unfolding validate_transition
running_bound t h e = ground arith

pub new_job-IsConsistent : (envelope : Envelope) → IsConsistent (new_job envelope)
unfolding new_job
new_job-IsConsistent envelope = record {
  trail = start;
  one_path = refl;
  worker_decided = λ e. cc;
  model_claimed = refl;
  bound = λ e. cc;
  finished = λ e. cc;
}

Trail-append :
    (t : Transition) (ts : List Transition) (s : JobState)
    → Trail ts s
    → t.from_state ≡ s
    → validate_transition t ≡ true
    → Trail (ts ++ (t ∷ [])) t.to_state
Trail-append t ts s trail e v =
    after t (subst (λ (q : JobState). Trail ts q) (sym e) trail) (transition_legal t v)

admits_transition_facts :
    (id : Text) (t : Transition) (job : Job)
    → admits_transition id t job ≡ true
    → (validate_transition t ≡ true)
      × (t.from_state ≡ job.current_state)
      × (is_terminal job.current_state ≡ false)
unfolding admits_transition
admits_transition_facts id t job h =
    (ground arith, same_state-≡ t.from_state job.current_state (ground arith), ground arith)

admits_result_facts :
    (id : Text) (t : Transition) (r : Result) (job : Job)
    → admits_result id t r job ≡ true
    → (validate_transition t ≡ true)
      × (t.from_state ≡ job.current_state)
      × (is_terminal t.to_state ≡ true)
unfolding admits_result
admits_result_facts id t r job h =
    let e = same_state-≡ t.to_state r.state (ground arith) in
    let terminal =
      subst (λ (q : JobState). is_terminal q ≡ true) (sym e) (result_terminal r (ground arith)) in
    let v : validate_transition t ≡ true = ground arith in
    let from = legal_end t.from_state t.to_state t.reason_code (transition_legal t v) terminal in
    (v, from ∙ ground arith, terminal)

apply_transition-IsConsistent :
    (id : Text) (t : Transition) (job : Job)
    → IsConsistent job
    → IsConsistent (apply_transition id t job).1
unfolding apply_transition
apply_transition-IsConsistent id t job h = elim (Bool-cases (admits_transition id t job)) [
  | inl e ↦
      let (v, from, open_state) = admits_transition_facts id t job e in
      record {
        trail =
            ground
              (arith, e, h.trail, Trail-append t job.transitions job.current_state h.trail from v);
        one_path = ground (arith, e, h.one_path);
        worker_decided = ground (arith, e, h.worker_decided);
        model_claimed = ground (arith, e, h.model_claimed);
        bound = ground (arith, e, h.bound, running_bound t v);
        finished = ground (arith, e, h.finished, open_state);
      }
  | inr e ↦ rw e h
]

record_gateway_decision-IsConsistent :
    (q : Request) (d : GatewayDecision) (job : Job)
    → IsConsistent job
    → IsConsistent (record_gateway_decision q d job).1
unfolding record_gateway_decision
record_gateway_decision-IsConsistent q d job h = ground (arith, h)

claim_worker_invocation-IsConsistent :
    (fails : Bool) (q : Request) (d : GatewayDecision) (job : Job)
    → IsConsistent job
    → IsConsistent (claim_worker_invocation fails q d job).1
unfolding claim_worker_invocation is_recorded
claim_worker_invocation-IsConsistent fails q d job h = ground (arith, h)

claim_model_context-IsConsistent :
    (job : Job) → IsConsistent job → IsConsistent (claim_model_context job).1
unfolding claim_model_context
claim_model_context-IsConsistent job h = ground (arith, h)

release_model_context-IsConsistent :
    (expected : Option ℕ) (job : Job)
    → IsConsistent job
    → IsConsistent (release_model_context expected job).1
unfolding release_model_context
release_model_context-IsConsistent expected job h = ground (arith, h)

claim_model_invocation-IsConsistent :
    (fails : Bool) (i : Invocation) (job : Job)
    → IsConsistent job
    → IsConsistent (claim_model_invocation fails i job).1
unfolding claim_model_invocation claim_invocation
claim_model_invocation-IsConsistent fails i job h = ground (arith, h)

commit_terminal_result-IsConsistent :
    (fails : Bool) (id : Text) (t : Transition) (r : Result) (job : Job)
    → IsConsistent job
    → IsConsistent (commit_terminal_result fails id t r job).1
unfolding commit_terminal_result
commit_terminal_result-IsConsistent fails id t r job h =
    elim (Bool-cases (not fails && admits_result id t r job)) [
      | inl e ↦
          let (v, from, terminal) = admits_result_facts id t r job (ground arith) in
          record {
            trail = ground (
              arith,
              e,
              h.trail,
              Trail-append t job.transitions job.current_state h.trail from v,
            );
            one_path = ground (arith, e, h.one_path);
            worker_decided = ground (arith, e, h.worker_decided);
            model_claimed = ground (arith, e, h.model_claimed);
            bound = ground (arith, e, h.bound, terminal);
            finished = ground (arith, e, terminal);
          }
      | inr e ↦ rw e h
    ]

pub on_job-IsConsistent :
    (id : Text) (c : JobCall) (job : Job) → IsConsistent job → IsConsistent (on_job id c job).1
unfolding on_job
on_job-IsConsistent id (transition_call t) job h = apply_transition-IsConsistent id t job h
on_job-IsConsistent id (decision_call q d) job h = record_gateway_decision-IsConsistent q d job h
on_job-IsConsistent id (worker_call fails q d) job h =
    claim_worker_invocation-IsConsistent fails q d job h
on_job-IsConsistent id context_call job h = claim_model_context-IsConsistent job h
on_job-IsConsistent id (release_call expected) job h =
    release_model_context-IsConsistent expected job h
on_job-IsConsistent id (model_call fails i) job h =
    claim_model_invocation-IsConsistent fails i job h
on_job-IsConsistent id (commit_call fails t r) job h =
    commit_terminal_result-IsConsistent fails id t r job h

-- Whatever methods are called on a consistent job (a new job is one) with whatever arguments, the job
-- stays consistent: its transitions are legal ones in a row from SUBMITTED to its state, it never has
-- both a gateway decision and a model invocation, a worker is claimed only after a decision, a running
-- job is bound to an execution, and a result stands only on a finished job.
pub run_job-IsConsistent :
    (id : Text) (cs : List JobCall) (job : Job)
    → IsConsistent job
    → IsConsistent (run_job id cs job)
unfolding run_job
run_job-IsConsistent id [] job h = h
run_job-IsConsistent id (c ∷ cs) job h =
    run_job-IsConsistent id cs (on_job id c job).1 (on_job-IsConsistent id c job h)
