-- ===== src/Relay/Methods.antt =====
-- What the methods of adapters/simulator/src/relay-store-simulator-adapter.js do with the job they
-- find.
use pixel_hq_oss.Common.{
  ℕ, ◌+◌, Bool, true, false, not, ◌&&◌, ◌||◌, Option, none, some, [], ◌∷◌, ◌++◌, Text, same_text,
  is_none, is_some, ◌==◌, if◌then◌else◌,
}
use pixel_hq_oss.Relay.Contract.{
  JobState, submitted, accepted, running, completed, failed, Transition, validate_transition,
  is_running, is_failed, is_completed,
}
use pixel_hq_oss.Relay.Request.{
  Envelope, Request, GatewayDecision, validate_request, validate_decision,
}
use pixel_hq_oss.Relay.Job.{
  Invocation, Job, same_option, same_execution_binding, same_request, same_decision,
  same_invocation, matches_envelope, matches_model_envelope,
}

-- The `disposition` of an answer.
pub data Reply : Type 0 where
  rejected applied recorded invoke_now already_claimed prepare_now released committed : Reply

-- The job that a new claim stores.
unfoldable pub new_job : Envelope → Job
new_job envelope = record {
  envelope = envelope;
  current_state = submitted;
  execution_id = none;
  transitions = [];
  execution_request = none;
  gateway_decision = none;
  invocation_claimed = false;
  model_context_claimed = false;
  model_invocation = none;
  model_invocation_claimed = false;
  result = none;
  revision = 1;
}

abbrev pub state_index : JobState → ℕ
state_index submitted = 0
state_index accepted = 1
state_index running = 2
state_index completed = 3
state_index failed = 4

-- `state === other`
abbrev pub same_state : JobState → JobState → Bool
same_state a b = state_index a == state_index b

abbrev pub is_accepted : JobState → Bool
is_accepted accepted = true
is_accepted _ = false

abbrev pub is_terminal : JobState → Bool
is_terminal s = is_completed s || is_failed s

-- The guards of `applyTransition`.
unfoldable pub admits_transition : Text → Transition → Job → Bool
admits_transition id t job =
    validate_transition t
    && same_text t.job_id id
    && same_text t.trace_id job.envelope.trace_id
    && same_text t.environment job.envelope.environment
    && same_state t.from_state job.current_state
    && not (same_state t.from_state submitted && is_accepted t.to_state && is_some t.execution_id)
    && not (is_terminal job.current_state)

abbrev pub entered : Transition → Job → Option Text
entered t job = if is_running t.to_state then t.execution_id else job.execution_id

-- `applyTransition`
unfoldable pub apply_transition : Text → Transition → Job → Reply × Job
unfolding admits_transition
apply_transition id t job =
    if not (admits_transition id t job)
    then (rejected, job)
    else if is_some (entered t job) && not (same_option t.execution_id (entered t job))
    then (rejected, record job { execution_id = entered t job })
    else (
      applied,
      record job {
        execution_id = entered t job;
        transitions = job.transitions ++ (t ∷ []);
        current_state = t.to_state;
        revision = job.revision + 1;
      },
    )

-- `recordGatewayDecision`
unfoldable pub record_gateway_decision : Request → GatewayDecision → Job → Reply × Job
record_gateway_decision q d job =
    if is_running job.current_state
      && is_none job.gateway_decision
      && not job.model_context_claimed
      && is_none job.model_invocation
      && validate_request q
      && validate_decision d
      && matches_envelope job q
      && same_execution_binding q d
    then (
      recorded,
      record job {
        execution_request = some q;
        gateway_decision = some d;
        revision = job.revision + 1;
      },
    )
    else (rejected, job)

-- The comparisons of `claimWorkerInvocation` with what was recorded.
unfoldable pub is_recorded :
    Option Request → Option GatewayDecision → Request → GatewayDecision → Bool
is_recorded (some q') (some d') q d =
    d'.allowed
    && same_execution_binding q d
    && same_execution_binding q' d'
    && same_execution_binding q' d'
    && same_request q' q
    && same_decision d' d
    && d.allowed
is_recorded _ _ q d = false

-- `claimWorkerInvocation`
unfoldable pub claim_worker_invocation : Bool → Request → GatewayDecision → Job → Reply × Job
unfolding is_recorded
claim_worker_invocation fails q d job =
    if fails
      || not (is_running job.current_state)
      || is_some job.model_invocation
      || not (is_recorded job.execution_request job.gateway_decision q d)
    then (rejected, job)
    else if job.invocation_claimed
    then (already_claimed, job)
    else (invoke_now, record job { invocation_claimed = true; revision = job.revision + 1 })

-- `claimModelContextPreparation`
unfoldable pub claim_model_context : Job → Reply × Job
claim_model_context job =
    if not (is_accepted job.current_state)
      || is_some job.gateway_decision
      || job.invocation_claimed
      || is_some job.model_invocation
    then (rejected, job)
    else if job.model_context_claimed
    then (already_claimed, job)
    else (prepare_now, record job { model_context_claimed = true; revision = job.revision + 1 })

abbrev pub is_expected : Option ℕ → ℕ → Bool
is_expected none revision = true
is_expected (some n) revision = revision == n

-- `releaseModelContextPreparation`
unfoldable pub release_model_context : Option ℕ → Job → Reply × Job
release_model_context expected job =
    if not (is_accepted job.current_state)
      || not job.model_context_claimed
      || is_some job.model_invocation
      || is_some job.gateway_decision
      || not (is_expected expected job.revision)
    then (rejected, job)
    else (released, record job { model_context_claimed = false; revision = job.revision + 1 })

-- The end of `claimModelInvocation`, on the invocation that was claimed before.
unfoldable pub claim_invocation : Option Invocation → Invocation → Job → Reply × Job
claim_invocation (some i') i job = (if same_invocation i' i then already_claimed else rejected, job)
claim_invocation none i job = (
  invoke_now,
  record job {
    model_invocation = some i;
    model_invocation_claimed = true;
    revision = job.revision + 1;
  },
)

-- `claimModelInvocation`
unfoldable pub claim_model_invocation : Bool → Invocation → Job → Reply × Job
unfolding claim_invocation
claim_model_invocation fails i job =
    if fails
      || not (is_running job.current_state)
      || is_some job.gateway_decision
      || job.invocation_claimed
      || not i.is_valid
      || not (matches_model_envelope job i)
    then (rejected, job)
    else claim_invocation job.model_invocation i job
