-- ===== src/Relay/Calls/Once.antt =====
-- INVOKE_NOW answers and finished jobs, over calls of the methods of
-- adapters/simulator/src/relay-store-simulator-adapter.js.
use pixel_hq_oss.Common.{
  ℕ, ◌+◌, ◌≤◌, ◌≡◌, refl, ap, ◌∙◌, true, List, [], ◌∷◌, arith, Text, is_some, if◌then◌else◌,
}
use pixel_hq_oss.Relay.Request.{Envelope}
use pixel_hq_oss.Relay.Job.{Job}
use pixel_hq_oss.Relay.Methods.{
  Reply, rejected, invoke_now, new_job, is_terminal, admits_transition, apply_transition,
  record_gateway_decision, claim_worker_invocation, claim_model_context, release_model_context,
  claim_invocation, claim_model_invocation,
}
use pixel_hq_oss.Relay.Commit.{admits_result, commit_terminal_result}
use pixel_hq_oss.Relay.Calls.{
  JobCall, transition_call, decision_call, worker_call, context_call, release_call, model_call,
  commit_call, on_job, run_job,
}
use pixel_hq_oss.Relay.Calls.Legal.{IsConsistent, new_job-IsConsistent, run_job-IsConsistent}

abbrev pub is_invoke_now : Reply → ℕ
is_invoke_now invoke_now = 1
is_invoke_now _ = 0

-- How many of the calls are answered INVOKE_NOW.
abbrev pub invocations : Text → List JobCall → Job → ℕ
invocations id [] job = 0
invocations id (c ∷ cs) job =
    is_invoke_now (on_job id c job).0 + invocations id cs (on_job id c job).1

-- How many invocations the job records, of a worker and of a model.
abbrev pub claims : Job → ℕ
claims job =
    (if job.invocation_claimed then 1 else 0) + (if is_some job.model_invocation then 1 else 0)

claims-le : (job : Job) → IsConsistent job → claims job ≤ 1
claims-le job h = ground (arith, h.one_path, h.worker_decided)

on_job-claims :
    (id : Text) (c : JobCall) (job : Job)
    → claims (on_job id c job).1 ≡ is_invoke_now (on_job id c job).0 + claims job
unfolding on_job apply_transition record_gateway_decision claim_worker_invocation
    claim_model_context release_model_context claim_model_invocation claim_invocation
    commit_terminal_result
on_job-claims id (transition_call t) job = ground arith
on_job-claims id (decision_call q d) job = ground arith
on_job-claims id (worker_call fails q d) job = ground arith
on_job-claims id context_call job = ground arith
on_job-claims id (release_call expected) job = ground arith
on_job-claims id (model_call fails i) job = ground arith
on_job-claims id (commit_call fails t r) job = ground arith

run_job-claims :
    (id : Text) (cs : List JobCall) (job : Job)
    → claims (run_job id cs job) ≡ invocations id cs job + claims job
unfolding run_job
run_job-claims id [] job = omega arith
run_job-claims id (c ∷ cs) job =
    omega (arith, on_job-claims id c job, run_job-claims id cs (on_job id c job).1)

-- Of any calls on a job since its claim, one at most is answered INVOKE_NOW, counting workers and
-- models together.
pub invocations-le :
    (id : Text) (cs : List JobCall) (envelope : Envelope) → invocations id cs (new_job envelope) ≤ 1
invocations-le id cs envelope =
    let job = new_job envelope in
    omega (
      arith,
      run_job-claims id cs job,
      claims-le (run_job id cs job)
          (run_job-IsConsistent id cs job (new_job-IsConsistent envelope)),
    )

on_job_terminal :
    (id : Text) (c : JobCall) (job : Job)
    → is_terminal job.current_state ≡ true
    → on_job id c job ≡ (rejected, job)
unfolding on_job apply_transition admits_transition record_gateway_decision claim_worker_invocation
    claim_model_context release_model_context claim_model_invocation commit_terminal_result
    admits_result
on_job_terminal id (transition_call t) job h = ground arith
on_job_terminal id (decision_call q d) job h = ground arith
on_job_terminal id (worker_call fails q d) job h = ground arith
on_job_terminal id context_call job h = ground arith
on_job_terminal id (release_call expected) job h = ground arith
on_job_terminal id (model_call fails i) job h = ground arith
on_job_terminal id (commit_call fails t r) job h = ground arith

-- A job that is COMPLETED or FAILED stays as it is, in every field, through any calls of the methods
-- on it.
pub run_job_terminal :
    (id : Text) (cs : List JobCall) (job : Job)
    → is_terminal job.current_state ≡ true
    → run_job id cs job ≡ job
unfolding run_job
run_job_terminal id [] job h = refl
run_job_terminal id (c ∷ cs) job h =
    ap (λ (q : Reply × Job). run_job id cs q.1) (on_job_terminal id c job h)
    ∙ run_job_terminal id cs job h

-- A claim of the worker stays.
pub on_job-claimed_le :
    (id : Text) (c : JobCall) (job : Job)
    → (if job.invocation_claimed then 1 else 0)
      ≤ (if (on_job id c job).1.invocation_claimed then 1 else 0)
unfolding on_job apply_transition record_gateway_decision claim_worker_invocation
    claim_model_context release_model_context claim_model_invocation claim_invocation
    commit_terminal_result
on_job-claimed_le id (transition_call t) job = ground arith
on_job-claimed_le id (decision_call q d) job = ground arith
on_job-claimed_le id (worker_call fails q d) job = ground arith
on_job-claimed_le id context_call job = ground arith
on_job-claimed_le id (release_call expected) job = ground arith
on_job-claimed_le id (model_call fails i) job = ground arith
on_job-claimed_le id (commit_call fails t r) job = ground arith
