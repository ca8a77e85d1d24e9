-- ===== src/Relay/Calls.antt =====
-- Calls of the methods of adapters/simulator/src/relay-store-simulator-adapter.js on one job.
pub mod Legal
pub mod Once
use pixel_hq_oss.Common.{
  ℕ, ◌+◌, Bool, true, false, not, ◌&&◌, ◌||◌, Option, none, some, List, [], ◌∷◌, ◌++◌, Text,
  same_text, Value, is_text, is_none, is_some, ◌==◌, if◌then◌else◌,
}
use pixel_hq_oss.Relay.Contract.{Transition, Result}
use pixel_hq_oss.Relay.Request.{Request, GatewayDecision}
use pixel_hq_oss.Relay.Job.{Invocation, Job}
use pixel_hq_oss.Relay.Methods.{
  Reply, apply_transition, record_gateway_decision, claim_worker_invocation, claim_model_context,
  release_model_context, claim_model_invocation,
}
use pixel_hq_oss.Relay.Commit.{commit_terminal_result}

-- A call of a method on one job; a Boolean is the fault that the adapter was built with.
pub data JobCall : Type 0 where
  transition_call : Transition → JobCall
  decision_call : Request → GatewayDecision → JobCall
  worker_call : Bool → Request → GatewayDecision → JobCall
  context_call : JobCall
  release_call : Option ℕ → JobCall
  model_call : Bool → Invocation → JobCall
  commit_call : Bool → Transition → Result → JobCall

unfoldable pub on_job : Text → JobCall → Job → Reply × Job
on_job id (transition_call t) job = apply_transition id t job
on_job id (decision_call q d) job = record_gateway_decision q d job
on_job id (worker_call fails q d) job = claim_worker_invocation fails q d job
on_job id context_call job = claim_model_context job
on_job id (release_call expected) job = release_model_context expected job
on_job id (model_call fails i) job = claim_model_invocation fails i job
on_job id (commit_call fails t r) job = commit_terminal_result fails id t r job

-- Any calls on one job.
unfoldable pub run_job : Text → List JobCall → Job → Job
unfolding on_job
run_job id [] job = job
run_job id (c ∷ cs) job = run_job id cs (on_job id c job).1
