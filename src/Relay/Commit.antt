-- ===== src/Relay/Commit.antt =====
-- `commitTerminalResult` of adapters/simulator/src/relay-store-simulator-adapter.js.
use pixel_hq_oss.Common.{
  ◌+◌, Bool, true, false, not, ◌&&◌, Option, none, some, [], ◌∷◌, ◌++◌, Text, same_text, is_text,
  if◌then◌else◌,
}
use pixel_hq_oss.Relay.Contract.{
  is_denied, Transition, validate_transition, Provenance, of_worker, of_model, Result,
  validate_result, is_running, is_failed,
}
use pixel_hq_oss.Relay.Request.{GatewayDecision}
use pixel_hq_oss.Relay.Job.{Invocation, Job, is_execution, same_option}
use pixel_hq_oss.Relay.Methods.{Reply, rejected, committed, same_state}

abbrev pub names_invocation : Provenance → Invocation → Bool
names_invocation (of_model gateway invocation runtime model source) i =
    is_text invocation i.invocation_id
names_invocation (of_worker contract source) i = false

abbrev pub is_of_worker : Provenance → Bool
is_of_worker (of_worker contract source) = true
is_of_worker (of_model gateway invocation runtime model source) = false

-- The conditions of `commitTerminalResult` on the path that the job took.
unfoldable pub path_ok : Option GatewayDecision → Option Invocation → Bool → Bool → Result → Bool
path_ok (some d) none claimed model_claimed r =
    is_of_worker r.provenance
    && (if d.allowed
        then claimed && not (is_denied r.outcome_code)
        else not claimed && is_failed r.state && is_denied r.outcome_code)
path_ok none (some i) claimed model_claimed r = model_claimed && names_invocation r.provenance i
path_ok _ _ claimed model_claimed r = false

-- The guards of `commitTerminalResult`.
unfoldable pub admits_result : Text → Transition → Result → Job → Bool
unfolding path_ok
admits_result id t r job =
    is_running job.current_state
    && validate_transition t
    && validate_result r
    && same_text t.job_id id
    && same_text r.job_id id
    && same_option t.execution_id job.execution_id
    && is_execution r.execution_id job.execution_id
    && same_state t.to_state r.state
    && same_text t.trace_id job.envelope.trace_id
    && same_text r.trace_id job.envelope.trace_id
    && path_ok job.gateway_decision job.model_invocation job.invocation_claimed
        job.model_invocation_claimed r

-- `commitTerminalResult`
unfoldable pub commit_terminal_result : Bool → Text → Transition → Result → Job → Reply × Job
unfolding admits_result
commit_terminal_result fails id t r job =
    if not fails && admits_result id t r job
    then (
      committed,
      record job {
        transitions = job.transitions ++ (t ∷ []);
        result = some r;
        current_state = t.to_state;
        revision = job.revision + 1;
      },
    )
    else (rejected, job)
