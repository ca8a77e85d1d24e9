-- ===== src/Relay/Examples.antt =====
-- A job that a worker completes, in adapters/simulator/src/relay-store-simulator-adapter.js.
use pixel_hq_oss.Common.{
  ℕ, ◌≡◌, ◌≤◌, refl, true, false, Option, none, some, List, [], ◌∷◌, ◌++◌, Text, text, Value, str,
  null,
}
use pixel_hq_oss.Relay.Contract.{
  JobState, submitted, accepted, running, completed, TransitionReason, job_accepted,
  execution_started, execution_completed, status_available, Transition, Result, of_worker,
}
use pixel_hq_oss.Relay.Request.{
  WorkerBinding, Owner, Execution, Envelope, Request, DecisionReason, capability_granted,
  GatewayDecision,
}
use pixel_hq_oss.Relay.Job.{Job}
use pixel_hq_oss.Relay.Methods.{new_job}
use pixel_hq_oss.Relay.Calls.{
  JobCall, transition_call, decision_call, worker_call, context_call, commit_call, run_job,
}
use pixel_hq_oss.Relay.Calls.Once.{invocations, invocations-le, run_job_terminal}
use pixel_hq_oss.Relay.Store.{
  RelayStore, existing, claim_or_return_existing, StoreOperation, claim_operation, job_operation,
  run_operations,
}
use pixel_hq_oss.Relay.Store.Consistent.{AreConsistent, run_operations-AreConsistent}
use pixel_hq_oss.Relay.Store.Claim.{claim_again}

-- All of the code of the component, for tests that run it.
relay_code : Unit {0}
unfolding pixel_hq_oss.Common.Dict.lookup pixel_hq_oss.Common.Dict.insert
    pixel_hq_oss.Common.same_text pixel_hq_oss.Common.utf16_length
    pixel_hq_oss.Incident.Contract.matches_identifier pixel_hq_oss.Incident.Contract.is_bounded_text
    pixel_hq_oss.Relay.Contract.is_legal pixel_hq_oss.Relay.Contract.is_outcome_of
    pixel_hq_oss.Relay.Contract.validate_transition pixel_hq_oss.Relay.Contract.provenance_ok
    pixel_hq_oss.Relay.Contract.validate_result pixel_hq_oss.Relay.Request.worker_binding_ok
    pixel_hq_oss.Relay.Request.execution_ok pixel_hq_oss.Relay.Request.validate_envelope
    pixel_hq_oss.Relay.Request.validate_request pixel_hq_oss.Relay.Request.validate_decision
    pixel_hq_oss.Relay.Job.same_worker_binding pixel_hq_oss.Relay.Job.same_execution
    pixel_hq_oss.Relay.Job.same_execution_binding pixel_hq_oss.Relay.Job.same_request
    pixel_hq_oss.Relay.Job.same_decision pixel_hq_oss.Relay.Job.matches_envelope
    pixel_hq_oss.Relay.Methods.new_job pixel_hq_oss.Relay.Methods.admits_transition
    pixel_hq_oss.Relay.Methods.apply_transition pixel_hq_oss.Relay.Methods.record_gateway_decision
    pixel_hq_oss.Relay.Methods.is_recorded pixel_hq_oss.Relay.Methods.claim_worker_invocation
    pixel_hq_oss.Relay.Methods.claim_model_context pixel_hq_oss.Relay.Commit.path_ok
    pixel_hq_oss.Relay.Commit.admits_result pixel_hq_oss.Relay.Commit.commit_terminal_result
    pixel_hq_oss.Relay.Calls.on_job pixel_hq_oss.Relay.Calls.run_job
    pixel_hq_oss.Relay.Store.claim_or_return_existing
relay_code = tt

abbrev trace_id : Text
trace_id = text "0123456789abcdef0123456789abcdef"

abbrev binding : WorkerBinding
binding = record {
  worker_id = text "worker.1";
  department_ref = text "ops";
  role_ref = text "status";
}

abbrev some_hash : Text
some_hash = text "44136fa355b3678a1146ad16f7e8649e94fb4fc21fe77e8310c060f61caaff8a"

abbrev execution : Execution
execution = record {
  capability = text "pixel.system-status.read";
  tool_class = text "pixel.system-status";
  target = text "pixel.platform";
  parameter_hash = some_hash;
  worker_binding = binding;
}

abbrev envelope : Envelope
envelope = record {
  job_id = text "job.1";
  environment = text "dev";
  trace_id = trace_id;
  span_id = text "0123456789abcdef";
  requester_id = text "user.1";
  owner = record { department_ref = text "ops"; role_ref = text "status" };
  job_type = text "system-status";
  requested_capability = text "pixel.system-status.read";
  execution = execution;
  key = text "key";
  fingerprint = some_hash;
  context_source = text "simulator";
}

abbrev move : JobState → JobState → TransitionReason → Option Text → Transition
move from to reason execution_id = record {
  transition_id = text "tr.1";
  job_id = text "job.1";
  execution_id = execution_id;
  from_state = from;
  to_state = to;
  reason_code = reason;
  environment = text "dev";
  trace_id = trace_id;
  span_id = text "0123456789abcdef";
}

abbrev request : Request
request = record {
  request_id = text "req.1";
  occurred_at = text "2026-01-01T00:00:00.000Z";
  environment = text "dev";
  trace_id = trace_id;
  span_id = text "0123456789abcdef";
  job_id = text "job.1";
  execution_id = text "exec.1";
  execution = execution;
}

abbrev allowing : GatewayDecision
allowing = record {
  decision_id = text "decision.1";
  decided_at = text "2026-01-01T00:00:00.000Z";
  environment = text "dev";
  trace_id = trace_id;
  span_id = text "0123456789abcdef";
  request_id = text "req.1";
  job_id = text "job.1";
  execution_id = text "exec.1";
  execution = execution;
  allowed = true;
  reason_code = capability_granted;
  policy_id = some (text "policy.1");
  grant_source = text "simulator";
}

abbrev good_result : Result
good_result = record {
  result_id = text "result.1";
  job_id = text "job.1";
  execution_id = text "exec.1";
  state = completed;
  outcome_code = status_available;
  summary = text "System status available";
  environment = text "dev";
  trace_id = trace_id;
  span_id = text "0123456789abcdef";
  provenance = of_worker (str (text "pixel.system-status-worker.v1")) (str (text "simulator"));
}

-- The worker is claimed twice.
abbrev whole_job : List JobCall
whole_job =
    transition_call (move submitted accepted job_accepted none)
    ∷ transition_call (move accepted running execution_started (some (text "exec.1")))
    ∷ decision_call request allowing
    ∷ worker_call false request allowing
    ∷ worker_call false request allowing
    ∷ commit_call false (move running completed execution_completed (some (text "exec.1")))
        good_result
    ∷ []

abbrev finished_job : Job
finished_job = run_job (text "job.1") whole_job (new_job envelope)

finished_job_state :
    (finished_job.current_state ≡ completed) × (finished_job.result ≡ some good_result)
unfolding relay_code
finished_job_state = (refl, refl)

invoked_once : invocations (text "job.1") whole_job (new_job envelope) ≡ 1
unfolding relay_code
invoked_once = refl

invocations-le_example : invocations (text "job.1") whole_job (new_job envelope) ≤ 1
invocations-le_example = invocations-le (text "job.1") whole_job envelope

run_job_terminal_example :
    run_job (text "job.1") (context_call ∷ whole_job) finished_job ≡ finished_job
unfolding relay_code
run_job_terminal_example =
    run_job_terminal (text "job.1") (context_call ∷ whole_job) finished_job refl

abbrev empty_store : RelayStore
empty_store = record { jobs = []; namespaces = [] }

abbrev claimed_store : RelayStore
claimed_store = (claim_or_return_existing (text "user.1:key") some_hash envelope empty_store).1

-- The second claim names another job.
abbrev second_envelope : Envelope
second_envelope = record envelope { job_id = text "job.2" }

claim_again_example :
    claim_or_return_existing (text "user.1:key") some_hash second_envelope claimed_store
    ≡ (existing (new_job envelope), claimed_store)
unfolding relay_code
claim_again_example =
    claim_again (text "user.1:key") some_hash some_hash envelope second_envelope empty_store
      (new_job envelope) refl refl refl

abbrev store_operations : List StoreOperation
store_operations =
    claim_operation (text "user.1:key") some_hash envelope
    ∷ job_operation (text "job.1") (transition_call (move submitted accepted job_accepted none))
    ∷ claim_operation (text "user.1:other") some_hash second_envelope
    ∷ job_operation (text "job.2") context_call
    ∷ []

run_operations-AreConsistent_example :
    AreConsistent (run_operations store_operations empty_store).jobs
unfolding relay_code
run_operations-AreConsistent_example =
    run_operations-AreConsistent store_operations empty_store (λ id job e. cc)
