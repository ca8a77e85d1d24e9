-- ===== src/Relay/Service/Witnesses.antt =====
-- Runs of services/relay/src/relay-service.js on the ports of Examples.
use pixel_hq_oss.Common.{
  ℕ, zero, suc, ◌≡◌, refl, ap, inl, Bool, false, Option, none, some, List, [], ◌∷◌, ◌++◌, arith,
  Text, text, same_text,
}
use pixel_hq_oss.Common.Dict.{lookup}
use pixel_hq_oss.Incident.Contract.{matches_identifier, is_identifier_char}
use pixel_hq_oss.Scheduler.Contract.{
  eligible, wait, eligible_now, rejected_capacity, decision_class_for_confirmation,
}
use pixel_hq_oss.Relay.Contract.{
  Outcome, JobState, submitted, accepted, running, completed, failed, job_accepted,
}
use pixel_hq_oss.Relay.Request.{Envelope, Request}
use pixel_hq_oss.Relay.Job.{Job}
use pixel_hq_oss.Relay.Methods.{new_job}
use pixel_hq_oss.Relay.Action.{
  PortCall, Reservation, reservation_granted, reservation_released, worker_executed,
  capabilities_resolved, World, returned,
}
use pixel_hq_oss.Relay.Gateway.{gateway_execute}
use pixel_hq_oss.Relay.Gateway.Once.{executions}
use pixel_hq_oss.Relay.Gateway.Ready.{AreWellFormed}
use pixel_hq_oss.Relay.Gateway.Ends.{Ends}
use pixel_hq_oss.Relay.Gateway.Open.{AreUndisturbed}
use pixel_hq_oss.Relay.Gateway.Refines.{asked_for}
use pixel_hq_oss.Relay.Gateway.Expected.{Expected, gateway_execute-IsExpected}
use pixel_hq_oss.Relay.Service.Ports.{
  evaluated, reserved, StartAnswer, start_answered, SchedulerPorts, ServicePorts, authority_claimed,
  refused, held, of_start,
}
use pixel_hq_oss.Relay.Service.Accept.{envelope_of, move_of, accept}
use pixel_hq_oss.Relay.Service.{request_of, execute, submit}
use pixel_hq_oss.Relay.Service.Requests.{
  ServiceCall, submit_call, execute_call, attempt_call, serve,
}
use pixel_hq_oss.Relay.Service.Consistent.{HasConsistentJobs, serve-consistent}
use pixel_hq_oss.Relay.Service.Served.{AreDistinct, IsServed, AreShared}
use pixel_hq_oss.Relay.Service.Executed.{serve-IsServed}
use pixel_hq_oss.Relay.Service.Authority.{
  here_key, here_field, later_field, in_object, accept_authority,
}
use pixel_hq_oss.Relay.Service.Start.{execute_unconfirmed}
use pixel_hq_oss.Relay.Service.Examples.{
  trace_id, span_id, letters, sources, context, gateway, ports, empty_world, submission, intent,
  claiming,
}

-- All of the code of the component, for tests that run it.
service_code : Unit {0}
unfolding pixel_hq_oss.Relay.Action.pure pixel_hq_oss.Relay.Action.throw
    pixel_hq_oss.Relay.Action.gets pixel_hq_oss.Relay.Action.attempt pixel_hq_oss.Relay.Action.◌>>=◌
    pixel_hq_oss.Relay.Action.assert pixel_hq_oss.Relay.Action.next pixel_hq_oss.Relay.Action.append
    pixel_hq_oss.Relay.Action.record_call pixel_hq_oss.Relay.Action.get_job
    pixel_hq_oss.Relay.Action.store_call pixel_hq_oss.Relay.Action.store_claim
    pixel_hq_oss.Relay.Action.await pixel_hq_oss.Relay.Intent.normalized_key
    pixel_hq_oss.Relay.Intent.are_exact pixel_hq_oss.Relay.Intent.text_field
    pixel_hq_oss.Relay.Intent.intent_of pixel_hq_oss.Relay.Gateway.Context.validate_authorization
    pixel_hq_oss.Relay.Gateway.Context.is_request_of pixel_hq_oss.Relay.Gateway.Context.context_of
    pixel_hq_oss.Relay.Gateway.Context.authorization_context_for
    pixel_hq_oss.Relay.Gateway.Context.same_context pixel_hq_oss.Relay.Gateway.Context.are_distinct
    pixel_hq_oss.Relay.Gateway.Context.validate_grants
    pixel_hq_oss.Relay.Gateway.Context.usable_grants pixel_hq_oss.Relay.Gateway.Context.is_granted
    pixel_hq_oss.Relay.Gateway.Context.validate_worker_answer
    pixel_hq_oss.Relay.Gateway.Context.worker_outcome
    pixel_hq_oss.Relay.Gateway.Contracts.decision_of pixel_hq_oss.Relay.Gateway.Contracts.result_of
    pixel_hq_oss.Relay.Gateway.Contracts.transition_of pixel_hq_oss.Relay.Gateway.note
    pixel_hq_oss.Relay.Gateway.give_up pixel_hq_oss.Relay.Gateway.make_decision
    pixel_hq_oss.Relay.Gateway.terminal_result pixel_hq_oss.Relay.Gateway.terminal_transition
    pixel_hq_oss.Relay.Gateway.project pixel_hq_oss.Relay.Gateway.commit_terminal
    pixel_hq_oss.Relay.Gateway.resolve_with pixel_hq_oss.Relay.Gateway.resolve_grants
    pixel_hq_oss.Relay.Gateway.finish_worker pixel_hq_oss.Relay.Gateway.invoke_worker
    pixel_hq_oss.Relay.Gateway.claim_worker pixel_hq_oss.Relay.Gateway.enforce
    pixel_hq_oss.Relay.Gateway.judge pixel_hq_oss.Relay.Gateway.evaluate_request
    pixel_hq_oss.Relay.Gateway.gateway_execute pixel_hq_oss.Relay.Service.Ports.validate_job_context
    pixel_hq_oss.Relay.Service.Schedule.admit_reserved
    pixel_hq_oss.Relay.Service.Schedule.admit_evaluated
    pixel_hq_oss.Relay.Service.Schedule.admit_required
    pixel_hq_oss.Relay.Service.Schedule.scheduler_admit
    pixel_hq_oss.Relay.Service.Schedule.release_reservation
    pixel_hq_oss.Relay.Service.Schedule.reject_start
    pixel_hq_oss.Relay.Service.Schedule.confirm_answered
    pixel_hq_oss.Relay.Service.Schedule.confirm_fresh
    pixel_hq_oss.Relay.Service.Schedule.scheduler_confirm
    pixel_hq_oss.Relay.Service.Schedule.track_reservation
    pixel_hq_oss.Relay.Service.Schedule.release_tracked
    pixel_hq_oss.Relay.Service.Schedule.release_packages pixel_hq_oss.Relay.Service.Accept.report
    pixel_hq_oss.Relay.Service.Accept.usable_context pixel_hq_oss.Relay.Service.Accept.execution_of
    pixel_hq_oss.Relay.Service.Accept.fingerprint_of pixel_hq_oss.Relay.Service.Accept.namespace_of
    pixel_hq_oss.Relay.Service.Accept.envelope_of pixel_hq_oss.Relay.Service.Accept.reject
    pixel_hq_oss.Relay.Service.Accept.accept_created
    pixel_hq_oss.Relay.Service.Accept.accept_claimed
    pixel_hq_oss.Relay.Service.Accept.accept_context pixel_hq_oss.Relay.Service.Accept.accept_intent
    pixel_hq_oss.Relay.Service.Accept.accept_received pixel_hq_oss.Relay.Service.Accept.accept
    pixel_hq_oss.Relay.Service.request_of pixel_hq_oss.Relay.Service.record_rejection
    pixel_hq_oss.Relay.Service.record_rejection_of pixel_hq_oss.Relay.Service.execute_answered
    pixel_hq_oss.Relay.Service.execute_requested pixel_hq_oss.Relay.Service.execute_running
    pixel_hq_oss.Relay.Service.execute_noted pixel_hq_oss.Relay.Service.execute_admitted
    pixel_hq_oss.Relay.Service.hold_start pixel_hq_oss.Relay.Service.execute_gated
    pixel_hq_oss.Relay.Service.execute_confirm pixel_hq_oss.Relay.Service.refuse_start
    pixel_hq_oss.Relay.Service.execute_found pixel_hq_oss.Relay.Service.execute
    pixel_hq_oss.Relay.Service.submit_accepted pixel_hq_oss.Relay.Service.submit
    pixel_hq_oss.Relay.Service.attempt_found pixel_hq_oss.Relay.Service.attempt_transition
    pixel_hq_oss.Relay.Service.Requests.handle pixel_hq_oss.Relay.Service.Requests.serve
    pixel_hq_oss.Relay.Request.validate_intent pixel_hq_oss.Relay.Request.worker_binding_ok
    pixel_hq_oss.Relay.Request.execution_ok pixel_hq_oss.Relay.Request.validate_envelope
    pixel_hq_oss.Relay.Request.validate_request pixel_hq_oss.Relay.Request.validate_decision
    pixel_hq_oss.Relay.Job.same_worker_binding pixel_hq_oss.Relay.Job.same_execution
    pixel_hq_oss.Relay.Job.same_execution_binding pixel_hq_oss.Relay.Job.same_request
    pixel_hq_oss.Relay.Job.same_decision pixel_hq_oss.Relay.Job.same_invocation
    pixel_hq_oss.Relay.Job.matches_envelope pixel_hq_oss.Relay.Job.matches_model_envelope
    pixel_hq_oss.Relay.Methods.new_job pixel_hq_oss.Relay.Methods.admits_transition
    pixel_hq_oss.Relay.Methods.apply_transition pixel_hq_oss.Relay.Methods.record_gateway_decision
    pixel_hq_oss.Relay.Methods.is_recorded pixel_hq_oss.Relay.Methods.claim_worker_invocation
    pixel_hq_oss.Relay.Methods.claim_model_context pixel_hq_oss.Relay.Methods.release_model_context
    pixel_hq_oss.Relay.Methods.claim_invocation pixel_hq_oss.Relay.Methods.claim_model_invocation
    pixel_hq_oss.Relay.Commit.path_ok pixel_hq_oss.Relay.Commit.admits_result
    pixel_hq_oss.Relay.Commit.commit_terminal_result pixel_hq_oss.Relay.Calls.on_job
    pixel_hq_oss.Relay.Calls.run_job pixel_hq_oss.Relay.Store.claim_or_return_existing
    pixel_hq_oss.Relay.Store.call pixel_hq_oss.Relay.Store.after_operation
    pixel_hq_oss.Relay.Store.run_operations pixel_hq_oss.Relay.Contract.is_legal
    pixel_hq_oss.Relay.Contract.is_outcome_of pixel_hq_oss.Relay.Contract.validate_transition
    pixel_hq_oss.Relay.Contract.provenance_ok pixel_hq_oss.Relay.Contract.validate_result
    pixel_hq_oss.Relay.Service.Created.accepted_job pixel_hq_oss.Relay.Intent.authority_categories
    pixel_hq_oss.Common.contains pixel_hq_oss.Common.Dict.lookup pixel_hq_oss.Common.Dict.insert
    pixel_hq_oss.Common.Dict.remove pixel_hq_oss.Common.same_text pixel_hq_oss.Common.utf16_length
    pixel_hq_oss.Incident.Contract.matches_identifier pixel_hq_oss.Incident.Contract.is_bounded_text
    pixel_hq_oss.Scheduler.Contract.decision_class_for_confirmation
service_code = tt

abbrev after_submission : World
after_submission = (submit ports submission empty_world).1

shorter : (n : ℕ) → same_text [] (letters n) ≡ false
unfolding pixel_hq_oss.Common.same_text
shorter zero = refl
shorter (suc n) = refl

longer : (n : ℕ) → same_text (letters n) [] ≡ false
unfolding pixel_hq_oss.Common.same_text
longer zero = refl
longer (suc n) = refl

letters-distinct : AreDistinct letters
unfolding pixel_hq_oss.Common.same_text
letters-distinct zero zero e = refl
letters-distinct zero (suc m) e = absurd (ground (arith, e, shorter m))
letters-distinct (suc n) zero e = absurd (ground (arith, e, longer n))
letters-distinct (suc n) (suc m) e = ap suc (letters-distinct n m (ground (arith, e)))

well_formed : AreWellFormed sources
unfolding service_code
well_formed = record { events = λ n. refl; spans = λ n. refl }

undisturbed : AreUndisturbed gateway
unfolding service_code
undisturbed = record {
  ids = well_formed;
  grants_named = refl;
  worker_named = refl;
  resolving = refl;
  working = refl;
  claims = refl;
  commits = refl;
}

abbrev several_calls : List ServiceCall
several_calls =
    submit_call submission
    ∷ submit_call submission
    ∷ execute_call (letters 2)
    ∷ attempt_call (letters 2) accepted job_accepted
    ∷ []

-- The worker was executed for the first submission alone.
several_calls_executions : executions (letters 2) (serve ports several_calls empty_world).calls ≡ 1
unfolding service_code
several_calls_executions = refl

serve-consistent_example : HasConsistentJobs (serve ports several_calls empty_world)
unfolding service_code
serve-consistent_example = serve-consistent ports several_calls empty_world (λ id job e. cc)

shared : AreShared ports
shared = record {
  distinct = letters-distinct;
  context = refl;
  scheduling = refl;
  resolving = refl;
  working = refl;
}

empty_world-IsServed : IsServed letters empty_world
unfolding service_code
empty_world-IsServed = record {
  once = record { consistent = λ id job e. cc; once = λ id. omega arith; authorized = tt };
  ahead = λ n le. refl;
}

serve-IsServed_example : IsServed letters (serve ports several_calls empty_world)
serve-IsServed_example = serve-IsServed ports shared several_calls empty_world empty_world-IsServed

accept_authority_example :
    ((accept ports claiming empty_world).0
      ≡ returned (record { disposition = refused authority_claimed; job = none }))
    × ((accept ports claiming empty_world).1.store ≡ empty_world.store)
    × ((accept ports claiming empty_world).1.calls ≡ empty_world.calls)
unfolding service_code
accept_authority_example = accept_authority ports claiming (text "Worker_ID") empty_world refl (
    in_object (
      later_field
        (later_field (later_field (later_field (later_field (here_field (in_object here_key))))))))

-- A world in which the submission's job is ACCEPTED.
abbrev accepted_world : World
accepted_world = (accept ports submission empty_world).1

abbrev accepted_submission : Job
accepted_submission =
    record (new_job (envelope_of ports (letters 2) trace_id span_id intent context)) {
      current_state = accepted;
      transitions =
          move_of ports (text "event.1") span_id (letters 2) trace_id none submitted accepted
            job_accepted
          ∷ [];
      revision = 2;
    }

abbrev reservation : Reservation
reservation = record { reservation_id = text "reservation.1"; revision = 1 }

abbrev full : StartAnswer
full = start_answered false (some rejected_capacity)

abbrev scheduler : SchedulerPorts
scheduler = record {
  resolve_requirement = λ job. some (text "requirement.1");
  evaluate = λ id t. some (evaluated eligible eligible_now);
  during_evaluate = [];
  reserve = λ id. some (reserved reservation);
  confirm = λ id t r n. some full;
  during_confirm = [];
}

abbrev scheduled_ports : ServicePorts
scheduled_ports = record ports { scheduler = some scheduler }

execute_unconfirmed_example : execute scheduled_ports (letters 2) accepted_world ≡ (
  returned (record {
    disposition =
        held (decision_class_for_confirmation rejected_capacity) (of_start rejected_capacity);
    job = some accepted_submission;
  }),
  record accepted_world {
    calls =
        reservation_released reservation
        ∷ reservation_granted (text "requirement.1") reservation
        ∷ accepted_world.calls;
  },
)
unfolding service_code
execute_unconfirmed_example =
    execute_unconfirmed scheduled_ports scheduler accepted_submission reservation
      (text "requirement.1") rejected_capacity accepted_world refl
      (record {
        reason = eligible_now;
        required = refl;
        quiet_evaluate = refl;
        is_eligible = refl;
        reserves = refl;
        quiet_confirm = refl;
        answers = refl;
      })
      refl refl

abbrev running_submission : Job
running_submission = record accepted_submission {
  execution_id = some (text "exec.1");
  current_state = running;
}

abbrev running_world : World
running_world = record empty_world {
  store = record { jobs = (letters 2, running_submission) ∷ []; namespaces = [] };
}

abbrev request : Request
request =
    request_of (text "req.1") (text "2026-01-01T00:00:00.000Z") (text "dev") span_id (letters 2)
      (text "exec.1") running_submission

gateway_execute-IsExpected_example :
    (outcome : Outcome) × (worker_calls : List PortCall) × Expected gateway running_submission
      request outcome worker_calls
    × Ends outcome
        (worker_calls ++ asked_for running_submission request [])
        (gateway_execute gateway request span_id running_world)
unfolding service_code
gateway_execute-IsExpected_example =
    gateway_execute-IsExpected gateway undisturbed request running_submission
      (record {
        request = refl;
        undecided = refl;
        unclaimed = refl;
        no_context = refl;
        no_model = refl;
      })
      span_id running_world refl refl refl
