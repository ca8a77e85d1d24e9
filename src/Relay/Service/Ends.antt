-- ===== src/Relay/Service/Ends.antt =====
-- An execution by services/relay/src/relay-service.js, from the start of the job to its end.
use pixel_hq_oss.Common.{
  ℕ, ◌+◌, ◌≡◌, refl, inl, inr, true, false, none, some, List, [], ◌∷◌, ◌++◌, arith, Text,
  same_text_iff, same_text_refl, Bool-cases, Option-cases,
}
use pixel_hq_oss.Common.Dict.{lookup, insert, lookup-insert_self}
use pixel_hq_oss.Incident.Contract.{matches_identifier}
use pixel_hq_oss.Relay.Contract.{
  accepted, running, execution_started, Transition, validate_transition, is_legal, Outcome, Result,
}
use pixel_hq_oss.Relay.Request.{Request, validate_envelope, validate_request}
use pixel_hq_oss.Relay.Job.{Job, same_execution, same_worker_binding}
use pixel_hq_oss.Relay.Methods.{applied, admits_transition, apply_transition}
use pixel_hq_oss.Relay.Calls.{on_job, transition_call}
use pixel_hq_oss.Relay.Store.{RelayStore, call}
use pixel_hq_oss.Relay.Action.{
  Ended, returned, World, PortCall, ◌>>=◌, pure, attempt, assert, next, gets, append, record_call,
  store_call,
}
use pixel_hq_oss.Relay.Gateway.Context.{is_request_of, is_granted}
use pixel_hq_oss.Relay.Gateway.Contracts.{finished, GatewayReply, state_of}
use pixel_hq_oss.Relay.Gateway.Ready.{AreWellFormed}
use pixel_hq_oss.Relay.Gateway.Open.{AreUndisturbed, IsOpen}
use pixel_hq_oss.Relay.Gateway.Outcomes.{outcome_for, calls_for}
use pixel_hq_oss.Relay.Gateway.Refines.{grants_for, gateway_execute-computed}
use pixel_hq_oss.Relay.Gateway.Expected.{Expected, outcome_for-Expected}
use pixel_hq_oss.Relay.Service.Ports.{ServicePorts, executed, ServiceReply}
use pixel_hq_oss.Relay.Service.Schedule.{release_reservation, release_tracked, release_packages}
use pixel_hq_oss.Relay.Service.Accept.{report, move_of}
use pixel_hq_oss.Relay.Service.{
  request_of, execute_answered, execute_requested, execute_running, execute_noted, execute_admitted,
  last_of,
}

-- The ports make identifiers of the contract's form, and the gateway is for the same environment.
pub record AreReady (p : ServicePorts) : Type 0 where
  pub ids : AreWellFormed p.sources
  pub executions : (n : ℕ) → matches_identifier (p.sources.execution_id n) ≡ true
  pub environment : p.environment ≡ p.gateway.environment
  pub gateway : AreUndisturbed p.gateway

-- An ACCEPTED job with a valid envelope for the service's environment and a transition, of which nothing
-- is decided or claimed.
pub record CanStart (p : ServicePorts) (job : Job) : Type 0 where
  pub valid : validate_envelope job.envelope ≡ true
  pub state : job.current_state ≡ accepted
  pub environment : p.environment ≡ job.envelope.environment
  pub last : Transition
  pub moved : last_of job.transitions ≡ some last
  pub undecided : job.gateway_decision ≡ none
  pub unclaimed : job.invocation_claimed ≡ false
  pub no_context : job.model_context_claimed ≡ false
  pub no_model : job.model_invocation ≡ none

-- The job after its start.
started_job : Text → Transition → Job → Job
started_job execution t job = record job {
  execution_id = some execution;
  transitions = job.transitions ++ (t ∷ []);
  current_state = running;
  revision = job.revision + 1;
}

-- The answer is that the job ended, with the outcome that is expected of a request of the job's execution.
pub record HasEnded (p : ServicePorts) (job : Job) (x : Ended ServiceReply × World) : Type 0 where
  pub request : Request
  pub execution : request.execution ≡ job.envelope.execution
  pub started : Job
  pub envelope : started.envelope ≡ job.envelope
  pub outcome : Outcome
  pub worker_calls : List PortCall
  pub called_for : Expected p.gateway started request outcome worker_calls
  pub ended : Job
  pub answered :
      x.0
      ≡ returned (record { disposition = executed (finished (state_of outcome)); job = some ended })
  pub state : ended.current_state ≡ state_of outcome
  pub result : Result
  pub recorded : ended.result ≡ some result
  pub resulted : result.outcome_code ≡ outcome

execute_answered-finished :
    (p : ServicePorts) (r : GatewayReply) (o : Outcome) (id : Text) (w : World)
    → r.disposition ≡ finished (state_of o)
    → (execute_answered p (some r) id w).0
      ≡ returned (record { disposition = executed r.disposition; job = r.job })
unfolding execute_answered ◌>>=◌ release_tracked release_reservation release_packages record_call
    pure
execute_answered-finished p r o id w e = elim (Option-cases (lookup id w.reservations)) [
  | inl free ↦ elim (Bool-cases p.keeps_packages) [
    | inl keeps ↦ ground (arith, free, keeps, e)
    | inr drops ↦ ground (arith, free, drops, e)
  ]
  | inr (r', held) ↦ elim (Bool-cases p.keeps_packages) [
    | inl keeps ↦ ground (arith, held, keeps, e)
    | inr drops ↦ ground (arith, held, drops, e)
  ]
]

module _ (p : ServicePorts) (ready : AreReady p) (job : Job) (h : CanStart p job) where
  move_valid :
      (n m k : ℕ)
      → validate_transition (
          move_of p
            (p.sources.event_id n)
            (p.sources.span_id m)
            job.envelope.job_id
            job.envelope.trace_id
            (some (p.sources.execution_id k))
            accepted
            running
            execution_started)
        ≡ true
  unfolding validate_transition validate_envelope is_legal
  move_valid n m k =
      ground
        (arith, h.valid, ready.ids.events n, ready.ids.spans m, ready.executions k, h.environment)

  call-start :
      (n m k : ℕ) (store : RelayStore)
      → lookup job.envelope.job_id store.jobs ≡ some job
      → let t =
          move_of p
            (p.sources.event_id n)
            (p.sources.span_id m)
            job.envelope.job_id
            job.envelope.trace_id
            (some (p.sources.execution_id k))
            accepted
            running
            execution_started in
        call job.envelope.job_id (transition_call t) store ≡ (
          applied,
          record store {
            jobs =
                insert job.envelope.job_id
                  (started_job (p.sources.execution_id k) t job)
                  store.jobs;
          },
        )
  unfolding call on_job apply_transition admits_transition started_job
  call-start n m k store found =
      rw (found, move_valid n m k)
        (ground (
          arith,
          h.environment,
          h.state,
          same_text_refl job.envelope.job_id,
          same_text_refl job.envelope.trace_id,
          same_text_refl job.envelope.environment,
          same_text_refl (p.sources.execution_id k),
        ))

  request_valid :
      (n m : ℕ) (time : Text) (k : ℕ)
      → validate_request (
          request_of
            (p.sources.event_id n)
            time
            p.environment
            (p.sources.span_id m)
            job.envelope.job_id
            (p.sources.execution_id k)
            job)
        ≡ true
  unfolding validate_request request_of validate_envelope
  request_valid n m time k =
      ground
        (arith, h.valid, ready.ids.events n, ready.ids.spans m, ready.executions k, h.environment)

  started_job-IsOpen :
      (n m : ℕ) (time : Text) (k : ℕ) (t : Transition)
      → IsOpen
          (request_of
            (p.sources.event_id n)
            time
            p.environment
            (p.sources.span_id m)
            job.envelope.job_id
            (p.sources.execution_id k)
            job)
          (started_job (p.sources.execution_id k) t job)
  unfolding request_of started_job is_request_of same_execution same_worker_binding
  started_job-IsOpen n m time k t = record {
    request = rw h.environment (simp same_text_refl);
    undecided = h.undecided;
    unclaimed = h.unclaimed;
    no_context = h.no_context;
    no_model = h.no_model;
  }

  execute_requested-HasEnded :
      (n m : ℕ) (time : Text) (k : ℕ) (t : Transition) (w : World)
      → lookup job.envelope.job_id w.store.jobs
        ≡ some (started_job (p.sources.execution_id k) t job)
      → HasEnded p job (
          execute_requested p job.envelope.job_id
            (request_of
              (p.sources.event_id n)
              time
              p.environment
              (p.sources.span_id m)
              job.envelope.job_id
              (p.sources.execution_id k)
              job)
            w)
  unfolding execute_requested ◌>>=◌ attempt request_of started_job
  execute_requested-HasEnded n m time k t w found =
      let q =
        request_of (p.sources.event_id n) time p.environment (p.sources.span_id m)
          job.envelope.job_id (p.sources.execution_id k) job in
      let started = started_job (p.sources.execution_id k) t job in
      let o =
        outcome_for p.gateway q (grants_for p.gateway started q)
          (is_granted q (grants_for p.gateway started q)) in
      let ends =
        gateway_execute-computed p.gateway ready.gateway q started (started_job-IsOpen n m time k t)
          (p.sources.span_id m) w (request_valid n m time k)
          ((same_text_iff p.environment p.gateway.environment).1 ready.environment) found in
      record {
        request = q;
        execution = refl;
        started = started;
        envelope = refl;
        outcome = o;
        worker_calls = calls_for q (is_granted q (grants_for p.gateway started q)) [];
        called_for = outcome_for-Expected p.gateway started q;
        ended = ends.job;
        answered = rw ends.answered (
            execute_answered-finished p
              (record { disposition = finished (state_of o); job = some ends.job }) o
              job.envelope.job_id _ refl);
        state = ends.state;
        result = ends.result;
        recorded = ends.recorded;
        resulted = ends.outcome;
      }

  pub execute_admitted-HasEnded :
      (w : World)
      → lookup job.envelope.job_id w.store.jobs ≡ some job
      → HasEnded p job (execute_admitted p job.envelope.job_id job w)
  unfolding execute_admitted execute_noted execute_running ◌>>=◌ next gets assert pure report append
      store_call
  execute_admitted-HasEnded w found =
      let n = w.issued in
      rw
        (
          move_valid (n + 1 + 1) (n + 1) n,
          call-start (n + 1 + 1) (n + 1) n w.store found,
          h.moved,
          request_valid (n + 1 + 1 + 1 + 1) (n + 1 + 1 + 1)
              (p.sources.clock (n + 1 + 1 + 1 + 1 + 1)) n,
        )
        (execute_requested-HasEnded _ _ _ n _ _ (
          lookup-insert_self job.envelope.job_id (started_job (p.sources.execution_id n) _ job)
            w.store.jobs))
