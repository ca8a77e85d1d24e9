-- ===== src/Relay/Service.antt =====
-- services/relay/src/relay-service.js: `execute`, `submit` and `attemptTransition`. `accept` is in
-- Accept, the scheduler's part in Schedule.
pub mod Ports
pub mod Schedule
pub mod Accept
pub mod Keeps
pub mod Requests
pub mod Consistent
pub mod Once
pub mod Served
pub mod Executed
pub mod Authority
pub mod Start
pub mod Ends
pub mod Created
pub mod Submits
mod Examples
mod Witnesses
use pixel_hq_oss.Common.{
  Bool, true, false, not, ◌&&◌, Option, none, some, List, [], ◌∷◌, Text, text, is_some,
  if◌then◌else◌,
}
use pixel_hq_oss.Relay.Contract.{
  JobState, submitted, accepted, running, TransitionReason, execution_started, Transition,
  validate_transition,
}
use pixel_hq_oss.Relay.Request.{Request, validate_request}
use pixel_hq_oss.Relay.Job.{Job}
use pixel_hq_oss.Relay.Methods.{is_accepted}
use pixel_hq_oss.Relay.Calls.{transition_call}
use pixel_hq_oss.Relay.Action.{
  success, denied, World, Action, pure, throw, ◌>>=◌, ◌>>◌, attempt, assert, next, gets, get_job,
  store_call,
}
use pixel_hq_oss.Relay.Gateway.Contracts.{Disposition, finished, GatewayReply}
use pixel_hq_oss.Relay.Gateway.{gateway_execute}
use pixel_hq_oss.Relay.Intent.{Plain}
use pixel_hq_oss.Relay.Service.Ports.{
  ServicePorts, HoldReason, ServiceDisposition, created, relay_out, invalid_state, held, executed,
  ServiceReply, Admission, unscheduled, admitted, not_admitted, StartGate, open_gate, shut_gate,
}
use pixel_hq_oss.Relay.Service.Schedule.{
  scheduler_admit, scheduler_confirm, track_reservation, release_tracked, release_packages,
}
use pixel_hq_oss.Relay.Service.Accept.{is_applied, report, move_of, accept}

-- `job.transitions.at(-1)?.span_id ?? job.envelope.span_id`
abbrev pub last_span : List Transition → Text → Text
last_span [] span = span
last_span (t ∷ ts) span = last_span ts t.span_id

-- `job.transitions.at(-1)`
abbrev pub last_of : List Transition → Option Transition
last_of [] = none
last_of (t ∷ []) = some t
last_of (t ∷ u ∷ ts) = last_of (u ∷ ts)

abbrev pub is_finished : Disposition → Bool
is_finished (finished s) = true
is_finished _ = false

abbrev pub is_created : ServiceDisposition → Bool
is_created created = true
is_created _ = false

abbrev pub is_executed : ServiceDisposition → Bool
is_executed (executed d) = is_finished d
is_executed _ = false

abbrev pub job_name : Option Job → Text
job_name none = []
job_name (some job) = job.envelope.job_id

unfoldable pub request_of : Text → Text → Text → Text → Text → Text → Job → Request
request_of id time environment span job_id execution_id job = record {
  request_id = id;
  occurred_at = time;
  environment = environment;
  trace_id = job.envelope.trace_id;
  span_id = span;
  job_id = job_id;
  execution_id = execution_id;
  execution = job.envelope.execution;
}

module _ (p : ServicePorts) where
  -- `#recordTransitionRejection`
  unfoldable pub record_rejection : Job → Action (Unit {0})
  record_rejection job = do
    span ← next p.sources.span_id
    report job.envelope.trace_id span (some (last_span job.transitions job.envelope.span_id))
        (text "relay.transition.rejected") denied

  unfoldable pub record_rejection_of : Option Job → Action (Unit {0})
  record_rejection_of none = pure tt
  record_rejection_of (some job) = record_rejection job

  -- The part of `execute` on what the gateway answers, or nothing when it throws.
  unfoldable pub execute_answered : Option GatewayReply → Text → Action ServiceReply
  execute_answered none id = do
    release_tracked id
    job ← get_job id
    pure (record { disposition = relay_out; job = job })
  execute_answered (some r) id =
      if not (is_finished r.disposition)
      then pure (record { disposition = executed r.disposition; job = r.job })
      else do
        release_tracked id
        release_packages p.keeps_packages id
        pure (record { disposition = executed r.disposition; job = r.job })

  unfoldable pub execute_requested : Text → Request → Action ServiceReply
  execute_requested id q = do
    answer ← attempt (gateway_execute p.gateway q q.span_id)
    execute_answered answer id

  -- The part of `execute` that requests the execution of the running job.
  unfoldable pub execute_running : Text → Job → Text → Text → Action ServiceReply
  execute_running id job execution_id running_span = do
    span ← next p.sources.span_id
    request_id ← next p.sources.event_id
    time ← gets (λ w. p.sources.clock w.issued)
    assert (validate_request (request_of request_id time p.environment span id execution_id job))
    report job.envelope.trace_id span (some running_span) (text "tool.execution.requested") success
    execute_requested id (request_of request_id time p.environment span id execution_id job)

  -- The part of `execute` after the start, by the last transition before it; reading a field of
  -- `undefined` throws.
  unfoldable pub execute_noted : Option Transition → Text → Job → Text → Text → Action ServiceReply
  execute_noted none id job execution_id span = throw
  execute_noted (some t) id job execution_id span = do
    report job.envelope.trace_id span (some t.span_id) (text "relay.job.running") success
    execute_running id job execution_id span

  -- The part of `execute` that starts the job.
  unfoldable pub execute_admitted : Text → Job → Action ServiceReply
  execute_admitted id job = do
    execution_id ← next p.sources.execution_id
    span ← next p.sources.span_id
    transition_id ← next p.sources.event_id
    assert (
        validate_transition (
          move_of p transition_id span job.envelope.job_id job.envelope.trace_id (some execution_id)
            accepted running execution_started))
    reply ← store_call id (
        transition_call (
          move_of p transition_id span job.envelope.job_id job.envelope.trace_id (some execution_id)
            accepted running execution_started))
    if is_applied reply
        then execute_noted (last_of job.transitions) id job execution_id span
        else do
          now ← get_job id
          record_rejection_of now
          release_tracked id
          pure (record { disposition = invalid_state; job = now })

  -- The answer to a start that is held.
  unfoldable pub hold_start : Text → ServiceDisposition → Action ServiceReply
  hold_start id d = do job ← get_job id; pure (record { disposition = d; job = job })

  unfoldable pub execute_gated : StartGate → Text → Job → Admission → Action ServiceReply
  execute_gated (shut_gate decision reason) id job admission = hold_start id (held decision reason)
  execute_gated open_gate id job admission = do
    track_reservation id admission
    execute_admitted id job

  unfoldable pub execute_confirm : Admission → Text → Job → Action ServiceReply
  execute_confirm (not_admitted decision reason) id job = hold_start id (held decision reason)
  execute_confirm admission id job = do
    gate ← scheduler_confirm p.scheduler job admission (pure tt)
    execute_gated gate id job admission

  unfoldable pub refuse_start : Job → Action ServiceReply
  refuse_start job = do
    record_rejection job
    pure (record { disposition = invalid_state; job = some job })

  unfoldable pub execute_found : Text → Option Job → Action ServiceReply
  execute_found id none = pure (record { disposition = invalid_state; job = none })
  execute_found id (some job) =
      if not (is_accepted job.current_state)
      then refuse_start job
      else do admission ← scheduler_admit p.scheduler job; execute_confirm admission id job

  -- `execute`
  unfoldable pub execute : Text → Action ServiceReply
  execute id = do job ← get_job id; execute_found id job

  unfoldable pub submit_accepted : ServiceReply → Action ServiceReply
  submit_accepted a = if not (is_created a.disposition) then pure a else do
    e ← execute (job_name a.job)
    pure (if is_executed e.disposition then record e { disposition = created } else e)

  -- `submit`
  unfoldable pub submit : Plain → Action ServiceReply
  submit intent = do a ← accept p intent; submit_accepted a

  -- `attemptTransition`, on a state and a reason of the contract: one that a valid transition would
  -- have is a throw.
  unfoldable pub attempt_found :
      Text → JobState → TransitionReason → Option Job → Action ServiceReply
  attempt_found id state reason none = pure (record { disposition = invalid_state; job = none })
  attempt_found id state reason (some job) = do
    transition_id ← next p.sources.event_id
    span ← next p.sources.span_id
    assert (
        not (
          validate_transition (
            move_of p transition_id span job.envelope.job_id job.envelope.trace_id job.execution_id
              job.current_state state reason)))
    reply ← store_call id (
        transition_call (
          move_of p transition_id span job.envelope.job_id job.envelope.trace_id job.execution_id
            job.current_state state reason))
    assert (not (is_applied reply))
    record_rejection job
    now ← get_job id
    pure (record { disposition = invalid_state; job = now })

  unfoldable pub attempt_transition : Text → JobState → TransitionReason → Action ServiceReply
  attempt_transition id state reason = do job ← get_job id; attempt_found id state reason job
