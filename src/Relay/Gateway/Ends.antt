-- ===== src/Relay/Gateway/Ends.antt =====
-- `#commitTerminal` of services/tool-gateway/src/tool-gateway.js on a job that can end.
use pixel_hq_oss.Common.{
  ◌+◌, ◌≡◌, refl, true, false, Option, some, List, ◌∷◌, ◌++◌, [], arith, Text, same_text,
  same_text_refl,
}
use pixel_hq_oss.Common.Dict.{lookup, insert, lookup-insert_self}
use pixel_hq_oss.Relay.Contract.{
  is_running, Outcome, Result, Transition, provenance_ok, validate_transition, validate_result,
}
use pixel_hq_oss.Relay.Request.{Request, validate_request}
use pixel_hq_oss.Relay.Job.{Job, is_execution}
use pixel_hq_oss.Relay.Methods.{committed}
use pixel_hq_oss.Relay.Commit.{path_ok, admits_result, commit_terminal_result}
use pixel_hq_oss.Relay.Calls.{on_job, commit_call}
use pixel_hq_oss.Relay.Store.{RelayStore, call}
use pixel_hq_oss.Relay.Action.{
  Ended, returned, World, PortCall, ◌>>=◌, pure, assert, next, append, get_job, store_call,
}
use pixel_hq_oss.Relay.Gateway.Contracts.{
  GatewayPorts, finished, GatewayReply, state_of, provenance_of, result_of, transition_of,
}
use pixel_hq_oss.Relay.Gateway.{
  note, terminal_result, terminal_transition, project, commit_terminal,
}
use pixel_hq_oss.Relay.Gateway.Ready.{AreWellFormed, result_of_valid, transition_of_valid}

-- The answer is that the request ended with the outcome, the job has that result, and the calls made
-- are these.
pub record Ends (o : Outcome) (calls : List PortCall) (x : Ended GatewayReply × World)
    : Type 0 where
  pub job : Job
  pub answered : x.0 ≡ returned (record { disposition = finished (state_of o); job = some job })
  pub state : job.current_state ≡ state_of o
  pub result : Result
  pub recorded : job.result ≡ some result
  pub outcome : result.outcome_code ≡ o
  pub called : x.1.calls ≡ calls

-- The job can take a result of the request with the outcome and the source.
pub record CanEnd (q : Request) (o : Outcome) (source : Option Text) (job : Job) : Type 0 where
  pub is_executing : is_running job.current_state ≡ true
  pub execution : is_execution q.execution_id job.execution_id ≡ true
  pub trace : same_text q.trace_id job.envelope.trace_id ≡ true
  pub path :
      (span id : Text)
      → path_ok job.gateway_decision job.model_invocation job.invocation_claimed
          job.model_invocation_claimed
          (result_of span id q o source)
        ≡ true
  pub provenance : provenance_ok (state_of o) o (provenance_of source) ≡ true

ended_job : Transition → Result → Job → Job
ended_job t r job = record job {
  transitions = job.transitions ++ (t ∷ []);
  result = some r;
  current_state = t.to_state;
  revision = job.revision + 1;
}

CanEnd-admits_result :
    (span id span' id' : Text) (q : Request) (o : Outcome) (source : Option Text) (job : Job)
    → CanEnd q o source job
    → validate_transition (transition_of id' span' q o) ≡ true
    → validate_result (result_of span id q o source) ≡ true
    → admits_result q.job_id (transition_of id' span' q o) (result_of span id q o source) job ≡ true
unfolding admits_result transition_of result_of
CanEnd-admits_result span id span' id' q o source job h t r =
    ground
      (arith, h.is_executing, h.execution, h.trace, h.path span id, t, r, same_text_refl q.job_id)

-- A commit that the store admits.
call-commit :
    (t : Transition) (r : Result) (id : Text) (store : RelayStore) (job : Job)
    → lookup id store.jobs ≡ some job
    → admits_result id t r job ≡ true
    → call id (commit_call false t r) store
      ≡ (committed, record store { jobs = insert id (ended_job t r job) store.jobs })
unfolding call on_job commit_terminal_result ended_job
call-commit t r id store job found e = rw (found, e) refl

module _ (g : GatewayPorts) (ids : AreWellFormed g.sources)
    (source_fault : g.commit_fails ≡ false) where
  pub commit_terminal-Ends :
      (q : Request) (o : Outcome) (source : Option Text) (parent : Text) (w : World) (job : Job)
      → validate_request q ≡ true
      → lookup q.job_id w.store.jobs ≡ some job
      → CanEnd q o source job
      → Ends o w.calls (commit_terminal g q o source parent w)
  unfolding commit_terminal ◌>>=◌ terminal_result terminal_transition next assert pure note append
      project store_call get_job ended_job result_of transition_of
  commit_terminal-Ends q o source parent w job v found h =
      let n = w.issued in
      let span = g.sources.span_id n in
      let id = g.sources.event_id (n + 1) in
      let id' = g.sources.event_id (n + 1 + 1) in
      let span' = g.sources.span_id (n + 1 + 1 + 1) in
      let r_ok = result_of_valid span id q o source v (ids.events _) (ids.spans _) h.provenance in
      let t_ok = transition_of_valid id' span' q o v (ids.events _) (ids.spans _) in
      let t = transition_of id' span' q o in
      let r = result_of span id q o source in
      let done =
        call-commit t r q.job_id w.store job found
          (CanEnd-admits_result span id span' id' q o source job h t_ok r_ok) in
      rw (r_ok, t_ok, source_fault, done)
        (record {
          job = ended_job t r job;
          answered = rw (lookup-insert_self q.job_id (ended_job t r job) w.store.jobs) refl;
          state = refl;
          result = r;
          recorded = refl;
          outcome = refl;
          called = refl;
        })
