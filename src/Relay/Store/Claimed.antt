-- ===== src/Relay/Store/Claimed.antt =====
-- What the store of adapters/simulator/src/relay-store-simulator-adapter.js keeps of a job whose worker
-- is claimed.
use pixel_hq_oss.Common.{
  ◌+◌, ◌≡◌, refl, ◌∙◌, inl, inr, Bool, true, false, Option, none, some, arith, Text, same_text,
  same_text_iff, Bool-cases, Option-cases, if◌then◌else◌,
}
use pixel_hq_oss.Common.Dict.{lookup, lookup-insert, lookup-insert_self}
use pixel_hq_oss.Relay.Request.{Request, GatewayDecision}
use pixel_hq_oss.Relay.Job.{Job, same_request}
use pixel_hq_oss.Relay.Methods.{
  invoke_now, apply_transition, record_gateway_decision, is_recorded, claim_worker_invocation,
  claim_model_context, release_model_context, claim_model_invocation, claim_invocation,
}
use pixel_hq_oss.Relay.Commit.{commit_terminal_result}
use pixel_hq_oss.Relay.Calls.{
  JobCall, transition_call, decision_call, worker_call, context_call, release_call, model_call,
  commit_call, on_job,
}
use pixel_hq_oss.Relay.Calls.Legal.{IsConsistent}
use pixel_hq_oss.Relay.Store.{RelayStore, call}

-- The worker's invocation is claimed, by a recorded decision that allows the recorded request `q`.
pub record IsClaimedFor (q : Request) (job : Job) : Type 0 where
  pub claimed : job.invocation_claimed ≡ true
  pub decision : GatewayDecision
  pub decided : job.gateway_decision ≡ some decision
  pub allows : decision.allowed ≡ true
  pub request : Request
  pub requested : job.execution_request ≡ some request
  pub same : same_request request q ≡ true

on_job-claimed :
    (id : Text) (c : JobCall) (job : Job)
    → IsConsistent job
    → job.invocation_claimed ≡ true
    → let after = (on_job id c job).1 in
      (after.invocation_claimed ≡ true)
      × (after.gateway_decision ≡ job.gateway_decision)
      × (after.execution_request ≡ job.execution_request)
unfolding on_job apply_transition record_gateway_decision claim_worker_invocation
    claim_model_context release_model_context claim_model_invocation claim_invocation
    commit_terminal_result
on_job-claimed id (transition_call t) job h e = ground arith
on_job-claimed id (decision_call q d) job h e = ground (arith, h.worker_decided e)
on_job-claimed id (worker_call fails q d) job h e = ground arith
on_job-claimed id context_call job h e = ground arith
on_job-claimed id (release_call expected) job h e = ground arith
on_job-claimed id (model_call fails i) job h e = ground arith
on_job-claimed id (commit_call fails t r) job h e = ground arith

pub on_job-IsClaimedFor :
    (id : Text) (c : JobCall) (q : Request) (job : Job)
    → IsConsistent job
    → IsClaimedFor q job
    → IsClaimedFor q (on_job id c job).1
on_job-IsClaimedFor id c q job h k =
    let (claimed, decided, requested) = on_job-claimed id c job h k.claimed in
    record {
      claimed = claimed;
      decision = k.decision;
      decided = decided ∙ k.decided;
      allows = k.allows;
      request = k.request;
      requested = requested ∙ k.requested;
      same = k.same;
    }

-- The job under `id` after a call on the job under `k`.
pub call-lookup :
    (k : Text) (c : JobCall) (store : RelayStore) (id : Text) (job : Job)
    → lookup id store.jobs ≡ some job
    → lookup id (call k c store).1.jobs ≡ some (if same_text k id then (on_job k c job).1 else job)
unfolding call
call-lookup k c store id job e = elim (Option-cases (lookup k store.jobs)) [
  | inl missing ↦ elim (Bool-cases (same_text k id)) [
    | inl same ↦ ground (arith, missing, e, (same_text_iff k id).0 same)
    | inr other ↦ rw (missing, other) e
  ]
  | inr (found, at_k) ↦ elim (Bool-cases (same_text k id)) [
    | inl same ↦ ground (
      arith,
      at_k,
      e,
      same,
      (same_text_iff k id).0 same,
      lookup-insert k id (on_job k c found).1 store.jobs,
    )
    | inr other ↦ ground (arith, at_k, e, other, lookup-insert k id (on_job k c found).1 store.jobs)
  ]
]

-- What a comparison with the recorded request and decision says of them.
is_recorded_facts :
    (oq : Option Request) (od : Option GatewayDecision) (q : Request) (d : GatewayDecision)
    → is_recorded oq od q d ≡ true
    → (q' : Request) × (d' : GatewayDecision) × (oq ≡ some q')
      × (od ≡ some d')
      × (d'.allowed ≡ true)
      × (same_request q' q ≡ true)
unfolding is_recorded
is_recorded_facts (some q') (some d') q d e = (q', d', refl, refl, ground arith, ground arith)
is_recorded_facts none od q d e = absurd (ground arith)
is_recorded_facts (some q') none q d e = absurd (ground arith)

-- A claim of the worker that is answered INVOKE_NOW.
claim_worker-invoke :
    (fails : Bool) (q : Request) (d : GatewayDecision) (job : Job)
    → (claim_worker_invocation fails q d job).0 ≡ invoke_now
    → (job.invocation_claimed ≡ false)
      × (is_recorded job.execution_request job.gateway_decision q d ≡ true)
      × (claim_worker_invocation fails q d job
          ≡ (invoke_now, record job { invocation_claimed = true; revision = job.revision + 1 }))
unfolding claim_worker_invocation
claim_worker-invoke fails q d job e = ground arith

claimed_job-IsClaimedFor :
    (fails : Bool) (q : Request) (d : GatewayDecision) (job : Job)
    → (claim_worker_invocation fails q d job).0 ≡ invoke_now
    → IsClaimedFor q (claim_worker_invocation fails q d job).1
claimed_job-IsClaimedFor fails q d job e =
    let (unclaimed, matches, after) = claim_worker-invoke fails q d job e in
    let (q', d', requested, decided, allows, same) =
      is_recorded_facts job.execution_request job.gateway_decision q d matches in
    rw after (record {
      claimed = refl;
      decision = d';
      decided = decided;
      allows = allows;
      request = q';
      requested = requested;
      same = same;
    })

-- A claim of the worker on the store that is answered INVOKE_NOW: the job was not claimed, and is now.
pub call-invoke :
    (fails : Bool) (q : Request) (d : GatewayDecision) (store : RelayStore)
    → (call q.job_id (worker_call fails q d) store).0 ≡ invoke_now
    → (job : Job) × (after : Job) × (lookup q.job_id store.jobs ≡ some job)
      × (job.invocation_claimed ≡ false)
      × (lookup q.job_id (call q.job_id (worker_call fails q d) store).1.jobs ≡ some after)
      × IsClaimedFor q after
unfolding call on_job
call-invoke fails q d store e = elim (Option-cases (lookup q.job_id store.jobs)) [
  | inl missing ↦ absurd (ground (arith, missing))
  | inr (job, found) ↦
      let answer : (claim_worker_invocation fails q d job).0 ≡ invoke_now = ground (arith, found) in
      (
        job,
        (claim_worker_invocation fails q d job).1,
        found,
        (claim_worker-invoke fails q d job answer).0,
        rw found (lookup-insert_self q.job_id (claim_worker_invocation fails q d job).1 store.jobs),
        claimed_job-IsClaimedFor fails q d job answer,
      )
]
