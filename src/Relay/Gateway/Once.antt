-- ===== src/Relay/Gateway/Once.antt =====
-- Executions of the worker by services/tool-gateway/src/tool-gateway.js.
use pixel_hq_oss.Common.{
  ℕ, ◌+◌, ◌≤◌, ◌≡◌, refl, inl, inr, Bool, true, false, Option, none, some, List, [], ◌∷◌, arith,
  Text, same_text, same_text_iff, Bool-cases, Option-cases, All, if◌then◌else◌,
}
use pixel_hq_oss.Common.Dict.{Dict, lookup}
use pixel_hq_oss.Relay.Request.{Request, GatewayDecision}
use pixel_hq_oss.Relay.Job.{Job}
use pixel_hq_oss.Relay.Methods.{invoke_now}
use pixel_hq_oss.Relay.Calls.{JobCall, worker_call}
use pixel_hq_oss.Relay.Calls.Once.{on_job-claimed_le}
use pixel_hq_oss.Relay.Store.{
  RelayStore, call, StoreOperation, claim_operation, job_operation, after_operation,
}
use pixel_hq_oss.Relay.Store.Consistent.{AreConsistent, call-AreConsistent}
use pixel_hq_oss.Relay.Store.Claimed.{IsClaimedFor, on_job-IsClaimedFor, call-lookup, call-invoke}
use pixel_hq_oss.Relay.Action.{World, PortCall, worker_executed}
use pixel_hq_oss.Relay.Action.Stable.{IsStable, is_worker}

abbrev pub execution_count : Text → PortCall → ℕ
execution_count id (worker_executed q) = if same_text q.job_id id then 1 else 0
execution_count id _ = 0

-- How many of the calls executed the worker for the job.
abbrev pub executions : Text → List PortCall → ℕ
executions id [] = 0
executions id (c ∷ cs) = execution_count id c + executions id cs

abbrev pub claimed_count : Option Job → ℕ
claimed_count none = 0
claimed_count (some job) = if job.invocation_claimed then 1 else 0

-- The store has the job of an execution, claimed for the request that was executed.
abbrev pub IsAuthorized : Dict Job → PortCall → Type 0
IsAuthorized jobs (worker_executed q) =
    (job : Job) × (lookup q.job_id jobs ≡ some job) × IsClaimedFor q job
IsAuthorized jobs _ = Unit

-- Every job is consistent, the worker was executed for a job only where its invocation is claimed, and
-- at most once, and every execution was of a request that the job's recorded decision allows.
pub record IsOnce (w : World) : Type 0 where
  pub consistent : AreConsistent w.store.jobs
  pub once : (id : Text) → executions id w.calls ≤ claimed_count (lookup id w.store.jobs)
  pub authorized : All (IsAuthorized w.store.jobs) w.calls

abbrev pub is_job_operation : StoreOperation → Bool
is_job_operation (job_operation id c) = true
is_job_operation _ = false

call-claimed_count :
    (k : Text) (c : JobCall) (store : RelayStore) (id : Text)
    → claimed_count (lookup id store.jobs) ≤ claimed_count (lookup id (call k c store).1.jobs)
call-claimed_count k c store id = elim (Option-cases (lookup id store.jobs)) [
  | inl missing ↦ ground (arith, missing)
  | inr (job, found) ↦
      rw (found, call-lookup k c store id job found)
        (elim (Bool-cases (same_text k id)) [
          | inl same ↦ rw same (on_job-claimed_le k c job)
          | inr other ↦ rw other (omega arith)
        ])
]

call-IsAuthorized :
    (k : Text) (c : JobCall) (store : RelayStore) (p : PortCall)
    → AreConsistent store.jobs
    → IsAuthorized store.jobs p
    → IsAuthorized (call k c store).1.jobs p
call-IsAuthorized k c store (worker_executed q) h (job, found, k') = (
  _,
  call-lookup k c store q.job_id job found,
  elim (Bool-cases (same_text k q.job_id)) [
    | inl same ↦ rw same (on_job-IsClaimedFor k c q job (h q.job_id job found) k')
    | inr other ↦ rw other k'
  ],
)
call-IsAuthorized k c store _ h a = tt

calls-AreAuthorized :
    (k : Text) (c : JobCall) (store : RelayStore) (ps : List PortCall)
    → AreConsistent store.jobs
    → All (IsAuthorized store.jobs) ps
    → All (IsAuthorized (call k c store).1.jobs) ps
calls-AreAuthorized k c store [] h a = tt
calls-AreAuthorized k c store (p ∷ ps) h (first, rest) =
    (call-IsAuthorized k c store p h first, calls-AreAuthorized k c store ps h rest)

pub call-IsOnce :
    (k : Text) (c : JobCall) (w : World)
    → IsOnce w
    → IsOnce (record w { store = (call k c w.store).1 })
call-IsOnce k c w h = record {
  consistent = call-AreConsistent k c w.store h.consistent;
  once = λ id. omega (arith, h.once id, call-claimed_count k c w.store id);
  authorized = calls-AreAuthorized k c w.store w.calls h.consistent h.authorized;
}

operation-IsOnce :
    (w : World) (o : StoreOperation)
    → is_job_operation o ≡ true
    → IsOnce w
    → IsOnce (record w { store = after_operation o w.store })
unfolding after_operation
operation-IsOnce w (job_operation id c) e h = call-IsOnce id c w h
operation-IsOnce w (claim_operation namespace fingerprint candidate) e h = absurd (ground arith)

enter-IsOnce :
    (w : World) (c : PortCall)
    → is_worker c ≡ false
    → IsOnce w
    → IsOnce (record w { calls = c ∷ w.calls })
enter-IsOnce w (worker_executed q) e h = absurd (ground arith)
enter-IsOnce w _ e h = record {
  consistent = h.consistent;
  once = λ id. omega (arith, h.once id);
  authorized = (tt, h.authorized);
}

pub IsOnce-IsStable : IsStable IsOnce is_job_operation
IsOnce-IsStable = record {
  issue =
      λ w n le h. record { consistent = h.consistent; once = h.once; authorized = h.authorized };
  observe = λ w n h. record { consistent = h.consistent; once = h.once; authorized = h.authorized };
  reserve = λ w n h. record { consistent = h.consistent; once = h.once; authorized = h.authorized };
  enter = enter-IsOnce;
  store = operation-IsOnce;
  job_allowed = λ id c. refl;
}

-- The claim of the worker and the call of it, together.
pub claimed-IsOnce :
    (fails : Bool) (q : Request) (d : GatewayDecision) (w : World)
    → (call q.job_id (worker_call fails q d) w.store).0 ≡ invoke_now
    → IsOnce w
    → IsOnce (record w {
      store = (call q.job_id (worker_call fails q d) w.store).1;
      calls = worker_executed q ∷ w.calls;
    })
claimed-IsOnce fails q d w e h =
    let (job, after, before, unclaimed, now, authorized) = call-invoke fails q d w.store e in
    let c = worker_call fails q d in
    let kept = call-IsOnce q.job_id c w h in
    record {
      consistent = kept.consistent;
      once = λ id. elim (Bool-cases (same_text q.job_id id)) [
        | inl same ↦ ground (
          arith,
          (same_text_iff q.job_id id).0 same,
          same,
          now,
          before,
          unclaimed,
          authorized.claimed,
          h.once id,
        )
        | inr other ↦ rw other (omega (arith, kept.once id))
      ];
      authorized = ((after, now, authorized), kept.authorized);
    }
