-- ===== src/Relay/Store/Consistent.antt =====
-- The invariant of the jobs, over sequences of operations of
-- adapters/simulator/src/relay-store-simulator-adapter.js.
use pixel_hq_oss.Common.{
  ◌≡◌, refl, subst, inl, inr, not, ◌||◌, Option, none, some, List, [], ◌∷◌, arith, Text, same_text,
  Bool-cases,
}
use pixel_hq_oss.Common.Dict.{Dict, lookup, insert, lookup-insert}
use pixel_hq_oss.Relay.Request.{Envelope, validate_envelope}
use pixel_hq_oss.Relay.Job.{Job}
use pixel_hq_oss.Relay.Methods.{new_job}
use pixel_hq_oss.Relay.Calls.{JobCall, on_job}
use pixel_hq_oss.Relay.Calls.Legal.{IsConsistent, new_job-IsConsistent, on_job-IsConsistent}
use pixel_hq_oss.Relay.Store.{
  RelayStore, is_empty, claim_named, claim_or_return_existing, call_found, call, StoreOperation,
  claim_operation, job_operation, after_operation, run_operations,
}

-- Every job in the map is consistent.
abbrev pub AreConsistent : Dict Job → Type 0
AreConsistent jobs = (id : Text) (job : Job) → lookup id jobs ≡ some job → IsConsistent job

insert-AreConsistent :
    (k : Text) (new : Job) (jobs : Dict Job)
    → IsConsistent new
    → AreConsistent jobs
    → AreConsistent (insert k new jobs)
insert-AreConsistent k new jobs n h id job e = elim (Bool-cases (same_text k id)) [
  | inl same ↦
      subst (λ (j : Job). IsConsistent j) (ground (arith, lookup-insert k id new jobs, same, e)) n
  | inr other ↦ h id job (ground (arith, lookup-insert k id new jobs, other, e))
]

claim_named-AreConsistent :
    (o : Option Text) (namespace fingerprint : Text) (candidate : Envelope) (store : RelayStore)
    → AreConsistent store.jobs
    → AreConsistent (claim_named o namespace fingerprint candidate store).1.jobs
claim_named-AreConsistent (some id) namespace fingerprint candidate store h = h
claim_named-AreConsistent none namespace fingerprint candidate store h =
    insert-AreConsistent candidate.job_id (new_job candidate) store.jobs
      (new_job-IsConsistent candidate) h

pub claim-AreConsistent :
    (namespace fingerprint : Text) (candidate : Envelope) (store : RelayStore)
    → AreConsistent store.jobs
    → AreConsistent (claim_or_return_existing namespace fingerprint candidate store).1.jobs
unfolding claim_or_return_existing
claim-AreConsistent namespace fingerprint candidate store h =
    elim (Bool-cases (
      is_empty namespace
      || not (validate_envelope candidate)
      || not (same_text candidate.fingerprint fingerprint))) [
        | inl e ↦ rw e h
        | inr e ↦ rw e (
            claim_named-AreConsistent (lookup namespace store.namespaces) namespace fingerprint
              candidate store h)
      ]

call_found-AreConsistent :
    (o : Option Job) (id : Text) (c : JobCall) (store : RelayStore)
    → lookup id store.jobs ≡ o
    → AreConsistent store.jobs
    → AreConsistent (call_found o id c store).1.jobs
call_found-AreConsistent none id c store e h = h
call_found-AreConsistent (some job) id c store e h =
    insert-AreConsistent id (on_job id c job).1 store.jobs
      (on_job-IsConsistent id c job (h id job e)) h

pub call-AreConsistent :
    (id : Text) (c : JobCall) (store : RelayStore)
    → AreConsistent store.jobs
    → AreConsistent (call id c store).1.jobs
unfolding call
call-AreConsistent id c store h = call_found-AreConsistent (lookup id store.jobs) id c store refl h

pub after_operation-AreConsistent :
    (o : StoreOperation) (store : RelayStore)
    → AreConsistent store.jobs
    → AreConsistent (after_operation o store).jobs
unfolding after_operation
after_operation-AreConsistent (claim_operation namespace fingerprint candidate) store h =
    claim-AreConsistent namespace fingerprint candidate store h
after_operation-AreConsistent (job_operation id c) store h = call-AreConsistent id c store h

-- From a store whose jobs are consistent, and so from the empty store, any claims and any method calls
-- on any jobs leave every job consistent: its transitions are legal ones in a row from SUBMITTED to its
-- state, it never has both a gateway decision and a model invocation, a worker is claimed only after a
-- decision, a running job is bound to an execution, and a result stands only on a finished job.
pub run_operations-AreConsistent :
    (os : List StoreOperation) (store : RelayStore)
    → AreConsistent store.jobs
    → AreConsistent (run_operations os store).jobs
unfolding run_operations
run_operations-AreConsistent [] store h = h
run_operations-AreConsistent (o ∷ os) store h =
    run_operations-AreConsistent os (after_operation o store)
      (after_operation-AreConsistent o store h)
