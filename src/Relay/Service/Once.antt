-- ===== src/Relay/Service/Once.antt =====
-- Executions of the worker under requests to services/relay/src/relay-service.js.
use pixel_hq_oss.Common.{
  ◌≤◌, ◌≡◌, ◌⊎◌, same_text_iff, refl, inl, inr, not, ◌||◌, none, some, List, [], ◌∷◌, arith, Text,
  same_text, Bool-cases, Option-cases, All,
}
use pixel_hq_oss.Common.Dict.{Dict, lookup, insert, lookup-insert}
use pixel_hq_oss.Relay.Request.{Envelope, validate_envelope}
use pixel_hq_oss.Relay.Job.{Job}
use pixel_hq_oss.Relay.Methods.{new_job}
use pixel_hq_oss.Relay.Store.{RelayStore, is_empty, claim_or_return_existing}
use pixel_hq_oss.Relay.Store.Consistent.{claim-AreConsistent}
use pixel_hq_oss.Relay.Action.{World, PortCall, worker_executed}
use pixel_hq_oss.Relay.Gateway.Once.{claimed_count, IsAuthorized, IsOnce}

-- An insertion under a name that no job has.
pub insert-fresh :
    (k : Text) (new : Job) (jobs : Dict Job) (id : Text) (job : Job)
    → lookup k jobs ≡ none
    → lookup id jobs ≡ some job
    → lookup id (insert k new jobs) ≡ some job
insert-fresh k new jobs id job missing found = elim (Bool-cases (same_text k id)) [
  | inl same ↦ absurd (ground (arith, missing, found, (same_text_iff k id).0 same))
  | inr other ↦ ground (arith, found, other, lookup-insert k id new jobs)
]

insert-IsAuthorized :
    (k : Text) (new : Job) (jobs : Dict Job) (p : PortCall)
    → lookup k jobs ≡ none
    → IsAuthorized jobs p
    → IsAuthorized (insert k new jobs) p
insert-IsAuthorized k new jobs (worker_executed q) missing (job, found, claimed) =
    (job, insert-fresh k new jobs q.job_id job missing found, claimed)
insert-IsAuthorized k new jobs _ missing a = tt

insert-AreAuthorized :
    (k : Text) (new : Job) (jobs : Dict Job) (ps : List PortCall)
    → lookup k jobs ≡ none
    → All (IsAuthorized jobs) ps
    → All (IsAuthorized (insert k new jobs)) ps
insert-AreAuthorized k new jobs [] missing a = tt
insert-AreAuthorized k new jobs (p ∷ ps) missing (first, rest) = (
  insert-IsAuthorized k new jobs p missing first,
  insert-AreAuthorized k new jobs ps missing rest,
)

insert-claimed_count :
    (k : Text) (new : Job) (jobs : Dict Job) (id : Text)
    → lookup k jobs ≡ none
    → claimed_count (lookup id jobs) ≤ claimed_count (lookup id (insert k new jobs))
insert-claimed_count k new jobs id missing = elim (Option-cases (lookup id jobs)) [
  | inl e ↦ rw e (omega arith)
  | inr (job, e) ↦ rw (e, insert-fresh k new jobs id job missing e) (omega arith)
]

-- A claim either leaves the store's jobs, or stores a new one.
pub claim-jobs :
    (namespace fingerprint : Text) (v : Envelope) (store : RelayStore)
    → ((claim_or_return_existing namespace fingerprint v store).1.jobs ≡ store.jobs)
      ⊎ ((claim_or_return_existing namespace fingerprint v store).1.jobs
          ≡ insert v.job_id (new_job v) store.jobs)
unfolding claim_or_return_existing
claim-jobs namespace fingerprint v store =
    elim (Bool-cases (
      is_empty namespace
      || not (validate_envelope v)
      || not (same_text v.fingerprint fingerprint))) [
        | inl e ↦ inl (rw e refl)
        | inr e ↦ elim (Option-cases (lookup namespace store.namespaces)) [
          | inl free ↦ inr (rw (e, free) refl)
          | inr (id, held) ↦ inl (rw (e, held) refl)
        ]
      ]

pub claim-IsOnce :
    (namespace fingerprint : Text) (v : Envelope) (w : World)
    → lookup v.job_id w.store.jobs ≡ none
    → IsOnce w
    → IsOnce (record w { store = (claim_or_return_existing namespace fingerprint v w.store).1 })
claim-IsOnce namespace fingerprint v w missing h =
    let consistent = claim-AreConsistent namespace fingerprint v w.store h.consistent in
    elim (claim-jobs namespace fingerprint v w.store) [
      | inl same ↦ record {
        consistent = consistent;
        once = rw same h.once;
        authorized = rw same h.authorized;
      }
      | inr stored ↦ record {
        consistent = consistent;
        once = λ id. rw stored (
            omega (
              arith,
              h.once id,
              insert-claimed_count v.job_id (new_job v) w.store.jobs id missing,
            ));
        authorized =
            rw stored
              (insert-AreAuthorized v.job_id (new_job v) w.store.jobs w.calls missing h.authorized);
      }
    ]
