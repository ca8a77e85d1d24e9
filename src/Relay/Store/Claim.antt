-- ===== src/Relay/Store/Claim.antt =====
-- `claimOrReturnExisting` of adapters/simulator/src/relay-store-simulator-adapter.js
-- called again.
use pixel_hq_oss.Common.{
  ◌≡◌, refl, inl, inr, true, false, not, ◌||◌, Option, none, some, arith, Text, same_text,
  Bool-cases, Option-cases, if◌then◌else◌,
}
use pixel_hq_oss.Common.Dict.{lookup, lookup-insert_self}
use pixel_hq_oss.Relay.Request.{Envelope, validate_envelope}
use pixel_hq_oss.Relay.Job.{Job}
use pixel_hq_oss.Relay.Methods.{new_job}
use pixel_hq_oss.Relay.Store.{
  RelayStore, claim_conflict, existing, claimed, is_empty, claim_named, claim_or_return_existing,
}

-- What a claim that stored a job left behind.
claim_named-claimed :
    (o : Option Text) (namespace fingerprint : Text) (candidate : Envelope) (store : RelayStore)
    (job : Job)
    → (claim_named o namespace fingerprint candidate store).0 ≡ claimed job
    → let after = (claim_named o namespace fingerprint candidate store).1 in
      (lookup namespace after.namespaces ≡ some candidate.job_id)
      × (lookup candidate.job_id after.jobs ≡ some job)
claim_named-claimed (some id) namespace fingerprint candidate store job h =
    elim (Option-cases (lookup id store.jobs)) [
      | inl e ↦ absurd (ground arith)
      | inr (j, e) ↦ absurd (ground arith)
    ]
claim_named-claimed none namespace fingerprint candidate store job h = (
  lookup-insert_self namespace candidate.job_id store.namespaces,
  ground (arith, lookup-insert_self candidate.job_id (new_job candidate) store.jobs),
)

claimed_facts :
    (namespace fingerprint : Text) (candidate : Envelope) (store : RelayStore) (job : Job)
    → (claim_or_return_existing namespace fingerprint candidate store).0 ≡ claimed job
    → let after = (claim_or_return_existing namespace fingerprint candidate store).1 in
      (is_empty namespace ≡ false)
      × (lookup namespace after.namespaces ≡ some candidate.job_id)
      × (lookup candidate.job_id after.jobs ≡ some job)
unfolding claim_or_return_existing
claimed_facts namespace fingerprint candidate store job h =
    elim (Bool-cases (
      is_empty namespace
      || not (validate_envelope candidate)
      || not (same_text candidate.fingerprint fingerprint))) [
        | inl e ↦ absurd (ground arith)
        | inr e ↦
            let facts =
              claim_named-claimed (lookup namespace store.namespaces) namespace fingerprint
                candidate store job (rw e at h) in
            (ground arith, rw e facts.0, rw e facts.1)
      ]

-- A claim under a namespace that holds a job.
claim_held :
    (namespace fingerprint id : Text) (candidate : Envelope) (store : RelayStore) (job : Job)
    → is_empty namespace ≡ false
    → validate_envelope candidate ≡ true
    → same_text candidate.fingerprint fingerprint ≡ true
    → lookup namespace store.namespaces ≡ some id
    → lookup id store.jobs ≡ some job
    → claim_or_return_existing namespace fingerprint candidate store ≡ (
      (if same_text job.envelope.fingerprint fingerprint then existing job else claim_conflict),
      store,
    )
unfolding claim_or_return_existing
claim_held namespace fingerprint id candidate store job n v f found held =
    rw (n, v, f, found, held) refl

-- After a claim that stored a job, a claim under the same namespace with a valid envelope of its own
-- fingerprint stores nothing: it returns that job if the job has the same fingerprint, and is a
-- conflict otherwise.
pub claim_again :
    (namespace fingerprint fingerprint' : Text) (candidate candidate' : Envelope)
    (store : RelayStore) (job : Job)
    → (claim_or_return_existing namespace fingerprint candidate store).0 ≡ claimed job
    → validate_envelope candidate' ≡ true
    → same_text candidate'.fingerprint fingerprint' ≡ true
    → let after = (claim_or_return_existing namespace fingerprint candidate store).1 in
      claim_or_return_existing namespace fingerprint' candidate' after ≡ (
        (if same_text job.envelope.fingerprint fingerprint' then existing job else claim_conflict),
        after,
      )
claim_again namespace fingerprint fingerprint' candidate candidate' store job h v f =
    let facts = claimed_facts namespace fingerprint candidate store job h in
    claim_held namespace fingerprint' candidate.job_id candidate'
      (claim_or_return_existing namespace fingerprint candidate store).1 job facts.0 v f facts.1
      facts.2
