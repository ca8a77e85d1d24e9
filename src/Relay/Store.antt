-- ===== src/Relay/Store.antt =====
-- The two maps of adapters/simulator/src/relay-store-simulator-adapter.js and its methods over them.
pub mod Claim
pub mod Consistent
pub mod Claimed
use pixel_hq_oss.Common.{
  ℕ, Bool, true, false, not, ◌&&◌, ◌||◌, Option, none, some, List, [], ◌∷◌, Text, same_text,
  if◌then◌else◌,
}
use pixel_hq_oss.Common.Dict.{Dict, lookup, insert}
use pixel_hq_oss.Relay.Request.{Envelope, validate_envelope}
use pixel_hq_oss.Relay.Job.{Job}
use pixel_hq_oss.Relay.Methods.{Reply, rejected, new_job}
use pixel_hq_oss.Relay.Calls.{JobCall, on_job}

-- `#jobs` and `#namespaces`
pub record RelayStore : Type 0 where
  pub jobs : Dict Job
  pub namespaces : Dict Text

pub data ClaimReply : Type 0 where
  claim_rejected claim_conflict : ClaimReply
  existing claimed : Job → ClaimReply

abbrev pub is_empty : Text → Bool
is_empty [] = true
is_empty (c ∷ cs) = false

-- The answer on the job that the namespace holds; without one the source throws, which the store's
-- own writes exclude.
abbrev pub existing_reply : Option Job → Text → ClaimReply
existing_reply none fingerprint = claim_rejected
existing_reply (some job) fingerprint =
    if same_text job.envelope.fingerprint fingerprint then existing job else claim_conflict

abbrev pub claim_named : Option Text → Text → Text → Envelope → RelayStore → ClaimReply × RelayStore
claim_named (some id) namespace fingerprint candidate store =
    (existing_reply (lookup id store.jobs) fingerprint, store)
claim_named none namespace fingerprint candidate store = (
  claimed (new_job candidate),
  record {
    jobs = insert candidate.job_id (new_job candidate) store.jobs;
    namespaces = insert namespace candidate.job_id store.namespaces;
  },
)

-- `claimOrReturnExisting`
unfoldable pub claim_or_return_existing :
    Text → Text → Envelope → RelayStore → ClaimReply × RelayStore
claim_or_return_existing namespace fingerprint candidate store =
    if is_empty namespace
      || not (validate_envelope candidate)
      || not (same_text candidate.fingerprint fingerprint)
    then (claim_rejected, store)
    else claim_named (lookup namespace store.namespaces) namespace fingerprint candidate store

abbrev pub call_found : Option Job → Text → JobCall → RelayStore → Reply × RelayStore
call_found none id c store = (rejected, store)
call_found (some job) id c store =
    ((on_job id c job).0, record store { jobs = insert id (on_job id c job).1 store.jobs })

-- A method on the job with the identifier.
unfoldable pub call : Text → JobCall → RelayStore → Reply × RelayStore
call id c store = call_found (lookup id store.jobs) id c store

-- Any sequence of claims and of method calls.
pub data StoreOperation : Type 0 where
  claim_operation : Text → Text → Envelope → StoreOperation
  job_operation : Text → JobCall → StoreOperation

unfoldable pub after_operation : StoreOperation → RelayStore → RelayStore
after_operation (claim_operation namespace fingerprint candidate) store =
    (claim_or_return_existing namespace fingerprint candidate store).1
after_operation (job_operation id c) store = (call id c store).1

unfoldable pub run_operations : List StoreOperation → RelayStore → RelayStore
run_operations [] store = store
run_operations (o ∷ os) store = run_operations os (after_operation o store)
