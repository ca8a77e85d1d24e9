-- ===== src/Relay/Action.antt =====
-- Asynchronous methods of services/relay/src/relay-service.js and
-- services/tool-gateway/src/tool-gateway.js: they act on what both share, and may throw. What was
-- written before a throw stays written, so the state comes back beside it.
pub mod Keeps
pub mod Stable
use pixel_hq_oss.Common.{
  ℕ, ◌+◌, Bool, true, false, Option, none, some, List, [], ◌∷◌, Text, if◌then◌else◌,
}
use pixel_hq_oss.Common.Dict.{Dict, lookup}
use pixel_hq_oss.Relay.Request.{Request}
use pixel_hq_oss.Relay.Job.{Invocation, Job}
use pixel_hq_oss.Relay.Methods.{Reply}
use pixel_hq_oss.Relay.Calls.{JobCall}
use pixel_hq_oss.Relay.Store.{
  RelayStore, ClaimReply, claim_or_return_existing, call, StoreOperation, run_operations,
}
use pixel_hq_oss.Relay.Request.{Envelope}

-- The sources of identifiers and the clock, by how many identifiers have been issued.
pub record Sources : Type 0 where
  pub event_id : ℕ → Text
  pub job_id : ℕ → Text
  pub execution_id : ℕ → Text
  pub span_id : ℕ → Text
  pub trace_id : ℕ → Text
  pub clock : ℕ → Text

pub data EvidenceOutcome : Type 0 where
  success failure denied : EvidenceOutcome

-- What `evidence.append` is given, without the service's name, the severity and the attributes.
pub record Evidence : Type 0 where
  pub trace_id : Text
  pub span_id : Text
  pub parent_span_id : Option Text
  pub event_name : Text
  pub outcome : EvidenceOutcome

pub record Reservation : Type 0 where
  pub reservation_id : Text
  pub revision : ℕ

-- A call of a dependency that is not the store.
pub data PortCall : Type 0 where
  capabilities_resolved : Text → PortCall
  worker_executed : Request → PortCall
  context_built : Text → PortCall
  model_invoked : Invocation → PortCall
  reservation_granted : Text → Reservation → PortCall
  start_confirmed : Text → PortCall
  reservation_released : Reservation → PortCall
  packages_released : Text → PortCall

-- What the methods act on; `evidence` and `calls` have the latest entry first, and `reservations` is
-- `#activeReservations`.
pub record World : Type 0 where
  pub store : RelayStore
  pub issued : ℕ
  pub evidence : List Evidence
  pub calls : List PortCall
  pub reservations : Dict Reservation

pub data Ended {ℓ} (A : Type ℓ) : Type ℓ where
  returned : A → Ended A
  threw : Ended A

abbrev pub Action {ℓ} : Type ℓ → Type ℓ
Action A = World → Ended A × World

module _ {ℓ} {A : Type ℓ} where
  unfoldable pub pure : A → Action A
  pure a w = (returned a, w)

  unfoldable pub throw : Action A
  throw w = (threw, w)

  unfoldable pub gets : (World → A) → Action A
  gets f w = (returned (f w), w)

  abbrev caught : Ended A → Option A
  caught (returned a) = some a
  caught threw = none

  -- `try { return await action } catch {}`: nothing when it threw.
  unfoldable pub attempt : Action A → Action (Option A)
  attempt m w = let (r, v) = m w in (returned (caught r), v)

module _ {ℓ κ} {A : Type ℓ} {B : Type κ} where
  abbrev continue : Ended A → (A → Action B) → Action B
  continue (returned a) f w = f a w
  continue threw f w = (threw, w)

  infixl 10 ◌>>=◌ ◌>>◌
  unfoldable pub ◌>>=◌ : Action A → (A → Action B) → Action B
  ◌>>=◌ m f w = let (r, v) = m w in continue r f v

  abbrev pub ◌>>◌ : Action A → Action B → Action B
  m >> n = m >>= λ _. n

-- `assertValid…`
unfoldable pub assert : Bool → Action (Unit {0})
unfolding pure throw
assert b = if b then pure tt else throw

unfoldable pub next : (ℕ → Text) → Action Text
next ids w = (returned (ids w.issued), record w { issued = w.issued + 1 })

unfoldable pub append : Evidence → Action (Unit {0})
append e w = (returned tt, record w { evidence = e ∷ w.evidence })

unfoldable pub record_call : PortCall → Action (Unit {0})
record_call c w = (returned tt, record w { calls = c ∷ w.calls })

-- `store.getJob(jobId)`
unfoldable pub get_job : Text → Action (Option Job)
get_job id w = (returned (lookup id w.store.jobs), w)

-- The other methods of the store.
unfoldable pub store_call : Text → JobCall → Action Reply
store_call id c w = let (r, s) = call id c w.store in (returned r, record w { store = s })

unfoldable pub store_claim : Text → Text → Envelope → Action ClaimReply
store_claim namespace fingerprint candidate w =
    let (r, s) = claim_or_return_existing namespace fingerprint candidate w.store in
    (returned r, record w { store = s })

-- What others do with the store while a dependency is awaited.
unfoldable pub await : List StoreOperation → Action (Unit {0})
await os w = (returned tt, record w { store = run_operations os w.store })
