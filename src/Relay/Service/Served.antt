-- ===== src/Relay/Service/Served.antt =====
-- Executions of the worker over any requests to services/relay/src/relay-service.js, whose source of
-- job identifiers gives each one once.
use pixel_hq_oss.Common.{
  ℕ, ◌+◌, ◌≤◌, ◌≡◌, refl, inl, inr, true, none, arith, Text, same_text, same_text_iff, Bool-cases,
  Option-cases, all_of,
}
use pixel_hq_oss.Common.Dict.{lookup, lookup-insert}
use pixel_hq_oss.Relay.Request.{Envelope}
use pixel_hq_oss.Relay.Methods.{new_job}
use pixel_hq_oss.Relay.Calls.{JobCall, on_job}
use pixel_hq_oss.Relay.Store.{
  RelayStore, StoreOperation, claim_operation, job_operation, after_operation, call,
  claim_or_return_existing,
}
use pixel_hq_oss.Relay.Action.{World}
use pixel_hq_oss.Relay.Action.Stable.{IsStable}
use pixel_hq_oss.Relay.Gateway.Once.{IsOnce, is_job_operation, IsOnce-IsStable}
use pixel_hq_oss.Relay.Service.Ports.{ServicePorts}
use pixel_hq_oss.Relay.Service.Schedule.Keeps.{is_allowed_while}
use pixel_hq_oss.Relay.Service.Once.{claim-IsOnce, claim-jobs}

-- No two of the identifiers are the same.
abbrev pub AreDistinct : (ℕ → Text) → Type 0
AreDistinct ids = (n m : ℕ) → same_text (ids n) (ids m) ≡ true → n ≡ m

-- The executions are as they should be, and no job has an identifier that is still to be issued.
pub record IsServed (ids : ℕ → Text) (w : World) : Type 0 where
  pub once : IsOnce w
  pub ahead : (n : ℕ) → w.issued ≤ n → lookup (ids n) w.store.jobs ≡ none

call-missing :
    (k : Text) (c : JobCall) (store : RelayStore) (id : Text)
    → lookup id store.jobs ≡ none
    → lookup id (call k c store).1.jobs ≡ none
unfolding call
call-missing k c store id missing = elim (Option-cases (lookup k store.jobs)) [
  | inl e ↦ rw e missing
  | inr (job, e) ↦ elim (Bool-cases (same_text k id)) [
    | inl same ↦ absurd (ground (arith, missing, e, (same_text_iff k id).0 same))
    | inr other ↦
        ground (arith, missing, e, other, lookup-insert k id (on_job k c job).1 store.jobs)
  ]
]

module _ (ids : ℕ → Text) where
  operation-IsServed :
      (w : World) (o : StoreOperation)
      → is_job_operation o ≡ true
      → IsServed ids w
      → IsServed ids (record w { store = after_operation o w.store })
  unfolding after_operation
  operation-IsServed w (job_operation id c) e h = record {
    once = IsOnce-IsStable.store w (job_operation id c) e h.once;
    ahead = λ n le. call-missing id c w.store (ids n) (h.ahead n le);
  }
  operation-IsServed w (claim_operation namespace fingerprint v) e h = absurd (ground arith)

  pub IsServed-IsStable : IsStable (IsServed ids) is_job_operation
  IsServed-IsStable = record {
    issue = λ w n le h. record {
      once = IsOnce-IsStable.issue w n le h.once;
      ahead = λ m lm. h.ahead m (omega (arith, le, lm));
    };
    observe = λ w es h. record { once = IsOnce-IsStable.observe w es h.once; ahead = h.ahead };
    reserve = λ w rs h. record { once = IsOnce-IsStable.reserve w rs h.once; ahead = h.ahead };
    enter = λ w c e h. record { once = IsOnce-IsStable.enter w c e h.once; ahead = h.ahead };
    store = operation-IsServed;
    job_allowed = λ id c. refl;
  }

  pub call-IsServed :
      (k : Text) (c : JobCall) (w : World)
      → IsServed ids w
      → IsServed ids (record w { store = (call k c w.store).1 })
  unfolding after_operation
  call-IsServed k c w h = operation-IsServed w (job_operation k c) refl h

  -- A claim of a job under the identifier that was just issued.
  pub claim-IsServed :
      (namespace fingerprint : Text) (v : Envelope) (w : World)
      → AreDistinct ids
      → v.job_id ≡ ids w.issued
      → IsServed ids w
      → IsServed ids (record w {
        issued = w.issued + 1;
        store = (claim_or_return_existing namespace fingerprint v w.store).1;
      })
  claim-IsServed namespace fingerprint v w distinct e h =
      let missing : lookup v.job_id w.store.jobs ≡ none = rw e (h.ahead w.issued (omega arith)) in
      record {
        once =
            IsOnce-IsStable.issue _ (w.issued + 1) (omega arith)
              (claim-IsOnce namespace fingerprint v w missing h.once);
        ahead = λ n le. elim (claim-jobs namespace fingerprint v w.store) [
          | inl same ↦ rw same (h.ahead n (omega (arith, le)))
          | inr stored ↦ elim (Bool-cases (same_text v.job_id (ids n))) [
            | inl clash ↦ absurd (omega (arith, le, distinct w.issued n (rw⁻¹ e clash)))
            | inr other ↦ rw stored (
                ground (
                  arith,
                  other,
                  lookup-insert v.job_id (ids n) (new_job v) w.store.jobs,
                  h.ahead n (omega (arith, le)),
                ))
          ]
        ];
      }

-- While a dependency is awaited, others only call methods on jobs that are there; and each job
-- identifier is given once.
pub record AreShared (p : ServicePorts) : Type 0 where
  pub distinct : AreDistinct p.sources.job_id
  pub context : all_of is_job_operation p.during_context ≡ true
  pub scheduling : is_allowed_while is_job_operation p.scheduler ≡ true
  pub resolving : all_of is_job_operation p.gateway.during_resolve ≡ true
  pub working : all_of is_job_operation p.gateway.during_worker ≡ true
