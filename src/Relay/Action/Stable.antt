-- ===== src/Relay/Action/Stable.antt =====
-- Properties of what the methods act on that the single steps of a method keep.
use pixel_hq_oss.Common.{
  ◌≡◌, ◌≤◌, ◌+◌, arith, ℕ, Bool, true, false, &&-eq-true, List, [], ◌∷◌, Text, all_of,
}
use pixel_hq_oss.Common.Dict.{Dict}
use pixel_hq_oss.Relay.Calls.{JobCall}
use pixel_hq_oss.Relay.Store.{StoreOperation, job_operation, after_operation, run_operations}
use pixel_hq_oss.Relay.Action.{
  Evidence, Reservation, PortCall, worker_executed, World, gets, next, append, record_call, get_job,
  store_call, await,
}
use pixel_hq_oss.Relay.Action.Keeps.{Keeps, keeps_rules}

abbrev pub is_worker : PortCall → Bool
is_worker (worker_executed q) = true
is_worker _ = false

-- `P` survives the allowed operations of the store, every method call on a job among them, and every
-- other step but a call of the worker.
pub record IsStable {κ} (P : World → Type κ) (allowed : StoreOperation → Bool) : Type κ where
  pub issue : (w : World) (n : ℕ) → w.issued ≤ n → P w → P (record w { issued = n })
  pub observe : (w : World) (es : List Evidence) → P w → P (record w { evidence = es })
  pub reserve : (w : World) (rs : Dict Reservation) → P w → P (record w { reservations = rs })
  pub enter :
      (w : World) (c : PortCall) → is_worker c ≡ false → P w → P (record w { calls = c ∷ w.calls })
  pub store :
      (w : World) (o : StoreOperation)
      → allowed o ≡ true
      → P w
      → P (record w { store = after_operation o w.store })
  pub job_allowed : (id : Text) (c : JobCall) → allowed (job_operation id c) ≡ true

module _ {κ} (P : World → Type κ) (allowed : StoreOperation → Bool) (s : IsStable P allowed) where
  pub gets-Keeps {ℓ} : {A : Type ℓ} (f : World → A) → Keeps P (gets f)
  unfolding gets
  gets-Keeps f = record { at = λ w h. h }

  pub next-Keeps : (ids : ℕ → Text) → Keeps P (next ids)
  unfolding next
  next-Keeps ids = record { at = λ w h. s.issue w (w.issued + 1) (omega arith) h }

  pub append-Keeps : (e : Evidence) → Keeps P (append e)
  unfolding append
  append-Keeps e = record { at = λ w h. s.observe w _ h }

  pub record_call-Keeps : (c : PortCall) → is_worker c ≡ false → Keeps P (record_call c)
  unfolding record_call
  record_call-Keeps c e = record { at = λ w h. s.enter w c e h }

  pub get_job-Keeps : (id : Text) → Keeps P (get_job id)
  unfolding get_job
  get_job-Keeps id = record { at = λ w h. h }

  pub store_call-Keeps : (id : Text) (c : JobCall) → Keeps P (store_call id c)
  unfolding store_call after_operation
  store_call-Keeps id c = record {
    at = λ w h. s.store w (job_operation id c) (s.job_allowed id c) h;
  }

  await_at :
      (os : List StoreOperation) (w : World)
      → all_of allowed os ≡ true
      → P w
      → P (record w { store = run_operations os w.store })
  unfolding run_operations
  await_at [] w e h = h
  await_at (o ∷ os) w e h =
      let (first, rest) = &&-eq-true (allowed o) (all_of allowed os) e in
      await_at os (record w { store = after_operation o w.store }) rest (s.store w o first h)

  pub await-Keeps : (os : List StoreOperation) → all_of allowed os ≡ true → Keeps P (await os)
  unfolding await
  await-Keeps os e = record { at = λ w h. await_at os w e h }

  pub ruleset stable_rules = (
    keeps_rules, gets-Keeps, next-Keeps, append-Keeps, record_call-Keeps, get_job-Keeps,
    store_call-Keeps, await-Keeps,
  )
