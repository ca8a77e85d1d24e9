-- ===== src/Scheduler/Store/Exclusive.antt =====
-- Which reservations hold a resource, over calls of
-- adapters/simulator/src/scheduler-store-simulator-adapter.js.
use pixel_hq_oss.Common.{
  ℕ, ◌+◌, ◌≤◌, ◌≡◌, refl, false, ◌&&◌, Option, none, some, List, [], ◌∷◌, arith, Text, same_text,
  same_text_iff, Value, Option-cases, inl, inr, if◌then◌else◌,
}
use pixel_hq_oss.Common.Dict.{lookup, insert}
use pixel_hq_oss.Scheduler.Contract.{Reservation}
use pixel_hq_oss.Scheduler.Store.{
  SchedulerStore, is_active, expire_if_needed, active_for, reserve_free, reserve, current, Target,
  transition_entry, transition, expire_all, active_reservations, StoreCall, call_reserve,
  call_current, call_transition, call_active, after_call, run_calls,
}

-- 1 if the reservation holds the resource.
abbrev pub holds : Text → Reservation → ℕ
holds resource r = if is_active r.state && same_text r.resource_ref resource then 1 else 0

abbrev pub holders : Text → SchedulerStore → ℕ
holders resource [] = 0
holders resource ((k, r) ∷ d) = holds resource r + holders resource d

-- At most one reservation in the store is active for each resource.
abbrev pub IsExclusive : SchedulerStore → Type 0
IsExclusive store = (resource : Text) → holders resource store ≤ 1

holds-expire :
    (resource : Text) (now : ℕ) (r : Reservation)
    → holds resource (expire_if_needed now r) ≤ holds resource r
unfolding expire_if_needed
holds-expire resource now r = ground arith

holds_inactive :
    (resource : Text) (r : Reservation) → is_active r.state ≡ false → holds resource r ≡ 0
holds_inactive resource r h = ground arith

expire-resource :
    (now : ℕ) (r : Reservation) → (expire_if_needed now r).resource_ref ≡ r.resource_ref
unfolding expire_if_needed
expire-resource now r = ground arith

active_for-holders :
    (other resource : Text) (now : ℕ) (d : SchedulerStore)
    → holders other (active_for resource now d).1 ≤ holders other d
unfolding active_for
active_for-holders other resource now [] = omega arith
active_for-holders other resource now ((k, r) ∷ d) =
    ground (arith, active_for-holders other resource now d, holds-expire other now r)

-- When no owner is found, nothing is active for the resource any more.
active_for-none :
    (resource : Text) (now : ℕ) (d : SchedulerStore)
    → (active_for resource now d).0 ≡ none
    → holders resource (active_for resource now d).1 ≡ 0
unfolding active_for
active_for-none resource now [] h = refl
active_for-none resource now ((k, r) ∷ d) h =
    ground (arith, active_for-none resource now d, holds_inactive resource (expire_if_needed now r))

-- Writing an entry moves the count by what the entry holds.
holders-insert_new :
    (resource k : Text) (r : Reservation) (d : SchedulerStore)
    → lookup k d ≡ none
    → holders resource (insert k r d) ≡ holds resource r + holders resource d
unfolding lookup insert
holders-insert_new resource k r [] h = refl
holders-insert_new resource k r ((j, s) ∷ d) h = ground (arith, holders-insert_new resource k r d)

holders-insert_old :
    (resource k : Text) (r old : Reservation) (d : SchedulerStore)
    → lookup k d ≡ some old
    → holds resource r ≤ holds resource old
    → holders resource (insert k r d) ≤ holders resource d
unfolding lookup insert
holders-insert_old resource k r old [] h le = cc
holders-insert_old resource k r old ((j, s) ∷ d) h le =
    ground (arith, holders-insert_old resource k r old d)

expire_all-holders :
    (resource : Text) (now : ℕ) (d : SchedulerStore)
    → holders resource (expire_all now d) ≤ holders resource d
unfolding expire_all
expire_all-holders resource now [] = omega arith
expire_all-holders resource now ((k, r) ∷ d) =
    omega (arith, holds-expire resource now r, expire_all-holders resource now d)

transition_entry-holds :
    (resource : Text) (target : Target) (now : ℕ) (expected : Value) (r : Reservation)
    → holds resource (transition_entry target now expected r).1 ≤ holds resource r
unfolding transition_entry
transition_entry-holds resource target now expected r = ground arith

reserve_free-holders :
    (resource : Text) (value : Reservation) (owner : Option Reservation) (d : SchedulerStore)
    → IsExclusive d
    → (owner ≡ none → holders value.resource_ref d ≡ 0)
    → holders resource (reserve_free value (owner, d)).1 ≤ 1
unfolding reserve_free
reserve_free-holders resource value (some o) d h free = h resource
reserve_free-holders resource value none d h free =
    elim (Option-cases (lookup value.reservation_id d)) [
      | inl new ↦ rw new (
          ground (
            arith,
            h resource,
            free refl,
            holders-insert_new resource value.reservation_id value d new,
            same_text_iff value.resource_ref resource,
          ))
      | inr (r, old) ↦ rw old (h resource)
    ]

reserve-IsExclusive :
    (value : Reservation) (now : ℕ) (d : SchedulerStore)
    → IsExclusive d
    → IsExclusive (reserve value now d).1
unfolding reserve
reserve-IsExclusive value now d h resource =
    let found = active_for value.resource_ref now d in
    ground (
      arith,
      h resource,
      reserve_free-holders resource value found.0 found.1
          (λ other. omega (arith, h other, active_for-holders other value.resource_ref now d))
          (active_for-none value.resource_ref now d),
    )

current-IsExclusive :
    (id : Text) (now : ℕ) (d : SchedulerStore) → IsExclusive d → IsExclusive (current id now d).1
unfolding current
current-IsExclusive id now d h resource = elim (Option-cases (lookup id d)) [
  | inl e ↦ rw e (h resource)
  | inr (r, e) ↦ rw e (
      omega (
        arith,
        h resource,
        holders-insert_old resource id (expire_if_needed now r) r d e (holds-expire resource now r),
      ))
]

transition-IsExclusive :
    (id : Text) (target : Target) (now : ℕ) (expected : Value) (d : SchedulerStore)
    → IsExclusive d
    → IsExclusive (transition id target now expected d).1
unfolding transition
transition-IsExclusive id target now expected d h resource = elim (Option-cases (lookup id d)) [
  | inl e ↦ rw e (h resource)
  | inr (r, e) ↦ rw e (
      omega (
        arith,
        h resource,
        holders-insert_old resource id
            (transition_entry target now expected (expire_if_needed now r)).1 r d e
            (omega (
              arith,
              transition_entry-holds resource target now expected (expire_if_needed now r),
              holds-expire resource now r,
            )),
      ))
]

after_call-IsExclusive :
    (c : StoreCall) (d : SchedulerStore) → IsExclusive d → IsExclusive (after_call c d)
unfolding after_call active_reservations
after_call-IsExclusive (call_reserve value now) d h = reserve-IsExclusive value now d h
after_call-IsExclusive (call_current id now) d h = current-IsExclusive id now d h
after_call-IsExclusive (call_transition id target now expected) d h =
    transition-IsExclusive id target now expected d h
after_call-IsExclusive (call_active now) d h =
    λ resource. omega (arith, h resource, expire_all-holders resource now d)

-- From a store where no resource has two active reservations, and so from the empty store, any calls
-- with any arguments and any instants, also instants that go back, leave such a store.
pub run_calls-IsExclusive :
    (cs : List StoreCall) (d : SchedulerStore) → IsExclusive d → IsExclusive (run_calls cs d)
unfolding run_calls
run_calls-IsExclusive [] d h = h
run_calls-IsExclusive (c ∷ cs) d h =
    run_calls-IsExclusive cs (after_call c d) (after_call-IsExclusive c d h)
