-- ===== src/Scheduler/Store/Terminal.antt =====
-- Reservations that are no longer active or pending, over calls of
-- adapters/simulator/src/scheduler-store-simulator-adapter.js.
use pixel_hq_oss.Common.{
  ℕ, ◌≡◌, refl, ◌∙◌, ap, Bool, true, not, ◌&&◌, Option, none, some, List, [], ◌∷◌, arith, Text,
  same_text_iff, Value,
}
use pixel_hq_oss.Common.Dict.{lookup, insert, lookup-insert}
use pixel_hq_oss.Scheduler.Contract.{Reservation, ReservationState}
use pixel_hq_oss.Scheduler.Store.{
  SchedulerStore, is_active, is_pending, expire_if_needed, active_for, reserve_free, reserve,
  current, current_found, transition_found, Target, transition_entry, transition, expire_all,
  active_reservations, StoreCall, call_reserve, call_current, call_transition, call_active,
  after_call, run_calls,
}

-- Released, expired or cancelled.
abbrev pub is_terminal : ReservationState → Bool
is_terminal s = not (is_active s) && not (is_pending s)

expire_terminal :
    (now : ℕ) (r : Reservation) → is_terminal r.state ≡ true → expire_if_needed now r ≡ r
unfolding expire_if_needed
expire_terminal now r h = ground arith

active_for_terminal :
    (resource : Text) (now : ℕ) (id : Text) (r : Reservation) (d : SchedulerStore)
    → is_terminal r.state ≡ true
    → lookup id d ≡ some r
    → lookup id (active_for resource now d).1 ≡ some r
unfolding active_for lookup
active_for_terminal resource now id r [] h e = e
active_for_terminal resource now id r ((k, s) ∷ d) h e =
    ground (arith, expire_terminal now r, active_for_terminal resource now id r d)

expire_all_terminal :
    (now : ℕ) (id : Text) (r : Reservation) (d : SchedulerStore)
    → is_terminal r.state ≡ true
    → lookup id d ≡ some r
    → lookup id (expire_all now d) ≡ some r
unfolding expire_all lookup
expire_all_terminal now id r [] h e = e
expire_all_terminal now id r ((k, s) ∷ d) h e =
    ground (arith, expire_terminal now r, expire_all_terminal now id r d)

transition_entry_terminal :
    (target : Target) (now : ℕ) (expected : Value) (r : Reservation)
    → is_terminal r.state ≡ true
    → (transition_entry target now expected (expire_if_needed now r)).1 ≡ r
unfolding transition_entry
transition_entry_terminal target now expected r h = ground (arith, expire_terminal now r h)

reserve_free_terminal :
    (value : Reservation) (owner : Option Reservation) (id : Text) (r : Reservation)
    (d : SchedulerStore)
    → lookup id d ≡ some r
    → lookup id (reserve_free value (owner, d)).1 ≡ some r
unfolding reserve_free
reserve_free_terminal value (some o) id r d e = e
reserve_free_terminal value none id r d e =
    ground
      (arith, lookup-insert value.reservation_id id value d, same_text_iff value.reservation_id id)

-- Writing back what a terminal entry becomes, or any other entry, keeps the entry.
insert_terminal :
    (k id : Text) (s s' r : Reservation) (d : SchedulerStore)
    → lookup k d ≡ some s
    → lookup id d ≡ some r
    → (s ≡ r → s' ≡ r)
    → lookup id (insert k s' d) ≡ some r
insert_terminal k id s s' r d ek e same =
    ground (arith, lookup-insert k id s' d, same_text_iff k id)

module _ (id : Text) (r : Reservation) (d : SchedulerStore) (h : is_terminal r.state ≡ true)
    (e : lookup id d ≡ some r) where
  current_found_terminal :
      (o : Option Reservation) (k : Text) (now : ℕ)
      → lookup k d ≡ o
      → lookup id (current_found o k now d).1 ≡ some r
  current_found_terminal none k now f = e
  current_found_terminal (some s) k now f =
      insert_terminal k id s (expire_if_needed now s) r d f e
        (λ p. ap (expire_if_needed now) p ∙ expire_terminal now r h)

  transition_found_terminal :
      (o : Option Reservation) (k : Text) (target : Target) (now : ℕ) (expected : Value)
      → lookup k d ≡ o
      → lookup id (transition_found o k target now expected d).1 ≡ some r
  transition_found_terminal none k target now expected f = e
  transition_found_terminal (some s) k target now expected f =
      insert_terminal k id s (transition_entry target now expected (expire_if_needed now s)).1 r d f
        e
        (λ p.
          ap
            (λ (q : Reservation). (transition_entry target now expected (expire_if_needed now q)).1)
            p
          ∙ transition_entry_terminal target now expected r h)

after_call_terminal :
    (c : StoreCall) (id : Text) (r : Reservation) (d : SchedulerStore)
    → is_terminal r.state ≡ true
    → lookup id d ≡ some r
    → lookup id (after_call c d) ≡ some r
unfolding after_call reserve current transition active_reservations
after_call_terminal (call_reserve value now) id r d h e =
    let found = active_for value.resource_ref now d in
    ground (
      arith,
      reserve_free_terminal value found.0 id r found.1,
      active_for_terminal value.resource_ref now id r d h e,
    )
after_call_terminal (call_current k now) id r d h e =
    current_found_terminal id r d h e (lookup k d) k now refl
after_call_terminal (call_transition k target now expected) id r d h e =
    transition_found_terminal id r d h e (lookup k d) k target now expected refl
after_call_terminal (call_active now) id r d h e = expire_all_terminal now id r d h e

-- A released, expired or cancelled reservation stays in the store unchanged, in every field, through
-- any calls: it is never made active again and its identifier is never given to another reservation.
pub run_calls_terminal :
    (cs : List StoreCall) (id : Text) (r : Reservation) (d : SchedulerStore)
    → is_terminal r.state ≡ true
    → lookup id d ≡ some r
    → lookup id (run_calls cs d) ≡ some r
unfolding run_calls
run_calls_terminal [] id r d h e = e
run_calls_terminal (c ∷ cs) id r d h e =
    run_calls_terminal cs id r (after_call c d) h (after_call_terminal c id r d h e)
