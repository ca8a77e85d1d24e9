-- ===== src/Scheduler/Store.antt =====
-- adapters/simulator/src/scheduler-store-simulator-adapter.js. An instant `now` is a valid time;
-- copies and freezing do not show in a value model.
pub mod Exclusive
pub mod Terminal
use pixel_hq_oss.Common.{
  ℕ, suc, ◌+◌, Bool, true, false, not, ◌&&◌, ◌||◌, Option, none, some, List, [], ◌∷◌, Text,
  same_text, Value, num, is_some, ltb, ◌==◌, if◌then◌else◌,
}
use pixel_hq_oss.Common.Dict.{Dict, lookup, insert}
use pixel_hq_oss.Scheduler.Contract.{
  ReservationState, pending, active, released, expired, cancelled, Reservation,
  validate_reservation,
}

-- `#reservations`
abbrev pub SchedulerStore : Type 0
SchedulerStore = Dict Reservation

pub data ReserveReply : Type 0 where
  reservation_invalid : ReserveReply
  resource_busy : Reservation → ReserveReply
  reservation_id_conflict : ReserveReply
  reserved : Reservation → ReserveReply

abbrev pub is_active : ReservationState → Bool
is_active active = true
is_active _ = false

abbrev pub is_pending : ReservationState → Bool
is_pending pending = true
is_pending _ = false

-- `Date.parse(expires_at) > Date.parse(now)`; with no expiry the comparison is with NaN.
abbrev pub is_live_at : Option ℕ → ℕ → Bool
is_live_at none now = false
is_live_at (some expires_at) now = ltb now expires_at

abbrev pub as_expired : ℕ → Reservation → Reservation
as_expired now r = record r {
  state = expired;
  revision = r.revision + 1;
  updated_at = now;
  expires_at = none;
}

-- `#expireIfNeeded`
unfoldable pub expire_if_needed : ℕ → Reservation → Reservation
expire_if_needed now r =
    if not (is_active r.state)
    then r
    else if is_live_at r.expires_at now
    then r
    else as_expired now r

-- `#activeFor`: the owner of the resource, and the store with the leases that it found expired.
unfoldable pub active_for : Text → ℕ → SchedulerStore → Option Reservation × SchedulerStore
active_for resource now [] = (none, [])
active_for resource now ((k, r) ∷ d) =
    let rest = active_for resource now d in
    if same_text r.resource_ref resource
    then (let r' = expire_if_needed now r in
        if is_active r'.state then (some r', (k, r') ∷ d) else (rest.0, (k, r') ∷ rest.1))
    else (rest.0, (k, r) ∷ rest.1)

-- The end of `reserve`, on what `#activeFor` returned.
unfoldable pub reserve_free :
    Reservation → Option Reservation × SchedulerStore → ReserveReply × SchedulerStore
reserve_free value (some owner, store) = (resource_busy owner, store)
reserve_free value (none, store) =
    if is_some (lookup value.reservation_id store)
    then (reservation_id_conflict, store)
    else (reserved value, insert value.reservation_id value store)

-- `reserve`
unfoldable pub reserve : Reservation → ℕ → SchedulerStore → ReserveReply × SchedulerStore
reserve value now store =
    if not (validate_reservation value)
    then (reservation_invalid, store)
    else if not (is_active value.state)
    then (reservation_invalid, store)
    else reserve_free value (active_for value.resource_ref now store)

-- `current`, on the entry found.
abbrev pub current_found :
    Option Reservation → Text → ℕ → SchedulerStore → Option Reservation × SchedulerStore
current_found none id now store = (none, store)
current_found (some r) id now store =
    (some (expire_if_needed now r), insert id (expire_if_needed now r) store)

-- `current`
unfoldable pub current : Text → ℕ → SchedulerStore → Option Reservation × SchedulerStore
current id now store = current_found (lookup id store) id now store

pub data TransitionReply : Type 0 where
  not_found : TransitionReply
  stale_revision invalid_transition updated : Reservation → TransitionReply

-- The states that `toState` may name; `other_target` is any other.
pub data Target : Type 0 where
  to_released to_cancelled other_target : Target

-- `allowedFrom[toState]?.includes(current.state)`, with the state that is entered.
abbrev pub allowed_from : Target → ReservationState → Option ReservationState
allowed_from to_released active = some released
allowed_from to_cancelled active = some cancelled
allowed_from to_cancelled pending = some cancelled
allowed_from _ _ = none

abbrev pub is_revision : Value → ℕ → Bool
is_revision (num n) r = r == n
is_revision _ r = false

abbrev pub moved_to : ReservationState → ℕ → Reservation → Reservation
moved_to state now r = record r {
  state = state;
  revision = r.revision + 1;
  updated_at = now;
  expires_at = none;
}

-- `transition` on the entry found, its lease expired if needed: the answer and the new entry.
unfoldable pub transition_entry : Target → ℕ → Value → Reservation → TransitionReply × Reservation
transition_entry target now expected r =
    if not (is_revision expected r.revision)
    then (stale_revision r, r)
    else elim (allowed_from target r.state) [
      | none ↦ (invalid_transition r, r)
      | some state ↦ (updated (moved_to state now r), moved_to state now r)
    ]

-- `transition`, on the entry found.
abbrev pub transition_found :
    Option Reservation
    → Text
    → Target
    → ℕ
    → Value
    → SchedulerStore
    → TransitionReply × SchedulerStore
transition_found none id target now expected store = (not_found, store)
transition_found (some r) id target now expected store =
    let (reply, r') = transition_entry target now expected (expire_if_needed now r) in
    (reply, insert id r' store)

-- `transition`
unfoldable pub transition :
    Text → Target → ℕ → Value → SchedulerStore → TransitionReply × SchedulerStore
transition id target now expected store =
    transition_found (lookup id store) id target now expected store

unfoldable pub expire_all : ℕ → SchedulerStore → SchedulerStore
expire_all now [] = []
expire_all now ((k, r) ∷ d) = (k, expire_if_needed now r) ∷ expire_all now d

unfoldable pub active_in : SchedulerStore → List Reservation
active_in [] = []
active_in ((k, r) ∷ d) = if is_active r.state then r ∷ active_in d else active_in d

-- `activeReservations`
unfoldable pub active_reservations : ℕ → SchedulerStore → List Reservation × SchedulerStore
active_reservations now store = (active_in (expire_all now store), expire_all now store)

-- A call of the store.
pub data StoreCall : Type 0 where
  call_reserve : Reservation → ℕ → StoreCall
  call_current : Text → ℕ → StoreCall
  call_transition : Text → Target → ℕ → Value → StoreCall
  call_active : ℕ → StoreCall

unfoldable pub after_call : StoreCall → SchedulerStore → SchedulerStore
after_call (call_reserve value now) store = (reserve value now store).1
after_call (call_current id now) store = (current id now store).1
after_call (call_transition id target now expected) store =
    (transition id target now expected store).1
after_call (call_active now) store = (active_reservations now store).1

unfoldable pub run_calls : List StoreCall → SchedulerStore → SchedulerStore
run_calls [] store = store
run_calls (c ∷ cs) store = run_calls cs (after_call c store)
