-- ===== src/Time.antt =====
-- packages/contracts/src/trusted-time-v1.js: the trusted clock and lease expiry.
-- A canonical UTC timestamp string is its instant, in milliseconds since 0000-01-01T00:00:00.000Z;
-- what is no such string is `none`.
pub mod Monotone
mod Examples
use pixel_hq_oss.Common.{
  ℕ, ◌+◌, Bool, false, true, ◌&&◌, not, Option, none, some, List, [], ◌∷◌, leb, ltb, if◌then◌else◌,
}

-- The greatest safe integer, and the last instant that a `Date` can hold.
abbrev pub max_safe_integer : ℕ
max_safe_integer = 9007199254740991

abbrev pub max_instant : ℕ
max_instant = 8702167219200000

-- `addMilliseconds`: `none` where it throws.
unfoldable pub add_milliseconds : ℕ → ℕ → Option ℕ
add_milliseconds timestamp milliseconds =
    if leb 1 milliseconds && leb milliseconds max_safe_integer
    then (if leb (timestamp + milliseconds) max_instant
        then some (timestamp + milliseconds)
        else none)
    else none

-- `isExpiredAt`
unfoldable pub is_expired_at : Option ℕ → ℕ → Bool
is_expired_at none now = false
is_expired_at (some expires_at) now = leb expires_at now

-- The variables that `createTrustedClock` closes over.
pub record TrustedClock : Type 0 where
  pub last : Option ℕ
  pub rollback_count : ℕ

abbrev pub create_trusted_clock : TrustedClock
create_trusted_clock = record { last = none; rollback_count = 0 }

-- The branch of `now` on `last !== null && Date.parse(raw) < Date.parse(last)`.
pub observe : Option ℕ → ℕ → ℕ → ℕ × TrustedClock
observe none count raw = (raw, record { last = some raw; rollback_count = count })
observe (some last) count raw =
    if ltb raw last
    then (last, record { last = some last; rollback_count = count + 1 })
    else (raw, record { last = some raw; rollback_count = count })

-- `now`, given what the source returns. `none` is the thrown TypeError, which leaves the clock alone.
unfoldable pub now : TrustedClock → Option ℕ → Option ℕ × TrustedClock
unfolding observe
now clock none = (none, clock)
now clock (some raw) =
    let (t, clock') = observe clock.last clock.rollback_count raw in (some t, clock')

abbrev pub add_reading : Option ℕ → List ℕ → List ℕ
add_reading none ts = ts
add_reading (some t) ts = t ∷ ts

-- The readings that a sequence of calls of `now` returns, without the calls that throw.
pub readings : TrustedClock → List (Option ℕ) → List ℕ
readings clock [] = []
readings clock (raw ∷ raws) = add_reading (now clock raw).0 (readings (now clock raw).1 raws)
