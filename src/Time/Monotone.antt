-- ===== src/Time/Monotone.antt =====
-- The order of the readings of the clock of packages/contracts/src/trusted-time-v1.js.
use pixel_hq_oss.Common.{
  ℕ, ◌≤◌, ◌≡◌, refl, true, Option, none, some, List, [], ◌∷◌, arith, All, subst, ap,
}
use pixel_hq_oss.Time.{TrustedClock, now, add_reading, readings, is_expired_at}

-- Every member is at least `low`, and none is below one before it.
abbrev pub IsAscendingFrom : ℕ → List ℕ → Type 0
IsAscendingFrom low [] = Unit
IsAscendingFrom low (t ∷ ts) = (low ≤ t) × IsAscendingFrom t ts

-- What the clock has seen so far.
abbrev pub floor : Option ℕ → ℕ
floor none = 0
floor (some t) = t

now-floor :
    (clock : TrustedClock) (raw : Option ℕ) {t : ℕ}
    → (now clock raw).0 ≡ some t
    → (floor clock.last ≤ t) × ((now clock raw).1.last ≡ some t)
unfolding now
now-floor clock raw h = ground arith

now_refused :
    (clock : TrustedClock) (raw : Option ℕ) → (now clock raw).0 ≡ none → (now clock raw).1 ≡ clock
unfolding now
now_refused clock raw h = ground arith

add_reading-IsAscendingFrom :
    (low low' : ℕ) (reading : Option ℕ) (ts : List ℕ)
    → (reading ≡ none → low' ≡ low)
    → ((t : ℕ) → reading ≡ some t → (low ≤ t) × (low' ≡ t))
    → IsAscendingFrom low' ts
    → IsAscendingFrom low (add_reading reading ts)
add_reading-IsAscendingFrom low low' none ts same up a =
    subst (λ l. IsAscendingFrom l ts) (same refl) a
add_reading-IsAscendingFrom low low' (some t) ts same up a =
    ((up t refl).0, subst (λ l. IsAscendingFrom l ts) (up t refl).1 a)

-- Whatever the time source returns, the readings of a trusted clock never decrease and never fall
-- below what the clock had seen before.
pub readings-IsAscendingFrom :
    (clock : TrustedClock) (raws : List (Option ℕ))
    → IsAscendingFrom (floor clock.last) (readings clock raws)
unfolding readings
readings-IsAscendingFrom clock [] = tt
readings-IsAscendingFrom clock (raw ∷ raws) =
    add_reading-IsAscendingFrom (floor clock.last) (floor (now clock raw).1.last) (now clock raw).0
      (readings (now clock raw).1 raws)
      (λ e. ap (λ (c : TrustedClock). floor c.last) (now_refused clock raw e))
      (λ t e. ((now-floor clock raw e).0, ap floor (now-floor clock raw e).1))
      (readings-IsAscendingFrom (now clock raw).1 raws)

All-expired :
    (expires_at low : ℕ) (ts : List ℕ)
    → expires_at ≤ low
    → IsAscendingFrom low ts
    → All (λ t. is_expired_at (some expires_at) t ≡ true) ts
unfolding is_expired_at
All-expired expires_at low [] h a = tt
All-expired expires_at low (t ∷ ts) h a =
    (ground arith, All-expired expires_at t ts (omega arith) a.1)

expired_le : (e t : ℕ) → is_expired_at (some e) t ≡ true → e ≤ t
unfolding is_expired_at
expired_le e t h = ground arith

-- Once a reading has found a lease expired, every later reading of the same clock finds it expired,
-- also when the time source jumps back.
pub expired_stays_expired :
    (clock : TrustedClock) (raw : Option ℕ) (raws : List (Option ℕ)) (expires_at : ℕ) {t : ℕ}
    → (now clock raw).0 ≡ some t
    → is_expired_at (some expires_at) t ≡ true
    → All (λ later. is_expired_at (some expires_at) later ≡ true) (readings (now clock raw).1 raws)
expired_stays_expired clock raw raws expires_at {t} e h =
    All-expired expires_at t _ (expired_le expires_at t h) (
      subst (λ l. IsAscendingFrom (floor l) (readings (now clock raw).1 raws))
        (now-floor clock raw e).1 (readings-IsAscendingFrom (now clock raw).1 raws))
