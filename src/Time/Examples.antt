-- ===== src/Time/Examples.antt =====
-- Concrete readings of the clock of packages/contracts/src/trusted-time-v1.js.
use pixel_hq_oss.Common.{◌≡◌, refl, ◌∷◌, [], true, some, none, List, All, Option, ℕ}
use pixel_hq_oss.Time.{create_trusted_clock, now, readings, is_expired_at}
use pixel_hq_oss.Time.Monotone.{IsAscendingFrom, readings-IsAscendingFrom, expired_stays_expired}

abbrev jumps : List (Option ℕ)
jumps = some 50 ∷ some 20 ∷ none ∷ some 70 ∷ some 60 ∷ []

jumps_clamped : readings create_trusted_clock jumps ≡ 50 ∷ 50 ∷ 70 ∷ 70 ∷ []
unfolding readings now
jumps_clamped = refl

readings-IsAscendingFrom_example : IsAscendingFrom 0 (readings create_trusted_clock jumps)
readings-IsAscendingFrom_example = readings-IsAscendingFrom create_trusted_clock jumps

expired_stays_expired_example :
    All
      (λ later. is_expired_at (some 100) later ≡ true)
      (readings (now create_trusted_clock (some 120)).1 jumps)
unfolding now is_expired_at
expired_stays_expired_example =
    expired_stays_expired create_trusted_clock (some 120) jumps 100 refl refl
