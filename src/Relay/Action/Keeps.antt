-- ===== src/Relay/Action/Keeps.antt =====
-- What an action keeps of the world it acts on, from what its parts keep.
use pixel_hq_oss.Common.{Bool, true, false, if◌then◌else◌}
use pixel_hq_oss.Relay.Action.{
  Ended, returned, threw, Action, World, pure, throw, attempt, continue, ◌>>=◌, assert,
}

-- Whatever way `m` ends, `P` holds after it if it held before.
pub record Keeps {ℓ κ} {A : Type ℓ} (P : World → Type κ) (m : Action A) : Type κ where
  pub at : (w : World) → P w → P (m w).1

module _ {ℓ κ} {A : Type ℓ} {P : World → Type κ} where
  pub Keeps-pure : (a : A) → Keeps P (pure a)
  unfolding pure
  Keeps-pure a = record { at = λ w h. h }

  pub Keeps-throw : Keeps P (throw {A = A})
  unfolding throw
  Keeps-throw = record { at = λ w h. h }

  pub Keeps-attempt : (m : Action A) → Keeps P m → Keeps P (attempt m)
  unfolding attempt
  Keeps-attempt m k = record { at = λ w h. k.at w h }

  pub Keeps-if :
      (test : Bool) (first second : Action A)
      → Keeps P first
      → Keeps P second
      → Keeps P (if test then first else second)
  Keeps-if true first second one two = one
  Keeps-if false first second one two = two

module _ {ℓ ℓ' κ} {A : Type ℓ} {B : Type ℓ'} {P : World → Type κ} where
  Keeps-continue :
      (ended : Ended A) (rest : A → Action B)
      → ((a : A) → Keeps P (rest a))
      → Keeps P (continue ended rest)
  Keeps-continue (returned a) rest all = all a
  Keeps-continue threw rest all = record { at = λ w h. h }

  pub Keeps-bind :
      (first : Action A) (rest : A → Action B)
      → Keeps P first
      → ((a : A) → Keeps P (rest a))
      → Keeps P (first >>= rest)
  unfolding ◌>>=◌
  Keeps-bind first rest one all = record {
    at = λ w h. let (ended, v) = first w in (Keeps-continue ended rest all).at v (one.at w h);
  }

module _ {κ} {P : World → Type κ} where
  pub Keeps-assert : (b : Bool) → Keeps P (assert b)
  unfolding assert pure throw
  Keeps-assert true = record { at = λ w h. h }
  Keeps-assert false = record { at = λ w h. h }

pub ruleset keeps_rules =
    (Keeps-pure, Keeps-throw, Keeps-attempt, Keeps-if, Keeps-bind, Keeps-assert)
