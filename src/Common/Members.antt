-- ===== src/Common/Members.antt =====
-- What Boolean tests of membership and of values say, with the library's family of members.
use mathlib.Core.Path.{◌≡◌, refl, sym, subst}
use mathlib.Core.Logic.{◌↔◌, ◌≢◌, inl, inr}
use mathlib.Core.Bool.{Bool, true, false}
use mathlib.Core.List.{List, [], ◌∷◌, Memᴰ}
use native.Mathlib.Omega.{arith}
use pixel_hq_oss.Common.Tests.{Bool-cases}
use pixel_hq_oss.Common.Lists.{any_of}
use pixel_hq_oss.Common.Texts.{Text, same_text, same_text_iff, same_text_refl, contains}
use pixel_hq_oss.Common.Values.{Value, str, is_text, same_value}

any_of-member :
    {A : Type 0} (p : A → Bool) (a : A) (xs : List A) → Memᴰ a xs → p a ≡ true → any_of p xs ≡ true
any_of-member p a [] m h = elim m [ ]
any_of-member p a (x ∷ xs) (Memᴰ.head e) h = ground (arith, subst (λ y. p y ≡ true) e h)
any_of-member p a (x ∷ xs) (Memᴰ.tail m) h = ground (arith, any_of-member p a xs m h)

any_of-found :
    {A : Type 0} (p : A → Bool) (xs : List A)
    → any_of p xs ≡ true
    → (a : A) × Memᴰ a xs × (p a ≡ true)
any_of-found p [] h = absurd (ground (arith, h))
any_of-found p (x ∷ xs) h = elim (Bool-cases (p x)) [
  | inl e ↦ (x, Memᴰ.head refl, e)
  | inr e ↦ let (a, m, found) = any_of-found p xs (rw e at h) in (a, Memᴰ.tail m, found)
]

pub any_of_iff :
    {A : Type 0} (p : A → Bool) (xs : List A)
    → (any_of p xs ≡ true) ↔ ((a : A) × Memᴰ a xs × (p a ≡ true))
any_of_iff p xs = (any_of-found p xs, λ (a, m, h). any_of-member p a xs m h)

contains-any_of : (t : Text) (ts : List Text) → contains t ts ≡ any_of (same_text t) ts
unfolding contains
contains-any_of t [] = refl
contains-any_of t (u ∷ us) = ground (arith, contains-any_of t us)

pub contains_iff : (t : Text) (ts : List Text) → (contains t ts ≡ true) ↔ Memᴰ t ts
contains_iff t ts = (forward, backward)
  where
    forward : contains t ts ≡ true → Memᴰ t ts
    forward h =
        let (u, m, e) = any_of-found (same_text t) ts (rw (contains-any_of t ts) at h) in
        subst (λ (v : Text). Memᴰ v ts) (sym ((same_text_iff t u).0 e)) m

    backward : Memᴰ t ts → contains t ts ≡ true
    backward m = rw (contains-any_of t ts) (any_of-member (same_text t) t ts m (same_text_refl t))

pub is_text_iff : (v : Value) (t : Text) → (is_text v t ≡ true) ↔ (v ≡ str t)
is_text_iff (str s) t =
    (λ e. ground (arith, e, same_text_iff s t), λ e. ground (arith, e, same_text_iff s t))
is_text_iff _ t = (λ e. ground (arith, e), λ e. ground (arith, e))

pub is_text_not : (v : Value) (t : Text) → (is_text v t ≡ false) ↔ (v ≢ str t)
is_text_not v t = (
  λ h e. ground (arith, h, (is_text_iff v t).1 e),
  λ differs. elim (Bool-cases (is_text v t)) [
    | inl e ↦ absurd (differs ((is_text_iff v t).0 e))
    | inr e ↦ e
  ],
)

same_value→eq : (a b : Value) → same_value a b ≡ true → a ≡ b
unfolding same_value
same_value→eq (str s) (str t) h = ground (arith, h, same_text_iff s t)
same_value→eq a b h = ground (arith, h)

-- `list.includes(value)`
pub includes-member : (v : Value) (vs : List Value) → any_of (same_value v) vs ≡ true → Memᴰ v vs
includes-member v vs h =
    let (u, m, e) = any_of-found (same_value v) vs h in
    subst (λ (w : Value). Memᴰ w vs) (sym (same_value→eq v u e)) m
