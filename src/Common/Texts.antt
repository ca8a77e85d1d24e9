-- ===== src/Common/Texts.antt =====
-- Text as its list of code points, compared and measured the way the source does.
use Prim.Native.Nat.{ℕ, ◌+◌}
use Prim.Native.Char.{code}
use Prim.Native.String.{String}
use mathlib.Core.Path.{◌≡◌, refl}
use mathlib.Core.Logic.{◌↔◌}
use mathlib.Core.Bool.{Bool, true, false, ◌&&◌, ◌||◌}
use mathlib.Core.List.{List, [], ◌∷◌, ◌++◌}
use native.Mathlib.Omega.{arith}
use pixel_hq_oss.Common.Tests.{leb, ◌==◌, if◌then◌else◌}

abbrev pub Text : Type 0
Text = List ℕ

-- The code points of a literal.
abbrev pub text : String → Text
text String.[] = []
text (String.◌∷◌ c s) = code c ∷ text s

-- `left === right` on strings.
unfoldable pub same_text : Text → Text → Bool
same_text [] [] = true
same_text [] (b ∷ bs) = false
same_text (a ∷ as') [] = false
same_text (a ∷ as') (b ∷ bs) = a == b && same_text as' bs

pub same_text_iff : (a b : Text) → (same_text a b ≡ true) ↔ (a ≡ b)
unfolding same_text
same_text_iff [] [] = (λ _. refl, λ _. refl)
same_text_iff [] (b ∷ bs) = (λ h. ground arith, λ h. ground arith)
same_text_iff (a ∷ as') [] = (λ h. ground arith, λ h. ground arith)
same_text_iff (a ∷ as') (b ∷ bs) =
    (λ h. ground (arith, same_text_iff as' bs), λ h. ground (arith, same_text_iff as' bs))

pub same_text_refl : (a : Text) → same_text a a ≡ true
same_text_refl a = (same_text_iff a a).1 refl

pub same_text_comm : (a b : Text) → same_text a b ≡ same_text b a
unfolding same_text
same_text_comm [] [] = refl
same_text_comm [] (b ∷ bs) = refl
same_text_comm (a ∷ as') [] = refl
same_text_comm (a ∷ as') (b ∷ bs) = ground (arith, same_text_comm as' bs)

-- `value.startsWith(prefix)`.
unfoldable pub starts_with : Text → Text → Bool
starts_with value [] = true
starts_with [] (p ∷ ps) = false
starts_with (c ∷ cs) (p ∷ ps) = c == p && starts_with cs ps

-- `value.length`: UTF-16 code units.
unfoldable pub utf16_length : Text → ℕ
utf16_length [] = 0
utf16_length (c ∷ cs) = (if leb 65536 c then 2 else 1) + utf16_length cs

unfoldable pub contains : Text → List Text → Bool
contains t [] = false
contains t (u ∷ us) = same_text t u || contains t us

-- `set.add(text)` on a `Set` of strings, in insertion order.
unfoldable pub add_to_set : List Text → Text → List Text
add_to_set set t = if contains t set then set else set ++ (t ∷ [])

unfoldable pub union_of : List Text → List Text → List Text
union_of set [] = set
union_of set (t ∷ ts) = union_of (add_to_set set t) ts
