-- ===== src/Common/Values.antt =====
-- What a caller may pass where the source reads a field of an untrusted object.
use Prim.Native.Nat.{ℕ}
use mathlib.Core.Bool.{Bool, true, false}
use mathlib.Core.Option.{Option, none, some}
use native.Mathlib.Decide.{ℕ_discrete}
use pixel_hq_oss.Common.Tests.{◌==◌}
use pixel_hq_oss.Common.Texts.{Text, same_text}

-- `num` is a safe integer that is not negative; `other` is any other value (a Boolean, another
-- number, an object, a function), told apart by a tag.
pub data Value : Type 0 where
  undefined null : Value
  str : Text → Value
  num : ℕ → Value
  other : ℕ → Value

-- `value === text` and `value === number`.
abbrev pub is_text : Value → Text → Bool
is_text (str s) t = same_text s t
is_text _ t = false

abbrev pub is_num : Value → ℕ → Bool
is_num (num n) m = n == m
is_num _ m = false

-- `left === right`
unfoldable pub same_value : Value → Value → Bool
same_value undefined undefined = true
same_value null null = true
same_value (str s) (str t) = same_text s t
same_value (num n) (num m) = n == m
same_value (other n) (other m) = n == m
same_value _ _ = false

-- `typeof value === 'string'`, with the string.
abbrev pub as_text : Value → Option Text
as_text (str s) = some s
as_text _ = none

unfoldable pub Value-discrete : Discrete Value
Value-discrete = hlevel ℕ_discrete
