-- ===== src/Incident/Store/Keys.antt =====
-- `#operationKey` of adapters/simulator/src/incident-store-simulator-adapter.js.
use mathlib.Core.Path.{◌≡◌, refl}
use pixel_hq_oss.Common.{true, false, [], ◌∷◌, ◌++◌, arith, Text, text, all_of}
use pixel_hq_oss.Incident.Store.{
  is_operation_char, matches_operation_id, is_operation_id, operation_key,
}

is_operation_char-colon : is_operation_char b':' ≡ false
is_operation_char-colon = refl

append_cancel : (xs ys zs : Text) → xs ++ ys ≡ xs ++ zs → ys ≡ zs
append_cancel [] ys zs h = h
append_cancel (x ∷ xs) ys zs h = append_cancel xs ys zs (cc)

-- Two texts without a colon, each followed by a separator that starts with one.
split_at_colon :
    (op op' rest rest' : Text)
    → all_of is_operation_char op ≡ true
    → all_of is_operation_char op' ≡ true
    → op ++ (b':' ∷ rest) ≡ op' ++ (b':' ∷ rest')
    → (op ≡ op') × (rest ≡ rest')
split_at_colon [] [] rest rest' h h' e = ground arith
split_at_colon [] (c ∷ op') rest rest' h h' e = ground arith
split_at_colon (c ∷ op) [] rest rest' h h' e = ground arith
split_at_colon (c ∷ op) (d ∷ op') rest rest' h h' e =
    ground (arith, split_at_colon op op' rest rest')

operation_chars : (op : Text) → is_operation_id op ≡ true → all_of is_operation_char op ≡ true
unfolding is_operation_id matches_operation_id
operation_chars [] h = refl
operation_chars (c ∷ cs) h = ground arith

-- Two admitted operation identifiers and any two incident identifiers whose composed keys are equal
-- are the same pair: no operation can shadow another one's key.
pub operation_key_injective :
    (op op' id id' : Text)
    → is_operation_id op ≡ true
    → is_operation_id op' ≡ true
    → operation_key op id ≡ operation_key op' id'
    → (op ≡ op') × (id ≡ id')
unfolding operation_key
operation_key_injective op op' id id' h h' e =
    let (same, rest) =
      split_at_colon op op' (text ":incident::" ++ id) (text ":incident::" ++ id')
        (operation_chars op h) (operation_chars op' h') e in
    (same, append_cancel (text ":incident::") id id' rest)
