-- ===== src/Relay/Intent.antt =====
-- services/relay/src/relay-service.js: `authorityCategories`, and the submissions that
-- packages/contracts/src/job-v1.js lets through.
use pixel_hq_oss.Common.{
  ℕ, ◌+◌, Bool, true, false, not, ◌&&◌, Option, none, some, List, [], ◌∷◌, Text, text, same_text,
  contains, Value, str, leb, if◌then◌else◌,
}
use pixel_hq_oss.Incident.Contract.{is_alphanumeric}
use pixel_hq_oss.Relay.Request.{SubmitIntent, validate_intent}

-- What a client may submit: an array, an object with its fields in order, or any other value.
mutual
  pub data Plain : Type 0 where
    leaf : Value → Plain
    array : Items → Plain
    object : Fields → Plain

  pub data Items : Type 0 where
    no_items : Items
    item : Plain → Items → Items

  pub data Fields : Type 0 where
    no_fields : Fields
    field : Text → Plain → Fields → Fields

-- AUTHORITY_KEYS
abbrev pub authority_keys : List Text
authority_keys =
    text "department"
    ∷ text "departmentref"
    ∷ text "role"
    ∷ text "environment"
    ∷ text "state"
    ∷ text "lifecycle"
    ∷ text "worker"
    ∷ text "workerid"
    ∷ text "executor"
    ∷ text "executionid"
    ∷ text "grant"
    ∷ text "grants"
    ∷ text "permission"
    ∷ text "permissions"
    ∷ text "decision"
    ∷ text "policy"
    ∷ text "policyid"
    ∷ text "provenance"
    ∷ text "jobid"
    ∷ text "requester"
    ∷ text "subjectid"
    ∷ text "owner"
    ∷ text "traceid"
    ∷ text "spanid"
    ∷ []

abbrev pub lower : ℕ → ℕ
lower c = if leb b'A' c && leb c b'Z' then c + 32 else c

-- `normalizedKey`
unfoldable pub normalized_key : Text → Text
normalized_key [] = []
normalized_key (c ∷ cs) =
    let rest = normalized_key cs in if is_alphanumeric c then lower c ∷ rest else rest

abbrev pub is_authority_key : Text → Bool
is_authority_key k = contains (normalized_key k) authority_keys

abbrev pub add_category : Text → List Text → List Text
add_category k categories =
    if is_authority_key k && not (contains (normalized_key k) categories)
    then normalized_key k ∷ categories
    else categories

-- `authorityCategories`: the set, without its order.
unfoldable mutual
  pub authority_categories : Plain → List Text → List Text
  authority_categories (leaf v) categories = categories
  authority_categories (array xs) categories = authority_items xs categories
  authority_categories (object fs) categories = authority_fields fs categories

  pub authority_items : Items → List Text → List Text
  authority_items no_items categories = categories
  authority_items (item x xs) categories = authority_items xs (authority_categories x categories)

  pub authority_fields : Fields → List Text → List Text
  authority_fields no_fields categories = categories
  authority_fields (field k x fs) categories =
      authority_fields fs (authority_categories x (add_category k categories))

abbrev pub is_empty_list : List Text → Bool
is_empty_list [] = true
is_empty_list (t ∷ ts) = false

-- INTENT_FIELDS
abbrev pub intent_fields : List Text
intent_fields =
    text "event_name"
    ∷ text "schema_version"
    ∷ text "idempotency_key"
    ∷ text "job_type"
    ∷ text "requested_capability"
    ∷ []

-- `exactFields`
unfoldable pub are_exact : List Text → Fields → Bool
are_exact names no_fields = true
are_exact names (field k x fs) = contains k names && are_exact names fs

-- `value[name]`, where it is a string.
unfoldable pub text_field : Text → Fields → Option Text
text_field name no_fields = none
text_field name (field k (leaf (str t)) fs) =
    if same_text k name then some t else text_field name fs
text_field name (field k x fs) = if same_text k name then none else text_field name fs

abbrev pub is_field : Option Text → Text → Bool
is_field none t = false
is_field (some u) t = same_text u t

abbrev pub read_intent : Option Text → Option Text → Option Text → Option SubmitIntent
read_intent (some key) (some job_type) (some capability) =
    let i : SubmitIntent = record {
      idempotency_key = key;
      job_type = job_type;
      requested_capability = capability;
    } in
    if validate_intent i then some i else none
read_intent _ _ _ = none

-- `validateJobSubmitIntentV1`: the submission, when it is valid.
unfoldable pub intent_of : Plain → Option SubmitIntent
unfolding are_exact text_field
intent_of (object fs) =
    if are_exact intent_fields fs
      && is_field (text_field (text "event_name") fs) (text "pixel.job.submit-intent.v1")
      && is_field (text_field (text "schema_version") fs) (text "1.0.0")
    then read_intent (text_field (text "idempotency_key") fs) (text_field (text "job_type") fs)
        (text_field (text "requested_capability") fs)
    else none
intent_of _ = none
