-- ===== src/Relay/Service/Authority.antt =====
-- Submissions to services/relay/src/relay-service.js that claim authority.
use pixel_hq_oss.Common.{◌≡◌, refl, true, false, none, List, [], ◌∷◌, arith, Text, contains}
use pixel_hq_oss.Relay.Action.{returned, World, ◌>>=◌, next, append, pure}
use pixel_hq_oss.Relay.Intent.{
  Plain, leaf, array, object, Items, no_items, item, Fields, no_fields, field, is_authority_key,
  add_category, authority_categories, authority_items, authority_fields, is_empty_list,
}
use pixel_hq_oss.Relay.Service.Ports.{ServicePorts, authority_claimed, refused}
use pixel_hq_oss.Relay.Service.Accept.{report, reject, accept_received, accept}

-- The value has an object with the key, at any depth.
mutual
  pub data HasKey (k : Text) : Plain → Type 0 where
    in_array : {xs : Items} → ItemHasKey k xs → HasKey k (array xs)
    in_object : {fs : Fields} → FieldHasKey k fs → HasKey k (object fs)

  pub data ItemHasKey (k : Text) : Items → Type 0 where
    here_item : {x : Plain} {xs : Items} → HasKey k x → ItemHasKey k (item x xs)
    later_item : {x : Plain} {xs : Items} → ItemHasKey k xs → ItemHasKey k (item x xs)

  pub data FieldHasKey (k : Text) : Fields → Type 0 where
    here_key : {x : Plain} {fs : Fields} → FieldHasKey k (field k x fs)
    here_field : {j : Text} {x : Plain} {fs : Fields} → HasKey k x → FieldHasKey k (field j x fs)
    later_field :
        {j : Text} {x : Plain} {fs : Fields} → FieldHasKey k fs → FieldHasKey k (field j x fs)

add_category-kept :
    (k : Text) (cs : List Text)
    → is_empty_list cs ≡ false
    → is_empty_list (add_category k cs) ≡ false
add_category-kept k cs e = ground (arith, e)

-- A category that was found stays.
mutual
  unfolding authority_categories

  categories-kept :
      (v : Plain) (cs : List Text)
      → is_empty_list cs ≡ false
      → is_empty_list (authority_categories v cs) ≡ false
  categories-kept (leaf v) cs e = e
  categories-kept (array xs) cs e = items-kept xs cs e
  categories-kept (object fs) cs e = fields-kept fs cs e

  items-kept :
      (xs : Items) (cs : List Text)
      → is_empty_list cs ≡ false
      → is_empty_list (authority_items xs cs) ≡ false
  items-kept no_items cs e = e
  items-kept (item x xs) cs e = items-kept xs (authority_categories x cs) (categories-kept x cs e)

  fields-kept :
      (fs : Fields) (cs : List Text)
      → is_empty_list cs ≡ false
      → is_empty_list (authority_fields fs cs) ≡ false
  fields-kept no_fields cs e = e
  fields-kept (field k x fs) cs e =
      fields-kept fs (authority_categories x (add_category k cs))
        (categories-kept x (add_category k cs) (add_category-kept k cs e))

add_category-found :
    (k : Text) (cs : List Text)
    → is_authority_key k ≡ true
    → is_empty_list (add_category k cs) ≡ false
unfolding contains
add_category-found k [] e = ground (arith, e)
add_category-found k (c ∷ cs) e = ground arith

mutual
  unfolding authority_categories

  categories-found :
      {k : Text} {v : Plain} (cs : List Text)
      → is_authority_key k ≡ true
      → HasKey k v
      → is_empty_list (authority_categories v cs) ≡ false
  categories-found cs e (in_array h) = items-found cs e h
  categories-found cs e (in_object h) = fields-found cs e h

  items-found :
      {k : Text} {xs : Items} (cs : List Text)
      → is_authority_key k ≡ true
      → ItemHasKey k xs
      → is_empty_list (authority_items xs cs) ≡ false
  items-found cs e (here_item {xs = xs} h) = items-kept xs _ (categories-found cs e h)
  items-found cs e (later_item h) = items-found _ e h

  fields-found :
      {k : Text} {fs : Fields} (cs : List Text)
      → is_authority_key k ≡ true
      → FieldHasKey k fs
      → is_empty_list (authority_fields fs cs) ≡ false
  fields-found {k} cs e (here_key {x = x} {fs = fs}) =
      fields-kept fs _ (categories-kept x _ (add_category-found k cs e))
  fields-found cs e (here_field {fs = fs} h) = fields-kept fs _ (categories-found _ e h)
  fields-found cs e (later_field h) = fields-found _ e h

-- A submission in which an object at any depth has a key that, without its punctuation and in lower
-- case, names an authority, is rejected for that, whatever else it holds: the store is as it was, and
-- no dependency is called.
pub accept_authority :
    (p : ServicePorts) (intent : Plain) (k : Text) (w : World)
    → is_authority_key k ≡ true
    → HasKey k intent
    → ((accept p intent w).0
        ≡ returned (record { disposition = refused authority_claimed; job = none }))
      × ((accept p intent w).1.store ≡ w.store)
      × ((accept p intent w).1.calls ≡ w.calls)
unfolding accept accept_received reject report ◌>>=◌ next append pure
accept_authority p intent k w e h =
    let found = categories-found [] e h in (rw found refl, rw found refl, rw found refl)
