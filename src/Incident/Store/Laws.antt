-- ===== src/Incident/Store/Laws.antt =====
-- `put` and its answers, in
-- adapters/simulator/src/incident-store-simulator-adapter.js.
use mathlib.Core.Logic.{if_pos}
use pixel_hq_oss.Common.{
  ℕ, ◌+◌, ◌≡◌, refl, sym, ap, ◌∙◌, ◌≢◌, inl, inr, Bool, true, false, Option, none, some, [], ◌∷◌,
  arith, Text, Value, undefined, str, Bool-cases,
}
use pixel_hq_oss.Common.Dict.{lookup, insert, lookup-insert_self}
use pixel_hq_oss.Incident.Names.{Incident}
use pixel_hq_oss.Incident.Contract.{validate_incident}
use pixel_hq_oss.Incident.Port.{
  PutReply, created, updated, op_replay, stale, conflict, ambiguous, rejected,
}
use pixel_hq_oss.Incident.Store.{
  IncidentStore, Incident-discrete, same_incident, is_operation_id, operation_key, revision_admits,
  revision_refusal, written, put_checked, put_operation, put_identified, put, get,
}

same_incident→eq : (a b : Incident) → same_incident a b ≡ true → a ≡ b
unfolding same_incident
same_incident→eq a b h = ground arith

same_incident_refl : (a : Incident) → same_incident a a ≡ true
unfolding same_incident
same_incident_refl a = rw (if_pos (Incident-discrete a a) refl)

abbrev pub revision_of : Option Incident → ℕ
revision_of none = 0
revision_of (some i) = i.revision

-- The store that a write of `value` leaves.
abbrev pub after_write : Text → Text → Incident → IncidentStore → IncidentStore
after_write op id value s = record s {
  incidents = insert id value s.incidents;
  operations = insert (operation_key op id) value s.operations;
}

-- One write: a valid record goes in under its identifier, `first ∷ rest`, with the next revision.
pub record IsWrite (value : Incident) (operation : Value) (s t : IncidentStore) : Type 0 where
  pub op : Text
  pub first : ℕ
  pub rest : Text
  pub requested : operation ≡ str op
  pub named : value.incident_id ≡ str (first ∷ rest)
  pub valid : validate_incident value ≡ true
  pub allowed : is_operation_id op ≡ true
  pub next : value.revision ≡ revision_of (lookup (first ∷ rest) s.incidents) + 1
  pub leaves : t ≡ after_write op (first ∷ rest) value s

-- What a call of `put` that began at `s` has done, by its answer.
abbrev pub PutEffect : Incident → Value → IncidentStore → PutReply → IncidentStore → Type 0
PutEffect value operation s (created v) t = (v ≡ value) × IsWrite value operation s t
PutEffect value operation s (updated v) t = (v ≡ value) × IsWrite value operation s t
PutEffect value operation s (op_replay v) t = (v ≡ value) × (t ≡ s)
PutEffect value operation s ambiguous t = ⊥
PutEffect value operation s _ t = t ≡ s

refusal-PutEffect :
    (value : Incident) (operation : Value) (s : IncidentStore) (e : Value) (c : Option Incident)
    → PutEffect value operation s (revision_refusal e c) s
unfolding revision_refusal
refusal-PutEffect value operation s undefined c = refl
refusal-PutEffect value operation s _ c = refl

admits_next :
    (e : Value) (c : Option Incident) (r : ℕ) → revision_admits e c r ≡ true → r ≡ revision_of c + 1
unfolding revision_admits
admits_next e c r h = ground arith

written-PutEffect :
    (c : Option Incident) (value : Incident) (operation : Value) (s t : IncidentStore)
    → IsWrite value operation s t
    → PutEffect value operation s (written c value) t
written-PutEffect none value operation s t w = (refl, w)
written-PutEffect (some c) value operation s t w = (refl, w)

put_checked-PutEffect :
    (previous : Option Incident) (op : Text) (first : ℕ) (rest : Text) (value : Incident)
    (expected operation : Value) (s : IncidentStore)
    → operation ≡ str op
    → value.incident_id ≡ str (first ∷ rest)
    → validate_incident value ≡ true
    → is_operation_id op ≡ true
    → let (reply, t) = put_checked previous op (first ∷ rest) value expected s in
      PutEffect value operation s reply t
unfolding put_checked
put_checked-PutEffect (some previous) op first rest value expected operation s asked named valid
      allowed =
    elim (Bool-cases (same_incident previous value)) [
      | inl e ↦ rw e (same_incident→eq previous value e, refl)
      | inr e ↦ rw e refl
    ]
put_checked-PutEffect none op first rest value expected operation s asked named valid allowed =
    let current : Option Incident = lookup (first ∷ rest) s.incidents in
    elim (Bool-cases (revision_admits expected current value.revision)) [
      | inl e ↦ rw e (
          written-PutEffect current value operation s (after_write op (first ∷ rest) value s)
            (record {
              op = op;
              first = first;
              rest = rest;
              requested = asked;
              named = named;
              valid = valid;
              allowed = allowed;
              next = admits_next expected current value.revision e;
              leaves = refl;
            }))
      | inr e ↦ rw e (refusal-PutEffect value operation s expected current)
    ]

put_operation-PutEffect :
    (operation : Value) (first : ℕ) (rest : Text) (value : Incident) (expected : Value)
    (s : IncidentStore)
    → value.incident_id ≡ str (first ∷ rest)
    → validate_incident value ≡ true
    → let (reply, t) = put_operation operation (first ∷ rest) value expected s in
      PutEffect value operation s reply t
put_operation-PutEffect (str op) first rest value expected s named valid =
    elim (Bool-cases (is_operation_id op)) [
      | inl e ↦ rw e (
          put_checked-PutEffect (lookup (operation_key op (first ∷ rest)) s.operations) op first
            rest value expected (str op) s refl named valid e)
      | inr e ↦ rw e refl
    ]
put_operation-PutEffect _ first rest value expected s named valid = refl

put_identified-PutEffect :
    (named : Value) (value : Incident) (expected operation : Value) (s : IncidentStore)
    → value.incident_id ≡ named
    → let (reply, t) = put_identified named value expected operation s in
      PutEffect value operation s reply t
put_identified-PutEffect (str []) value expected operation s h = refl
put_identified-PutEffect (str (c ∷ cs)) value expected operation s h =
    elim (Bool-cases (validate_incident value)) [
      | inl e ↦ rw e (put_operation-PutEffect operation c cs value expected s h e)
      | inr e ↦ rw e refl
    ]
put_identified-PutEffect _ value expected operation s h = refl

-- Every answer of `put` says what it did: CREATED and UPDATED return the record given, which was
-- valid, carried the revision after the stored one (1 if there was none) and is now stored under its
-- identifier and its operation key; OP_REPLAY returns the record given and changes nothing; on any
-- other answer the store is unchanged. AMBIGUOUS is never answered.
pub put-PutEffect :
    (value : Incident) (expected operation : Value) (s : IncidentStore)
    → let (reply, t) = put value expected operation s in PutEffect value operation s reply t
unfolding put
put-PutEffect value expected operation s =
    put_identified-PutEffect value.incident_id value expected operation s refl

-- `put` changed the store exactly on these answers.
abbrev pub is_written : PutReply → Bool
is_written (created _) = true
is_written (updated _) = true
is_written _ = false

pub written-IsWrite :
    {value : Incident} {operation : Value} {s t : IncidentStore} (reply : PutReply)
    → PutEffect value operation s reply t
    → is_written reply ≡ true
    → IsWrite value operation s t
written-IsWrite (created v) e h = e.1
written-IsWrite (updated v) e h = e.1
written-IsWrite (op_replay v) e h = cc
written-IsWrite (stale c) e h = cc
written-IsWrite conflict e h = cc
written-IsWrite ambiguous e h = absurd e
written-IsWrite (rejected r c) e h = cc

-- The same call on a store that holds the operation already.
replay_identified :
    (value : Incident) (expected operation named : Value) (op : Text) (first : ℕ) (rest : Text)
    (t : IncidentStore)
    → named ≡ str (first ∷ rest)
    → operation ≡ str op
    → validate_incident value ≡ true
    → is_operation_id op ≡ true
    → lookup (operation_key op (first ∷ rest)) t.operations ≡ some value
    → put_identified named value expected operation t ≡ (op_replay value, t)
unfolding put_checked
replay_identified value expected operation named op first rest t n r v a found =
    rw (n, r, v, a, found, same_incident_refl value) refl

pub replay_after :
    {value : Incident} (expected operation : Value) {s t : IncidentStore}
    → IsWrite value operation s t
    → put value expected operation t ≡ (op_replay value, t)
unfolding put
replay_after {value} expected operation {s} {t} w =
    replay_identified value expected operation value.incident_id w.op w.first w.rest t w.named
      w.requested w.valid w.allowed
      (ap (λ (u : IncidentStore). lookup (operation_key w.op (w.first ∷ w.rest)) u.operations)
          w.leaves
        ∙ lookup-insert_self (operation_key w.op (w.first ∷ w.rest)) value s.operations)

-- The call that wrote a record, repeated with any expected revision, answers OP_REPLAY with that
-- record and changes nothing.
pub put-replays :
    (value : Incident) (expected expected' operation : Value) (s : IncidentStore)
    → is_written (put value expected operation s).0 ≡ true
    → let t = (put value expected operation s).1 in
      put value expected' operation t ≡ (op_replay value, t)
put-replays value expected expected' operation s h =
    replay_after expected' operation
      (written-IsWrite _ (put-PutEffect value expected operation s) h)

-- Another record of the same incident under the operation of a write.
conflict_identified :
    (value r : Incident) (expected operation named : Value) (op : Text) (first : ℕ) (rest : Text)
    (t : IncidentStore)
    → named ≡ str (first ∷ rest)
    → operation ≡ str op
    → validate_incident r ≡ true
    → is_operation_id op ≡ true
    → r ≢ value
    → lookup (operation_key op (first ∷ rest)) t.operations ≡ some value
    → put_identified named r expected operation t ≡ (conflict, t)
unfolding put_checked
conflict_identified value r expected operation named op first rest t n o v a differs found =
    elim (Bool-cases (same_incident value r)) [
      | inl e ↦ absurd (differs (sym (same_incident→eq value r e)))
      | inr e ↦ rw (n, o, v, a, found, e) refl
    ]

pub conflict_after :
    {value : Incident} (r : Incident) (expected operation : Value) {s t : IncidentStore}
    → IsWrite value operation s t
    → r.incident_id ≡ value.incident_id
    → validate_incident r ≡ true
    → r ≢ value
    → put r expected operation t ≡ (conflict, t)
unfolding put
conflict_after {value} r expected operation {s} {t} w same v differs =
    conflict_identified value r expected operation r.incident_id w.op w.first w.rest t
      (same ∙ w.named) w.requested v w.allowed differs
      (ap (λ (u : IncidentStore). lookup (operation_key w.op (w.first ∷ w.rest)) u.operations)
          w.leaves
        ∙ lookup-insert_self (operation_key w.op (w.first ∷ w.rest)) value s.operations)

pub get_after :
    {value : Incident} (v operation : Value) {s t : IncidentStore}
    → IsWrite value operation s t
    → v ≡ value.incident_id
    → get t v ≡ some value
unfolding get
get_after {value} v operation {s} {t} w e =
    ap (λ (u : Value). get t u) (e ∙ w.named)
    ∙ ap (λ (u : IncidentStore). lookup (w.first ∷ w.rest) u.incidents) w.leaves
    ∙ lookup-insert_self (w.first ∷ w.rest) value s.incidents
