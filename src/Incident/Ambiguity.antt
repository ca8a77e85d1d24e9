-- ===== src/Incident/Ambiguity.antt =====
-- `#commit` of services/incident/src/incident-service.js over a store whose answers may get lost.
-- The store is the simulator's behind an unreliable channel: an environment, not code of the source.
use pixel_hq_oss.Common.{
  ◌≡◌, refl, sym, ap, subst, ◌≢◌, same_text_refl, ◌⊎◌, inl, inr, true, false, Option, none, some,
  List, [], ◌∷◌, arith, Value, same_value, Bool-cases, if◌then◌else◌,
}
use pixel_hq_oss.Incident.Names.{Incident}
use pixel_hq_oss.Incident.Contract.{validate_incident}
use pixel_hq_oss.Incident.Port.{
  PutReply, created, updated, op_replay, stale, conflict, ambiguous, rejected, op_conflict,
  IncidentStorePort,
}
use pixel_hq_oss.Incident.Store.{IncidentStore, get, put, read_operation}
use pixel_hq_oss.Incident.Store.Laws.{
  IsWrite, PutEffect, put-PutEffect, is_written, written-IsWrite, replay_after, conflict_after,
  get_after,
}
use pixel_hq_oss.Incident.Service.{
  Response, recorded, refused, settle, retry, reconcile, settle_first, commit, revision_unchanged,
}

-- What the channel does to one call of `put`.
pub data Fault : Type 0 where
  deliver lose_request lose_answer : Fault

pub record FaultyStore : Type 0 where
  pub store : IncidentStore
  pub faults : List Fault

abbrev pub through : List Fault → Incident → Value → Value → IncidentStore → PutReply × FaultyStore
through [] r expected operation s =
    let (reply, t) = put r expected operation s in (reply, record { store = t; faults = [] })
through (deliver ∷ rest) r expected operation s =
    let (reply, t) = put r expected operation s in (reply, record { store = t; faults = rest })
through (lose_request ∷ rest) r expected operation s =
    (ambiguous, record { store = s; faults = rest })
through (lose_answer ∷ rest) r expected operation s =
    (ambiguous, record { store = (put r expected operation s).1; faults = rest })

abbrev pub faulty_put : Incident → Value → Value → FaultyStore → PutReply × FaultyStore
faulty_put r expected operation s = through s.faults r expected operation s.store

abbrev pub faulty_port : IncidentStorePort FaultyStore
faulty_port = record {
  put = faulty_put;
  get = λ s. get s.store;
  read_operation = λ s. read_operation s.store;
}

-- Nothing happened, or one write of the record.
abbrev pub AtMostOnce : Incident → Value → IncidentStore → IncidentStore → Type 0
AtMostOnce r operation s t = (t ≡ s) ⊎ IsWrite r operation s t

put-AtMostOnce :
    (r : Incident) (expected operation : Value) (s : IncidentStore)
    → AtMostOnce r operation s (put r expected operation s).1
put-AtMostOnce r expected operation s =
    elim (Bool-cases (is_written (put r expected operation s).0)) [
      | inl e ↦
          inr (
            written-IsWrite (put r expected operation s).0 (put-PutEffect r expected operation s) e)
      | inr e ↦
          inl
            (unwritten_same (put r expected operation s).0 (put-PutEffect r expected operation s) e)
    ]
  where
    unwritten_same :
        {t : IncidentStore} (reply : PutReply)
        → PutEffect r operation s reply t
        → is_written reply ≡ false
        → t ≡ s
    unwritten_same (created v) e h = cc
    unwritten_same (updated v) e h = cc
    unwritten_same (op_replay v) e h = e.1
    unwritten_same (stale c) e h = e
    unwritten_same conflict e h = e
    unwritten_same ambiguous e h = absurd e
    unwritten_same (rejected a c) e h = e

-- A second call after the first: a write that got through is only replayed.
put_again-AtMostOnce :
    (r : Incident) (expected operation : Value) (s t : IncidentStore)
    → AtMostOnce r operation s t
    → AtMostOnce r operation s (put r expected operation t).1
put_again-AtMostOnce r expected operation s t (inl e) =
    subst (λ u. AtMostOnce r operation s (put r expected operation u).1) (sym e)
      (put-AtMostOnce r expected operation s)
put_again-AtMostOnce r expected operation s t (inr w) = inr (
    subst (λ u. IsWrite r operation s u)
      (sym (ap (λ (p : PutReply × IncidentStore). p.1) (replay_after expected operation w))) w)

through-AtMostOnce :
    (faults : List Fault) (r : Incident) (expected operation : Value) (s t : IncidentStore)
    → AtMostOnce r operation s t
    → AtMostOnce r operation s (through faults r expected operation t).1.store
through-AtMostOnce [] r expected operation s t h = put_again-AtMostOnce r expected operation s t h
through-AtMostOnce (deliver ∷ rest) r expected operation s t h =
    put_again-AtMostOnce r expected operation s t h
through-AtMostOnce (lose_request ∷ rest) r expected operation s t h = h
through-AtMostOnce (lose_answer ∷ rest) r expected operation s t h =
    put_again-AtMostOnce r expected operation s t h

retry-AtMostOnce :
    (r : Incident) (expected operation : Value) (s : IncidentStore) (u : FaultyStore)
    → AtMostOnce r operation s u.store
    → AtMostOnce r operation s (retry faulty_port r expected operation u).1.store
unfolding retry
retry-AtMostOnce r expected operation s u h =
    elim (Bool-cases (revision_unchanged expected (get u.store r.incident_id))) [
      | inl e ↦ rw e (through-AtMostOnce u.faults r expected operation s u.store h)
      | inr e ↦ rw e h
    ]

read_back-AtMostOnce :
    (found : Option Incident) (r : Incident) (expected operation : Value) (s : IncidentStore)
    (u : FaultyStore)
    → AtMostOnce r operation s u.store
    → AtMostOnce r operation s
        (elim found as (λ _. Response × FaultyStore) [
          | none ↦ retry faulty_port r expected operation u
          | some read ↦
              if same_value read.incident_id r.incident_id
              then (recorded read, u)
              else retry faulty_port r expected operation u
        ]).1.store
read_back-AtMostOnce none r expected operation s u h = retry-AtMostOnce r expected operation s u h
read_back-AtMostOnce (some read) r expected operation s u h =
    elim (Bool-cases (same_value read.incident_id r.incident_id)) [
      | inl e ↦ rw e h
      | inr e ↦ rw e (retry-AtMostOnce r expected operation s u h)
    ]

settle_first-AtMostOnce :
    (reply : PutReply) (r : Incident) (expected operation : Value) (s : IncidentStore)
    (u : FaultyStore)
    → AtMostOnce r operation s u.store
    → AtMostOnce r operation s (settle_first faulty_port r expected operation reply u).1.store
unfolding reconcile
settle_first-AtMostOnce ambiguous r expected operation s u h =
    read_back-AtMostOnce (read_operation u.store operation) r expected operation s u h
settle_first-AtMostOnce _ r expected operation s u h = h

-- However requests and answers get lost, `#commit` with its read-back and its single retry writes
-- the record at most once: the store is as before, or holds exactly one write of the record.
pub commit-AtMostOnce :
    (r : Incident) (expected operation : Value) (s : FaultyStore)
    → AtMostOnce r operation s.store (commit faulty_port r expected operation s).1.store
unfolding commit
commit-AtMostOnce r expected operation s =
    settle_first-AtMostOnce (faulty_put r expected operation s).0 r expected operation s.store
      (faulty_put r expected operation s).1
      (through-AtMostOnce s.faults r expected operation s.store s.store (inl refl))

lost_conflict :
    (r previous : Incident) (expected operation : Value) (s : IncidentStore) (rest : List Fault)
    → (put r expected operation s).0 ≡ conflict
    → read_operation s operation ≡ some previous
    → same_value previous.incident_id r.incident_id ≡ true
    → let lost : FaultyStore = record { store = s; faults = lose_request ∷ rest } in
      let delivered : FaultyStore = record { store = s; faults = deliver ∷ rest } in
      ((commit faulty_port r expected operation delivered).0 ≡ refused op_conflict none)
      × (commit faulty_port r expected operation lost
          ≡ (recorded previous, record { store = s; faults = rest }))
unfolding commit reconcile settle
lost_conflict r previous expected operation s rest refusal read same =
    (rw refusal refl, ground arith)

same_identifier :
    {value : Incident} {operation : Value} {s t : IncidentStore} (v : Value)
    → IsWrite value operation s t
    → v ≡ value.incident_id
    → same_value value.incident_id v ≡ true
unfolding same_value
same_identifier v w e = rw (e, w.named) (same_text_refl (w.first ∷ w.rest))

-- After a record was written under an operation identifier that reads back as it, another valid record
-- of the same incident is sent under that identifier. If the request is delivered, `#commit` refuses it
-- with OP_CONFLICT. If the request is lost, `#commit` answers RECORDED with the older record, and the
-- store is unchanged: what it holds of the incident is the older record, and not the one sent.
pub lost_conflict-recorded :
    (r previous : Incident) (expected_first expected operation : Value) (s : IncidentStore)
    (rest : List Fault)
    → is_written (put previous expected_first operation s).0 ≡ true
    → r.incident_id ≡ previous.incident_id
    → r ≢ previous
    → validate_incident r ≡ true
    → let t = (put previous expected_first operation s).1 in
      read_operation t operation ≡ some previous
      → let lost : FaultyStore = record { store = t; faults = lose_request ∷ rest } in
        let delivered : FaultyStore = record { store = t; faults = deliver ∷ rest } in
        ((commit faulty_port r expected operation delivered).0 ≡ refused op_conflict none)
        × (commit faulty_port r expected operation lost
            ≡ (recorded previous, record { store = t; faults = rest }))
        × (get t r.incident_id ≡ some previous)
        × (get t r.incident_id ≢ some r)
lost_conflict-recorded r previous expected_first expected operation s rest done same differs valid
      read =
    let t = (put previous expected_first operation s).1 in
    let w : IsWrite previous operation s t =
      written-IsWrite (put previous expected_first operation s).0
        (put-PutEffect previous expected_first operation s) done in
    let refusal =
      ap (λ (x : PutReply × IncidentStore). x.0)
        (conflict_after r expected operation w same valid differs) in
    let (a, b) =
      lost_conflict r previous expected operation t rest refusal read
        (same_identifier r.incident_id w same) in
    let held = get_after r.incident_id operation w same in
    (a, b, held, λ e. differs (ground (arith, held, e)))
