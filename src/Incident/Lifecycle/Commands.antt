-- ===== src/Incident/Lifecycle/Commands.antt =====
-- Any sequence of operations of the incident service (services/incident/src/incident-service.js).
use pixel_hq_oss.Common.{
  ℕ, ◌≤◌, ◌≡◌, sym, ap, subst, ◌∙◌, inl, inr, true, Option, some, List, [], ◌∷◌, arith, Text, Value,
  is_text, same_text, same_text_iff, Bool-cases,
}
use pixel_hq_oss.Common.Dict.{lookup}
use pixel_hq_oss.Incident.Names.{Incident}
use pixel_hq_oss.Incident.Contract.{progress_ok, validate_incident}
use pixel_hq_oss.Incident.Store.{IncidentStore, get, simulator_port}
use pixel_hq_oss.Incident.Store.Laws.{IsWrite}
use pixel_hq_oss.Incident.Store.History.{IsSound, write-IsSound, lookup-write}
use pixel_hq_oss.Incident.Service.{Service, Response}
use pixel_hq_oss.Incident.Operations.{
  CreateInput, ChangeInput, create_incident, acknowledge_incident, advance_phase,
}
use pixel_hq_oss.Incident.Closing.{
  transfer_command, resolve_incident, close_incident, post_incident_review_record,
}
use pixel_hq_oss.Incident.Move.{Move, Moves, here, next}
use pixel_hq_oss.Incident.Lifecycle.Steps.{Effect, same, opened, moved}
use pixel_hq_oss.Incident.Lifecycle.Operations.{
  create_incident-Effect, acknowledge_incident-Effect, advance_phase-Effect,
  transfer_command-Effect, resolve_incident-Effect, close_incident-Effect,
  post_incident_review_record-Effect,
}

-- A call of the service, with what the time source returns during it.
pub data Command : Type 0 where
  create : Option CreateInput → Option ℕ → Command
  acknowledge transfer resolve close : Option ChangeInput → Option ℕ → Command
  advance review : Option ChangeInput → Command

unfoldable pub apply : Command → Service IncidentStore → Response × Service IncidentStore
apply (create input raw) = create_incident simulator_port input raw
apply (acknowledge input raw) = acknowledge_incident simulator_port input raw
apply (advance input) = advance_phase simulator_port input
apply (transfer input raw) = transfer_command simulator_port input raw
apply (resolve input raw) = resolve_incident simulator_port input raw
apply (close input raw) = close_incident simulator_port input raw
apply (review input) = post_incident_review_record simulator_port input

unfoldable pub run : Service IncidentStore → List Command → Service IncidentStore
unfolding apply
run service [] = service
run service (c ∷ cs) = run (apply c service).1 cs

apply-Effect :
    (c : Command) (service : Service IncidentStore)
    → IsSound service.store
    → Effect service.store (apply c service).1.store
unfolding apply
apply-Effect (create input raw) service h = create_incident-Effect service h input raw
apply-Effect (acknowledge input raw) service h = acknowledge_incident-Effect service h input raw
apply-Effect (advance input) service h = advance_phase-Effect service h input
apply-Effect (transfer input raw) service h = transfer_command-Effect service h input raw
apply-Effect (resolve input raw) service h = resolve_incident-Effect service h input raw
apply-Effect (close input raw) service h = close_incident-Effect service h input raw
apply-Effect (review input) service h = post_incident_review_record-Effect service h input

Effect-IsSound : {s t : IncidentStore} → Effect s t → IsSound s → IsSound t
Effect-IsSound (same e) h = subst IsSound (sym e) h
Effect-IsSound (opened r o a b w) h = write-IsSound w h
Effect-IsSound (moved i j o f m w) h = write-IsSound w h

revision_pos : (i : Incident) → validate_incident i ≡ true → 1 ≤ i.revision
unfolding validate_incident progress_ok
revision_pos i h = ground arith

-- What becomes of a record that was there.
abbrev Continues : Text → Incident → IncidentStore → Type 0
Continues id i t = (j : Incident) × (lookup id t.incidents ≡ some j) × Moves i j

opened-Continues :
    {s t : IncidentStore} (id : Text) (i r : Incident) (operation : Value)
    → IsSound s
    → lookup id s.incidents ≡ some i
    → r.revision ≡ 1
    → IsWrite r operation s t
    → Continues id i t
opened-Continues {s} {t} id i r operation h e one w = (i, kept, here)
  where
    kept : lookup id t.incidents ≡ some i
    kept = ground (
      arith,
      lookup-write id w,
      ap (λ (n : Value). is_text n id) w.named,
      same_text_iff (w.first ∷ w.rest) id,
      w.next,
      revision_pos i (h id i e).1,
    )

moved-Continues :
    {s t : IncidentStore} (id : Text) (i i' j : Incident) (operation : Value)
    → lookup id s.incidents ≡ some i
    → get s j.incident_id ≡ some i'
    → Move i' j
    → IsWrite j operation s t
    → Continues id i t
unfolding get
moved-Continues {s} {t} id i i' j operation e found m w =
    elim (Bool-cases (same_text (w.first ∷ w.rest) id)) [
      | inl same_id ↦ (j, now_j same_id, next here (subst (λ k. Move k j) (old same_id) m))
      | inr other_id ↦ (i, ground (arith, lookup-write id w, texts), here)
    ]
  where
    texts : is_text j.incident_id id ≡ same_text (w.first ∷ w.rest) id
    texts = ap (λ (n : Value). is_text n id) w.named

    now_j : same_text (w.first ∷ w.rest) id ≡ true → lookup id t.incidents ≡ some j
    now_j p = ground (arith, lookup-write id w, texts)

    old : same_text (w.first ∷ w.rest) id ≡ true → i' ≡ i
    old p =
        let found' : lookup (w.first ∷ w.rest) s.incidents ≡ some i' =
          sym (ap (get s) w.named) ∙ found in
        ground (arith, same_text_iff (w.first ∷ w.rest) id)

Effect-Continues :
    {s t : IncidentStore} (id : Text) (i : Incident)
    → IsSound s
    → lookup id s.incidents ≡ some i
    → Effect s t
    → Continues id i t
Effect-Continues id i h e (same p) =
    (i, ap (λ (u : IncidentStore). lookup id u.incidents) p ∙ e, here)
Effect-Continues id i h e (opened r o a b w) = opened-Continues id i r o h e b w
Effect-Continues id i h e (moved i' j o f m w) = moved-Continues id i i' j o e f m w

Moves-append : {i j k : Incident} → Moves i j → Moves j k → Moves i k
Moves-append a here = a
Moves-append a (next b m) = next (Moves-append a b) m

-- From a store whose records are valid and stand under their own identifiers, any operations leave
-- such a store.
pub run-IsSound :
    (service : Service IncidentStore) (cs : List Command)
    → IsSound service.store
    → IsSound (run service cs).store
unfolding run
run-IsSound service [] h = h
run-IsSound service (c ∷ cs) h =
    run-IsSound (apply c service).1 cs (Effect-IsSound (apply-Effect c service h) h)

-- From a store whose records are valid and stand under their own identifiers, whatever operations
-- are called with whatever inputs and clock readings, an incident that is in the store stays in it,
-- and its record has changed only by moves of the lifecycle: acknowledging, advancing by one phase,
-- transferring command, resolving from VERIFY, closing from RESOLVED and reviewing from CLOSE.
pub run-Moves :
    (service : Service IncidentStore) (cs : List Command) (id : Text) (i : Incident)
    → IsSound service.store
    → lookup id service.store.incidents ≡ some i
    → (j : Incident) × (lookup id (run service cs).store.incidents ≡ some j) × Moves i j
unfolding run
run-Moves service [] id i h e = (i, e, here)
run-Moves service (c ∷ cs) id i h e =
    let effect = apply-Effect c service h in
    let (j, ej, ij) = Effect-Continues id i h e effect in
    let (k, ek, jk) = run-Moves (apply c service).1 cs id j (Effect-IsSound effect h) ej in
    (k, ek, Moves-append ij jk)
