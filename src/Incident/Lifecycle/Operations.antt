-- ===== src/Incident/Lifecycle/Operations.antt =====
-- The effect of each operation of services/incident/src/incident-service.js on the
-- simulator's store.
use pixel_hq_oss.Common.{
  ℕ, ◌+◌, ◌≡◌, refl, false, not, ◌||◌, Option, none, some, arith, Value, null, is_text, is_some,
}
use pixel_hq_oss.Time.{TrustedClock}
use pixel_hq_oss.Incident.Names.{
  IncidentStatus, open_status, resolved, closed, ResponsePhase, verify, close, RecoveryState,
  recovered, Incident, phase_index,
}
use pixel_hq_oss.Incident.Port.{
  incident_invalid, invalid_transition, same_commander, evidence_required, risk_required,
  environmental_fact_unsupported, environmental_fact_mismatch,
}
use pixel_hq_oss.Incident.Store.{IncidentStore, simulator_port}
use pixel_hq_oss.Incident.Store.History.{IsSound}
use pixel_hq_oss.Incident.Service.{
  Service, incident_created, incident_acknowledged, phase_advanced, command_transferred,
  incident_resolved, incident_closed, post_review_recorded, bounded_id, bounded_ref_array, is_open,
  is_resolved, is_closed, is_recovered, same_phase,
}
use pixel_hq_oss.Incident.Operations.{
  CreateInput, ChangeInput, ClassChoice, chosen, unsupported, mismatch, missing, choose_class,
  new_incident, acknowledged, advanced, transferred, resolved_at_time, closed_at_time, reviewed,
  risk_of, has_no_refs, create_with, create_incident, acknowledge_incident, next_phase,
  advance_phase,
}
use pixel_hq_oss.Incident.Closing.{
  three, transfer_command, resolve_incident, close_incident, post_incident_review_record,
}
use pixel_hq_oss.Incident.Move.{acknowledge, advance, transfer, resolve, shut, review}
use pixel_hq_oss.Incident.Lifecycle.Steps.{
  Effect, refuse-Effect, moved-Effect, open-Effect, if-Effect, option-Effect, with_clock-Effect,
  on_current-Effect,
}

open_of : (a : IncidentStatus) → not (is_open a) ≡ false → a ≡ open_status
open_of a h = ground arith

resolved_of : (a : IncidentStatus) → not (is_resolved a) ≡ false → a ≡ resolved
resolved_of a h = ground arith

none_of : (o : Option ℕ) → is_some o ≡ false → o ≡ none
none_of o h = ground arith

verify_of : (p : ResponsePhase) → not (same_phase p verify) ≡ false → p ≡ verify
unfolding phase_index
verify_of p h = ground arith

ready_of :
    (p : ResponsePhase) (r : RecoveryState)
    → (not (same_phase p verify) || not (is_recovered r)) ≡ false
    → (p ≡ verify) × (r ≡ recovered)
unfolding phase_index
ready_of p r h = ground arith

closed_of :
    (a : IncidentStatus) (p : ResponsePhase)
    → (not (is_closed a) || not (same_phase p close)) ≡ false
    → (a ≡ closed) × (p ≡ close)
unfolding phase_index
closed_of a p h = ground arith

next_phase-index :
    (current : Incident) (v : Value) (p : ResponsePhase)
    → next_phase simulator_port current v ≡ some p
    → phase_index p ≡ phase_index current.response_phase + 1
next_phase-index current v p h = ground arith

module _ (service : Service IncidentStore) (sound : IsSound service.store) where
  create_with-Effect :
      (choice : ClassChoice) (input : CreateInput) (t : ℕ) (clock : TrustedClock)
      → let service' = record service { clock = clock } in
        Effect service.store (create_with simulator_port choice input t service').1.store
  unfolding new_incident
  create_with-Effect (chosen c) input t clock =
      open-Effect incident_created (new_incident input c t) null input.operation_id
        (record service { clock = clock }) refl refl
  create_with-Effect unsupported input t clock =
      refuse-Effect environmental_fact_unsupported none null (record service { clock = clock })
  create_with-Effect mismatch input t clock =
      refuse-Effect environmental_fact_mismatch none null (record service { clock = clock })
  create_with-Effect missing input t clock =
      refuse-Effect incident_invalid none null (record service { clock = clock })

  pub create_incident-Effect :
      (input? : Option CreateInput) (raw : Option ℕ)
      → Effect service.store (create_incident simulator_port input? raw service).1.store
  unfolding create_incident
  create_incident-Effect none raw = refuse-Effect incident_invalid none null service
  create_incident-Effect (some input) raw = with_clock-Effect raw service _ λ t clock.
      create_with-Effect (choose_class input.incident_class input.environmental_fact) input t clock

  pub acknowledge_incident-Effect :
      (input? : Option ChangeInput) (raw : Option ℕ)
      → Effect service.store (acknowledge_incident simulator_port input? raw service).1.store
  unfolding acknowledge_incident acknowledged
  acknowledge_incident-Effect input? raw = on_current-Effect input? service _ sound λ input i found.
      if-Effect service.store (not (is_open i.status)) _ _
        (λ _. refuse-Effect invalid_transition (some i) i.incident_id service)
        λ o.
          if-Effect service.store (is_some i.acknowledged_at) _ _
            (λ _. refuse-Effect invalid_transition (some i) i.incident_id service)
            λ n. with_clock-Effect raw service _ λ t clock.
              moved-Effect incident_acknowledged i (acknowledged i t) input.expected_revision
                input.operation_id (record service { clock = clock }) found
                (acknowledge t (open_of i.status o) (none_of i.acknowledged_at n) refl)

  pub advance_phase-Effect :
      (input? : Option ChangeInput)
      → Effect service.store (advance_phase simulator_port input? service).1.store
  unfolding advance_phase advanced
  advance_phase-Effect input? = on_current-Effect input? service _ sound λ input i found.
      if-Effect service.store (not (is_open i.status)) _ _
        (λ _. refuse-Effect invalid_transition (some i) i.incident_id service)
        λ o.
          option-Effect service.store (next_phase simulator_port i input.phase) _ _
            (λ _. refuse-Effect invalid_transition (some i) i.incident_id service)
            λ p e.
              moved-Effect phase_advanced i (advanced i p) input.expected_revision
                input.operation_id service found
                (advance p (open_of i.status o) (next_phase-index i input.phase p e) refl)

  pub transfer_command-Effect :
      (input? : Option ChangeInput) (raw : Option ℕ)
      → Effect service.store (transfer_command simulator_port input? raw service).1.store
  unfolding transfer_command transferred
  transfer_command-Effect input? raw = on_current-Effect input? service _ sound λ input i found.
      if-Effect service.store (not (is_open i.status)) _ _
        (λ _. refuse-Effect invalid_transition (some i) i.incident_id service)
        λ o.
          option-Effect service.store
            (three (bounded_id input.new_commander_ref) (bounded_id input.reason_code)
              (bounded_id input.actor_ref))
            _ _ (λ _. refuse-Effect incident_invalid (some i) i.incident_id service)
            λ refs e.
              if-Effect service.store (is_text i.commander_ref refs.0) _ _
                (λ _. refuse-Effect same_commander (some i) i.incident_id service)
                λ n. with_clock-Effect raw service _ λ t clock.
                  moved-Effect command_transferred i (transferred i refs.0 refs.1 refs.2 t)
                    input.expected_revision input.operation_id (record service { clock = clock })
                    found (transfer refs.0 refs.1 refs.2 t (open_of i.status o) n refl)

  pub resolve_incident-Effect :
      (input? : Option ChangeInput) (raw : Option ℕ)
      → Effect service.store (resolve_incident simulator_port input? raw service).1.store
  unfolding resolve_incident resolved_at_time
  resolve_incident-Effect input? raw = on_current-Effect input? service _ sound λ input i found.
      if-Effect service.store (not (is_open i.status)) _ _
        (λ _. refuse-Effect invalid_transition (some i) i.incident_id service)
        λ o.
          if-Effect service.store
            (not (same_phase i.response_phase verify) || not (is_recovered i.recovery_state)) _ _
            (λ _. refuse-Effect invalid_transition (some i) i.incident_id service)
            λ r.
              if-Effect service.store (has_no_refs (bounded_ref_array input.evidence_refs)) _ _
                (λ _. refuse-Effect evidence_required (some i) i.incident_id service)
                λ n. with_clock-Effect raw service _ λ t clock.
                  let refs = bounded_ref_array input.evidence_refs in
                  let ready = ready_of i.response_phase i.recovery_state r in
                  moved-Effect incident_resolved i (resolved_at_time i refs t)
                    input.expected_revision input.operation_id (record service { clock = clock })
                    found (resolve refs t (open_of i.status o) ready.0 ready.1 n refl)

  pub close_incident-Effect :
      (input? : Option ChangeInput) (raw : Option ℕ)
      → Effect service.store (close_incident simulator_port input? raw service).1.store
  unfolding close_incident closed_at_time
  close_incident-Effect input? raw = on_current-Effect input? service _ sound λ input i found.
      if-Effect service.store (not (is_resolved i.status)) _ _
        (λ _. refuse-Effect invalid_transition (some i) i.incident_id service)
        λ r.
          if-Effect service.store (not (same_phase i.response_phase verify)) _ _
            (λ _. refuse-Effect invalid_transition (some i) i.incident_id service)
            λ v.
              option-Effect service.store (risk_of input.remaining_risk_code) _ _
                (λ _. refuse-Effect risk_required (some i) i.incident_id service)
                λ risk e.
                  if-Effect service.store (has_no_refs (bounded_ref_array input.evidence_refs)) _ _
                    (λ _. refuse-Effect evidence_required (some i) i.incident_id service)
                    λ n. with_clock-Effect raw service _ λ t clock.
                      let refs = bounded_ref_array input.evidence_refs in
                      moved-Effect incident_closed i (closed_at_time i risk refs t)
                        input.expected_revision input.operation_id
                        (record service { clock = clock }) found
                        (shut risk refs t (resolved_of i.status r) (verify_of i.response_phase v) n
                          refl)

  pub post_incident_review_record-Effect :
      (input? : Option ChangeInput)
      → Effect service.store (post_incident_review_record simulator_port input? service).1.store
  unfolding post_incident_review_record reviewed
  post_incident_review_record-Effect input? =
      on_current-Effect input? service _ sound λ input i found.
        if-Effect service.store
          (not (is_closed i.status) || not (same_phase i.response_phase close)) _ _
          (λ _. refuse-Effect invalid_transition (some i) i.incident_id service)
          λ c.
            if-Effect service.store (has_no_refs (bounded_ref_array input.evidence_refs)) _ _
              (λ _. refuse-Effect evidence_required (some i) i.incident_id service)
              λ n.
                let refs = bounded_ref_array input.evidence_refs in
                let ready = closed_of i.status i.response_phase c in
                moved-Effect post_review_recorded i (reviewed i refs) input.expected_revision
                  input.operation_id service found (review refs ready.0 ready.1 n refl)
