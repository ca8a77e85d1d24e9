-- ===== src/Incident/Closing.antt =====
-- The rest of the operations of `IncidentService` (services/incident/src/incident-service.js):
-- transferring command, resolving, closing and reviewing an incident.
use pixel_hq_oss.Common.{ℕ, not, ◌||◌, Option, none, some, Text, is_text, if◌then◌else◌}
use pixel_hq_oss.Incident.Names.{verify, close}
use pixel_hq_oss.Incident.Port.{
  incident_invalid, invalid_transition, same_commander, evidence_required, risk_required,
  IncidentStorePort,
}
use pixel_hq_oss.Incident.Service.{
  command_transferred, incident_resolved, incident_closed, post_review_recorded, Service, Response,
  bounded_id, bounded_ref_array, is_open, is_resolved, is_closed, is_recovered, same_phase, refuse,
  with_clock, store_record,
}
use pixel_hq_oss.Incident.Operations.{
  ChangeInput, transferred, resolved_at_time, closed_at_time, reviewed, risk_of, has_no_refs,
  on_current,
}

-- The three references of a transfer, or none if one is no identifier.
abbrev pub three : Option Text → Option Text → Option Text → Option (Text × Text × Text)
three (some a) (some b) (some c) = some (a, b, c)
three _ _ _ = none

module _ {S : Type 0} (port : IncidentStorePort S) where
  -- `transferCommand`
  unfoldable pub transfer_command : Option ChangeInput → Option ℕ → Service S → Response × Service S
  transfer_command input? raw service = on_current port input? service λ input current.
      if not (is_open current.status)
      then refuse invalid_transition (some current) current.incident_id service
      else elim (three (bounded_id input.new_commander_ref) (bounded_id input.reason_code)
          (bounded_id input.actor_ref)) [
            | none ↦ refuse incident_invalid (some current) current.incident_id service
            | some (commander, reason, actor) ↦
                if is_text current.commander_ref commander
                then refuse same_commander (some current) current.incident_id service
                else with_clock raw service λ t service'.
                  store_record port command_transferred
                    (transferred current commander reason actor t) input.expected_revision
                    input.operation_id service'
          ]

  -- `resolveIncident`
  unfoldable pub resolve_incident : Option ChangeInput → Option ℕ → Service S → Response × Service S
  resolve_incident input? raw service = on_current port input? service λ input current.
      if not (is_open current.status)
      then refuse invalid_transition (some current) current.incident_id service
      else if not (same_phase current.response_phase verify)
          || not (is_recovered current.recovery_state)
      then refuse invalid_transition (some current) current.incident_id service
      else if has_no_refs (bounded_ref_array input.evidence_refs)
      then refuse evidence_required (some current) current.incident_id service
      else with_clock raw service λ t service'.
        store_record port incident_resolved
          (resolved_at_time current (bounded_ref_array input.evidence_refs) t)
          input.expected_revision input.operation_id service'

  -- `closeIncident`
  unfoldable pub close_incident : Option ChangeInput → Option ℕ → Service S → Response × Service S
  close_incident input? raw service = on_current port input? service λ input current.
      if not (is_resolved current.status)
      then refuse invalid_transition (some current) current.incident_id service
      else if not (same_phase current.response_phase verify)
      then refuse invalid_transition (some current) current.incident_id service
      else elim (risk_of input.remaining_risk_code) [
        | none ↦ refuse risk_required (some current) current.incident_id service
        | some risk ↦
            if has_no_refs (bounded_ref_array input.evidence_refs)
            then refuse evidence_required (some current) current.incident_id service
            else with_clock raw service λ t service'.
              store_record port incident_closed
                (closed_at_time current risk (bounded_ref_array input.evidence_refs) t)
                input.expected_revision input.operation_id service'
      ]

  -- `postIncidentReview`
  unfoldable pub post_incident_review_record : Option ChangeInput → Service S → Response × Service S
  post_incident_review_record input? service = on_current port input? service λ input current.
      if not (is_closed current.status) || not (same_phase current.response_phase close)
      then refuse invalid_transition (some current) current.incident_id service
      else if has_no_refs (bounded_ref_array input.evidence_refs)
      then refuse evidence_required (some current) current.incident_id service
      else store_record port post_review_recorded
          (reviewed current (bounded_ref_array input.evidence_refs)) input.expected_revision
          input.operation_id service
