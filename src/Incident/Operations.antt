-- ===== src/Incident/Operations.antt =====
-- The operations of `IncidentService` (services/incident/src/incident-service.js), over any store.
-- An input that is no object is `none`; `raw` is what the time source returns if it is read.
use pixel_hq_oss.Common.{
  ℕ, ◌+◌, Bool, true, false, not, Option, none, some, List, [], ◌∷◌, ◌++◌, Text, same_text, Value,
  undefined, null, str, is_some, ◌==◌, if◌then◌else◌,
}
use pixel_hq_oss.Incident.Names.{
  IncidentClass, open_status, resolved, closed, ResponsePhase, declare, close, post_incident_review,
  no_recovery, Incident, phase_index, phase_of, derived_impact_code,
}
use pixel_hq_oss.Incident.Contract.{is_bounded_text}
use pixel_hq_oss.Incident.Environment.{normalize_environmental_fact}
use pixel_hq_oss.Incident.Port.{
  incident_invalid, environmental_fact_unsupported, environmental_fact_mismatch, not_found,
  invalid_transition, IncidentStorePort,
}
use pixel_hq_oss.Incident.Service.{
  incident_created, incident_acknowledged, phase_advanced, Service, Response, bounded_id,
  bounded_ref_array, merged_evidence, recovery_state, class_text, is_open, refuse, with_clock,
  store_record,
}

pub record CreateInput : Type 0 where
  pub incident_id : Value
  pub operation_id : Value
  pub incident_class : Value
  pub environmental_fact : Value
  pub severity : Value
  pub commander_ref : Value
  pub source_ref : Value
  pub summary_code : Value
  pub affected_resource_refs : Option (List Value)
  pub affected_job_refs : Option (List Value)
  pub evidence_refs : Option (List Value)

-- The fields that the other operations read; each reads some of them.
pub record ChangeInput : Type 0 where
  pub incident_id : Value
  pub operation_id : Value
  pub expected_revision : Value
  pub phase : Value
  pub new_commander_ref : Value
  pub reason_code : Value
  pub actor_ref : Value
  pub evidence_refs : Option (List Value)
  pub remaining_risk_code : Value

-- The class of a new incident: the one given, or the one that the environmental fact names.
pub data ClassChoice : Type 0 where
  chosen : Text → ClassChoice
  unsupported mismatch missing : ClassChoice

abbrev pub chosen_or_missing : Option Text → ClassChoice
chosen_or_missing none = missing
chosen_or_missing (some c) = chosen c

abbrev pub agree : Option Text → Option IncidentClass → ClassChoice
agree given none = unsupported
agree none (some c) = chosen (class_text c)
agree (some g) (some c) = if same_text g (class_text c) then chosen (class_text c) else mismatch

unfoldable pub choose_class : Value → Value → ClassChoice
unfolding bounded_id class_text
choose_class given undefined = chosen_or_missing (bounded_id given)
choose_class given null = chosen_or_missing (bounded_id given)
choose_class given fact = agree (bounded_id given) (normalize_environmental_fact fact)

-- The record literal of `createIncident`.
unfoldable pub new_incident : CreateInput → Text → ℕ → Incident
unfolding bounded_ref_array
new_incident input incident_class t = record {
  incident_id = input.incident_id;
  status = open_status;
  revision = 1;
  opened_at = t;
  declared_at = t;
  acknowledged_at = none;
  resolved_at = none;
  closed_at = none;
  incident_class = incident_class;
  severity = input.severity;
  commander_ref = input.commander_ref;
  response_phase = declare;
  recovery_state = no_recovery;
  current_impact_code = derived_impact_code input.severity;
  source_ref = input.source_ref;
  summary_code = input.summary_code;
  affected_resource_refs = bounded_ref_array input.affected_resource_refs;
  affected_job_refs = bounded_ref_array input.affected_job_refs;
  evidence_refs = bounded_ref_array input.evidence_refs;
  remaining_risk_code = none;
  commander_transfers = [];
}

-- The records that the other operations build from the current one.
unfoldable pub acknowledged : Incident → ℕ → Incident
acknowledged current t = record current {
  acknowledged_at = some t;
  revision = current.revision + 1;
}

unfoldable pub advanced : Incident → ResponsePhase → Incident
unfolding recovery_state
advanced current phase = record current {
  response_phase = phase;
  recovery_state = recovery_state current.recovery_state phase;
  revision = current.revision + 1;
}

unfoldable pub transferred : Incident → Text → Text → Text → ℕ → Incident
transferred current commander reason actor t = record current {
  commander_ref = str commander;
  commander_transfers =
      current.commander_transfers
      ++ (record {
        prior_commander_ref = current.commander_ref;
        new_commander_ref = commander;
        reason_code = reason;
        actor_ref = actor;
        transferred_at = t;
        revision = current.revision + 1;
      }
          ∷ []);
  revision = current.revision + 1;
}

unfoldable pub resolved_at_time : Incident → List Text → ℕ → Incident
unfolding merged_evidence
resolved_at_time current refs t = record current {
  status = resolved;
  resolved_at = some t;
  evidence_refs = merged_evidence current.evidence_refs refs;
  revision = current.revision + 1;
}

unfoldable pub closed_at_time : Incident → Text → List Text → ℕ → Incident
unfolding merged_evidence
closed_at_time current risk refs t = record current {
  status = closed;
  response_phase = close;
  closed_at = some t;
  remaining_risk_code = some risk;
  evidence_refs = merged_evidence current.evidence_refs refs;
  revision = current.revision + 1;
}

unfoldable pub reviewed : Incident → List Text → Incident
unfolding merged_evidence
reviewed current refs = record current {
  response_phase = post_incident_review;
  evidence_refs = merged_evidence current.evidence_refs refs;
  revision = current.revision + 1;
}

-- `typeof code !== 'string' || code.trim().length === 0 || code.length > 80`, turned round.
abbrev pub risk_of : Value → Option Text
risk_of (str code) = if is_bounded_text 80 code then some code else none
risk_of _ = none

abbrev pub has_no_refs : List Text → Bool
has_no_refs [] = true
has_no_refs (r ∷ rs) = false

module _ {S : Type 0} (port : IncidentStorePort S) where
  abbrev pub create_with : ClassChoice → CreateInput → ℕ → Service S → Response × Service S
  create_with unsupported input t service = refuse environmental_fact_unsupported none null service
  create_with mismatch input t service = refuse environmental_fact_mismatch none null service
  create_with missing input t service = refuse incident_invalid none null service
  create_with (chosen c) input t service =
      store_record port incident_created (new_incident input c t) null input.operation_id service

  -- `createIncident`
  unfoldable pub create_incident : Option CreateInput → Option ℕ → Service S → Response × Service S
  create_incident none raw service = refuse incident_invalid none null service
  create_incident (some input) raw service = with_clock raw service λ t service'.
      create_with (choose_class input.incident_class input.environmental_fact) input t service'

  -- An operation on an existing incident: its input is an object, and the record is found.
  unfoldable pub on_current :
      Option ChangeInput
      → Service S
      → (ChangeInput → Incident → Response × Service S)
      → Response × Service S
  on_current none service body = refuse incident_invalid none null service
  on_current (some input) service body = elim (port.get service.store input.incident_id) [
    | none ↦ refuse not_found none input.incident_id service
    | some current ↦ body input current
  ]

  -- `acknowledgeIncident`
  unfoldable pub acknowledge_incident :
      Option ChangeInput → Option ℕ → Service S → Response × Service S
  acknowledge_incident input? raw service = on_current input? service λ input current.
      if not (is_open current.status)
      then refuse invalid_transition (some current) current.incident_id service
      else if is_some current.acknowledged_at
      then refuse invalid_transition (some current) current.incident_id service
      else with_clock raw service λ t service'.
        store_record port incident_acknowledged (acknowledged current t) input.expected_revision
          input.operation_id service'

  -- `PHASE_INDEX.get(args.phase) !== nextIndex`, turned round.
  abbrev pub next_phase : Incident → Value → Option ResponsePhase
  next_phase current v = elim (phase_of v) [
    | none ↦ none
    | some p ↦ if phase_index p == phase_index current.response_phase + 1 then some p else none
  ]

  -- `advancePhase`
  unfoldable pub advance_phase : Option ChangeInput → Service S → Response × Service S
  advance_phase input? service = on_current input? service λ input current.
      if not (is_open current.status)
      then refuse invalid_transition (some current) current.incident_id service
      else elim (next_phase current input.phase) [
        | none ↦ refuse invalid_transition (some current) current.incident_id service
        | some p ↦
            store_record port phase_advanced (advanced current p) input.expected_revision
              input.operation_id service
      ]
