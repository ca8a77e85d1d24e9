-- ===== src/Incident/Names.antt =====
-- The canonical names of packages/contracts/src/incident-v1.js as enums, read from the strings
-- that a caller passes, and the record that the contract describes.
use pixel_hq_oss.Common.{
  ℕ, Option, none, some, List, Text, text, same_text, Value, is_text, if◌then◌else◌,
}

pub data IncidentClass : Type 0 where
  security infrastructure power thermal : IncidentClass

pub data Severity : Type 0 where
  sev_3 sev_2 sev_1 sev_0 : Severity

pub data IncidentStatus : Type 0 where
  open_status resolved closed : IncidentStatus

pub data ResponsePhase : Type 0 where
  declare contain preserve_evidence diagnose remediate recover verify close : ResponsePhase
  post_incident_review : ResponsePhase

pub data RecoveryState : Type 0 where
  no_recovery contained recovering verifying recovered : RecoveryState

pub data ImpactCode : Type 0 where
  localized meaningful_degradation major critical : ImpactCode

-- `INCIDENT_CLASSES.includes`, with the member.
unfoldable pub incident_class_of : Text → Option IncidentClass
incident_class_of t =
    if same_text t (text "SECURITY")
    then some security
    else if same_text t (text "INFRASTRUCTURE")
    then some infrastructure
    else if same_text t (text "POWER")
    then some power
    else if same_text t (text "THERMAL")
    then some thermal
    else none

-- `SEVERITIES.includes`, with the member.
unfoldable pub severity_of : Value → Option Severity
severity_of v =
    if is_text v (text "SEV-3")
    then some sev_3
    else if is_text v (text "SEV-2")
    then some sev_2
    else if is_text v (text "SEV-1")
    then some sev_1
    else if is_text v (text "SEV-0")
    then some sev_0
    else none

-- `PHASE_INDEX`, on a canonical phase.
unfoldable pub phase_index : ResponsePhase → ℕ
phase_index declare = 0
phase_index contain = 1
phase_index preserve_evidence = 2
phase_index diagnose = 3
phase_index remediate = 4
phase_index recover = 5
phase_index verify = 6
phase_index close = 7
phase_index post_incident_review = 8

-- `PHASE_INDEX.get` finds the phase that a value names; `none` is `undefined`.
unfoldable pub phase_of : Value → Option ResponsePhase
phase_of v =
    if is_text v (text "DECLARE")
    then some declare
    else if is_text v (text "CONTAIN")
    then some contain
    else if is_text v (text "PRESERVE_EVIDENCE")
    then some preserve_evidence
    else if is_text v (text "DIAGNOSE")
    then some diagnose
    else if is_text v (text "REMEDIATE")
    then some remediate
    else if is_text v (text "RECOVER")
    then some recover
    else if is_text v (text "VERIFY")
    then some verify
    else if is_text v (text "CLOSE")
    then some close
    else if is_text v (text "POST_INCIDENT_REVIEW")
    then some post_incident_review
    else none

-- `SEVERITY_IMPACT`
unfoldable pub severity_impact : Severity → ImpactCode
severity_impact sev_3 = localized
severity_impact sev_2 = meaningful_degradation
severity_impact sev_1 = major
severity_impact sev_0 = critical

-- `derivedImpactCode`
unfoldable pub derived_impact_code : Value → Option ImpactCode
unfolding severity_of severity_impact
derived_impact_code v = elim (severity_of v) [ none ↦ none | some s ↦ some (severity_impact s) ]

-- The service takes the prior commander from the record and checks the other references itself.
pub record CommandTransfer : Type 0 where
  pub prior_commander_ref : Value
  pub new_commander_ref : Text
  pub reason_code : Text
  pub actor_ref : Text
  pub transferred_at : ℕ
  pub revision : ℕ

-- A record as the service builds it, before it is validated: what it copies from a caller unread
-- is a `Value`. The three fields that are constants (event_name, schema_version, provenance) are
-- left out.
pub record Incident : Type 0 where
  pub incident_id : Value
  pub status : IncidentStatus
  pub revision : ℕ
  pub opened_at : ℕ
  pub declared_at : ℕ
  pub acknowledged_at : Option ℕ
  pub resolved_at : Option ℕ
  pub closed_at : Option ℕ
  pub incident_class : Text
  pub severity : Value
  pub commander_ref : Value
  pub response_phase : ResponsePhase
  pub recovery_state : RecoveryState
  pub current_impact_code : Option ImpactCode
  pub source_ref : Value
  pub summary_code : Value
  pub affected_resource_refs : List Text
  pub affected_job_refs : List Text
  pub evidence_refs : List Text
  pub remaining_risk_code : Option Text
  pub commander_transfers : List CommandTransfer
