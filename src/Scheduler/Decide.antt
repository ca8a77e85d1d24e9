-- ===== src/Scheduler/Decide.antt =====
-- The eligibility ladder of services/scheduler/src/scheduler-service.js (`#decide`) and the map from
-- its reasons to the reasons of a refused start.
pub mod Classes
pub mod Conditions
pub mod Eligible
use pixel_hq_oss.Common.{
  ℕ, Bool, true, false, not, ◌&&◌, ◌||◌, Option, none, some, List, [], ◌∷◌, Text, text, same_text,
  Value, undefined, null, str, is_text, ltb, if◌then◌else◌,
}
use pixel_hq_oss.Scheduler.Contract.{
  Decision, eligible, wait, hold, deny, Reason, eligible_now, wait_dependency, wait_capacity,
  wait_off_duty, wait_maintenance, wait_holiday, wait_night, wait_qualification, wait_approval,
  wait_not_before, hold_security, hold_policy, hold_owner, hold_maintenance, deny_authority_missing,
  deny_delegation_invalid, deny_environment, deny_resource_ineligible, deny_company_state,
  deny_workforce, deny_input_invalid, StartReason, rejected_hold, rejected_company_state,
  rejected_duty, rejected_capacity, rejected_approval, rejected_delegation, rejected_environment,
  rejected_authority, rejected_resource, rejected_not_before, rejected_dependency,
  rejected_workforce, rejected_input_invalid,
}

-- The fields that the ladder reads. A Boolean field of the inputs says whether it is `true`.
pub record JobFacts : Type 0 where
  pub environment : Text
  pub requested_capability : Option Text

pub record Requirement : Type 0 where
  pub authority_ref : Option Text
  pub requires_delegation : Bool
  pub requires_approval : Bool
  pub not_before : Option ℕ
  pub resource_ref : Text

pub record Inputs : Type 0 where
  pub authority_state : Value
  pub delegation_state : Value
  pub approval_state : Value
  pub incident_seam_unavailable : Bool
  pub calendar_seam_unavailable : Bool
  pub workforce_seam_unavailable : Bool
  pub workforce_globally_ineligible : Bool
  pub workforce_agent_id : Value
  pub workforce_qualification_status : Value
  pub company_state : Value
  pub incident_containment_eligible : Bool
  pub resource_state : Value
  pub capacity : Value
  pub dependency_state : Value
  pub active_hold : Option Value
  pub off_duty : Bool

-- `{ decision, reasonCode }`
pub record Verdict : Type 0 where
  pub decision : Decision
  pub reason_code : Reason

abbrev pub verdict : Decision → Reason → Verdict
verdict d r = record { decision = d; reason_code = r }

-- `job.envelope.requested_capability !== undefined && requirement.authority?.ref !== ...`
abbrev pub capability_differs : Option Text → Option Text → Bool
capability_differs none ref = false
capability_differs (some capability) none = true
capability_differs (some capability) (some ref) = not (same_text ref capability)

abbrev pub is_missing : Value → Bool
is_missing null = true
is_missing undefined = true
is_missing _ = false

-- SURVIVAL, SECURITY_INCIDENT or INFRASTRUCTURE_OR_ENVIRONMENT_INCIDENT
abbrev pub is_incident_state : Value → Bool
is_incident_state v =
    is_text v (text "SURVIVAL")
    || is_text v (text "SECURITY_INCIDENT")
    || is_text v (text "INFRASTRUCTURE_OR_ENVIRONMENT_INCIDENT")

-- `requirement.not_before && Date.parse(now) < Date.parse(requirement.not_before)`
abbrev pub is_too_early : Option ℕ → ℕ → Bool
is_too_early none now = false
is_too_early (some t) now = ltb now t

-- USABLE_CAPACITY
abbrev pub is_usable_capacity : Value → Bool
is_usable_capacity v =
    is_text v (text "AVAILABLE")
    || is_text v (text "LIGHT")
    || is_text v (text "NORMAL")
    || is_text v (text "HIGH")

-- `classMap[hold_class] ?? 'HOLD_POLICY'`
abbrev pub hold_reason : Value → Reason
hold_reason v =
    if is_text v (text "SECURITY")
    then hold_security
    else if is_text v (text "POLICY")
    then hold_policy
    else if is_text v (text "OWNER")
    then hold_owner
    else if is_text v (text "MAINTENANCE")
    then hold_maintenance
    else hold_policy

abbrev pub is_held : Option Value → Bool
is_held none = false
is_held (some _) = true

abbrev pub held_verdict : Option Value → Verdict
held_verdict none = verdict hold hold_policy
held_verdict (some hold_class) = verdict hold (hold_reason hold_class)

-- The `if`s of `#decide` up to the hold, in order: a condition, and what is returned on it.
unfoldable pub gate_checks : Text → JobFacts → Requirement → Inputs → List (Bool × Verdict)
gate_checks environment job requirement inputs =
    (not (same_text environment job.environment), verdict deny deny_environment)
    ∷ (
      capability_differs job.requested_capability requirement.authority_ref,
      verdict deny deny_authority_missing,
    )
    ∷ (not (is_text inputs.authority_state (text "ALLOW")), verdict deny deny_authority_missing)
    ∷ (
      requirement.requires_delegation && not (is_text inputs.delegation_state (text "VALID")),
      verdict deny deny_delegation_invalid,
    )
    ∷ (inputs.incident_seam_unavailable, verdict deny deny_company_state)
    ∷ (inputs.calendar_seam_unavailable, verdict wait wait_dependency)
    ∷ (inputs.workforce_seam_unavailable, verdict deny deny_workforce)
    ∷ (inputs.workforce_globally_ineligible, verdict deny deny_workforce)
    ∷ (
      not (is_missing inputs.workforce_agent_id)
          && not (is_text inputs.workforce_qualification_status (text "QUALIFIED")),
      verdict wait wait_qualification,
    )
    ∷ (
      is_incident_state inputs.company_state && not inputs.incident_containment_eligible,
      verdict deny deny_company_state,
    )
    ∷ (
      is_text inputs.resource_state (text "UNKNOWN")
          || is_text inputs.resource_state (text "UNAVAILABLE"),
      verdict deny deny_resource_ineligible,
    )
    ∷ (is_text inputs.capacity (text "UNAVAILABLE"), verdict deny deny_resource_ineligible)
    ∷ (is_text inputs.dependency_state (text "FAILED"), verdict deny deny_resource_ineligible)
    ∷ (is_held inputs.active_hold, held_verdict inputs.active_hold)
    ∷ []

-- The `if`s of `#decide` after the hold; `now` is what the clock reads there.
unfoldable pub timing_checks : Requirement → Inputs → ℕ → List (Bool × Verdict)
timing_checks requirement inputs now =
    (is_text inputs.company_state (text "MAINTENANCE"), verdict wait wait_maintenance)
    ∷ (is_text inputs.company_state (text "HOLIDAY"), verdict wait wait_holiday)
    ∷ (is_text inputs.company_state (text "NIGHT"), verdict wait wait_night)
    ∷ (is_too_early requirement.not_before now, verdict wait wait_not_before)
    ∷ (
      is_text inputs.dependency_state (text "PENDING")
          || is_text inputs.dependency_state (text "BLOCKED")
          || is_text inputs.dependency_state (text "UNKNOWN"),
      verdict wait wait_dependency,
    )
    ∷ (inputs.off_duty, verdict wait wait_off_duty)
    ∷ (not (is_usable_capacity inputs.capacity), verdict wait wait_capacity)
    ∷ (
      requirement.requires_approval && not (is_text inputs.approval_state (text "APPROVED")),
      verdict wait wait_approval,
    )
    ∷ []

-- The first condition that holds decides.
unfoldable pub first_match : List (Bool × Verdict) → Verdict → Verdict
first_match [] otherwise = otherwise
first_match ((test, v) ∷ rest) otherwise = if test then v else first_match rest otherwise

-- `#decide`
unfoldable pub decide : Text → JobFacts → Requirement → Inputs → ℕ → Verdict
decide environment job requirement inputs now =
    first_match (gate_checks environment job requirement inputs)
      (first_match (timing_checks requirement inputs now) (verdict eligible eligible_now))

-- The map of `confirmExecutionStart` from a reason to the reason of the refusal.
unfoldable pub start_reason : Reason → StartReason
start_reason wait_capacity = rejected_capacity
start_reason wait_off_duty = rejected_duty
start_reason wait_maintenance = rejected_company_state
start_reason wait_holiday = rejected_company_state
start_reason wait_night = rejected_company_state
start_reason wait_qualification = rejected_workforce
start_reason deny_workforce = rejected_workforce
start_reason wait_approval = rejected_approval
start_reason wait_not_before = rejected_not_before
start_reason wait_dependency = rejected_dependency
start_reason hold_security = rejected_hold
start_reason hold_policy = rejected_hold
start_reason hold_owner = rejected_hold
start_reason hold_maintenance = rejected_hold
start_reason deny_authority_missing = rejected_authority
start_reason deny_delegation_invalid = rejected_delegation
start_reason deny_environment = rejected_environment
start_reason deny_resource_ineligible = rejected_resource
start_reason deny_company_state = rejected_company_state
start_reason deny_input_invalid = rejected_input_invalid
start_reason eligible_now = rejected_input_invalid
