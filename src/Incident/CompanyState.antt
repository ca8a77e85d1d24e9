-- ===== src/Incident/CompanyState.antt =====
-- What incidents mean for the company: `derivedCompanyStateForIncidents` and
-- `degradedResourceRefsForIncidents` of packages/contracts/src/incident-v1.js.
pub mod Order
pub mod Degraded
use pixel_hq_oss.Common.{
  ℕ, Bool, true, false, not, ◌&&◌, ◌||◌, Option, none, some, List, [], ◌∷◌, ◌++◌, Text, text,
  same_text, Value, is_text, ltb, add_to_set, if◌then◌else◌,
}
use pixel_hq_oss.Incident.Names.{Incident, IncidentStatus, open_status}

pub data CompanyState : Type 0 where
  survival security_incident infrastructure_or_environment_incident : CompanyState

-- `derivedIncidentCompanyState`
unfoldable pub derived_incident_company_state : Incident → Option CompanyState
derived_incident_company_state i =
    if is_text i.severity (text "SEV-0")
    then some survival
    else if is_text i.severity (text "SEV-1") && same_text i.incident_class (text "SECURITY")
    then some security_incident
    else if is_text i.severity (text "SEV-1")
        && (same_text i.incident_class (text "INFRASTRUCTURE")
            || same_text i.incident_class (text "POWER")
            || same_text i.incident_class (text "THERMAL"))
    then some infrastructure_or_environment_incident
    else none

-- `INCIDENT_STATE_PRECEDENCE`
abbrev pub precedence : CompanyState → ℕ
precedence survival = 0
precedence security_incident = 1
precedence infrastructure_or_environment_incident = 2

abbrev pub is_open : IncidentStatus → Bool
is_open open_status = true
is_open _ = false

-- `best === null || PRECEDENCE[state] < PRECEDENCE[best]`
abbrev pub is_worse : CompanyState → Option CompanyState → Bool
is_worse state none = true
is_worse state (some best) = ltb (precedence state) (precedence best)

-- One turn of the loop, on the state that the incident derives.
abbrev pub take_worse : Option CompanyState → Option CompanyState → Option CompanyState
take_worse best none = best
take_worse best (some state) = if is_worse state best then some state else best

unfoldable pub worst_from : Option CompanyState → List Incident → Option CompanyState
worst_from best [] = best
worst_from best (i ∷ rest) =
    worst_from
      (if is_open i.status then take_worse best (derived_incident_company_state i) else best) rest

-- `derivedCompanyStateForIncidents`
unfoldable pub derived_company_state : List Incident → Option CompanyState
unfolding worst_from
derived_company_state incidents = worst_from none incidents

-- The severities whose incidents degrade the resources that they affect.
abbrev pub is_degrading : Value → Bool
is_degrading v = is_text v (text "SEV-2") || is_text v (text "SEV-1") || is_text v (text "SEV-0")

-- `refs.add(ref)` for each reference that is not empty.
unfoldable pub add_refs : List Text → List Text → List Text
add_refs refs [] = refs
add_refs refs ([] ∷ rest) = add_refs refs rest
add_refs refs ((c ∷ cs) ∷ rest) = add_refs (add_to_set refs (c ∷ cs)) rest

unfoldable pub degraded_from : List Text → List Incident → List Text
degraded_from refs [] = refs
degraded_from refs (i ∷ rest) =
    degraded_from
      (if is_open i.status && is_degrading i.severity
        then add_refs refs i.affected_resource_refs
        else refs)
      rest

-- `degradedResourceRefsForIncidents`
unfoldable pub degraded_resource_refs : List Incident → List Text
unfolding degraded_from
degraded_resource_refs incidents = degraded_from [] incidents
