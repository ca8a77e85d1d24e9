-- ===== src/Incident/Examples/State.antt =====
-- Two incidents and what they mean for the company (packages/contracts/src/incident-v1.js).
use pixel_hq_oss.Common.{◌≡◌, ◌↔◌, [], ◌∷◌, ◌++◌, Memᴰ, text}
use pixel_hq_oss.Incident.Names.{Incident}
use pixel_hq_oss.Incident.CompanyState.{derived_company_state, degraded_resource_refs}
use pixel_hq_oss.Incident.CompanyState.Order.{
  rank, worst_rank, derived_company_state-rank, derived_company_state-append_comm,
}
use pixel_hq_oss.Incident.CompanyState.Degraded.{IsDegrading, degraded_resource_refs-contains}
use pixel_hq_oss.Incident.Examples.{first_incident, other_incident}

derived_company_state-rank_example :
    rank (derived_company_state (first_incident ∷ other_incident ∷ []))
    ≡ worst_rank (first_incident ∷ other_incident ∷ [])
derived_company_state-rank_example =
    derived_company_state-rank (first_incident ∷ other_incident ∷ [])

derived_company_state-append_comm_example :
    derived_company_state ((first_incident ∷ []) ++ (other_incident ∷ []))
    ≡ derived_company_state ((other_incident ∷ []) ++ (first_incident ∷ []))
derived_company_state-append_comm_example =
    derived_company_state-append_comm (first_incident ∷ []) (other_incident ∷ [])

degraded_resource_refs-contains_example :
    Memᴰ (text "rack.1") (degraded_resource_refs (first_incident ∷ other_incident ∷ [])) ↔ (
      (i : Incident) × Memᴰ i (first_incident ∷ other_incident ∷ [])
      × IsDegrading (text "rack.1") i)
degraded_resource_refs-contains_example =
    degraded_resource_refs-contains 114 (text "ack.1") (first_incident ∷ other_incident ∷ [])
