-- ===== src/Policy/Allowed.antt =====
-- What the policies of services/policy/src allow.
use pixel_hq_oss.Common.{
  ◌≡◌, ◌≤◌, ◌⊎◌, ◌↔◌, refl, inl, inr, true, false, some, arith, Text, text, same_text,
  same_text_iff, is_text, is_text_iff, Value, str, Bool-cases, Option, none, List, Memᴰ,
  includes-member,
}
use pixel_hq_oss.Policy.{
  DataRequest, data_allowed, grants_action, evaluate_data_access, Route, select_alpha_model_route,
  AppRequest, access_allowed, evaluate_protected_app_access,
}

not_revoked : (v : Value) → v ≡ str (text "trusted") → is_text v (text "revoked") ≡ false
unfolding same_text
not_revoked v e = rw e refl

-- An application is allowed exactly to a verified Principal who launches pixel-bench from an enrolled,
-- trusted device with a valid certificate and an acceptable risk.
pub evaluate_protected_app_access_iff :
    (r : AppRequest)
    → (evaluate_protected_app_access r ≡ access_allowed) ↔ (
        (r.verification_status ≡ str (text "verified"))
        × (r.enrollment_status ≡ str (text "enrolled"))
        × (r.trust_status ≡ str (text "trusted"))
        × (r.certificate_status ≡ str (text "valid"))
        × (r.risk_posture ≡ str (text "acceptable"))
        × (r.role ≡ str (text "Principal"))
        × (r.app_id ≡ str (text "pixel-bench"))
        × (r.capability ≡ str (text "launch")))
unfolding evaluate_protected_app_access
evaluate_protected_app_access_iff r =
    let a = is_text_iff r.verification_status (text "verified") in
    let b = is_text_iff r.enrollment_status (text "enrolled") in
    let c = is_text_iff r.trust_status (text "trusted") in
    let d = is_text_iff r.certificate_status (text "valid") in
    let e = is_text_iff r.risk_posture (text "acceptable") in
    let f = is_text_iff r.role (text "Principal") in
    let g = is_text_iff r.app_id (text "pixel-bench") in
    let h = is_text_iff r.capability (text "launch") in
    (
      λ allowed. (
        a.0 (ground (arith, allowed)),
        b.0 (ground (arith, allowed)),
        c.0 (ground (arith, allowed)),
        d.0 (ground (arith, allowed)),
        e.0 (ground (arith, allowed)),
        f.0 (ground (arith, allowed)),
        g.0 (ground (arith, allowed)),
        h.0 (ground (arith, allowed)),
      ),
      λ (verified, enrolled, trusted, valid, acceptable, role, app, capability). ground (
        arith,
        a.1 verified,
        b.1 enrolled,
        c.1 trusted,
        not_revoked r.trust_status trusted,
        d.1 valid,
        e.1 acceptable,
        f.1 role,
        g.1 app,
        h.1 capability,
      ),
    )

granted-member :
    (o : Option (List Value)) (action : Value)
    → grants_action o action ≡ true
    → (grants : List Value) × (o ≡ some grants) × Memᴰ action grants
granted-member none action h = absurd (ground (arith, h))
granted-member (some grants) action h = (grants, refl, includes-member action grants h)

-- Restricted data of Finance & Opportunity is given only to a requester of that department whose grants
-- are a list that holds the action.
pub evaluate_data_access_allowed :
    (r : DataRequest)
    → r.domain ≡ str (text "Finance & Opportunity")
    → r.data_classification ≡ str (text "RESTRICTED")
    → evaluate_data_access r ≡ data_allowed
    → (r.department ≡ str (text "Finance & Opportunity"))
      × ((grants : List Value) × (r.grants ≡ some grants) × Memᴰ r.action grants)
unfolding evaluate_data_access
evaluate_data_access_allowed r finance restricted e =
    let d = (is_text_iff r.domain (text "Finance & Opportunity")).1 finance in
    let c = (is_text_iff r.data_classification (text "RESTRICTED")).1 restricted in
    (
      (is_text_iff r.department (text "Finance & Opportunity")).0 (ground (arith, e, d, c)),
      granted-member r.grants r.action (ground (arith, e)),
    )

-- A model is only ever routed to in the environments dev and simulation, from the simulator, with at
-- most 512 token units in, 96 out and 512 characters.
pub select_alpha_model_route_bounds :
    (environment : Text) (route : Route)
    → select_alpha_model_route environment ≡ some route
    → ((environment ≡ text "simulation") ⊎ (environment ≡ text "dev"))
      × (route.source ≡ text "simulator")
      × (route.max_input_token_units ≤ 512)
      × (route.max_output_token_units ≤ 96)
      × (route.max_output_chars ≤ 512)
unfolding select_alpha_model_route
select_alpha_model_route_bounds environment route e =
    elim (Bool-cases (same_text environment (text "simulation"))) [
      | inl same ↦ (
        inl ((same_text_iff environment (text "simulation")).0 same),
        ground (arith, e, same),
        ground (arith, e, same),
        ground (arith, e, same),
        ground (arith, e, same),
      )
      | inr other ↦ elim (Bool-cases (same_text environment (text "dev"))) [
        | inl same ↦ (
          inr ((same_text_iff environment (text "dev")).0 same),
          ground (arith, e, other, same),
          ground (arith, e, other, same),
          ground (arith, e, other, same),
          ground (arith, e, other, same),
        )
        | inr neither ↦ absurd (ground (arith, e, other, neither))
      ]
    ]
