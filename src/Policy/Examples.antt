-- ===== src/Policy/Examples.antt =====
-- Requests to the policies of services/policy/src.
use pixel_hq_oss.Common.{
  ◌≡◌, ◌≤◌, ◌⊎◌, ◌↔◌, refl, true, List, Memᴰ, Option, some, [], ◌∷◌, Text, text, Value, str,
  undefined,
}
use pixel_hq_oss.Policy.{
  DataRequest, finance_restricted, evaluate_data_access, restricted_scope_denied,
  evaluate_memory_context_access, evaluate_model_operation, dev_route, select_alpha_model_route,
  AppRequest, access_allowed, device_revoked, evaluate_protected_app_access,
}
use pixel_hq_oss.Policy.Allowed.{
  evaluate_protected_app_access_iff, evaluate_data_access_allowed, select_alpha_model_route_bounds,
}

-- All of the code of the component, for tests that run it.
policy_code : Unit {0}
unfolding pixel_hq_oss.Common.same_text pixel_hq_oss.Common.same_value evaluate_data_access
    evaluate_memory_context_access evaluate_model_operation select_alpha_model_route
    evaluate_protected_app_access
policy_code = tt

abbrev launch : AppRequest
launch = record {
  verification_status = str (text "verified");
  role = str (text "Principal");
  enrollment_status = str (text "enrolled");
  trust_status = str (text "trusted");
  certificate_status = str (text "valid");
  risk_posture = str (text "acceptable");
  app_id = str (text "pixel-bench");
  capability = str (text "launch");
}

revoked_launch :
    evaluate_protected_app_access (record launch { trust_status = str (text "revoked") })
    ≡ device_revoked
unfolding policy_code
revoked_launch = refl

evaluate_protected_app_access_iff_example :
    (evaluate_protected_app_access launch ≡ access_allowed) ↔ (
      (launch.verification_status ≡ str (text "verified"))
      × (launch.enrollment_status ≡ str (text "enrolled"))
      × (launch.trust_status ≡ str (text "trusted"))
      × (launch.certificate_status ≡ str (text "valid"))
      × (launch.risk_posture ≡ str (text "acceptable"))
      × (launch.role ≡ str (text "Principal"))
      × (launch.app_id ≡ str (text "pixel-bench"))
      × (launch.capability ≡ str (text "launch")))
evaluate_protected_app_access_iff_example = evaluate_protected_app_access_iff launch

abbrev finance_read : DataRequest
finance_read = record {
  subject_id = str (text "user.1");
  department = str (text "Finance & Opportunity");
  grants = some (str (text "pixel.finance:read") ∷ []);
  action = str (text "pixel.finance:read");
  domain = str (text "Finance & Opportunity");
  data_classification = str (text "RESTRICTED");
}

evaluate_data_access_allowed_example :
    (finance_read.department ≡ str (text "Finance & Opportunity"))
    × ((grants : List Value) × (finance_read.grants ≡ some grants)
        × Memᴰ finance_read.action grants)
unfolding policy_code
evaluate_data_access_allowed_example = evaluate_data_access_allowed finance_read refl refl refl

-- A requester of another department is refused restricted data of Finance & Opportunity.
foreign_read :
    evaluate_data_access (record finance_read { department = str (text "Engineering") })
    ≡ finance_restricted
unfolding policy_code
foreign_read = refl

restricted_memory :
    evaluate_memory_context_access undefined undefined
      (str (text "RESTRICTED"))
      (str (text "Systems"))
    ≡ restricted_scope_denied
unfolding policy_code
restricted_memory = refl

select_alpha_model_route_bounds_example :
    ((text "dev" ≡ text "simulation") ⊎ (text "dev" ≡ text "dev"))
    × (dev_route.source ≡ text "simulator")
    × (dev_route.max_input_token_units ≤ 512)
    × (dev_route.max_output_token_units ≤ 96)
    × (dev_route.max_output_chars ≤ 512)
unfolding policy_code
select_alpha_model_route_bounds_example =
    select_alpha_model_route_bounds (text "dev") dev_route refl
