-- ===== src/Scheduler/Decide/Eligible.antt =====
-- When `#decide` of services/scheduler/src/scheduler-service.js answers
-- ELIGIBLE.
use pixel_hq_oss.Scheduler.Decide.Classes.{held_verdict-class}
use pixel_hq_oss.Common.{
  ℕ, ◌≡◌, refl, ap, ◌∙◌, ◌↔◌, ◌≢◌, ◌⊎◌, ◌≤◌, Bool, true, false, none, some, List, [], ◌∷◌, arith,
  Text, text, same_text_iff, str, null, undefined, is_text, is_text_iff, is_text_not,
}
use pixel_hq_oss.Scheduler.Contract.{eligible, eligible_now}
use pixel_hq_oss.Scheduler.Decide.{
  JobFacts, Requirement, Inputs, Verdict, verdict, gate_checks, timing_checks, first_match, decide,
  is_incident_state, is_usable_capacity, is_too_early, capability_differs, is_missing,
}
use pixel_hq_oss.Scheduler.Decide.Conditions.{
  capability_differs_iff, guarded_iff, qualified_iff, contained_iff, is_usable_capacity_iff,
  usable_there, is_too_early_iff,
}

-- No condition of the list holds.
abbrev pub NonePass : List (Bool × Verdict) → Type 0
NonePass [] = Unit
NonePass ((test, v) ∷ rest) = (test ≡ false) × NonePass rest

-- No entry of the list returns ELIGIBLE.
abbrev NoEligible : List (Bool × Verdict) → Type 0
NoEligible [] = Unit
NoEligible ((test, v) ∷ rest) = (v.decision ≢ eligible) × NoEligible rest

first_match_eligible :
    (l : List (Bool × Verdict)) (otherwise : Verdict)
    → NoEligible l
    → (first_match l otherwise).decision ≡ eligible
    → NonePass l × (otherwise.decision ≡ eligible)
unfolding first_match
first_match_eligible [] otherwise h e = (tt, e)
first_match_eligible ((true, v) ∷ rest) otherwise h e = absurd (h.0 e)
first_match_eligible ((false, v) ∷ rest) otherwise h e =
    let (none_pass, last) = first_match_eligible rest otherwise h.1 e in ((refl, none_pass), last)

first_match_pass :
    (l : List (Bool × Verdict)) (otherwise : Verdict)
    → NonePass l
    → first_match l otherwise ≡ otherwise
unfolding first_match
first_match_pass [] otherwise h = refl
first_match_pass ((test, v) ∷ rest) otherwise h = rw h.0 (first_match_pass rest otherwise h.1)

module _ (environment : Text) (job : JobFacts) (requirement : Requirement) (inputs : Inputs) where
  gates_NoEligible : NoEligible (gate_checks environment job requirement inputs)
  unfolding gate_checks
  gates_NoEligible = (
    (λ e. cc),
    (
      (λ e. cc),
      (
        (λ e. cc),
        (
          (λ e. cc),
          (
            (λ e. cc),
            (
              (λ e. cc),
              (
                (λ e. cc),
                (
                  (λ e. cc),
                  (
                    (λ e. cc),
                    (
                      (λ e. cc),
                      (
                        (λ e. cc),
                        ((λ e. cc), ((λ e. cc), ((held_verdict-class inputs.active_hold).1, tt))),
                      ),
                    ),
                  ),
                ),
              ),
            ),
          ),
        ),
      ),
    ),
  )

  timing_NoEligible : (now : ℕ) → NoEligible (timing_checks requirement inputs now)
  unfolding timing_checks
  timing_NoEligible now = (
    (λ e. cc),
    ((λ e. cc), ((λ e. cc), ((λ e. cc), ((λ e. cc), ((λ e. cc), ((λ e. cc), ((λ e. cc), tt))))))),
  )

  -- The conditions of the ladder, none of which holds.
  record PassesLadder (now : ℕ) : Type 0 where
    same_environment : environment ≡ job.environment
    capability_bound : capability_differs job.requested_capability requirement.authority_ref ≡ false
    authorized : is_text inputs.authority_state (text "ALLOW") ≡ true
    delegated :
        requirement.requires_delegation ≡ true
        → is_text inputs.delegation_state (text "VALID") ≡ true
    incident_known : inputs.incident_seam_unavailable ≡ false
    calendar_known : inputs.calendar_seam_unavailable ≡ false
    workforce_known : inputs.workforce_seam_unavailable ≡ false
    worker_eligible : inputs.workforce_globally_ineligible ≡ false
    qualified :
        is_missing inputs.workforce_agent_id ≡ false
        → is_text inputs.workforce_qualification_status (text "QUALIFIED") ≡ true
    contained :
        is_incident_state inputs.company_state ≡ true → inputs.incident_containment_eligible ≡ true
    resource_known : is_text inputs.resource_state (text "UNKNOWN") ≡ false
    resource_there : is_text inputs.resource_state (text "UNAVAILABLE") ≡ false
    capacity_there : is_text inputs.capacity (text "UNAVAILABLE") ≡ false
    capacity_usable : is_usable_capacity inputs.capacity ≡ true
    dependency_sound : is_text inputs.dependency_state (text "FAILED") ≡ false
    dependency_started : is_text inputs.dependency_state (text "PENDING") ≡ false
    dependency_free : is_text inputs.dependency_state (text "BLOCKED") ≡ false
    dependency_known : is_text inputs.dependency_state (text "UNKNOWN") ≡ false
    no_hold : inputs.active_hold ≡ none
    no_maintenance : is_text inputs.company_state (text "MAINTENANCE") ≡ false
    no_holiday : is_text inputs.company_state (text "HOLIDAY") ≡ false
    no_night : is_text inputs.company_state (text "NIGHT") ≡ false
    due : is_too_early requirement.not_before now ≡ false
    on_duty : inputs.off_duty ≡ false
    approved :
        requirement.requires_approval ≡ true
        → is_text inputs.approval_state (text "APPROVED") ≡ true

  NonePass→PassesLadder :
      (now : ℕ)
      → NonePass (gate_checks environment job requirement inputs)
      → NonePass (timing_checks requirement inputs now)
      → PassesLadder now
  unfolding gate_checks timing_checks
  NonePass→PassesLadder now g t = ground (arith, same_text_iff environment job.environment)

  PassesLadder→NonePass :
      (now : ℕ)
      → PassesLadder now
      → NonePass (gate_checks environment job requirement inputs)
        × NonePass (timing_checks requirement inputs now)
  unfolding gate_checks timing_checks
  PassesLadder→NonePass now m = ground (arith, same_text_iff environment job.environment)

  -- What must hold for work to start now, fact by fact.
  pub record MayStart (now : ℕ) : Type 0 where
    pub same_environment : environment ≡ job.environment
    pub capability_bound :
        (job.requested_capability ≡ none)
        ⊎ ((c : Text) × (job.requested_capability ≡ some c) × (requirement.authority_ref ≡ some c))
    pub authorized : inputs.authority_state ≡ str (text "ALLOW")
    pub delegated :
        (requirement.requires_delegation ≡ false) ⊎ (inputs.delegation_state ≡ str (text "VALID"))
    pub incident_known : inputs.incident_seam_unavailable ≡ false
    pub calendar_known : inputs.calendar_seam_unavailable ≡ false
    pub workforce_known : inputs.workforce_seam_unavailable ≡ false
    pub worker_eligible : inputs.workforce_globally_ineligible ≡ false
    pub qualified :
        (inputs.workforce_agent_id ≡ null)
        ⊎ (inputs.workforce_agent_id ≡ undefined)
        ⊎ (inputs.workforce_qualification_status ≡ str (text "QUALIFIED"))
    pub contained :
        (inputs.incident_containment_eligible ≡ true)
        ⊎ ((inputs.company_state ≢ str (text "SURVIVAL"))
            × (inputs.company_state ≢ str (text "SECURITY_INCIDENT"))
            × (inputs.company_state ≢ str (text "INFRASTRUCTURE_OR_ENVIRONMENT_INCIDENT")))
    pub resource_known : inputs.resource_state ≢ str (text "UNKNOWN")
    pub resource_there : inputs.resource_state ≢ str (text "UNAVAILABLE")
    pub capacity_usable :
        (inputs.capacity ≡ str (text "AVAILABLE"))
        ⊎ (inputs.capacity ≡ str (text "LIGHT"))
        ⊎ (inputs.capacity ≡ str (text "NORMAL"))
        ⊎ (inputs.capacity ≡ str (text "HIGH"))
    pub dependency_sound : inputs.dependency_state ≢ str (text "FAILED")
    pub dependency_started : inputs.dependency_state ≢ str (text "PENDING")
    pub dependency_free : inputs.dependency_state ≢ str (text "BLOCKED")
    pub dependency_known : inputs.dependency_state ≢ str (text "UNKNOWN")
    pub no_hold : inputs.active_hold ≡ none
    pub no_maintenance : inputs.company_state ≢ str (text "MAINTENANCE")
    pub no_holiday : inputs.company_state ≢ str (text "HOLIDAY")
    pub no_night : inputs.company_state ≢ str (text "NIGHT")
    pub due :
        (requirement.not_before ≡ none) ⊎ ((t : ℕ) × (requirement.not_before ≡ some t) × (t ≤ now))
    pub on_duty : inputs.off_duty ≡ false
    pub approved :
        (requirement.requires_approval ≡ false) ⊎ (inputs.approval_state ≡ str (text "APPROVED"))

  passes→may : (now : ℕ) → PassesLadder now → MayStart now
  passes→may now m = record {
    same_environment = m.same_environment;
    capability_bound =
        (capability_differs_iff job.requested_capability requirement.authority_ref).0
          m.capability_bound;
    authorized = (is_text_iff inputs.authority_state _).0 m.authorized;
    delegated =
        (guarded_iff requirement.requires_delegation inputs.delegation_state _).0 m.delegated;
    incident_known = m.incident_known;
    calendar_known = m.calendar_known;
    workforce_known = m.workforce_known;
    worker_eligible = m.worker_eligible;
    qualified =
        (qualified_iff inputs.workforce_agent_id inputs.workforce_qualification_status).0
          m.qualified;
    contained =
        (contained_iff inputs.company_state inputs.incident_containment_eligible).0 m.contained;
    resource_known = (is_text_not inputs.resource_state _).0 m.resource_known;
    resource_there = (is_text_not inputs.resource_state _).0 m.resource_there;
    capacity_usable = (is_usable_capacity_iff inputs.capacity).0 m.capacity_usable;
    dependency_sound = (is_text_not inputs.dependency_state _).0 m.dependency_sound;
    dependency_started = (is_text_not inputs.dependency_state _).0 m.dependency_started;
    dependency_free = (is_text_not inputs.dependency_state _).0 m.dependency_free;
    dependency_known = (is_text_not inputs.dependency_state _).0 m.dependency_known;
    no_hold = m.no_hold;
    no_maintenance = (is_text_not inputs.company_state _).0 m.no_maintenance;
    no_holiday = (is_text_not inputs.company_state _).0 m.no_holiday;
    no_night = (is_text_not inputs.company_state _).0 m.no_night;
    due = (is_too_early_iff requirement.not_before now).0 m.due;
    on_duty = m.on_duty;
    approved = (guarded_iff requirement.requires_approval inputs.approval_state _).0 m.approved;
  }

  may→passes : (now : ℕ) → MayStart now → PassesLadder now
  may→passes now m = record {
    same_environment = m.same_environment;
    capability_bound =
        (capability_differs_iff job.requested_capability requirement.authority_ref).1
          m.capability_bound;
    authorized = (is_text_iff inputs.authority_state _).1 m.authorized;
    delegated =
        (guarded_iff requirement.requires_delegation inputs.delegation_state _).1 m.delegated;
    incident_known = m.incident_known;
    calendar_known = m.calendar_known;
    workforce_known = m.workforce_known;
    worker_eligible = m.worker_eligible;
    qualified =
        (qualified_iff inputs.workforce_agent_id inputs.workforce_qualification_status).1
          m.qualified;
    contained =
        (contained_iff inputs.company_state inputs.incident_containment_eligible).1 m.contained;
    resource_known = (is_text_not inputs.resource_state _).1 m.resource_known;
    resource_there = (is_text_not inputs.resource_state _).1 m.resource_there;
    capacity_there = usable_there inputs.capacity m.capacity_usable;
    capacity_usable = (is_usable_capacity_iff inputs.capacity).1 m.capacity_usable;
    dependency_sound = (is_text_not inputs.dependency_state _).1 m.dependency_sound;
    dependency_started = (is_text_not inputs.dependency_state _).1 m.dependency_started;
    dependency_free = (is_text_not inputs.dependency_state _).1 m.dependency_free;
    dependency_known = (is_text_not inputs.dependency_state _).1 m.dependency_known;
    no_hold = m.no_hold;
    no_maintenance = (is_text_not inputs.company_state _).1 m.no_maintenance;
    no_holiday = (is_text_not inputs.company_state _).1 m.no_holiday;
    no_night = (is_text_not inputs.company_state _).1 m.no_night;
    due = (is_too_early_iff requirement.not_before now).1 m.due;
    on_duty = m.on_duty;
    approved = (guarded_iff requirement.requires_approval inputs.approval_state _).1 m.approved;
  }

  -- The ladder answers ELIGIBLE exactly when every fact of `MayStart` holds: no failed or unknown
  -- dependency, seam, authority, hold, duty or capacity ever lets work start.
  pub decide_eligible_iff :
      (now : ℕ)
      → ((decide environment job requirement inputs now).decision ≡ eligible) ↔ MayStart now
  unfolding decide
  decide_eligible_iff now = (forward, backward)
    where
      forward : (decide environment job requirement inputs now).decision ≡ eligible → MayStart now
      forward e =
          let (g, rest) =
            first_match_eligible (gate_checks environment job requirement inputs)
              (first_match (timing_checks requirement inputs now) (verdict eligible eligible_now))
              gates_NoEligible e in
          let (t, last) =
            first_match_eligible (timing_checks requirement inputs now)
              (verdict eligible eligible_now) (timing_NoEligible now) rest in
          passes→may now (NonePass→PassesLadder now g t)

      backward : MayStart now → (decide environment job requirement inputs now).decision ≡ eligible
      backward m =
          let (g, t) = PassesLadder→NonePass now (may→passes now m) in
          ap (λ (v : Verdict). v.decision)
            (first_match_pass (gate_checks environment job requirement inputs) _ g
              ∙ first_match_pass (timing_checks requirement inputs now) _ t)
