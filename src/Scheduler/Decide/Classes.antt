-- ===== src/Scheduler/Decide/Classes.antt =====
-- The decision classes of the reasons that services/scheduler/src/scheduler-service.js
-- gives.
use pixel_hq_oss.Common.{
  ℕ, ◌≡◌, refl, sym, ◌≢◌, ◌⊎◌, inl, inr, Bool, true, false, Option, none, some, List, [], ◌∷◌,
  arith, Text, Value,
}
use pixel_hq_oss.Scheduler.Contract.{
  eligible, wait, hold, deny, Reason, eligible_now, wait_qualification, deny_company_state,
  decision_class_for_reason, decision_class_for_confirmation,
}
use pixel_hq_oss.Scheduler.Decide.{
  JobFacts, Requirement, Inputs, Verdict, verdict, held_verdict, hold_reason, gate_checks,
  timing_checks, first_match, decide, start_reason,
}

-- Each entry returns the decision class of its reason.
abbrev ClassAgrees : List (Bool × Verdict) → Type 0
ClassAgrees [] = Unit
ClassAgrees ((test, v) ∷ rest) =
    (v.decision ≡ decision_class_for_reason v.reason_code) × ClassAgrees rest

first_match_class :
    (l : List (Bool × Verdict)) (otherwise : Verdict)
    → ClassAgrees l
    → otherwise.decision ≡ decision_class_for_reason otherwise.reason_code
    → (first_match l otherwise).decision
      ≡ decision_class_for_reason (first_match l otherwise).reason_code
unfolding first_match
first_match_class [] otherwise h e = e
first_match_class ((true, v) ∷ rest) otherwise h e = h.0
first_match_class ((false, v) ∷ rest) otherwise h e = first_match_class rest otherwise h.1 e

hold_class : (v : Value) → decision_class_for_reason (hold_reason v) ≡ hold
unfolding decision_class_for_reason
hold_class v = ground arith

pub held_verdict-class :
    (o : Option Value)
    → ((held_verdict o).decision ≡ decision_class_for_reason (held_verdict o).reason_code)
      × ((held_verdict o).decision ≢ eligible)
unfolding decision_class_for_reason
held_verdict-class none = (refl, λ e. cc)
held_verdict-class (some v) = (sym (hold_class v), λ e. cc)

module _ (environment : Text) (job : JobFacts) (requirement : Requirement) (inputs : Inputs) where
  gates_class : ClassAgrees (gate_checks environment job requirement inputs)
  unfolding gate_checks decision_class_for_reason
  gates_class = (
    refl,
    (
      refl,
      (
        refl,
        (
          refl,
          (
            refl,
            (
              refl,
              (
                refl,
                (
                  refl,
                  (
                    refl,
                    (refl, (refl, (refl, (refl, ((held_verdict-class inputs.active_hold).0, tt))))),
                  ),
                ),
              ),
            ),
          ),
        ),
      ),
    ),
  )

  timing_class : (now : ℕ) → ClassAgrees (timing_checks requirement inputs now)
  unfolding timing_checks decision_class_for_reason
  timing_class now = (refl, (refl, (refl, (refl, (refl, (refl, (refl, (refl, tt))))))))

  -- The decision of the ladder is always the decision class of the reason that it gives.
  pub decide-class :
      (now : ℕ)
      → let v = decide environment job requirement inputs now in
        v.decision ≡ decision_class_for_reason v.reason_code
  unfolding decide
  decide-class now =
      first_match_class (gate_checks environment job requirement inputs) _ gates_class (
        first_match_class (timing_checks requirement inputs now) (verdict eligible eligible_now)
          (timing_class now) (unfold decision_class_for_reason in refl))

-- The reason of a refused start is of the decision class of the reason that the ladder gave, but for
-- two reasons, for which it never is: a missing qualification, which waits, is refused with a DENY-class
-- reason, and a denied company state with a WAIT-class reason.
pub start_reason-class :
    (r : Reason)
    → r ≢ eligible_now
    → ((r ≢ wait_qualification)
        × (r ≢ deny_company_state)
        × (decision_class_for_confirmation (start_reason r) ≡ decision_class_for_reason r))
      ⊎ ((r ≡ wait_qualification)
          × (decision_class_for_reason r ≡ wait)
          × (decision_class_for_confirmation (start_reason r) ≡ deny))
      ⊎ ((r ≡ deny_company_state)
          × (decision_class_for_reason r ≡ deny)
          × (decision_class_for_confirmation (start_reason r) ≡ wait))
unfolding decision_class_for_confirmation start_reason decision_class_for_reason
start_reason-class wait_qualification h = inr (inl (refl, refl, refl))
start_reason-class deny_company_state h = inr (inr (refl, refl, refl))
start_reason-class eligible_now h = absurd (h refl)
start_reason-class _ h = inl ((λ e. cc), (λ e. cc), refl)
