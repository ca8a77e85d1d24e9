-- ===== src/Scheduler/Decide/Conditions.antt =====
-- The conditions of `#decide` of services/scheduler/src/scheduler-service.js in terms of the values that
-- they test.
use pixel_hq_oss.Common.{
  ℕ, ◌≡◌, refl, ap, ◌↔◌, ◌≢◌, ◌⊎◌, ◌≤◌, inl, inr, Bool, true, false, Option, none, some, arith,
  Text, text, same_text, same_text_iff, Value, str, null, undefined, is_text, is_text_iff,
  is_text_not,
}
use pixel_hq_oss.Scheduler.Decide.{
  is_incident_state, is_usable_capacity, is_too_early, capability_differs, is_missing,
}

pub capability_differs_iff :
    (capability ref : Option Text)
    → (capability_differs capability ref ≡ false)
      ↔ ((capability ≡ none) ⊎ ((c : Text) × (capability ≡ some c) × (ref ≡ some c)))
capability_differs_iff none ref = (λ h. inl refl, λ h. refl)
capability_differs_iff (some c) none =
    (λ h. absurd (ground (arith, h)), λ h. elim h [ inl e ↦ cc | inr (d, e, f) ↦ cc ])
capability_differs_iff (some c) (some r) = (
  λ h. inr (c, refl, ap (λ (t : Text). some t) ((same_text_iff r c).0 (ground (arith, h)))),
  λ h. elim h [ inl e ↦ cc | inr (d, e, f) ↦ ground (arith, e, f, same_text_iff r c) ],
)

pub guarded_iff :
    (needed : Bool) (v : Value) (t : Text)
    → (needed ≡ true → is_text v t ≡ true) ↔ ((needed ≡ false) ⊎ (v ≡ str t))
guarded_iff true v t = (
  λ h. inr ((is_text_iff v t).0 (h refl)),
  λ h e. elim h [ inl f ↦ cc | inr f ↦ (is_text_iff v t).1 f ],
)
guarded_iff false v t = (λ h. inl refl, λ h e. cc)

pub qualified_iff :
    (agent status : Value)
    → (is_missing agent ≡ false → is_text status (text "QUALIFIED") ≡ true)
      ↔ ((agent ≡ null) ⊎ (agent ≡ undefined) ⊎ (status ≡ str (text "QUALIFIED")))
qualified_iff null status = (λ h. inl refl, λ h e. cc)
qualified_iff undefined status = (λ h. inr (inl refl), λ h e. cc)
qualified_iff _ status = (
  λ h. inr (inr ((is_text_iff status (text "QUALIFIED")).0 (h refl))),
  λ h e. elim h [
    | inl f ↦ cc
    | inr (inl f) ↦ cc
    | inr (inr f) ↦ (is_text_iff status (text "QUALIFIED")).1 f
  ],
)

pub contained_iff :
    (state : Value) (containment : Bool)
    → (is_incident_state state ≡ true → containment ≡ true) ↔ (
        (containment ≡ true)
        ⊎ ((state ≢ str (text "SURVIVAL"))
            × (state ≢ str (text "SECURITY_INCIDENT"))
            × (state ≢ str (text "INFRASTRUCTURE_OR_ENVIRONMENT_INCIDENT"))))
contained_iff state true = (λ h. inl refl, λ h e. refl)
contained_iff state false = (
  λ h. inr (
    (is_text_not state (text "SURVIVAL")).0 (ground (arith, h)),
    (is_text_not state (text "SECURITY_INCIDENT")).0 (ground (arith, h)),
    (is_text_not state (text "INFRASTRUCTURE_OR_ENVIRONMENT_INCIDENT")).0 (ground (arith, h)),
  ),
  λ h e. elim h [
    | inl f ↦ cc
    | inr (a, b, c) ↦ ground (
      arith,
      e,
      (is_text_not state (text "SURVIVAL")).1 a,
      (is_text_not state (text "SECURITY_INCIDENT")).1 b,
      (is_text_not state (text "INFRASTRUCTURE_OR_ENVIRONMENT_INCIDENT")).1 c,
    )
  ],
)

pub is_usable_capacity_iff :
    (v : Value)
    → (is_usable_capacity v ≡ true) ↔ (
        (v ≡ str (text "AVAILABLE"))
        ⊎ (v ≡ str (text "LIGHT"))
        ⊎ (v ≡ str (text "NORMAL"))
        ⊎ (v ≡ str (text "HIGH")))
is_usable_capacity_iff v =
    let a = is_text_iff v (text "AVAILABLE") in
    let b = is_text_iff v (text "LIGHT") in
    let c = is_text_iff v (text "NORMAL") in
    let d = is_text_iff v (text "HIGH") in
    (λ h. ground (arith, h, a, b, c, d), λ h. ground (arith, h, a, b, c, d))

pub usable_there :
    (v : Value)
    → (v ≡ str (text "AVAILABLE"))
      ⊎ (v ≡ str (text "LIGHT"))
      ⊎ (v ≡ str (text "NORMAL"))
      ⊎ (v ≡ str (text "HIGH"))
    → is_text v (text "UNAVAILABLE") ≡ false
unfolding same_text
usable_there v (inl e) = rw e refl
usable_there v (inr (inl e)) = rw e refl
usable_there v (inr (inr (inl e))) = rw e refl
usable_there v (inr (inr (inr e))) = rw e refl

pub is_too_early_iff :
    (o : Option ℕ) (now : ℕ)
    → (is_too_early o now ≡ false) ↔ ((o ≡ none) ⊎ ((t : ℕ) × (o ≡ some t) × (t ≤ now)))
is_too_early_iff none now = (λ h. inl refl, λ h. refl)
is_too_early_iff (some t) now = (
  λ h. inr (t, refl, ground (arith, h)),
  λ h. elim h [ inl e ↦ cc | inr (u, e, f) ↦ ground (arith, e, f) ],
)
