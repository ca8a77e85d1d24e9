-- ===== src/Incident/CompanyState/Degraded.antt =====
-- Membership in `degradedResourceRefsForIncidents` of
-- packages/contracts/src/incident-v1.js.
use pixel_hq_oss.Common.{
  ℕ, ◌≡◌, ap, Bool, true, ◌&&◌, ◌||◌, List, [], ◌∷◌, ◌++◌, arith, Text, same_text, same_text_iff,
  contains, contains_iff, add_to_set, any_of, any_of_iff, Memᴰ, ◌↔◌, ◌⊎◌, text, str, is_text_iff,
}
use pixel_hq_oss.Incident.Names.{Incident, open_status}
use pixel_hq_oss.Incident.CompanyState.{
  is_open, is_degrading, add_refs, degraded_from, degraded_resource_refs,
}

contains-append :
    (r t : Text) (refs : List Text)
    → contains r (refs ++ (t ∷ [])) ≡ (contains r refs || same_text r t)
unfolding contains
contains-append r t [] = ground arith
contains-append r t (u ∷ refs) = ground (arith, contains-append r t refs)

contains_same :
    (r t : Text) (refs : List Text) → same_text r t ≡ true → contains r refs ≡ contains t refs
contains_same r t refs e = ap (λ (q : Text). contains q refs) ((same_text_iff r t).0 e)

contains-add_to_set :
    (r t : Text) (refs : List Text)
    → contains r (add_to_set refs t) ≡ (contains r refs || same_text r t)
unfolding add_to_set
contains-add_to_set r t refs = ground (arith, contains-append r t refs, contains_same r t refs)

module _ (c : ℕ) (cs : Text) where
  contains-add_refs :
      (refs more : List Text)
      → contains (c ∷ cs) (add_refs refs more) ≡ (contains (c ∷ cs) refs || contains (c ∷ cs) more)
  unfolding add_refs contains same_text
  contains-add_refs refs [] = ground arith
  contains-add_refs refs ([] ∷ more) = ground (arith, contains-add_refs refs more)
  contains-add_refs refs ((d ∷ ds) ∷ more) = ground (
    arith,
    contains-add_refs (add_to_set refs (d ∷ ds)) more,
    contains-add_to_set (c ∷ cs) (d ∷ ds) refs,
  )

abbrev degrades : Text → Incident → Bool
degrades r i = is_open i.status && is_degrading i.severity && contains r i.affected_resource_refs

degraded_from-contains :
    (c : ℕ) (cs : Text) (refs : List Text) (incidents : List Incident)
    → contains (c ∷ cs) (degraded_from refs incidents)
      ≡ (contains (c ∷ cs) refs || any_of (degrades (c ∷ cs)) incidents)
unfolding degraded_from
degraded_from-contains c cs refs [] = ground arith
degraded_from-contains c cs refs (i ∷ rest) = ground (
  arith,
  degraded_from-contains c cs refs rest,
  degraded_from-contains c cs (add_refs refs i.affected_resource_refs) rest,
  contains-add_refs c cs refs i.affected_resource_refs,
)

degraded_resource_refs-any :
    (c : ℕ) (cs : Text) (incidents : List Incident)
    → contains (c ∷ cs) (degraded_resource_refs incidents) ≡ any_of (degrades (c ∷ cs)) incidents
unfolding degraded_resource_refs contains
degraded_resource_refs-any c cs incidents = degraded_from-contains c cs [] incidents

-- The incident is open, of severity SEV-2 or worse, and affects the resource.
pub record IsDegrading (r : Text) (i : Incident) : Type 0 where
  pub open_now : i.status ≡ open_status
  pub severe :
      (i.severity ≡ str (text "SEV-0"))
      ⊎ (i.severity ≡ str (text "SEV-1"))
      ⊎ (i.severity ≡ str (text "SEV-2"))
  pub affects : Memᴰ r i.affected_resource_refs

degrades_iff : (r : Text) (i : Incident) → (degrades r i ≡ true) ↔ IsDegrading r i
degrades_iff r i = (forward, backward)
  where
    forward : degrades r i ≡ true → IsDegrading r i
    forward h = record {
      open_now = ground (arith, h);
      severe = ground (
        arith,
        h,
        is_text_iff i.severity (text "SEV-0"),
        is_text_iff i.severity (text "SEV-1"),
        is_text_iff i.severity (text "SEV-2"),
      );
      affects = (contains_iff r i.affected_resource_refs).0 (ground (arith, h));
    }

    backward : IsDegrading r i → degrades r i ≡ true
    backward d = ground (
      arith,
      d.open_now,
      d.severe,
      (contains_iff r i.affected_resource_refs).1 d.affects,
      is_text_iff i.severity (text "SEV-0"),
      is_text_iff i.severity (text "SEV-1"),
      is_text_iff i.severity (text "SEV-2"),
    )

-- A resource, whose name is not empty, is among the degraded ones exactly if some open incident of
-- severity SEV-2, SEV-1 or SEV-0 affects it.
pub degraded_resource_refs-contains :
    (c : ℕ) (cs : Text) (incidents : List Incident)
    → Memᴰ (c ∷ cs) (degraded_resource_refs incidents)
      ↔ ((i : Incident) × Memᴰ i incidents × IsDegrading (c ∷ cs) i)
degraded_resource_refs-contains c cs incidents = (forward, backward)
  where
    forward :
        Memᴰ (c ∷ cs) (degraded_resource_refs incidents)
        → (i : Incident) × Memᴰ i incidents × IsDegrading (c ∷ cs) i
    forward m =
        let found = (contains_iff (c ∷ cs) (degraded_resource_refs incidents)).1 m in
        let (i, among, e) =
          (any_of_iff (degrades (c ∷ cs)) incidents).0
            (rw (degraded_resource_refs-any c cs incidents) at found) in
        (i, among, (degrades_iff (c ∷ cs) i).0 e)

    backward :
        (i : Incident) × Memᴰ i incidents × IsDegrading (c ∷ cs) i
        → Memᴰ (c ∷ cs) (degraded_resource_refs incidents)
    backward (i, among, d) = (contains_iff (c ∷ cs) (degraded_resource_refs incidents)).0 (
        rw (degraded_resource_refs-any c cs incidents)
          ((any_of_iff (degrades (c ∷ cs)) incidents).1 (i, among, (degrades_iff (c ∷ cs) i).1 d)))
