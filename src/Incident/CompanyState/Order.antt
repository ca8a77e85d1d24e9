-- ===== src/Incident/CompanyState/Order.antt =====
-- `derivedCompanyStateForIncidents` of packages/contracts/src/incident-v1.js,
-- by ranks.
use Prim.Native.Nat.{min}
use pixel_hq_oss.Common.{ℕ, ◌≤◌, ◌≡◌, Option, none, some, List, [], ◌∷◌, ◌++◌, arith, if◌then◌else◌}
use pixel_hq_oss.Incident.Names.{Incident}
use pixel_hq_oss.Incident.CompanyState.{
  CompanyState, survival, security_incident, infrastructure_or_environment_incident, precedence,
  is_open, take_worse, derived_incident_company_state, worst_from, derived_company_state,
}

-- Lower is worse; 3 stands for no incident state.
abbrev pub rank : Option CompanyState → ℕ
rank none = 3
rank (some s) = precedence s

-- What one incident contributes.
abbrev pub incident_rank : Incident → ℕ
incident_rank i = if is_open i.status then rank (derived_incident_company_state i) else 3

-- The worst rank, by a recursion that has no order of its own.
abbrev pub worst_rank : List Incident → ℕ
worst_rank [] = 3
worst_rank (i ∷ rest) = min (incident_rank i) (worst_rank rest)

rank-le : (s : Option CompanyState) → rank s ≤ 3
rank-le none = omega arith
rank-le (some survival) = omega arith
rank-le (some security_incident) = omega arith
rank-le (some infrastructure_or_environment_incident) = omega arith

rank_injective : (a b : Option CompanyState) → rank a ≡ rank b → a ≡ b
rank_injective a b h = ground arith

take_worse-rank :
    (best s : Option CompanyState) → rank (take_worse best s) ≡ min (rank best) (rank s)
take_worse-rank none s = ground arith
take_worse-rank (some b) none = ground (arith, rank-le (some b))
take_worse-rank (some b) (some s) = ground arith

worst_from-rank :
    (best : Option CompanyState) (xs : List Incident)
    → rank (worst_from best xs) ≡ min (rank best) (worst_rank xs)
unfolding worst_from
worst_from-rank best [] = omega (arith, rank-le best)
worst_from-rank best (i ∷ rest) = ground (
  arith,
  rank-le best,
  take_worse-rank best (derived_incident_company_state i),
  worst_from-rank best rest,
  worst_from-rank (take_worse best (derived_incident_company_state i)) rest,
)

worst_rank-le : (xs : List Incident) → worst_rank xs ≤ 3
worst_rank-le [] = omega arith
worst_rank-le (i ∷ rest) = omega (arith, worst_rank-le rest)

-- The derived company state has the worst rank among the open incidents, and is `none` (rank 3)
-- exactly when no open incident derives a state.
pub derived_company_state-rank :
    (xs : List Incident) → rank (derived_company_state xs) ≡ worst_rank xs
unfolding derived_company_state
derived_company_state-rank xs = omega (arith, worst_from-rank none xs, worst_rank-le xs)

worst_rank-append :
    (xs ys : List Incident) → worst_rank (xs ++ ys) ≡ min (worst_rank xs) (worst_rank ys)
worst_rank-append [] ys = omega (arith, worst_rank-le ys)
worst_rank-append (i ∷ xs) ys = omega (arith, worst_rank-append xs ys)

-- The derived company state does not depend on which of two groups of incidents is read first.
pub derived_company_state-append_comm :
    (xs ys : List Incident) → derived_company_state (xs ++ ys) ≡ derived_company_state (ys ++ xs)
derived_company_state-append_comm xs ys = rank_injective _ _ (
    omega (
      arith,
      derived_company_state-rank (xs ++ ys),
      derived_company_state-rank (ys ++ xs),
      worst_rank-append xs ys,
      worst_rank-append ys xs,
    ))
