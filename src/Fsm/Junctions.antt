-- ===== src/Fsm/Junctions.antt =====
-- `expandTransition` along junctions: it ends where no junction leads back to itself.
use systemoc_syste_mo_c.Common.{
  ℕ, zero, suc, ◌<◌, ◌≢◌, subst, inl, inr, Bool, true, false, not, ◌||◌, Option, none, some, List,
  [], ◌∷◌, leb, ◌==◌, ==_iff, Bool-cases, All, arith,
}
use systemoc_syste_mo_c.Fsm.Outcome.{
  Outcome, out_of_fuel, ◌>>◌, check, demand, >>=-ends, no_target_state, target_with_conditions,
  junction_without_transition,
}
use systemoc_syste_mo_c.Fsm.Rule.{
  Guard, var, literal, mem_guard, event, token, comm, un_op, bin_op, FiringRule, RuntimeFiringRule,
  visit, runtime_firing_rule,
}
use systemoc_syste_mo_c.Fsm.State.{
  PartialTransition, MultiStateImpl, BaseStateImpl, hierarchical, multi, junction, path_to, Lineage,
}
use systemoc_syste_mo_c.Fsm.Expand.{
  ExpandedTransition, is_empty, as_state, for_each, lookup, push_expanded, expand_multi,
  expand_junction, expand_at, expand_transition,
}

check-ends : (b : Bool) → check b ≢ out_of_fuel
check-ends true e = cc
check-ends false e = cc

visit-ends : (g : Guard) (fr : RuntimeFiringRule) → visit g fr ≢ out_of_fuel
unfolding visit
visit-ends (var n) fr = λ e. cc
visit-ends (literal v) fr = λ e. cc
visit-ends (mem_guard n) fr = λ e. cc
visit-ends (event w) fr = λ e. cc
visit-ends (token p n) fr = λ e. cc
visit-ends (comm p true c r) fr = >>=-ends (check (leb c r)) _ (check-ends (leb c r)) (λ u h e. cc)
visit-ends (comm p false c r) fr =
    >>=-ends (check ((c == 0) || (c == r))) _ (check-ends ((c == 0) || (c == r))) (λ u h e. cc)
visit-ends (un_op o g) fr = visit-ends g _
visit-ends (bin_op o a b) fr = >>=-ends (visit a _) _ (visit-ends a _) (λ fa h. visit-ends b fa)

push_expanded-ends :
    (src : ℕ) (conds : List (ℕ × Bool)) (rule : FiringRule) (dest : List ℕ)
    → push_expanded src conds rule dest ≢ out_of_fuel
unfolding push_expanded runtime_firing_rule
push_expanded-ends src conds rule dest =
    >>=-ends (visit rule.guard _) _ (visit-ends rule.guard _) (λ fr h e. cc)

for_each-ends :
    (f : PartialTransition → Outcome (List ExpandedTransition)) (ptl : List PartialTransition)
    → All (λ pt. f pt ≢ out_of_fuel) ptl
    → for_each ptl f ≢ out_of_fuel
unfolding for_each
for_each-ends f [] h = λ e. cc
for_each-ends f (pt ∷ ptl) h =
    >>=-ends (f pt) _ (h.0)
      (λ now k. >>=-ends (for_each ptl f) _ (for_each-ends f ptl (h.1)) (λ rest l e. cc))

demand_then :
    (e : _) (b : Bool) (m : Outcome (List ExpandedTransition))
    → m ≢ out_of_fuel
    → (demand e b >> m) ≢ out_of_fuel
demand_then e true m h = h
demand_then e false m h = λ k. cc

expand_multi-ends :
    (m : MultiStateImpl) (src : ℕ) (conds : List (ℕ × Bool)) (rule : FiringRule)
    → expand_multi m src conds rule ≢ out_of_fuel
unfolding expand_multi
expand_multi-ends m src conds rule = demand_then no_target_state (not (is_empty m.states)) _ (
    demand_then target_with_conditions (is_empty m.cond_states) _
      (push_expanded-ends src conds rule m.states))

module _ (rank : ℕ → ℕ) where
  -- The transitions of a junction lead to states of a lower rank.
  unfoldable pub IsRanked : BaseStateImpl → Type 0
  IsRanked (hierarchical s) = Unit
  IsRanked (multi m) = Unit
  IsRanked (junction j) = All (λ (pt : PartialTransition). rank pt.dest < rank j.id) j.ptl

  abbrev RankedAt : ℕ → Option BaseStateImpl → Type 0
  RankedAt i none = Unit
  RankedAt i (some (hierarchical s)) = Unit
  RankedAt i (some (multi m)) = Unit
  RankedAt i (some (junction j)) = All (λ (pt : PartialTransition). rank pt.dest < rank i) j.ptl

  as_state-RankedAt :
      (i : ℕ) (o : Option Lineage) (rest : Option BaseStateImpl)
      → RankedAt i rest
      → RankedAt i (as_state o rest)
  as_state-RankedAt i none rest h = h
  as_state-RankedAt i (some []) rest h = h
  as_state-RankedAt i (some (s ∷ q)) rest h = tt

  lookup-RankedAt :
      (i : ℕ) (fsm : List BaseStateImpl) → All IsRanked fsm → RankedAt i (lookup i fsm)
  unfolding lookup IsRanked
  lookup-RankedAt i [] h = tt
  lookup-RankedAt i (hierarchical s ∷ bs) h =
      as_state-RankedAt i (path_to i s) (lookup i bs) (lookup-RankedAt i bs (h.1))
  lookup-RankedAt i (multi m ∷ bs) h = elim (Bool-cases (m.id == i)) [
    | inl e ↦ rw e tt
    | inr e ↦ rw e (lookup-RankedAt i bs (h.1))
  ]
  lookup-RankedAt i (junction j ∷ bs) h = elim (Bool-cases (j.id == i)) [
    | inl e ↦ rw e (
        subst (λ k. All (λ (pt : PartialTransition). rank pt.dest < rank k) j.ptl)
          ((==_iff j.id i).0 e) (h.0))
    | inr e ↦ rw e (lookup-RankedAt i bs (h.1))
  ]

  -- A rank of junctions below the fuel.
  lower_ranks :
      (i fuel : ℕ) (f : PartialTransition → Outcome (List ExpandedTransition))
      (ptl : List PartialTransition)
      → rank i < suc fuel
      → ((pt : PartialTransition) → rank pt.dest < fuel → f pt ≢ out_of_fuel)
      → All (λ (pt : PartialTransition). rank pt.dest < rank i) ptl
      → All (λ pt. f pt ≢ out_of_fuel) ptl
  lower_ranks i fuel f [] lt h r = tt
  lower_ranks i fuel f (pt ∷ ptl) lt h r =
      let low = r.0 in (h pt (omega arith), lower_ranks i fuel f ptl lt h (r.1))

  expand_at-ends :
      (fuel : ℕ) (recur : ℕ → FiringRule → Outcome (List ExpandedTransition)) (dest src : ℕ)
      (conds : List (ℕ × Bool)) (rule : FiringRule) (o : Option BaseStateImpl)
      → rank dest < suc fuel
      → ((d : ℕ) (r : FiringRule) → rank d < fuel → recur d r ≢ out_of_fuel)
      → RankedAt dest o
      → expand_at recur dest src conds rule o ≢ out_of_fuel
  unfolding expand_at expand_junction
  expand_at-ends fuel recur dest src conds rule none lt h r = λ e. cc
  expand_at-ends fuel recur dest src conds rule (some (hierarchical s)) lt h r =
      push_expanded-ends src conds rule (dest ∷ [])
  expand_at-ends fuel recur dest src conds rule (some (multi m)) lt h r =
      expand_multi-ends m src conds rule
  expand_at-ends fuel recur dest src conds rule (some (junction j)) lt h r =
      demand_then junction_without_transition (not (is_empty j.ptl)) _
        (for_each-ends _ j.ptl (lower_ranks dest fuel _ j.ptl lt (λ pt low. h pt.dest _ low) r))

  -- Let every transition of a junction lead to a state of a lower rank. Then `expandTransition` of a
  -- state whose rank is below the fuel does not run out of fuel.
  pub expand_transition-ends :
      (fsm : List BaseStateImpl)
      → All IsRanked fsm
      → (fuel dest src : ℕ) (conds : List (ℕ × Bool)) (rule : FiringRule) → rank dest < fuel
      → expand_transition fuel fsm dest src conds rule ≢ out_of_fuel
  unfolding expand_transition
  expand_transition-ends fsm ranked zero dest src conds rule lt = absurd (omega arith)
  expand_transition-ends fsm ranked (suc fuel) dest src conds rule lt =
      expand_at-ends fuel (λ d r. expand_transition fuel fsm d src conds r) dest src conds rule
        (lookup dest fsm) lt (λ d r low. expand_transition-ends fsm ranked fuel d src conds r low)
        (lookup-RankedAt dest fsm ranked)
