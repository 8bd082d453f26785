-- ===== src/Fsm/Expand.antt =====
-- `expandTransition` of the three kinds of targets, and the expanded transitions that it yields
-- (cpp/detail/FSM/ExpandedTransition, StateImpl, MultiStateImpl and JunctionStateImpl).
use systemoc_syste_mo_c.Common.{
  ℕ, zero, suc, Bool, true, false, not, Option, none, some, List, [], ◌∷◌, ◌++◌, ◌==◌,
  if◌then◌else◌,
}
use systemoc_syste_mo_c.Fsm.Outcome.{
  Outcome, ok, assertion_failed, out_of_fuel, ◌>>=◌, ◌>>◌, demand, no_target_state,
  target_with_conditions, junction_without_transition,
}
use systemoc_syste_mo_c.Fsm.Rule.{
  FiringRule, RuntimeFiringRule, runtime_firing_rule, and_guard, merge,
}
use systemoc_syste_mo_c.Fsm.State.{
  PartialTransition, MultiStateImpl, JunctionStateImpl, BaseStateImpl, hierarchical, multi,
  junction, path_to, Lineage,
}

-- `ExpandedTransition`
pub record ExpandedTransition : Type 0 where
  pub src : ℕ
  pub conds : List (ℕ × Bool)
  pub firing_rule : RuntimeFiringRule
  pub dest : List ℕ

abbrev pub is_empty {ℓ} : {A : Type ℓ} → List A → Bool
is_empty [] = true
is_empty (x ∷ xs) = false

-- A loop over transitions whose body appends to the list of expanded transitions.
unfoldable pub for_each :
    List PartialTransition
    → (PartialTransition → Outcome (List ExpandedTransition))
    → Outcome (List ExpandedTransition)
for_each [] f = ok []
for_each (pt ∷ ptl) f = do now ← f pt; rest ← for_each ptl f; ok (now ++ rest)

-- The first state of a chain, if there is one.
abbrev pub as_state : Option Lineage → Option BaseStateImpl → Option BaseStateImpl
as_state none rest = rest
as_state (some []) rest = rest
as_state (some (s ∷ q)) rest = some (hierarchical s)

-- The state that a pointer refers to, as its class.
unfoldable pub lookup : ℕ → List BaseStateImpl → Option BaseStateImpl
lookup i [] = none
lookup i (hierarchical s ∷ bs) = as_state (path_to i s) (lookup i bs)
lookup i (multi m ∷ bs) = let rest = lookup i bs in if m.id == i then some (multi m) else rest
lookup i (junction j ∷ bs) = let rest = lookup i bs in if j.id == i then some (junction j) else rest

-- One expanded transition, with the firing rule from `acquireFiringRule`.
unfoldable pub push_expanded :
    ℕ → List (ℕ × Bool) → FiringRule → List ℕ → Outcome (List ExpandedTransition)
push_expanded src conds rule dest = do
  fr ← runtime_firing_rule rule
  ok (record { src = src; conds = conds; firing_rule = fr; dest = dest } ∷ [])

-- `MultiStateImpl::expandTransition`
unfoldable pub expand_multi :
    MultiStateImpl → ℕ → List (ℕ × Bool) → FiringRule → Outcome (List ExpandedTransition)
expand_multi m src conds rule = do
  demand no_target_state (not (is_empty m.states))
  demand target_with_conditions (is_empty m.cond_states)
  push_expanded src conds rule m.states

-- `JunctionStateImpl::expandTransition`; `recur` is the call for the target of a transition.
unfoldable pub expand_junction :
    (recur : ℕ → FiringRule → Outcome (List ExpandedTransition))
    → JunctionStateImpl
    → FiringRule
    → Outcome (List ExpandedTransition)
expand_junction recur j rule = do
  demand junction_without_transition (not (is_empty j.ptl))
  for_each j.ptl (λ pt. recur pt.dest (record {
    guard = and_guard rule.guard pt.rule.guard;
    action = merge rule.action pt.rule.action;
  }))

-- The virtual call, by the class of the target.
unfoldable pub expand_at :
    (recur : ℕ → FiringRule → Outcome (List ExpandedTransition))
    → (dest src : ℕ) → List (ℕ × Bool)
    → FiringRule
    → Option BaseStateImpl
    → Outcome (List ExpandedTransition)
expand_at recur dest src conds rule none = assertion_failed
expand_at recur dest src conds rule (some (hierarchical s)) =
    push_expanded src conds rule (dest ∷ [])
expand_at recur dest src conds rule (some (multi m)) = expand_multi m src conds rule
expand_at recur dest src conds rule (some (junction j)) = expand_junction recur j rule

-- `dest->expandTransition(etl, src, conds, rule)`. The fuel bounds the junctions in a row.
unfoldable pub expand_transition :
    ℕ
    → List BaseStateImpl
    → (dest src : ℕ) → List (ℕ × Bool)
    → FiringRule
    → Outcome (List ExpandedTransition)
expand_transition zero fsm dest src conds rule = out_of_fuel
expand_transition (suc fuel) fsm dest src conds rule =
    expand_at (λ d r. expand_transition fuel fsm d src conds r) dest src conds rule
      (lookup dest fsm)
