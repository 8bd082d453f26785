-- ===== src/Fsm/Explore.antt =====
-- cpp/detail/FSM/FiringFSM.cpp: the loop that builds the runtime states and transitions, by the list
-- of the product states whose transitions are still to be added.
use systemoc_syste_mo_c.Common.{
  ℕ, zero, suc, Bool, true, false, ◌&&◌, List, [], ◌∷◌, ◌++◌, ◌==◌, if◌then◌else◌,
}
use systemoc_syste_mo_c.Fsm.Outcome.{Outcome, ok, out_of_fuel, ◌>>=◌}
use systemoc_syste_mo_c.Fsm.Rule.{RuntimeFiringRule}
use systemoc_syste_mo_c.Fsm.Config.{ProdState}

-- The order of `ProdState` finds no difference.
unfoldable pub same_set : ProdState → ProdState → Bool
same_set [] [] = true
same_set [] (y ∷ ys) = false
same_set (x ∷ xs) [] = false
same_set (x ∷ xs) (y ∷ ys) = (x == y) && same_set xs ys

unfoldable pub has_state : ProdState → List ProdState → Bool
unfolding same_set
has_state p [] = false
has_state p (q ∷ st) = if same_set p q then true else has_state p st

-- `RuntimeTransition`, with the product states of the two runtime states.
pub record RuntimeTransition : Type 0 where
  pub src : ProdState
  pub firing_rule : RuntimeFiringRule
  pub dest : ProdState

-- `st` and `rts`, `ns`, and the transitions of all runtime states.
pub record Tables : Type 0 where
  pub states : List ProdState
  pub new_states : List ProdState
  pub transitions : List RuntimeTransition

-- What the loop does with one transition and its target.
unfoldable pub add_target : ProdState → RuntimeFiringRule → ProdState → Tables → Tables
unfolding has_state
add_target p fr d tb =
    let t : RuntimeTransition = record { src = p; firing_rule = fr; dest = d } in
    if has_state d tb.states
    then record tb { transitions = tb.transitions ++ (t ∷ []) }
    else record {
      states = tb.states ++ (d ∷ []);
      new_states = tb.new_states ++ (d ∷ []);
      transitions = tb.transitions ++ (t ∷ []);
    }

unfoldable pub add_targets : ProdState → List (RuntimeFiringRule × ProdState) → Tables → Tables
add_targets p [] tb = tb
add_targets p ((fr, d) ∷ ts) tb = add_targets p ts (add_target p fr d tb)

module _ (next : ProdState → Outcome (List (RuntimeFiringRule × ProdState))) where
  -- `while (!ns.empty())`
  unfoldable pub explore : ℕ → Tables → Outcome Tables
  explore zero tb = elim tb.new_states [ [] ↦ ok tb | p ∷ ns ↦ out_of_fuel ]
  explore (suc fuel) tb = elim tb.new_states [
    | [] ↦ ok tb
    | p ∷ ns ↦ do ts ← next p; explore fuel (add_targets p ts (record tb { new_states = ns }))
  ]

  -- The tables when the loop begins.
  unfoldable pub start : ProdState → Tables
  start p = record { states = p ∷ []; new_states = p ∷ []; transitions = [] }
