-- ===== src/Fsm/Elaborate.antt =====
-- cpp/detail/FSM/FiringFSM.cpp: `FiringFSM::before_end_of_elaboration`, from the states that the FSM
-- holds to its runtime states and transitions.
use systemoc_syste_mo_c.Common.{
  ℕ, Bool, true, false, some, List, [], ◌∷◌, ◌++◌, ◌==◌, if◌then◌else◌,
}
use systemoc_syste_mo_c.Fsm.Outcome.{Outcome, ok, ◌>>=◌, ◌>>◌, demand, initial_state_not_on_top}
use systemoc_syste_mo_c.Fsm.State.{
  xor_state, StateImpl, state_impl, States, no_states, state_cons, BaseStateImpl, hierarchical,
  multi, junction, id_of,
}
use systemoc_syste_mo_c.Fsm.Expand.{ExpandedTransition}
use systemoc_syste_mo_c.Fsm.Finalise.{finalise, finalise_others}
use systemoc_syste_mo_c.Fsm.Config.{ProdState, get_initial_state}
use systemoc_syste_mo_c.Fsm.Product.{transitions_from}
use systemoc_syste_mo_c.Fsm.Explore.{Tables, explore, start}

-- The states of a hierarchy that are on its top level, in the order of the set.
unfoldable pub top_level : List BaseStateImpl → States
top_level [] = no_states
top_level (hierarchical s ∷ bs) = state_cons s (top_level bs)
top_level (multi m ∷ bs) = top_level bs
top_level (junction j ∷ bs) = top_level bs

-- `initStateFound`
unfoldable pub has_init : ℕ → States → Bool
has_init i no_states = false
has_init i (state_cons s ss) = if id_of s == i then true else has_init i ss

-- The top state before it is finalised, with code 0 and 1 bit.
abbrev pub top_state : (top_id init : ℕ) → List BaseStateImpl → StateImpl
top_state top_id init states = state_impl (xor_state (some init)) top_id 0 0 1 [] (top_level states)

pub record Elaborated : Type 0 where
  pub top : StateImpl
  pub etl : List ExpandedTransition
  pub init : ProdState
  pub tables : Tables

module _ (flog2c : ℕ → ℕ) (junctions rounds : ℕ) where
  -- Everything before the loop over the product states.
  unfoldable pub prepare :
      (top_id hsinit : ℕ)
      → List BaseStateImpl
      → Outcome (StateImpl × List ExpandedTransition × ProdState)
  prepare top_id hsinit states = do
    demand initial_state_not_on_top (has_init hsinit (top_level states))
    others ← finalise_others flog2c junctions states states
    (top, etl) ← finalise flog2c junctions states 0 1 (top_state top_id hsinit states)
    psinit ← get_initial_state top [] []
    ok (top, others ++ etl, psinit)

  unfoldable pub before_end_of_elaboration :
      (top_id hsinit : ℕ) → List BaseStateImpl → Outcome Elaborated
  before_end_of_elaboration top_id hsinit states = do
    (top, etl, psinit) ← prepare top_id hsinit states
    let next = transitions_from top etl
    tb ← explore next rounds (start next psinit)
    ok (record { top = top; etl = etl; init = psinit; tables = tb })
