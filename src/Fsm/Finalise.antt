-- ===== src/Fsm/Finalise.antt =====
-- `finalise` of the states: the codes of the states below a state, and its expanded transitions.
use systemoc_syste_mo_c.Common.{
  ℕ, suc, ◌+◌, ◌*◌, ◌%◌, ◌^◌, Bool, none, some, List, [], ◌∷◌, ◌++◌, ltb,
}
use systemoc_syste_mo_c.Fsm.Outcome.{
  Outcome, ok, modeling_error, ◌>>=◌, ◌>>◌, check, no_initial_state, not_one_source_state,
}
use systemoc_syste_mo_c.Fsm.State.{
  PartialTransition, Kind, firing_state, and_state, xor_state, StateImpl, state_impl, States,
  no_states, state_cons, MultiStateImpl, BaseStateImpl, hierarchical, multi, junction, count,
}
use systemoc_syste_mo_c.Fsm.Expand.{ExpandedTransition, for_each, expand_transition}

-- The guard of `XORStateImpl::finalise`.
unfoldable pub check_init : Kind → Outcome (Unit {0})
check_init firing_state = ok tt
check_init and_state = ok tt
check_init (xor_state none) = modeling_error no_initial_state
check_init (xor_state (some i)) = ok tt

module _ (flog2c : ℕ → ℕ) where
  -- The code of the first child, and the bits of each; `flog2c` is `CoSupport::Math::flog2c`.
  unfoldable pub child_codes : (code bits : ℕ) → States → Outcome (ℕ × ℕ)
  child_codes code bits no_states = ok (code, bits)
  child_codes code bits (state_cons s ss) =
      let cb = flog2c (count (state_cons s ss) % 2 ^ 32) in
      do check (ltb (cb + bits) 64); ok (code * 2 ^ cb % 2 ^ 64, cb + bits)

  module _ (fuel : ℕ) (fsm : List BaseStateImpl) where
    -- The loop over the transitions of a state.
    unfoldable pub expand_all :
        ℕ → List (ℕ × Bool) → List PartialTransition → Outcome (List ExpandedTransition)
    expand_all src conds ptl =
        for_each ptl (λ pt. expand_transition fuel fsm pt.dest src conds pt.rule)

    unfoldable mutual
      -- `finalise` of a state that was given `code` and `bits`: the state with the codes below it,
      -- and the transitions that it appends.
      pub finalise : (code bits : ℕ) → StateImpl → Outcome (StateImpl × List ExpandedTransition)
      finalise code bits (state_impl k i n cd b ptl c) = do
        check_init k
        (child_code, cb) ← child_codes code bits c
        (c', etl) ← finalise_children child_code cb c
        own ← expand_all i [] ptl
        ok (state_impl k i n code bits ptl c', etl ++ own)

      pub finalise_children :
          (child_code cb : ℕ) → States → Outcome (States × List ExpandedTransition)
      finalise_children child_code cb no_states = ok (no_states, [])
      finalise_children child_code cb (state_cons s ss) = do
        (s', now) ← finalise child_code cb s
        (ss', rest) ← finalise_children (suc child_code % 2 ^ 64) cb ss
        ok (state_cons s' ss', now ++ rest)

    -- `MultiStateImpl::finalise`
    unfoldable pub finalise_multi : MultiStateImpl → Outcome (List ExpandedTransition)
    finalise_multi m = elim m.ptl [
      | [] ↦ ok []
      | pt ∷ ptl ↦ elim m.states [
        | [] ↦ modeling_error not_one_source_state
        | s ∷ [] ↦ expand_all s m.cond_states m.ptl
        | s ∷ r ∷ ss ↦ modeling_error not_one_source_state
      ]
    ]

    -- The loop over the states that are in no hierarchy.
    unfoldable pub finalise_others : List BaseStateImpl → Outcome (List ExpandedTransition)
    finalise_others [] = ok []
    finalise_others (hierarchical s ∷ bs) = finalise_others bs
    finalise_others (multi m ∷ bs) = do
      now ← finalise_multi m
      rest ← finalise_others bs
      ok (now ++ rest)
    finalise_others (junction j ∷ bs) = finalise_others bs
