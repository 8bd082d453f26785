-- ===== src/Fsm/Lowest.antt =====
-- `getTopState` finds the lowest state above a source that has all targets below it.
use systemoc_syste_mo_c.Common.{
  ◌≡◌, refl, ap, subst, ◌∙◌, sym, inl, inr, Bool, true, false, ◌||◌, List, [], ◌∷◌, ◌++◌,
  if◌then◌else◌, Bool-cases, All,
}
use systemoc_syste_mo_c.Fsm.Outcome.{
  Outcome, ok, modeling_error, assertion_failed, inter_partition_transition,
}
use systemoc_syste_mo_c.Fsm.State.{
  firing_state, and_state, xor_state, StateImpl, state_impl, is_ancestor, Lineage,
}
use systemoc_syste_mo_c.Fsm.Config.{all_of, any_of, same_state, get_top_state}

-- All targets are the state itself, if it is a firing state, and else below it.
abbrev pub covers : List StateImpl → StateImpl → Bool
covers d (state_impl firing_state i n cd b p c) =
    all_of (same_state (state_impl firing_state i n cd b p c)) d
covers d (state_impl and_state i n cd b p c) =
    all_of (is_ancestor (state_impl and_state i n cd b p c)) d
covers d (state_impl (xor_state t) i n cd b p c) =
    all_of (is_ancestor (state_impl (xor_state t) i n cd b p c)) d

-- An AND state has to be the source, or one of the targets.
abbrev pub may_stop : List StateImpl → Bool → StateImpl → Bool
may_stop d is_src (state_impl firing_state i n cd b p c) = true
may_stop d is_src (state_impl and_state i n cd b p c) =
    is_src || any_of (same_state (state_impl and_state i n cd b p c)) d
may_stop d is_src (state_impl (xor_state t) i n cd b p c) = true

-- Whether the source is passed.
abbrev pub is_source {ℓ} : {A : Type ℓ} → List A → Bool → Bool
is_source [] is_src = is_src
is_source (s ∷ below) is_src = false

-- `r` begins with the lowest state of `q` that covers the targets.
abbrev pub IsLowest : Lineage → List StateImpl → Bool → Lineage → Type 0
IsLowest q d is_src r =
    (below : Lineage) × (x : StateImpl) × (above : Lineage) × (r ≡ x ∷ above)
    × (q ≡ below ++ r)
    × All (λ s. covers d s ≡ false) below
    × (covers d x ≡ true)
    × (may_stop d (is_source below is_src) x ≡ true)

-- `getTopState` of a state, by the test that its class makes.
top_step : StateImpl → Lineage → List StateImpl → Bool → Outcome Lineage
top_step s ps d is_src =
    let up = get_top_state ps d false in
    if covers d s
    then if may_stop d is_src s then ok (s ∷ ps) else modeling_error inter_partition_transition
    else up

get_top_state-top_step :
    (s : StateImpl) (ps : Lineage) (d : List StateImpl) (is_src : Bool)
    → get_top_state (s ∷ ps) d is_src ≡ top_step s ps d is_src
unfolding get_top_state top_step
get_top_state-top_step (state_impl firing_state i n cd b p c) ps d is_src = refl
get_top_state-top_step (state_impl and_state i n cd b p c) ps d is_src = refl
get_top_state-top_step (state_impl (xor_state t) i n cd b p c) ps d is_src = refl

raise :
    (s : StateImpl) (ps r : Lineage) (d : List StateImpl) (is_src : Bool)
    → covers d s ≡ false
    → IsLowest ps d false r
    → IsLowest (s ∷ ps) d is_src r
raise s ps r d is_src c (below, x, above, er, eq, none, cx, stop) =
    (s ∷ below, x, above, er, ap (λ l. s ∷ l) eq, (c, none), cx, source_false below x d stop)
  where
    source_false :
        (below : Lineage) (x : StateImpl) (d : List StateImpl)
        → may_stop d (is_source below false) x ≡ true
        → may_stop d false x ≡ true
    source_false [] x d h = h
    source_false (s ∷ below) x d h = h

get_top_state-nil :
    (d : List StateImpl) (is_src : Bool) → get_top_state [] d is_src ≡ assertion_failed
unfolding get_top_state
get_top_state-nil d is_src = refl

-- If `getTopState` succeeds on a state with its chain of parents, it finds the lowest state of the
-- chain that covers the targets: a firing state if each target is that state, any other state if it is
-- an ancestor of each target by `isAncestor`. If this is an AND state, then it is one of the targets,
-- or the search began with it and `isSrcState` held.
pub get_top_state-IsLowest :
    (q r : Lineage) (d : List StateImpl) (is_src : Bool)
    → get_top_state q d is_src ≡ ok r
    → IsLowest q d is_src r
unfolding top_step
get_top_state-IsLowest [] r d is_src e = let stuck = sym (get_top_state-nil d is_src) ∙ e in cc
get_top_state-IsLowest (s ∷ ps) r d is_src e =
    let h : top_step s ps d is_src ≡ ok r = sym (get_top_state-top_step s ps d is_src) ∙ e in
    elim (Bool-cases (covers d s)) [
      | inr c ↦ raise s ps r d is_src c (
          get_top_state-IsLowest ps r d false (
            subst
              (λ b.
                (if b
                  then if may_stop d is_src s
                    then ok (s ∷ ps)
                    else modeling_error inter_partition_transition
                  else get_top_state ps d false)
                ≡ ok r)
              c h))
      | inl c ↦
          let k : (if may_stop d is_src s
                then ok (s ∷ ps)
                else modeling_error inter_partition_transition)
              ≡ ok r =
            subst
              (λ b.
                (if b
                  then if may_stop d is_src s
                    then ok (s ∷ ps)
                    else modeling_error inter_partition_transition
                  else get_top_state ps d false)
                ≡ ok r)
              c h in
          elim (Bool-cases (may_stop d is_src s)) [
            | inl m ↦
                let l : ok (s ∷ ps) ≡ ok r =
                  subst
                    (λ b.
                      (if b then ok (s ∷ ps) else modeling_error inter_partition_transition) ≡ ok r)
                    m k in
                let same : s ∷ ps ≡ r = cc in ([], s, ps, sym same, same, tt, c, m)
            | inr m ↦
                let l : modeling_error inter_partition_transition ≡ ok r =
                  subst
                    (λ b.
                      (if b then ok (s ∷ ps) else modeling_error inter_partition_transition) ≡ ok r)
                    m k in
                cc
          ]
    ]
