-- ===== src/Fsm/Config.antt =====
-- Configurations: sets of active firing states. `mark` and `isMarked` of StateImpl, and
-- `getInitialState` and `getTopState` of the three kinds of states in a hierarchy
-- (cpp/detail/FSM/StateImpl, FiringStateImpl, XORStateImpl and ANDStateImpl).
use systemoc_syste_mo_c.Common.{
  ℕ, Bool, true, false, ◌&&◌, ◌||◌, Option, none, some, List, [], ◌∷◌, ◌==◌, if◌then◌else◌,
}
use systemoc_syste_mo_c.Fsm.Outcome.{
  Outcome, ok, modeling_error, assertion_failed, ◌>>=◌, deref, several_initial_states,
  inter_partition_transition,
}
use systemoc_syste_mo_c.Fsm.State.{
  firing_state, and_state, xor_state, StateImpl, state_impl, States, no_states, state_cons, id_of,
  is_ancestor, set_insert, contains, Lineage,
}

-- `ProdState` and the true entries of `Marking`: sets of states.
abbrev pub ProdState : Type 0
ProdState = List ℕ

abbrev pub Marking : Type 0
Marking = List ℕ

-- `StateImpl::mark`, along the parents.
unfoldable pub mark : Lineage → Marking → Marking
mark [] m = m
mark (s ∷ ps) m = let rest = mark ps (id_of s ∷ m) in if contains (id_of s) m then m else rest

-- `StateImpl::isMarked`
abbrev pub is_marked : StateImpl → Marking → Bool
is_marked s m = contains (id_of s) m

-- `markStates`
unfoldable pub mark_states : List Lineage → Marking → Marking
mark_states [] m = m
mark_states (q ∷ qs) m = mark_states qs (mark q m)

-- The loop of `XORStateImpl::getInitialState`.
unfoldable pub marked_child : States → Marking → Option ℕ → Outcome (Option ℕ)
marked_child no_states m t = ok t
marked_child (state_cons s ss) m none =
    let found = marked_child ss m (some (id_of s)) in
    let rest = marked_child ss m none in if is_marked s m then found else rest
marked_child (state_cons s ss) m (some t) =
    let rest = marked_child ss m (some t) in
    if is_marked s m then modeling_error several_initial_states else rest

-- `if(!t) t = init;`
abbrev pub or_init : Option ℕ → Option ℕ → Option ℕ
or_init none init = init
or_init (some t) init = some t

unfoldable mutual
  pub get_initial_state : StateImpl → Marking → ProdState → Outcome ProdState
  get_initial_state (state_impl firing_state i n cd b ptl c) m p = ok (set_insert i p)
  get_initial_state (state_impl and_state i n cd b ptl c) m p = initial_of_all c m p
  get_initial_state (state_impl (xor_state init) i n cd b ptl c) m p = do
    marked ← marked_child c m none
    t ← deref (or_init marked init)
    initial_of t c m p

  -- `t->getInitialState(p, m)`, where `t` is among the states.
  pub initial_of : ℕ → States → Marking → ProdState → Outcome ProdState
  initial_of t no_states m p = assertion_failed
  initial_of t (state_cons s ss) m p =
      let now = get_initial_state s m p in
      let rest = initial_of t ss m p in if id_of s == t then now else rest

  -- The loop of `ANDStateImpl::getInitialState`.
  pub initial_of_all : States → Marking → ProdState → Outcome ProdState
  initial_of_all no_states m p = ok p
  initial_of_all (state_cons s ss) m p = do q ← get_initial_state s m p; initial_of_all ss m q

abbrev pub all_of {ℓ} : {A : Type ℓ} → (A → Bool) → List A → Bool
all_of f [] = true
all_of f (x ∷ xs) = f x && all_of f xs

abbrev pub any_of {ℓ} : {A : Type ℓ} → (A → Bool) → List A → Bool
any_of f [] = false
any_of f (x ∷ xs) = f x || any_of f xs

abbrev pub same_state : StateImpl → StateImpl → Bool
same_state a b = id_of b == id_of a

-- `getTopState(d, isSrcState)` of a state with its parents.
unfoldable pub get_top_state : Lineage → List StateImpl → Bool → Outcome Lineage
get_top_state [] d is_src = assertion_failed
get_top_state (state_impl firing_state i n cd b ptl c ∷ ps) d is_src =
    let up = get_top_state ps d false in
    let s = state_impl firing_state i n cd b ptl c in
    if all_of (same_state s) d then ok (s ∷ ps) else up
get_top_state (state_impl (xor_state init) i n cd b ptl c ∷ ps) d is_src =
    let up = get_top_state ps d false in
    let s = state_impl (xor_state init) i n cd b ptl c in
    if all_of (is_ancestor s) d then ok (s ∷ ps) else up
get_top_state (state_impl and_state i n cd b ptl c ∷ ps) d is_src =
    let up = get_top_state ps d false in
    let s = state_impl and_state i n cd b ptl c in
    if all_of (is_ancestor s) d
    then if is_src || any_of (same_state s) d
      then ok (s ∷ ps)
      else modeling_error inter_partition_transition
    else up
