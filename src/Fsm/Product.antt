-- ===== src/Fsm/Product.antt =====
-- cpp/detail/FSM/FiringFSM.cpp: the product FSM of a hierarchy.
use systemoc_syste_mo_c.Common.{
  ℕ, Bool, true, false, not, ◌&&◌, none, List, [], ◌∷◌, ◌++◌, if◌then◌else◌,
}
use systemoc_syste_mo_c.Fsm.Outcome.{Outcome, ok, ◌>>=◌, ◌>>◌, check, deref}
use systemoc_syste_mo_c.Fsm.Rule.{RuntimeFiringRule}
use systemoc_syste_mo_c.Fsm.State.{
  StateImpl, id_of, is_ancestor, set_insert, contains, Lineage, path_to,
}
use systemoc_syste_mo_c.Fsm.Expand.{ExpandedTransition}
use systemoc_syste_mo_c.Fsm.Config.{
  ProdState, mark_states, get_initial_state, get_top_state, any_of,
}

-- `isImplied(s, p)`
abbrev pub is_implied : StateImpl → List StateImpl → Bool
is_implied s p = any_of (is_ancestor s) p

-- `isImplied(c, p)`, with the state of each condition.
unfoldable pub is_implied_all : List (StateImpl × Bool) → List StateImpl → Bool
is_implied_all [] p = true
is_implied_all ((s, neg) ∷ c) p =
    let rest = is_implied_all c p in
    if is_implied s p then if neg then false else rest else if neg then rest else false

-- The states that pointers refer to, with their parents.
unfoldable pub paths_to : StateImpl → List ℕ → Outcome (List Lineage)
paths_to top [] = ok []
paths_to top (i ∷ is) = do q ← deref (path_to i top); qs ← paths_to top is; ok (q ∷ qs)

unfoldable pub head_of : Lineage → Outcome StateImpl
head_of [] = deref none
head_of (s ∷ q) = ok s

unfoldable pub heads_of : List Lineage → Outcome (List StateImpl)
heads_of [] = ok []
heads_of (q ∷ qs) = do s ← head_of q; ss ← heads_of qs; ok (s ∷ ss)

unfoldable pub states_at : StateImpl → List ℕ → Outcome (List StateImpl)
states_at top is = do qs ← paths_to top is; heads_of qs

unfoldable pub cond_states : StateImpl → List (ℕ × Bool) → Outcome (List (StateImpl × Bool))
cond_states top [] = ok []
cond_states top ((i, neg) ∷ c) = do
  q ← deref (path_to i top)
  s ← head_of q
  rest ← cond_states top c
  ok ((s, neg) ∷ rest)

-- The loop that keeps the states that are not below `x`.
unfoldable pub keep_others : StateImpl → List StateImpl → ProdState → Outcome ProdState
keep_others x [] d = ok d
keep_others x (s ∷ ss) d =
    let below = keep_others x ss d in
    let kept = keep_others x ss (set_insert (id_of s) d) in
    if is_ancestor x s then below else (check (not (contains (id_of s) d)) >> kept)

-- The target of a transition that is taken in a product state.
unfoldable pub target : StateImpl → ExpandedTransition → List StateImpl → Outcome ProdState
target top t s = do
  src ← deref (path_to t.src top)
  dest ← paths_to top t.dest
  ds ← heads_of dest
  q ← get_top_state src ds true
  x ← head_of q
  d ← get_initial_state x (mark_states dest []) []
  keep_others x s d

unfoldable pub is_enabled : StateImpl → ExpandedTransition → List StateImpl → Outcome Bool
is_enabled top t s = do
  q ← deref (path_to t.src top)
  src ← head_of q
  conds ← cond_states top t.conds
  ok (is_implied src s && is_implied_all conds s)

-- The transitions that leave a product state: the body of the loop over `etl`, without the tables.
unfoldable pub transitions_from :
    StateImpl → List ExpandedTransition → ProdState → Outcome (List (RuntimeFiringRule × ProdState))
transitions_from top [] p = ok []
transitions_from top (t ∷ etl) p = do
  s ← states_at top p
  b ← is_enabled top t s
  now ← (if b then (target top t s >>= λ d. ok ((t.firing_rule, d) ∷ [])) else ok [])
  rest ← transitions_from top etl p
  ok (now ++ rest)
