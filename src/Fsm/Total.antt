-- ===== src/Fsm/Total.antt =====
-- `before_end_of_elaboration` ends: its loop over product states takes each set of states at most
-- once.
use mathlib.Core.List.{Memᴰ}
use mathlib.Core.List.Memᴰ
use systemoc_syste_mo_c.Common.{
  ℕ, ◌≢◌, sym, subst, inl, inr, Bool, true, false, not, List, [], ◌∷◌, if◌then◌else◌, Bool-cases,
  All, All-append, ◌<◌, ◌^◌, arith,
}
use systemoc_syste_mo_c.Fsm.Outcome.{Outcome, ok, out_of_fuel, ◌>>=◌, check, deref}
use systemoc_syste_mo_c.Fsm.Rule.{RuntimeFiringRule}
use systemoc_syste_mo_c.Fsm.State.{
  StateImpl, state_impl, id_of, is_ancestor, set_insert, contains, Lineage, path_to,
}
use systemoc_syste_mo_c.Fsm.Expand.{ExpandedTransition}
use systemoc_syste_mo_c.Fsm.Config.{ProdState, mark_states, get_initial_state, get_top_state}
use systemoc_syste_mo_c.Fsm.Product.{
  paths_to, head_of, heads_of, states_at, cond_states, keep_others, target, is_enabled,
  transitions_from,
}
use systemoc_syste_mo_c.Fsm.Explore.{explore, start}
use systemoc_syste_mo_c.Fsm.Ends.{explore-ends}
use systemoc_syste_mo_c.Fsm.Sets.{
  IsSetFrom, set_insert-IsSetFrom, subsets, subsets-IsSetFrom, length-subsets,
}
use systemoc_syste_mo_c.Fsm.Targets.{
  Gives, Any, Gives->>=, Gives-deref, Gives-check, IdsBelow, IsProd, get_initial_state-IsProd,
  path_to-IdsBelow, get_top_state-IdsBelow,
}

module _ (m : ℕ) where
  HasIds : Lineage → Type 0
  HasIds q = All (IdsBelow m) q

  head_of-IdsBelow : (q : Lineage) → HasIds q → Gives (IdsBelow m) (head_of q)
  unfolding head_of HasIds
  head_of-IdsBelow [] h = tt
  head_of-IdsBelow (s ∷ q) h = h.0

  id_of-IdsBelow : (s : StateImpl) → IdsBelow m s → id_of s < m
  unfolding IdsBelow id_of
  id_of-IdsBelow (state_impl k i n cd b p c) h = h.0

  keep_others-IsProd :
      (x : StateImpl) (ss : List StateImpl) (d : ProdState)
      → All (IdsBelow m) ss
      → IsProd m d
      → Gives (IsProd m) (keep_others x ss d)
  unfolding keep_others
  keep_others-IsProd x [] d h hd = hd
  keep_others-IsProd x (s ∷ ss) d h hd = elim (Bool-cases (is_ancestor x s)) [
    | inl e ↦ rw e (keep_others-IsProd x ss d (h.1) hd)
    | inr e ↦ rw e (
        Gives->>= Any (IsProd m) (check (not (contains (id_of s) d))) _
          (Gives-check (not (contains (id_of s) d)))
          (λ u v.
            keep_others-IsProd x ss (set_insert (id_of s) d) (h.1)
              (set_insert-IsSetFrom 0 m (id_of s) d (omega arith) (id_of-IdsBelow s (h.0)) hd)))
  ]

  empty : IsProd m []
  unfolding IsSetFrom
  empty = tt

  -- What the loop's body yields.
  Targets : List (RuntimeFiringRule × ProdState) → Type 0
  Targets ts = All (λ t. IsProd m (t.1)) ts

  module _ (top : StateImpl) (below : IdsBelow m top) where
    found : (i : ℕ) → Gives HasIds (deref (path_to i top))
    unfolding HasIds
    found i = Gives-deref (All (IdsBelow m)) (path_to i top) (path_to-IdsBelow m i top below)

    paths_to-HasIds : (is : List ℕ) → Gives (All HasIds) (paths_to top is)
    unfolding paths_to
    paths_to-HasIds [] = tt
    paths_to-HasIds (i ∷ is) =
        Gives->>= HasIds (All HasIds) (deref (path_to i top)) _ (found i) (λ q hq.
          Gives->>= (All HasIds) (All HasIds) (paths_to top is) _ (paths_to-HasIds is)
            (λ qs hqs. (hq, hqs)))

    heads_of-IdsBelow : (qs : List Lineage) → All HasIds qs → Gives (All (IdsBelow m)) (heads_of qs)
    unfolding heads_of
    heads_of-IdsBelow [] h = tt
    heads_of-IdsBelow (q ∷ qs) h =
        Gives->>= (IdsBelow m) (All (IdsBelow m)) (head_of q) _ (head_of-IdsBelow q (h.0)) (λ s hs.
          Gives->>= (All (IdsBelow m)) (All (IdsBelow m)) (heads_of qs) _
            (heads_of-IdsBelow qs (h.1)) (λ ss hss. (hs, hss)))

    states_at-IdsBelow : (is : List ℕ) → Gives (All (IdsBelow m)) (states_at top is)
    unfolding states_at
    states_at-IdsBelow is =
        Gives->>= (All HasIds) (All (IdsBelow m)) (paths_to top is) _ (paths_to-HasIds is)
          heads_of-IdsBelow

    cond_states-Gives : (c : List (ℕ × Bool)) → Gives Any (cond_states top c)
    unfolding cond_states
    cond_states-Gives [] = tt
    cond_states-Gives ((i, neg) ∷ c) =
        Gives->>= HasIds Any (deref (path_to i top)) _ (found i) (λ q hq.
          Gives->>= (IdsBelow m) Any (head_of q) _ (head_of-IdsBelow q hq)
            (λ s hs. Gives->>= Any Any (cond_states top c) _ (cond_states-Gives c) (λ rest u. tt)))

    is_enabled-Gives :
        (t : ExpandedTransition) (s : List StateImpl) → Gives Any (is_enabled top t s)
    unfolding is_enabled
    is_enabled-Gives t s = Gives->>= HasIds Any (deref (path_to t.src top)) _ (found t.src) (λ q hq.
        Gives->>= (IdsBelow m) Any (head_of q) _ (head_of-IdsBelow q hq) (λ src hs.
          Gives->>= Any Any (cond_states top t.conds) _ (cond_states-Gives t.conds) (λ c u. tt)))

    target-IsProd :
        (t : ExpandedTransition) (s : List StateImpl)
        → All (IdsBelow m) s
        → Gives (IsProd m) (target top t s)
    unfolding target HasIds
    target-IsProd t s hs =
        Gives->>= HasIds (IsProd m) (deref (path_to t.src top)) _ (found t.src) (λ src hsrc.
          Gives->>= (All HasIds) (IsProd m) (paths_to top t.dest) _ (paths_to-HasIds t.dest)
            (λ dest hd.
              Gives->>= (All (IdsBelow m)) (IsProd m) (heads_of dest) _ (heads_of-IdsBelow dest hd)
                (λ ds hds.
                  Gives->>= (All (IdsBelow m)) (IsProd m) (get_top_state src ds true) _
                    (get_top_state-IdsBelow m src ds true hsrc)
                    (λ q hq.
                      Gives->>= (IdsBelow m) (IsProd m) (head_of q) _ (head_of-IdsBelow q hq)
                        (λ x hx.
                          Gives->>= (IsProd m) (IsProd m)
                            (get_initial_state x (mark_states dest []) []) _
                            (get_initial_state-IsProd m x (mark_states dest []) [] hx empty)
                            (λ d hd. keep_others-IsProd x s d hs hd))))))

    abbrev now :
        Bool → ExpandedTransition → List StateImpl → Outcome (List (RuntimeFiringRule × ProdState))
    now b t s = if b then (target top t s >>= λ d. ok ((t.firing_rule, d) ∷ [])) else ok []

    now-Targets :
        (b : Bool) (t : ExpandedTransition) (s : List StateImpl)
        → All (IdsBelow m) s
        → Gives Targets (now b t s)
    unfolding Targets
    now-Targets true t s hs =
        Gives->>= (IsProd m) Targets (target top t s) _ (target-IsProd t s hs) (λ d hd. (hd, tt))
    now-Targets false t s hs = tt

    transitions_from-Targets :
        (etl : List ExpandedTransition) (p : ProdState) → Gives Targets (transitions_from top etl p)
    unfolding transitions_from Targets
    transitions_from-Targets [] p = tt
    transitions_from-Targets (t ∷ etl) p =
        Gives->>= (All (IdsBelow m)) Targets (states_at top p) _ (states_at-IdsBelow p) (λ s hs.
          Gives->>= Any Targets (is_enabled top t s) _ (is_enabled-Gives t s) (λ b u.
            Gives->>= Targets Targets (now b t s) _ (now-Targets b t s hs) (λ l hl.
              Gives->>= Targets Targets (transitions_from top etl p) _
                (transitions_from-Targets etl p)
                (λ rest hrest. All-append (λ r. IsProd m (r.1)) l rest hl hrest))))

mem-All {ℓ} : {A : Type ℓ} (P : A → Type 0) (a : A) (l : List A) → Memᴰ a l → All P l → P a
mem-All P a [] m h = absurd (Memᴰ.not-nil m)
mem-All P a (x ∷ l) (Memᴰ.head e) h = subst P (sym e) (h.0)
mem-All P a (x ∷ l) (Memᴰ.tail m) h = mem-All P a l m (h.1)

-- The loop's body does not need fuel, and it keeps to the sets below `m`.
pub transitions_from-ends :
    (m : ℕ) (top : StateImpl) (etl : List ExpandedTransition) (p0 : ProdState)
    → IdsBelow m top
    → IsProd m p0
    → explore (transitions_from top etl) (2 ^ m) (start (transitions_from top etl) p0) ≢ out_of_fuel
unfolding Targets
transitions_from-ends m top etl p0 below h =
    subst
      (λ n.
        explore (transitions_from top etl) n (start (transitions_from top etl) p0) ≢ out_of_fuel)
      (length-subsets 0 m)
      (explore-ends (transitions_from top etl) (subsets 0 m)
        (λ p mp e. subst (Gives (Targets m)) e (transitions_from-Targets m top below etl p))
        (λ p d fr mp (ts, k, r). subsets-IsSetFrom 0 m d (
          subst (λ n. IsSetFrom 0 n d) (omega arith)
            (mem-All (λ t. IsProd m (t.1)) (fr, d) ts r
              (subst (Gives (Targets m)) k (transitions_from-Targets m top below etl p)))))
        p0 (subsets-IsSetFrom 0 m p0 (subst (λ n. IsSetFrom 0 n p0) (omega arith) h)))
