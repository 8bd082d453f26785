-- ===== src/Fsm/Targets.antt =====
-- The product states that the transitions lead to are sets of the ids of the hierarchy, and the body
-- of the loop needs no fuel.
use systemoc_syste_mo_c.Common.{
  ℕ, ◌<◌, subst, inl, inr, Bool, true, false, ◌||◌, Option, none, some, List, [], ◌∷◌, ◌==◌,
  Bool-cases, Option-cases, All, All-append, arith,
}
use systemoc_syste_mo_c.Fsm.Outcome.{
  Outcome, ok, modeling_error, assertion_failed, out_of_fuel, ◌>>=◌, check, deref,
}
use systemoc_syste_mo_c.Fsm.State.{
  firing_state, and_state, xor_state, StateImpl, state_impl, States, no_states, state_cons, id_of,
  is_ancestor, Lineage, path_to, path_among, first_of,
}
use systemoc_syste_mo_c.Fsm.Config.{
  ProdState, Marking, is_marked, marked_child, or_init, get_initial_state, initial_of,
  initial_of_all, all_of, any_of, same_state, get_top_state,
}
use systemoc_syste_mo_c.Fsm.Sets.{IsSetFrom, set_insert-IsSetFrom}

-- The step does not run out of fuel, and its result meets `P`.
abbrev pub Gives {ℓ} : {A : Type ℓ} → (A → Type 0) → Outcome A → Type 0
Gives P (ok a) = P a
Gives P (modeling_error e) = Unit
Gives P assertion_failed = Unit
Gives P out_of_fuel = ⊥

-- The value, if there is one, meets `P`.
abbrev pub OnSome {ℓ} : {A : Type ℓ} → (A → Type 0) → Option A → Type 0
OnSome P none = Unit
OnSome P (some a) = P a

module _ {ℓ κ} {A : Type ℓ} {B : Type κ} (P : A → Type 0) (Q : B → Type 0) where
  pub Gives->>= :
      (m : Outcome A) (f : A → Outcome B)
      → Gives P m
      → ((a : A) → P a → Gives Q (f a))
      → Gives Q (m >>= f)
  Gives->>= (ok a) f h k = k a h
  Gives->>= (modeling_error e) f h k = tt
  Gives->>= assertion_failed f h k = tt
  Gives->>= out_of_fuel f h k = absurd h

module _ {ℓ} {A : Type ℓ} (P : A → Type 0) where
  pub Gives-deref : (m : Option A) → OnSome P m → Gives P (deref m)
  Gives-deref none h = tt
  Gives-deref (some a) h = h

abbrev pub Any {ℓ} : {A : Type ℓ} → A → Type 0
Any a = Unit

pub Gives-check : (b : Bool) → Gives Any (check b)
Gives-check true = tt
Gives-check false = tt

OnSome-first_of {ℓ} :
    {A : Type ℓ} (P : A → Type 0) (x y : Option A)
    → OnSome P x
    → OnSome P y
    → OnSome P (first_of x y)
OnSome-first_of P none y hx hy = hy
OnSome-first_of P (some a) y hx hy = hx

pub Any-some {ℓ} : {A : Type ℓ} (m : Option A) → OnSome Any m
Any-some none = tt
Any-some (some a) = tt

-- Every id of the tree is below `n`.
unfoldable mutual
  pub IdsBelow : ℕ → StateImpl → Type 0
  IdsBelow m (state_impl k i n cd b p c) = (i < m) × AllIdsBelow m c

  pub AllIdsBelow : ℕ → States → Type 0
  AllIdsBelow m no_states = Unit
  AllIdsBelow m (state_cons s ss) = IdsBelow m s × AllIdsBelow m ss

module _ (m : ℕ) where
  abbrev pub IsProd : ProdState → Type 0
  IsProd p = IsSetFrom 0 m p

  marked_child-Gives : (ss : States) (k : Marking) (t : Option ℕ) → Gives Any (marked_child ss k t)
  unfolding marked_child
  marked_child-Gives no_states k t = tt
  marked_child-Gives (state_cons s ss) k none = elim (Bool-cases (is_marked s k)) [
    | inl e ↦ rw e (marked_child-Gives ss k (some (id_of s)))
    | inr e ↦ rw e (marked_child-Gives ss k none)
  ]
  marked_child-Gives (state_cons s ss) k (some t) = elim (Bool-cases (is_marked s k)) [
    | inl e ↦ rw e tt
    | inr e ↦ rw e (marked_child-Gives ss k (some t))
  ]

  mutual
    unfolding get_initial_state IdsBelow

    pub get_initial_state-IsProd :
        (s : StateImpl) (k : Marking) (p : ProdState)
        → IdsBelow m s
        → IsProd p
        → Gives IsProd (get_initial_state s k p)
    get_initial_state-IsProd (state_impl firing_state i n cd b ptl c) k p (lt, h) hp =
        set_insert-IsSetFrom 0 m i p (omega arith) lt hp
    get_initial_state-IsProd (state_impl and_state i n cd b ptl c) k p (lt, h) hp =
        initial_of_all-IsProd c k p h hp
    get_initial_state-IsProd (state_impl (xor_state init) i n cd b ptl c) k p (lt, h) hp =
        Gives->>= Any IsProd (marked_child c k none) _ (marked_child-Gives c k none) (λ marked u.
          Gives->>= Any IsProd (deref (or_init marked init)) _
            (Gives-deref Any (or_init marked init) (Any-some (or_init marked init)))
            (λ t v. initial_of-IsProd t c k p h hp))

    initial_of-IsProd :
        (t : ℕ) (ss : States) (k : Marking) (p : ProdState)
        → AllIdsBelow m ss
        → IsProd p
        → Gives IsProd (initial_of t ss k p)
    initial_of-IsProd t no_states k p h hp = tt
    initial_of-IsProd t (state_cons s ss) k p (hs, hss) hp = elim (Bool-cases (id_of s == t)) [
      | inl e ↦ rw e (get_initial_state-IsProd s k p hs hp)
      | inr e ↦ rw e (initial_of-IsProd t ss k p hss hp)
    ]

    initial_of_all-IsProd :
        (ss : States) (k : Marking) (p : ProdState)
        → AllIdsBelow m ss
        → IsProd p
        → Gives IsProd (initial_of_all ss k p)
    initial_of_all-IsProd no_states k p h hp = hp
    initial_of_all-IsProd (state_cons s ss) k p (hs, hss) hp =
        Gives->>= IsProd IsProd (get_initial_state s k p) _ (get_initial_state-IsProd s k p hs hp)
          (λ q hq. initial_of_all-IsProd ss k q hss hq)

  -- A pointer's chain of parents stays in the tree.
  mutual
    unfolding path_to IdsBelow

    pub path_to-IdsBelow :
        (i : ℕ) (s : StateImpl) → IdsBelow m s → OnSome (All (IdsBelow m)) (path_to i s)
    path_to-IdsBelow i (state_impl k j n cd b p c) h = elim (Bool-cases (j == i)) [
      | inl t ↦ rw t (h, tt)
      | inr t ↦ elim (Option-cases (path_among i c)) [
        | inl e ↦ rw t (rw e tt)
        | inr (q, e) ↦
            let rest = subst (OnSome (All (IdsBelow m))) e (path_among-IdsBelow i c (h.1)) in
            rw t (rw e (All-append (IdsBelow m) q _ rest (h, tt)))
      ]
    ]

    path_among-IdsBelow :
        (i : ℕ) (ss : States) → AllIdsBelow m ss → OnSome (All (IdsBelow m)) (path_among i ss)
    path_among-IdsBelow i no_states h = tt
    path_among-IdsBelow i (state_cons s ss) h =
        OnSome-first_of (All (IdsBelow m)) (path_to i s) (path_among i ss)
          (path_to-IdsBelow i s (h.0)) (path_among-IdsBelow i ss (h.1))

  -- So does the state that `getTopState` finds.
  pub get_top_state-IdsBelow :
      (q : Lineage) (d : List StateImpl) (b : Bool)
      → All (IdsBelow m) q
      → Gives (All (IdsBelow m)) (get_top_state q d b)
  unfolding get_top_state
  get_top_state-IdsBelow [] d b h = tt
  get_top_state-IdsBelow (state_impl firing_state i n cd bi p c ∷ ps) d b h =
      elim (Bool-cases (all_of (same_state (state_impl firing_state i n cd bi p c)) d)) [
        | inl e ↦ rw e h
        | inr e ↦ rw e (get_top_state-IdsBelow ps d false (h.1))
      ]
  get_top_state-IdsBelow (state_impl (xor_state init) i n cd bi p c ∷ ps) d b h =
      elim (Bool-cases (all_of (is_ancestor (state_impl (xor_state init) i n cd bi p c)) d)) [
        | inl e ↦ rw e h
        | inr e ↦ rw e (get_top_state-IdsBelow ps d false (h.1))
      ]
  get_top_state-IdsBelow (state_impl and_state i n cd bi p c ∷ ps) d b h =
      let s = state_impl and_state i n cd bi p c in
      elim (Bool-cases (all_of (is_ancestor s) d)) [
        | inl e ↦ elim (Bool-cases (b || any_of (same_state s) d)) [
          | inl f ↦ rw e (rw f h)
          | inr f ↦ rw e (rw f tt)
        ]
        | inr e ↦ rw e (get_top_state-IdsBelow ps d false (h.1))
      ]
