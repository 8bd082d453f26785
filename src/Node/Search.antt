-- ===== src/Node/Search.antt =====
-- `searchActiveTransition` finds the first transition of the current state that may fire.
use systemoc_syste_mo_c.Common.{
  ◌≡◌, refl, ap, subst, Bool, true, false, Option, none, some, List, [], ◌∷◌, ◌++◌, if◌then◌else◌,
  >>=-eq-some, All,
}
use systemoc_syste_mo_c.Node.Base.{
  State, Transition, NodeBase, World, check_transition, first_enabled, search_active_transition,
}

module _ {W : Type 0} (world : World W) where
  -- What the search of some transitions should find.
  abbrev pub IsFirst : W → List Transition → Option Transition → Type 0
  IsFirst w tl none = All (λ t. check_transition world t w ≡ some false) tl
  IsFirst w tl (some t) =
      (before after : List Transition) × (tl ≡ before ++ (t ∷ after))
      × All (λ r. check_transition world r w ≡ some false) before
      × (check_transition world t w ≡ some true)

  later :
      (w : W) (t : Transition) (tl : List Transition) (found : Option Transition)
      → check_transition world t w ≡ some false
      → IsFirst w tl found
      → IsFirst w (t ∷ tl) found
  later w t tl none c h = (c, h)
  later w t tl (some r) c (before, after, e, h, k) =
      (t ∷ before, after, ap (λ l. t ∷ l) e, (c, h), k)

  after_check :
      (t : Transition) (tl : List Transition) (w : W) (found : Option Transition) (b : Bool)
      → (first_enabled world tl w ≡ some found → IsFirst w tl found)
      → check_transition world t w ≡ some b
      → (if b then some (some t) else first_enabled world tl w) ≡ some found
      → IsFirst w (t ∷ tl) found
  after_check t tl w found true rest c h =
      let same : some t ≡ found = cc in subst (IsFirst w (t ∷ tl)) same ([], tl, refl, tt, c)
  after_check t tl w found false rest c h = later w t tl found c (rest h)

  first_enabled-IsFirst :
      (tl : List Transition) (w : W) (found : Option Transition)
      → first_enabled world tl w ≡ some found
      → IsFirst w tl found
  unfolding first_enabled
  first_enabled-IsFirst [] w found e = let same : none ≡ found = cc in subst (IsFirst w []) same tt
  first_enabled-IsFirst (t ∷ tl) w found e =
      let (b, h1, h2) = >>=-eq-some (check_transition world t w) _ e in
      after_check t tl w found b (λ h. first_enabled-IsFirst tl w found h) h1 h2

  -- If `searchActiveTransition` succeeds, the node's `ct` is the first transition of its current state
  -- whose check holds, all earlier ones having failed it, or null if all transitions fail it.
  pub search_active_transition-IsFirst :
      (n m : NodeBase) (w : W)
      → search_active_transition world n w ≡ some m
      → (s : State) × (n.current_state ≡ some s) × IsFirst w s.transitions m.ct
  unfolding search_active_transition
  search_active_transition-IsFirst n m w e =
      let (s, h1, h2) = >>=-eq-some n.current_state _ e in
      let (t, h3, h4) = >>=-eq-some (first_enabled world s.transitions w) _ h2 in
      let same : record n { ct = t } ≡ m = cc in
      (
        s,
        h1,
        subst (IsFirst w s.transitions) (ap (λ (k : NodeBase). k.ct) same)
            (first_enabled-IsFirst s.transitions w t h3),
      )
