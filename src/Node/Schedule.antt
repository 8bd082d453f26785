-- ===== src/Node/Schedule.antt =====
-- `schedule`: the state that it enters, the listeners there, and the transition that it finds next.
use systemoc_syste_mo_c.Common.{
  ◌≡◌, refl, sym, ap, subst, ◌∙◌, inl, inr, Bool, true, false, not, Option, none, some,
  if◌then◌else◌, check, >>=-eq-some, some_pair, Bool-cases,
}
use systemoc_syste_mo_c.Node.Base.{
  State, Transition, NodeBase, World, is_some, set_current_state, check_transition, first_enabled,
  search_active_transition, schedule,
}
use systemoc_syste_mo_c.Node.Listeners.{
  IsListener, wants, set_current_state-IsListener, set_current_state-id,
}

executing-IsListener :
    (b : Bool) (n : NodeBase) → IsListener n → IsListener (record n { executing = b })
unfolding IsListener wants
executing-IsListener b n h = h

ct-IsListener :
    (t : Option Transition) (n : NodeBase) → IsListener n → IsListener (record n { ct = t })
unfolding IsListener wants
ct-IsListener t n h = h

check-true : (b : Bool) {u : Unit {0}} → check b ≡ some u → b ≡ true
check-true true e = refl
check-true false e = cc

module _ {W : Type 0} (world : World W) where
  -- The node after `schedule` with the transition `t`, in the state `v` of its surroundings.
  abbrev pub Enters : Transition → W → NodeBase → Type 0
  Enters t v r =
      IsListener r
      × (r.executing ≡ false)
      × (s : State) × (r.current_state ≡ some s)
      × (s.id ≡ (world.state_at t.dest).id)
      × (r.use_activation_callback ≡ true → first_enabled world s.transitions v ≡ some r.ct)
      × (r.use_activation_callback ≡ false → r.ct ≡ none)

  Enters-searched :
      (t : Transition) (s : State) (n : NodeBase) (c : Option Transition) (w : W)
      → IsListener n
      → n.executing ≡ false
      → n.current_state ≡ some s
      → s.id ≡ (world.state_at t.dest).id
      → n.use_activation_callback ≡ true
      → first_enabled world s.transitions w ≡ some c
      → Enters t w (record n { ct = c })
  Enters-searched t s n c w h x at same k f =
      (ct-IsListener c n h, x, s, at, same, (λ b. f), λ b. let clash = sym b ∙ k in cc)

  search_next :
      (t : Transition) (s : State) (n r : NodeBase) (w : W)
      → IsListener n
      → n.executing ≡ false
      → n.current_state ≡ some s
      → s.id ≡ (world.state_at t.dest).id
      → n.ct ≡ none
      → (if n.use_activation_callback then search_active_transition world n w else some n) ≡ some r
      → Enters t w r
  unfolding search_active_transition
  search_next t s n r w h x at same clear e = elim (Bool-cases n.use_activation_callback) [
    | inl k ↦
        let found =
          subst (λ b. (if b then search_active_transition world n w else some n) ≡ some r) k e in
        let (s', h1, h2) = >>=-eq-some n.current_state _ found in
        let (c, h3, h4) = >>=-eq-some (first_enabled world s'.transitions w) _ h2 in
        let state : s' ≡ s = let both = sym h1 ∙ at in cc in
        let eq : record n { ct = c } ≡ r = cc in
        subst (Enters t w) eq (
          Enters-searched t s n c w h x at same k
            (subst (λ (z : State). first_enabled world z.transitions w ≡ some c) state h3))
    | inr k ↦
        let kept : some n ≡ some r =
          subst (λ b. (if b then search_active_transition world n w else some n) ≡ some r) k e in
        let eq : n ≡ r = cc in
        subst (Enters t w) eq (h, x, s, at, same, (λ b. let clash = sym b ∙ k in cc), λ b. clear)
  ]

  module _ (action : Transition → NodeBase → W → Option (NodeBase × W)) where
    -- Let the node listen exactly to the events it should, and let what happens while a transition
    -- executes keep it so. If `schedule` succeeds, then the node's `ct` was a transition whose check
    -- holds, and its action was executed once. At its end the node is in the state that is the
    -- transition's destination, listens exactly to the events of that state if it is active and uses
    -- the activation callback and to none otherwise, and is not executing. If it uses the callback, its
    -- `ct` is what the search of the transitions of that state finds after the action, and else null.
    pub schedule-IsListener :
        (n r : NodeBase) (w v : W)
        → ((t : Transition) (a b : NodeBase) (x y : W)
            → IsListener a
            → action t a x ≡ some (b, y)
            → IsListener b)
        → IsListener n
        → schedule world action n w ≡ some (r, v)
        → (t : Transition) × (n.ct ≡ some t)
          × (check_transition world t w ≡ some true)
          × (m : NodeBase) × (action t (record n { executing = true }) w ≡ some (m, v))
          × Enters t v r
    unfolding schedule
    schedule-IsListener n r w v keeps h e =
        let (t, h1, h2) = >>=-eq-some n.ct _ e in
        let (b, h3, h4) = >>=-eq-some (check_transition world t w) _ h2 in
        let (u, h5, h6) = >>=-eq-some (check b) _ h4 in
        let (u1, h7, h8) = >>=-eq-some (check (not n.executing)) _ h6 in
        let ((n1, w1), h9, h10) = >>=-eq-some (action t (record n { executing = true }) w) _ h8 in
        let new = world.state_at t.dest in
        let n2 : NodeBase = record (set_current_state new n1) { executing = false } in
        let (u2, h11, h12) = >>=-eq-some (check (not (is_some n2.ct))) _ h10 in
        let (n3, h13, h14) =
          >>=-eq-some
            (if n2.use_activation_callback then search_active_transition world n2 w1 else some n2) _
            h12 in
        let (er, ew) = some_pair h14 in
        let ready = executing-IsListener true n h in
        let n2_listens = executing-IsListener false _ (
          set_current_state-IsListener new n1
            (keeps t (record n { executing = true }) n1 w w1 ready h9)) in
        let (s, at, same, clear) = set_current_state-id new n1 in
        (
          t,
          h1,
          subst (λ c. check_transition world t w ≡ some c) (check-true b h5) h3,
          n1,
          h9 ∙ ap (λ x. some (n1, x)) ew,
          subst (Enters t v) er (
              subst (λ x. Enters t x n3) ew
                (search_next t s n2 n3 w1 n2_listens refl at same clear h13)),
        )
