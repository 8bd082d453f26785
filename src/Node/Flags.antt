-- ===== src/Node/Flags.antt =====
-- `setActive` and `setUseActivationCallback`: they keep the listeners right.
use systemoc_syste_mo_c.Common.{
  ℕ, ◌≡◌, refl, sym, ap, subst, ◌∙◌, inl, inr, Bool, true, false, not, ◌&&◌, Option, none, some,
  ◌>>◌, check, >>=-eq-some, Option-cases,
}
use systemoc_syste_mo_c.Node.Base.{
  State, NodeBase, World, is_some, listens, notify_activation, add_listener, del_listener,
  is_listening, search_active_transition, search_and_notify, listening_changed, set_active,
  set_use_activation_callback,
}
use systemoc_syste_mo_c.Node.Listeners.{
  IsListener, wants, wants-some, wants-none, turn_to, turn_away, del_listener-frame,
  listens-nothing, quiet-IsListener, search-IsListener,
}

notify-IsListener : (b : Bool) (n : NodeBase) → IsListener n → IsListener (notify_activation b n)
unfolding IsListener wants
notify-IsListener b n h = h

-- After the node stopped to listen.
stopped :
    (s : State) (m : NodeBase)
    → m.signaling_event ≡ none
    → is_listening m ≡ false
    → ((e : ℕ) → listens e m.listening ≡ listens e s.am)
    → IsListener (del_listener s.am m)
stopped s m q l h =
    let frame = del_listener-frame s.am m q in
    quiet-IsListener (del_listener s.am m) (ap (λ (n : NodeBase). n.signaling_event) frame ∙ q)
      (ap is_listening frame ∙ l) (turn_away s m q h)

-- The condition that a change of a flag keeps: `m` is `n` but for the flags.
record SameBut (n m : NodeBase) : Type 0 where
  state : m.current_state ≡ n.current_state
  signaling : m.signaling_event ≡ n.signaling_event
  listeners : m.listening ≡ n.listening

module _ {W : Type 0} (world : World W) where
  search_and_notify-IsListener :
      (n r : NodeBase) (w : W) → IsListener n → search_and_notify world n w ≡ some r → IsListener r
  search_and_notify-IsListener n r w h e =
      let (m, h1, h2) = >>=-eq-some (search_active_transition world n w) _ e in
      let same : notify_activation (is_some m.ct) m ≡ r = cc in
      subst IsListener same
        (notify-IsListener (is_some m.ct) m (search-IsListener world n m w h h1))

  changed :
      (old new quiet : Bool) (s : State) (n m r : NodeBase) (w : W)
      → IsListener n
      → SameBut n m
      → n.current_state ≡ some s
      → is_listening n ≡ old
      → is_listening m ≡ new
      → listening_changed world old new quiet s m w ≡ some r
      → IsListener r
  unfolding IsListener
  changed true true quiet s n m r w (q, h) b c lo ln e =
      let same : m ≡ r = cc in
      subst IsListener same (
        b.signaling ∙ q,
        λ x.
            ap (listens x) b.listeners
            ∙ h x
            ∙ wants-some x s n c lo
            ∙ sym (wants-some x s m (b.state ∙ c) ln),
      )
  changed true false true s n m r w (q, h) b c lo ln e =
      let same : del_listener s.am m ≡ r = cc in
      subst IsListener same (
        stopped s m (b.signaling ∙ q) ln
          (λ x. ap (listens x) b.listeners ∙ h x ∙ wants-some x s n c lo))
  changed true false false s n m r w (q, h) b c lo ln e =
      let same : notify_activation false (del_listener s.am m) ≡ r = cc in
      subst IsListener same (
        notify-IsListener false (del_listener s.am m) (
          stopped s m (b.signaling ∙ q) ln
            (λ x. ap (listens x) b.listeners ∙ h x ∙ wants-some x s n c lo)))
  changed false true quiet s n m r w (q, h) b c lo ln e =
      search_and_notify-IsListener (add_listener s.am m) r w
        (turn_to s m (b.signaling ∙ q) (b.state ∙ c) ln
          (λ x. ap (listens x) b.listeners ∙ listens-nothing n (q, h) lo x))
        e
  changed false false quiet s n m r w (q, h) b c lo ln e =
      let same : m ≡ r = cc in
      subst IsListener same (
        quiet-IsListener m (b.signaling ∙ q) ln
          (λ x. ap (listens x) b.listeners ∙ listens-nothing n (q, h) lo x))

  -- A node without a state has no listeners, whatever its flags.
  stateless :
      (n m r : NodeBase)
      → IsListener n
      → SameBut n m
      → n.current_state ≡ none
      → some m ≡ some r
      → IsListener r
  unfolding IsListener
  stateless n m r (q, h) b c e =
      let same : m ≡ r = cc in
      subst IsListener same (
        b.signaling ∙ q,
        λ x.
            ap (listens x) b.listeners
            ∙ h x
            ∙ wants-none x n c
            ∙ sym (wants-none x m (b.state ∙ c)),
      )

  -- If `setActive` succeeds outside the signaling of an event, then a node that listened exactly to
  -- the events it should still does so: to those of its current state if it is active and uses the
  -- activation callback, and to none otherwise.
  pub set_active-IsListener :
      (flag : Bool) (n r : NodeBase) (w : W)
      → IsListener n
      → set_active world flag n w ≡ some r
      → IsListener r
  unfolding set_active
  set_active-IsListener flag n r w h e =
      let m : NodeBase = record n { active = flag } in
      let same : SameBut n m = record { state = refl; signaling = refl; listeners = refl } in
      let family : Option State → Type 0 = λ o.
        elim o [
          | none ↦ some m
          | some s ↦ do
            check (not (not (is_listening n) && is_listening m && m.executing))
            listening_changed world (is_listening n) (is_listening m) m.executing s m w
        ]
        ≡ some r in
      elim (Option-cases n.current_state) [
        | inl c ↦ stateless n m r h same c (subst family c e)
        | inr (s, c) ↦
            let (u, h1, h2) =
              >>=-eq-some (check (not (not (is_listening n) && is_listening m && m.executing))) _
                (subst family c e) in
            changed (is_listening n) (is_listening m) m.executing s n m r w h same c refl refl h2
      ]

  -- If `setUseActivationCallback` succeeds outside the signaling of an event, then a node that
  -- listened exactly to the events it should still does so.
  pub set_use_activation_callback-IsListener :
      (flag : Bool) (n r : NodeBase) (w : W)
      → IsListener n
      → set_use_activation_callback world flag n w ≡ some r
      → IsListener r
  unfolding set_use_activation_callback
  set_use_activation_callback-IsListener flag n r w h e =
      let m : NodeBase = record n { use_activation_callback = flag } in
      let same : SameBut n m = record { state = refl; signaling = refl; listeners = refl } in
      let family : Option State → Type 0 = λ o.
        elim o [
          | none ↦ some m
          | some s ↦ listening_changed world (is_listening n) (is_listening m) false s m w
        ]
        ≡ some r in
      elim (Option-cases n.current_state) [
        | inl c ↦ stateless n m r h same c (subst family c e)
        | inr (s, c) ↦
            changed (is_listening n) (is_listening m) false s n m r w h same c refl refl
              (subst family c e)
      ]
