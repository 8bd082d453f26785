-- ===== src/Node/Listeners.antt =====
-- The listeners of a node: it listens exactly to the events of its current state, as long as it is
-- active and uses the activation callback.
use systemoc_syste_mo_c.Common.{
  ℕ, ◌≡◌, refl, sym, ap, subst, ◌∙◌, inl, inr, Bool, true, false, not, ◌&&◌, ◌||◌, Option, none,
  some, List, [], ◌∷◌, ◌==◌, ==_iff, if◌then◌else◌, >>=-eq-some, Bool-cases, Option-cases, arith,
}
use systemoc_syste_mo_c.Node.Base.{
  State, NodeBase, World, is_event, listens, remove, add_listener, del_listener, del_current,
  is_state, is_listening, set_current_state, first_enabled, search_active_transition,
}

listens-remove : (e x : ℕ) (l : List ℕ) → listens e (remove x l) ≡ (not (x == e) && listens e l)
unfolding listens remove
listens-remove e x [] = ground arith
listens-remove e x (y ∷ l) = let ih = listens-remove e x l in ground arith

listens_self : (e x : ℕ) (l : List ℕ) → listens x l ≡ true → (x == e) ≡ true → listens e l ≡ true
listens_self e x l h k = subst (λ y. listens y l ≡ true) ((==_iff x e).0 k) h

listens-add :
    (e x : ℕ) (l : List ℕ)
    → listens e (if listens x l then l else x ∷ l) ≡ ((x == e) || listens e l)
unfolding listens
listens-add e x l = elim (Bool-cases (listens x l)) [
  | inl h ↦ elim (Bool-cases (x == e)) [
    | inl k ↦ rw h (rw k (listens_self e x l h k))
    | inr k ↦ rw h (rw k refl)
  ]
  | inr h ↦ elim (Bool-cases (x == e)) [ inl k ↦ rw h (rw k refl) | inr k ↦ rw h (rw k refl) ]
]

listens-add_listener :
    (e : ℕ) (am : List ℕ) (n : NodeBase)
    → listens e (add_listener am n).listening ≡ (listens e am || listens e n.listening)
unfolding add_listener listens
listens-add_listener e [] n = refl
listens-add_listener e (x ∷ am) n =
    let ih =
      listens-add_listener e am
        (record n { listening = if listens x n.listening then n.listening else x ∷ n.listening }) in
    let step = listens-add e x n.listening in ground arith

listens-del_listener :
    (e : ℕ) (am : List ℕ) (n : NodeBase)
    → n.signaling_event ≡ none
    → listens e (del_listener am n).listening ≡ (not (listens e am) && listens e n.listening)
unfolding del_listener listens
listens-del_listener e [] n q = refl
listens-del_listener e (x ∷ am) n q =
    let ih = listens-del_listener e am (record n { listening = remove x n.listening }) q in
    let step = listens-remove e x n.listening in rw q (ground arith)

-- Only the listeners change.
add_listener-frame :
    (am : List ℕ) (n : NodeBase)
    → add_listener am n ≡ record n { listening = (add_listener am n).listening }
unfolding add_listener
add_listener-frame [] n = refl
add_listener-frame (x ∷ am) n =
    add_listener-frame am
      (record n { listening = if listens x n.listening then n.listening else x ∷ n.listening })

pub del_listener-frame :
    (am : List ℕ) (n : NodeBase)
    → n.signaling_event ≡ none
    → del_listener am n ≡ record n { listening = (del_listener am n).listening }
unfolding del_listener
del_listener-frame [] n q = refl
del_listener-frame (x ∷ am) n q =
    let e : is_event n.signaling_event x ≡ false = ap (λ o. is_event o x) q in
    let step : del_listener (x ∷ am) n
        ≡ del_listener am (record n { listening = remove x n.listening }) =
      ap
        (λ b. del_listener am (
          if b
          then record n { signaling_event_remove = true }
          else record n { listening = remove x n.listening }))
        e in
    subst (λ (m : NodeBase). m ≡ record n { listening = m.listening }) (sym step)
      (del_listener-frame am (record n { listening = remove x n.listening }) q)

-- Whether the node should listen to an event.
unfoldable pub wants : ℕ → NodeBase → Bool
wants e n = elim n.current_state [ none ↦ false | some s ↦ is_listening n && listens e s.am ]

-- No event is being signaled, and the node listens exactly to what it should.
unfoldable pub IsListener : NodeBase → Type 0
IsListener n = (n.signaling_event ≡ none) × ((e : ℕ) → listens e n.listening ≡ wants e n)

-- The listeners after the node has turned to the events of a state.
pub turn_to :
    (s : State) (n : NodeBase)
    → n.signaling_event ≡ none
    → n.current_state ≡ some s
    → is_listening n ≡ true
    → ((e : ℕ) → listens e n.listening ≡ false)
    → IsListener (add_listener s.am n)
unfolding IsListener wants listens
turn_to s n q c l h =
    subst IsListener (sym (add_listener-frame s.am n))
      (q, λ e. let a = listens-add_listener e s.am n in let b = h e in rw c (ground arith))

pub turn_away :
    (s : State) (n : NodeBase)
    → n.signaling_event ≡ none
    → ((e : ℕ) → listens e n.listening ≡ listens e s.am)
    → (e : ℕ) → listens e (del_listener s.am n).listening ≡ false
turn_away s n q h e = let a = listens-del_listener e s.am n q in let b = h e in ground arith

wants-quiet : (e : ℕ) (n : NodeBase) → is_listening n ≡ false → wants e n ≡ false
unfolding wants
wants-quiet e n l = elim (Option-cases n.current_state) [
  | inl c ↦ rw c refl
  | inr (s, c) ↦ rw c (rw l refl)
]

pub wants-none : (e : ℕ) (n : NodeBase) → n.current_state ≡ none → wants e n ≡ false
unfolding wants
wants-none e n c = rw c refl

pub wants-some :
    (e : ℕ) (s : State) (n : NodeBase)
    → n.current_state ≡ some s
    → is_listening n ≡ true
    → wants e n ≡ listens e s.am
unfolding wants
wants-some e s n c l = rw c (rw l refl)

-- A node without a state of its own, to which `new` is given.
abbrev with_state : State → NodeBase → NodeBase
with_state new n = record n { current_state = some new }

-- `setCurrentState` in its three cases.
set_quiet :
    (new : State) (n : NodeBase)
    → is_listening n ≡ false
    → set_current_state new n ≡ record n { current_state = some new; ct = none }
unfolding set_current_state
set_quiet new n l = rw l refl

set_same :
    (new : State) (n : NodeBase)
    → is_listening n ≡ true
    → is_state n.current_state new ≡ true
    → set_current_state new n ≡ record n { ct = none }
unfolding set_current_state
set_same new n l e = rw l (rw e refl)

set_other :
    (new : State) (n : NodeBase)
    → is_listening n ≡ true
    → is_state n.current_state new ≡ false
    → set_current_state new n
      ≡ record (add_listener new.am (with_state new (del_current n))) { ct = none }
unfolding set_current_state
set_other new n l e = rw l (rw e refl)

without_ct : (n : NodeBase) → IsListener n → IsListener (record n { ct = none })
unfolding IsListener wants
without_ct n h = h

abbrev del_of : Option State → NodeBase → NodeBase
del_of none n = n
del_of (some s) n = del_listener s.am n

del_current-del_of :
    (o : Option State) (n : NodeBase) → n.current_state ≡ o → del_current n ≡ del_of o n
del_current-del_of none n c =
    ap (λ (o : Option State). elim o [ none ↦ n | some s ↦ del_listener s.am n ]) c
del_current-del_of (some r) n c =
    ap (λ (o : Option State). elim o [ none ↦ n | some s ↦ del_listener s.am n ]) c

abbrev Left : NodeBase → NodeBase → Type 0
Left n m = (m ≡ record n { listening = m.listening }) × ((e : ℕ) → listens e m.listening ≡ false)

-- Turning from the events of the old state, if there is one, leaves no listener.
leave : (n : NodeBase) → is_listening n ≡ true → IsListener n → Left n (del_current n)
unfolding IsListener
leave n l (q, h) = elim (Option-cases n.current_state) [
  | inl c ↦ subst (Left n) (sym (del_current-del_of none n c)) (refl, λ e. h e ∙ wants-none e n c)
  | inr (s, c) ↦
      subst (Left n) (sym (del_current-del_of (some s) n c))
        (del_listener-frame s.am n q, turn_away s n q (λ e. h e ∙ wants-some e s n c l))
]

-- Outside the signaling of an event, a node that listened exactly to the events it should still
-- does so after `setCurrentState`.
pub set_current_state-IsListener :
    (new : State) (n : NodeBase) → IsListener n → IsListener (set_current_state new n)
unfolding IsListener
set_current_state-IsListener new n (q, h) = elim (Bool-cases (is_listening n)) [
  | inr l ↦
      subst IsListener (sym (set_quiet new n l))
        (q, λ e. h e ∙ wants-quiet e n l ∙ sym (wants-quiet e _ l))
  | inl l ↦ elim (Bool-cases (is_state n.current_state new)) [
    | inl e ↦ subst IsListener (sym (set_same new n l e)) (without_ct n (q, h))
    | inr e ↦
        let (frame, clear) = leave n l (q, h) in
        let sig : (del_current n).signaling_event ≡ none =
          ap (λ (m : NodeBase). m.signaling_event) frame ∙ q in
        let act : is_listening (del_current n) ≡ true = ap is_listening frame ∙ l in
        subst IsListener (sym (set_other new n l e)) (
          without_ct (add_listener new.am (with_state new (del_current n)))
            (turn_to new (with_state new (del_current n)) sig refl act clear))
  ]
]

is_state-some :
    (o : Option State) (new : State)
    → is_state o new ≡ true
    → (s : State) × (o ≡ some s) × (s.id ≡ new.id)
is_state-some none new e = cc
is_state-some (some s) new e = (s, refl, (==_iff s.id new.id).0 e)

-- The state that `setCurrentState` leaves, and its `ct`.
pub set_current_state-id :
    (new : State) (n : NodeBase)
    → (s : State) × ((set_current_state new n).current_state ≡ some s)
      × (s.id ≡ new.id)
      × ((set_current_state new n).ct ≡ none)
set_current_state-id new n =
    let Left : NodeBase → Type 0 =
      λ m. (s : State) × (m.current_state ≡ some s) × (s.id ≡ new.id) × (m.ct ≡ none) in
    elim (Bool-cases (is_listening n)) [
      | inr l ↦ subst Left (sym (set_quiet new n l)) (new, refl, refl, refl)
      | inl l ↦ elim (Bool-cases (is_state n.current_state new)) [
        | inl e ↦
            subst Left (sym (set_same new n l e))
              (let (s, at, same) = is_state-some n.current_state new e in (s, at, same, refl))
        | inr e ↦
            let at =
              ap (λ (m : NodeBase). m.current_state)
                (add_listener-frame new.am (with_state new (del_current n))) in
            subst Left (sym (set_other new n l e)) (new, at, refl, refl)
      ]
    ]

-- The flags.
pub listens-nothing :
    (n : NodeBase) → IsListener n → is_listening n ≡ false → (e : ℕ) → listens e n.listening ≡ false
unfolding IsListener
listens-nothing n (q, h) l e = h e ∙ wants-quiet e n l

pub quiet-IsListener :
    (n : NodeBase)
    → n.signaling_event ≡ none
    → is_listening n ≡ false
    → ((e : ℕ) → listens e n.listening ≡ false)
    → IsListener n
unfolding IsListener
quiet-IsListener n q l h = (q, λ e. h e ∙ sym (wants-quiet e n l))

module _ {W : Type 0} (world : World W) where
  pub search-IsListener :
      (n m : NodeBase) (w : W)
      → IsListener n
      → search_active_transition world n w ≡ some m
      → IsListener m
  unfolding search_active_transition IsListener wants
  search-IsListener n m w h e =
      let (s, h1, h2) = >>=-eq-some n.current_state _ e in
      let (t, h3, h4) = >>=-eq-some (first_enabled world s.transitions w) _ h2 in
      let same : record n { ct = t } ≡ m = cc in subst IsListener same h
