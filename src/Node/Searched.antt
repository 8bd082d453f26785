-- ===== src/Node/Searched.antt =====
-- What an event leaves alone: all of a node but its `ct` and what the scheduler is told.
use systemoc_syste_mo_c.Common.{
  ℕ, ◌≡◌, refl, sym, ap, subst, ◌∙◌, inl, inr, Bool, true, false, not, Option, none, some,
  if◌then◌else◌, ◌>>=◌, check, >>=-eq-some, Bool-cases,
}
use systemoc_syste_mo_c.Node.Base.{
  NodeBase, World, is_some, notify_activation, first_enabled, search_active_transition, on_active,
  on_inactive,
}

-- A node that differs from `n` in `ct` and in the notifications alone.
abbrev pub Searched : NodeBase → NodeBase → Type 0
Searched n m = m ≡ record n { ct = m.ct; notified = m.notified }

pub check-not : (b : Bool) {u : Unit {0}} → check (not b) ≡ some u → b ≡ false
check-not false e = refl
check-not true e = cc

pub closed :
    (n n2 : NodeBase) (e : ℕ)
    → n.signaling_event ≡ none
    → n.signaling_event_remove ≡ false
    → Searched (record n { signaling_event = some e }) n2
    → Searched n (record n2 { signaling_event = none }) × (n2.signaling_event_remove ≡ false)
closed n n2 e q f s =
    let clear = ap (λ (k : NodeBase). record k { signaling_event = none }) s in
    let kept =
      ap (λ o. record n { ct = n2.ct; notified = n2.notified; signaling_event = o }) (sym q) in
    (clear ∙ kept, ap (λ (k : NodeBase). k.signaling_event_remove) s ∙ f)

module _ {W : Type 0} (world : World W) where
  search-Searched :
      (n m : NodeBase) (w : W) → search_active_transition world n w ≡ some m → Searched n m
  unfolding search_active_transition
  search-Searched n m w e =
      let (s, h1, h2) = >>=-eq-some n.current_state _ e in
      let (t, h3, h4) = >>=-eq-some (first_enabled world s.transitions w) _ h2 in
      let same : record n { ct = t } ≡ m = cc in subst (Searched n) same refl

  notify-Searched : (b : Bool) (n m : NodeBase) → Searched n m → Searched n (notify_activation b m)
  notify-Searched b n m h =
      ap (λ (k : NodeBase). record k { notified = (notify_activation b m).notified }) h

  choose :
      (c : Bool) (n x y r : NodeBase)
      → Searched n x
      → Searched n y
      → (if c then x else y) ≡ r
      → Searched n r
  choose true n x y r hx hy e = subst (Searched n) e hx
  choose false n x y r hx hy e = subst (Searched n) e hy

  on_active-Searched : (n r : NodeBase) (w : W) → on_active world n w ≡ some r → Searched n r
  unfolding on_active
  on_active-Searched n r w e =
      let (m, h1, h2) = >>=-eq-some (search_active_transition world n w) _ e in
      let h = search-Searched n m w h1 in
      let same : (if is_some m.ct then notify_activation true m else m) ≡ r = cc in
      choose (is_some m.ct) n (notify_activation true m) m r (notify-Searched true n m h) h same

  -- `on_inactive` of a node with a transition.
  abbrev pub search_again : NodeBase → W → Option NodeBase
  search_again n w = do
    m ← search_active_transition world n w
    some (if is_some m.ct then m else notify_activation false m)

  search_again-Searched : (n r : NodeBase) (w : W) → search_again n w ≡ some r → Searched n r
  search_again-Searched n r w e =
      let (m, h1, h2) = >>=-eq-some (search_active_transition world n w) _ e in
      let h = search-Searched n m w h1 in
      let same : (if is_some m.ct then m else notify_activation false m) ≡ r = cc in
      choose (is_some m.ct) n m (notify_activation false m) r h (notify-Searched false n m h) same

  on_inactive-Searched : (n r : NodeBase) (w : W) → on_inactive world n w ≡ some r → Searched n r
  unfolding on_inactive
  on_inactive-Searched n r w e = elim (Bool-cases (is_some n.ct)) [
    | inl c ↦
        search_again-Searched n r w
          (subst (λ b. (if b then search_again n w else some n) ≡ some r) c e)
    | inr c ↦
        let kept : some n ≡ some r =
          subst (λ b. (if b then search_again n w else some n) ≡ some r) c e in
        let same : n ≡ r = cc in subst (Searched n) same refl
  ]

  pub by_event :
      (b : Bool) (n r : NodeBase) (w : W)
      → (if b then on_active world n w else on_inactive world n w) ≡ some r
      → Searched n r
  by_event true n r w e = on_active-Searched n r w e
  by_event false n r w e = on_inactive-Searched n r w e
