-- ===== src/Multiplex/Outlets.antt =====
-- The outlets of the virtual FIFOs: each counts the tokens that its reader may take.
use systemoc_syste_mo_c.Common.{
  ℕ, ◌+◌, ◌-◌, ◌%◌, ◌<◌, ◌≡◌, ap, sym, subst, inl, inr, Bool-cases, ◌∙◌, false, Option, some, [],
  ◌∷◌, arith, ◌==◌,
}
use native.Mathlib.Nat.{mod-eq_of_lt}
use systemoc_syste_mo_c.Event.{EventOps, IsEvent}
use systemoc_syste_mo_c.EventMap
use systemoc_syste_mo_c.EventMap.Order.{Ascending}
use systemoc_syste_mo_c.EventMap.Sync.{Synced}
use systemoc_syste_mo_c.EventMap.Follow.{follow_up, follow_down}
use systemoc_syste_mo_c.Queue.Rw.{size_mod}
use systemoc_syste_mo_c.Multiplex.Chan.{
  VOutlet, VOutletMap, find_outlet, at_outlet, more_data, less_data, reset_outlets,
}

module _ {E : Type 0} where
  -- There is an outlet for the colour.
  abbrev pub Known : ℕ → VOutletMap E → Type 0
  Known c os = (o : VOutlet E) × (find_outlet c os ≡ some o)

  -- The outlets after a call of `f` on the one for `c`.
  pub record Updated (c : ℕ) (f : VOutlet E → VOutlet E) (os : VOutletMap E)
      (res : Option (VOutletMap E)) : Type 0 where
    pub after : VOutletMap E
    pub result : res ≡ some after
    pub here : (o : VOutlet E) → find_outlet c os ≡ some o → find_outlet c after ≡ some (f o)
    pub there : (d : ℕ) → (c == d) ≡ false → find_outlet d after ≡ find_outlet d os

  pub at_outlet-Updated :
      (c : ℕ) (f : VOutlet E → VOutlet E) (os : VOutletMap E)
      → Known c os
      → Updated c f os (at_outlet c f os)
  unfolding at_outlet find_outlet
  at_outlet-Updated c f [] k = absurd (ground arith)
  at_outlet-Updated c f ((d, o) ∷ os) (o', k) = elim (Bool-cases (d == c)) [
    | inl e ↦ record {
      after = (d, f o) ∷ os;
      result = rw e;
      here = λ p h. ground arith;
      there = λ b h. ground arith;
    }
    | inr n ↦
        let ih = at_outlet-Updated c f os (o', ground arith) in
        record {
          after = (d, o) ∷ ih.after;
          result = rw (n, ih.result);
          here = λ p h. rw n (ih.here p (ground arith));
          there = λ b h. elim (Bool-cases (d == b)) [ inl e ↦ rw e | inr z ↦ rw z (ih.there b h) ];
        }
  ]

  pub Updated-Known :
      (c d : ℕ) (f : VOutlet E → VOutlet E) (os : VOutletMap E) (res : Option (VOutletMap E))
      → (u : Updated c f os res) → Known d os
      → Known d u.after
  Updated-Known c d f os res u (o, k) = elim (Bool-cases (c == d)) [
    | inl e ↦
        let same : c ≡ d = ground arith in
        (
          f o,
          subst (λ b. find_outlet b u.after ≡ some (f o)) same
              (u.here o (subst (λ b. find_outlet b os ≡ some o) (sym same) k)),
        )
    | inr n ↦ (o, u.there d n ∙ k)
  ]

module _ {E : Type 0} (ev : EventOps E) where
  -- The outlet counts `k` tokens, and its events are in step with that.
  pub record IsTuned (k : ℕ) (o : VOutlet E) : Type 0 where
    pub count : o.count_available ≡ k
    pub order : Ascending 0 o.emm
    pub synced : Synced ev k o.emm

  -- The outlet of each colour `c` counts `w c` tokens.
  abbrev pub IsCounted : VOutletMap E → (ℕ → ℕ) → Type 0
  IsCounted os w = (c : ℕ) (o : VOutlet E) → find_outlet c os ≡ some o → IsTuned (w c) o

module _ {E : Type 0} {ev : EventOps E} (ie : IsEvent ev) where
  pub more_data-IsTuned :
      (n k : ℕ) (o : VOutlet E)
      → IsTuned ev k o
      → k + n < size_mod
      → IsTuned ev (k + n) (more_data ev n o)
  unfolding more_data
  more_data-IsTuned n k o t lt =
      let e : (o.count_available + n) % size_mod ≡ k + n =
        ap (λ j. (j + n) % size_mod) t.count ∙ mod-eq_of_lt lt in
      let (a, s) = follow_up ie o.emm k (k + n) _ t.order t.synced e (omega arith) in
      record { count = e; order = a; synced = s }

  pub less_data-IsTuned :
      (n k : ℕ) (o : VOutlet E) → IsTuned ev k o → IsTuned ev (k - n) (less_data ev n o)
  unfolding less_data
  less_data-IsTuned n k o t =
      let e : o.count_available - n ≡ k - n = ap (λ j. j - n) t.count in
      let (a, s) = follow_down ie o.emm k (k - n) _ t.order t.synced e (omega arith) in
      record { count = e; order = a; synced = s }

  -- The counts after a call on the outlet of one colour.
  pub Updated-IsCounted :
      (c : ℕ) (f : VOutlet E → VOutlet E) (os : VOutletMap E) (res : Option (VOutletMap E))
      (w w' : ℕ → ℕ)
      → (u : Updated c f os res) → Known c os
      → IsCounted ev os w
      → ((o : VOutlet E) → IsTuned ev (w c) o → IsTuned ev (w' c) (f o))
      → ((d : ℕ) → (c == d) ≡ false → w d ≡ w' d)
      → IsCounted ev u.after w'
  Updated-IsCounted c f os res w w' u (p, k) h at off d o e = elim (Bool-cases (c == d)) [
    | inl z ↦
        let same : c ≡ d = ground arith in
        let mine : find_outlet c u.after ≡ some o =
          subst (λ b. find_outlet b u.after ≡ some o) (sym same) e in
        let is : f p ≡ o = cc (u.here p k) in
        subst (λ b. IsTuned ev (w' b) o) same (subst (IsTuned ev (w' c)) is (at p (h c p k)))
    | inr n ↦ subst (λ j. IsTuned ev j o) (off d n) (h d o (sym (u.there d n) ∙ e))
  ]

  pub find-reset_outlets :
      (c : ℕ) (os : VOutletMap E) (o : VOutlet E)
      → find_outlet c (reset_outlets ev os) ≡ some o
      → (p : VOutlet E) × (find_outlet c os ≡ some p)
        × (o ≡ record { count_available = 0; emm = EventMap.reset ev p.emm })
  unfolding find_outlet reset_outlets
  find-reset_outlets c [] o h = absurd (ground arith)
  find-reset_outlets c ((d, p) ∷ os) o h = elim (Bool-cases (d == c)) [
    | inl e ↦ (p, rw e, ground arith)
    | inr n ↦ let (p', k, q) = find-reset_outlets c os o (ground arith) in (p', rw n k, q)
  ]

  pub Known-reset : (c : ℕ) (os : VOutletMap E) → Known c os → Known c (reset_outlets ev os)
  unfolding find_outlet reset_outlets
  Known-reset c [] k = absurd (ground (arith, k.1))
  Known-reset c ((d, p) ∷ os) (o, k) = elim (Bool-cases (d == c)) [
    | inl e ↦ (record { count_available = 0; emm = EventMap.reset ev p.emm }, rw e)
    | inr n ↦ let (q, z) = Known-reset c os (o, ground arith) in (q, rw n z)
  ]
