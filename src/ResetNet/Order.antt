-- ===== src/ResetNet/Order.antt =====
-- The order of the addresses in which a reset goes over its channels.
use systemoc_syste_mo_c.Common.{
  ℕ, zero, suc, ◌+◌, ◌<◌, ◌≡◌, refl, sym, true, false, Option, none, some, List, [], ◌∷◌, ◌>>=◌,
  ltb, ◌==◌, if◌then◌else◌, get_elem?, set, length, length-set, All, arith, Bool-cases,
  Option-cases, inl, inr, subst,
}
use systemoc_syste_mo_c.Node.Base.{World}
use systemoc_syste_mo_c.ResetNet.Chan.{ResetChan, Sim, member, insert, connect_chan, reset_chans}

-- No pointer is in a set twice.
unfoldable pub Distinct : List ℕ → Type 0
unfolding member
Distinct [] = Unit {0}
Distinct (i ∷ js) = (member i js ≡ false) × Distinct js

module _ {C : Type 0} (reset_chan : C → Option C) where
  -- All channels at once: those from the `j`th on, of which the ones in `net` are reset.
  unfoldable pub reset_all : List ℕ → ℕ → List C → Option (List C)
  unfolding member
  reset_all net j [] = some []
  reset_all net j (c ∷ cs) = do
    d ← (if member j net then reset_chan c else some c)
    ds ← reset_all net (j + 1) cs
    some (d ∷ ds)

  reset_all-nil : (j : ℕ) (cs : List C) → reset_all [] j cs ≡ some cs
  unfolding reset_all member
  reset_all-nil j [] = refl
  reset_all-nil j (c ∷ cs) = rw (reset_all-nil (j + 1) cs) refl

  -- A pointer to a channel before these.
  reset_all-before :
      (i : ℕ) (net : List ℕ) (j : ℕ) (cs : List C)
      → i < j
      → reset_all (i ∷ net) j cs ≡ reset_all net j cs
  unfolding reset_all member
  reset_all-before i net j [] h = refl
  reset_all-before i net j (c ∷ cs) h =
      let other : (i == j) ≡ false = ground arith in
      rw (other, reset_all-before i net (j + 1) cs (omega (arith, h))) refl

  -- A reset that stops does so whatever is reset before it.
  swap :
      (x y : Option C) (rest : C → Option (List C))
      → ◌≡◌ {A = Option (List C)}
          (do d ← x; ds ← (do c ← y; e ← reset_chan c; rest e); some (d ∷ ds))
          (do c ← y; e ← reset_chan c; d ← x; ds ← rest e; some (d ∷ ds))
  swap none none rest = refl
  swap (some d) none rest = refl
  swap none (some c) rest = elim (Option-cases (reset_chan c)) [
    | inl stop ↦ rw stop refl
    | inr (e, go) ↦ rw go refl
  ]
  swap (some d) (some c) rest = elim (Option-cases (reset_chan c)) [
    | inl stop ↦ rw stop refl
    | inr (e, go) ↦ rw go refl
  ]

  -- What is left to do once the channel at `k` is reset.
  reset_all-cons :
      (net : List ℕ) (i j k : ℕ) (cs : List C)
      → i ≡ j + k
      → k < length cs
      → member i net ≡ false
      → reset_all (i ∷ net) j cs
        ≡ (do c ← get_elem? cs k; d ← reset_chan c; reset_all net j (set cs k d))
  unfolding reset_all member
  reset_all-cons net i j k [] e h out = absurd (omega (arith, h))
  reset_all-cons net i j zero (c ∷ cs) e h out =
      let same : i ≡ j = omega (arith, e) in
      let test : (i == j) ≡ true = ground (arith, same) in
      let out' : member j net ≡ false = subst (λ m. member m net ≡ false) same out in
      rw (test, out', reset_all-before i net (j + 1) cs (omega (arith, same))) refl
  reset_all-cons net i j (suc k) (c ∷ cs) e h out =
      let test : (i == j) ≡ false = ground (arith, e) in
      rw (test, reset_all-cons net i (j + 1) k cs (omega (arith, e)) (omega (arith, h)) out)
        (swap (if member j net then reset_chan c else some c) (get_elem? cs k)
          (λ d. reset_all net (j + 1) (set cs k d)))

module _ {C U : Type 0} (reset_chan : C → Option C) (world : World (Sim C U)) where
  pub reset_chans-reset_all :
      (net : List ℕ) (cs : List C)
      → Distinct net
      → All (λ i. i < length cs) net
      → reset_chans reset_chan world net cs ≡ reset_all reset_chan net 0 cs
  unfolding reset_chans Distinct
  reset_chans-reset_all [] cs d h = sym (reset_all-nil reset_chan 0 cs)
  reset_chans-reset_all (i ∷ net) cs d h =
      rw (reset_all-cons reset_chan net i 0 i cs (omega arith) h.0 d.0) (λ p. do
        c ← get_elem? cs i
        e ← reset_chan c
        reset_chans-reset_all net (set cs i e) d.1
            (subst (λ n. All (λ j. j < n) net) (sym (length-set cs i e)) h.1) p)

member-insert :
    (i k : ℕ) (net : List ℕ) → member k (insert i net) ≡ (if i == k then true else member k net)
unfolding member insert
member-insert i k [] = refl
member-insert i k (j ∷ net) = ground (arith, member-insert i k net)

insert-Distinct :
    (i : ℕ) (net : List ℕ) → member i net ≡ false → Distinct net → Distinct (insert i net)
unfolding Distinct member insert
insert-Distinct i [] out d = (refl, tt)
insert-Distinct i (j ∷ net) out d =
    let fresh : member i net ≡ false = ground (arith, out) in
    let other : (i == j) ≡ false = ground (arith, out) in
    elim (Bool-cases (ltb i j)) [
      | inl less ↦ rw less (out, d)
      | inr more ↦ rw more (rw (member-insert i j net, other) d.0, insert-Distinct i net fresh d.1)
    ]

module _ {E : Type 0} where
  -- The set of channels after `connect` of the channel `i`.
  abbrev Connects : ℕ → ResetChan E → Option (ResetChan E) → Type 0
  Connects i r none = member i r.chans ≡ true
  Connects i r (some q) =
      (member i r.chans ≡ false)
      × Distinct q.chans
      × ((k : ℕ) → member k q.chans ≡ (if i == k then true else member k r.chans))

  -- `connect` of a channel stops exactly if it is connected already. Otherwise it connects this one,
  -- leaves the others as they were, and keeps the pointers distinct.
  connect_chan-Connects :
      (i : ℕ) (r : ResetChan E) → Distinct r.chans → Connects i r (connect_chan i r)
  unfolding connect_chan
  connect_chan-Connects i r d = elim (Bool-cases (member i r.chans)) [
    | inl there ↦ rw (there, there) refl
    | inr fresh ↦
        rw (fresh, fresh) (refl, insert-Distinct i r.chans fresh d, λ k. member-insert i k r.chans)
  ]
