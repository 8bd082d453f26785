-- ===== src/Multiplex/Colors.antt =====
-- The tokens of one colour in a list of tokens.
use systemoc_syste_mo_c.Common.{
  ℕ, zero, suc, ◌+◌, ◌-◌, ◌≤◌, ◌<◌, ◌≡◌, refl, ap, sym, subst, inl, inr, Bool-cases, ◌∙◌, true,
  false, some, List, [], ◌∷◌, arith, length, get_elem?, ◌==◌, if◌then◌else◌,
}
use systemoc_syste_mo_c.Multiplex.Chan.{ColorAccessor}
use systemoc_syste_mo_c.Fifo.Store.{Storage}
use systemoc_syste_mo_c.Fifo.Segment.{place}

module _ {A : Type 0} (col : ColorAccessor A) (c : ℕ) where
  -- How many there are, the others, and these without the first `n`.
  unfoldable pub color_count : List A → ℕ
  color_count [] = 0
  color_count (t ∷ ts) = if col.get_color t == c then suc (color_count ts) else color_count ts

  unfoldable pub others : List A → List A
  others [] = []
  others (t ∷ ts) = if col.get_color t == c then others ts else t ∷ others ts

  unfoldable pub of_color : List A → List A
  of_color [] = []
  of_color (t ∷ ts) = if col.get_color t == c then t ∷ of_color ts else of_color ts

  -- The list without its first `n` tokens of the colour.
  unfoldable pub remove : ℕ → List A → List A
  remove zero ts = ts
  remove (suc n) [] = []
  remove (suc n) (t ∷ ts) =
      let here = remove n ts in
      let rest = remove (suc n) ts in if col.get_color t == c then here else t ∷ rest

module _ {A : Type 0} where
  -- The tokens of `q`, the last one first, before those of `ts`.
  unfoldable pub rev_onto : List A → List A → List A
  rev_onto [] ts = ts
  rev_onto (t ∷ q) ts = rev_onto q (t ∷ ts)

  -- From the place `i` after `r` on, a ring of `m` places holds `ts`.
  abbrev pub Run : List (Storage A) → ℕ → ℕ → ℕ → List A → Type 0
  Run st m r i [] = Unit
  Run st m r i (t ∷ ts) = (place st m r i ≡ some t) × Run st m r (suc i) ts

  -- Its first places hold `q`, the last one first.
  abbrev pub Back : List (Storage A) → ℕ → ℕ → List A → Type 0
  Back st m r [] = Unit
  Back st m r (t ∷ q) = (place st m r (length q) ≡ some t) × Back st m r q

  -- Down from the place `d`, it holds `q`.
  abbrev pub Down : List (Storage A) → ℕ → ℕ → ℕ → List A → Type 0
  Down st m r d [] = Unit
  Down st m r d (t ∷ q) = (place st m r d ≡ some t) × Down st m r (d - 1) q

module _ {A : Type 0} (st : List (Storage A)) (m r : ℕ) where
  pub tokens-Run :
      (i : ℕ) (ts : List A)
      → ((k : ℕ) → k < length ts → place st m r (i + k) ≡ get_elem? ts k)
      → Run st m r i ts
  tokens-Run i [] h = tt
  tokens-Run i (t ∷ ts) h =
      let e : i + 0 ≡ i = omega arith in
      (
        ap (place st m r) (sym e) ∙ h 0 (omega arith),
        tokens-Run (suc i) ts (λ k lt.
            let f : suc i + k ≡ i + suc k = omega arith in
            ap (place st m r) f ∙ h (suc k) (omega arith)),
      )

  pub Run-tokens :
      (i : ℕ) (ts : List A)
      → Run st m r i ts
      → (k : ℕ) → k < length ts
      → place st m r (i + k) ≡ get_elem? ts k
  Run-tokens i [] h k lt = absurd (omega arith)
  Run-tokens i (t ∷ ts) h zero lt = let e : i + 0 ≡ i = omega arith in ap (place st m r) e ∙ h.0
  Run-tokens i (t ∷ ts) h (suc k) lt =
      let f : i + suc k ≡ suc i + k = omega arith in
      ap (place st m r) f ∙ Run-tokens (suc i) ts h.1 k (omega arith)

  -- What stands down from the place before `ts` continues it.
  pub Run-rev_onto :
      (q ts : List A) (i : ℕ)
      → length q ≤ i
      → Down st m r (i - 1) q
      → Run st m r i ts
      → Run st m r (i - length q) (rev_onto q ts)
  unfolding rev_onto
  Run-rev_onto [] ts i le d h = let e : i ≡ i - 0 = omega arith in subst (λ k. Run st m r k ts) e h
  Run-rev_onto (t ∷ q) ts i le d h =
      let e : (i - 1) - length q ≡ i - suc (length q) = omega arith in
      let f : i ≡ suc (i - 1) = omega arith in
      subst (λ k. Run st m r k (rev_onto q (t ∷ ts))) e
        (Run-rev_onto q (t ∷ ts) (i - 1) (omega arith) d.1 (d.0, subst (λ k. Run st m r k ts) f h))

module _ {A : Type 0} where
  pub length-rev_onto : (q ts : List A) → length (rev_onto q ts) ≡ length q + length ts
  unfolding rev_onto
  length-rev_onto [] ts = omega arith
  length-rev_onto (t ∷ q) ts = omega (arith, length-rev_onto q (t ∷ ts))

module _ {A : Type 0} (col : ColorAccessor A) (c : ℕ) where
  pub length-others : (ts : List A) → length (others col c ts) + color_count col c ts ≡ length ts
  unfolding others color_count
  length-others [] = omega arith
  length-others (t ∷ ts) = ground (arith, length-others ts)

  pub color_count-rev_onto :
      (q ts : List A)
      → color_count col c (rev_onto q ts) ≡ color_count col c q + color_count col c ts
  unfolding rev_onto color_count
  color_count-rev_onto [] ts = omega arith
  color_count-rev_onto (t ∷ q) ts = ground (arith, color_count-rev_onto q (t ∷ ts))

  module _ (t : A) (ts : List A) (k : ℕ) where
    pub remove_same :
        (col.get_color t == c) ≡ true → remove col c (suc k) (t ∷ ts) ≡ remove col c k ts
    unfolding remove
    remove_same h = rw h

    pub remove_other :
        (col.get_color t == c) ≡ false → remove col c k (t ∷ ts) ≡ t ∷ remove col c k ts
    unfolding remove
    remove_other h = elim k as (λ k. remove col c k (t ∷ ts) ≡ t ∷ remove col c k ts) [
      | zero ↦ refl
      | suc j ↦ rw h
    ]

  -- All tokens of the colour in `q` go, and `n` of those in `ts`.
  pub remove-rev_onto :
      (q ts : List A) (n k : ℕ)
      → n ≡ color_count col c q + k
      → remove col c n (rev_onto q ts) ≡ rev_onto (others col c q) (remove col c k ts)
  unfolding rev_onto color_count others
  remove-rev_onto [] ts n k e = let f : n ≡ k = omega arith in ap (λ j. remove col c j ts) f
  remove-rev_onto (t ∷ q) ts n k e = elim (Bool-cases (col.get_color t == c)) [
    | inl h ↦
        let ih = remove-rev_onto q (t ∷ ts) n (suc k) (ground arith) in
        rw h (ih ∙ ap (rev_onto (others col c q)) (remove_same t ts k h))
    | inr h ↦
        let ih = remove-rev_onto q (t ∷ ts) n k (ground arith) in
        rw h (ih ∙ ap (rev_onto (others col c q)) (remove_other t ts k h))
  ]
