-- ===== src/Multiplex/Windows.antt =====
-- The area out of order: the first places of the queue, as a list.
use Prim.Native.Nat.{min}
use systemoc_syste_mo_c.Common.{
  ℕ, zero, suc, ◌+◌, ◌-◌, ◌≤◌, ◌<◌, ◌≡◌, refl, ap, sym, subst, inl, inr, Bool-cases, ◌∙◌, true,
  some, List, [], ◌∷◌, ◌++◌, arith, length, take, drop, get_elem?, All, ◌==◌, if◌then◌else◌,
}
use systemoc_syste_mo_c.Fifo.Store.{Storage}
use systemoc_syste_mo_c.Multiplex.Chan.{ColorAccessor}
use systemoc_syste_mo_c.Multiplex.Colors.{color_count, remove, Run}

module _ {A : Type 0} where
  pub length-take : (n : ℕ) (ts : List A) → length (take n ts) ≡ min n (length ts)
  length-take zero ts = omega arith
  length-take (suc n) [] = omega arith
  length-take (suc n) (t ∷ ts) = omega (arith, length-take n ts)

  pub take-take : (i w : ℕ) (ts : List A) → i ≤ w → take i (take w ts) ≡ take i ts
  take-take zero w ts h = refl
  take-take (suc i) zero ts h = absurd (omega arith)
  take-take (suc i) (suc w) [] h = refl
  take-take (suc i) (suc w) (t ∷ ts) h = ap (λ r. t ∷ r) (take-take i w ts (omega arith))

  pub take-min : (n : ℕ) (ts : List A) → take (min n (length ts)) ts ≡ take n ts
  take-min zero ts = let e : min 0 (length ts) ≡ 0 = omega arith in ap (λ k. take k ts) e
  take-min (suc n) [] = let e : min (suc n) 0 ≡ 0 = omega arith in ap (λ k. take k []) e
  take-min (suc n) (t ∷ ts) =
      let e : min (suc n) (suc (length ts)) ≡ suc (min n (length ts)) = omega arith in
      ap (λ k. take k (t ∷ ts)) e ∙ ap (λ r. t ∷ r) (take-min n ts)

  pub take-min-append : (n : ℕ) (ts us : List A) → take (min n (length ts)) (ts ++ us) ≡ take n ts
  take-min-append zero ts us =
      let e : min 0 (length ts) ≡ 0 = omega arith in ap (λ k. take k (ts ++ us)) e
  take-min-append (suc n) [] us = let e : min (suc n) 0 ≡ 0 = omega arith in ap (λ k. take k us) e
  take-min-append (suc n) (t ∷ ts) us =
      let e : min (suc n) (suc (length ts)) ≡ suc (min n (length ts)) = omega arith in
      ap (λ k. take k (t ∷ (ts ++ us))) e ∙ ap (λ r. t ∷ r) (take-min-append n ts us)

  pub take_all : (n : ℕ) (ts : List A) → length ts ≤ n → take n ts ≡ ts
  take_all zero [] h = refl
  take_all zero (t ∷ ts) h = absurd (omega arith)
  take_all (suc n) [] h = refl
  take_all (suc n) (t ∷ ts) h = ap (λ r. t ∷ r) (take_all n ts (omega arith))

  pub All-take {κ} : (P : A → Type κ) (n : ℕ) (ts : List A) → All P ts → All P (take n ts)
  All-take P zero ts h = tt
  All-take P (suc n) [] h = tt
  All-take P (suc n) (t ∷ ts) h = (h.0, All-take P n ts h.1)

  pub All-drop {κ} : (P : A → Type κ) (n : ℕ) (ts : List A) → All P ts → All P (drop n ts)
  All-drop P zero ts h = h
  All-drop P (suc n) [] h = tt
  All-drop P (suc n) (t ∷ ts) h = All-drop P n ts h.1

  module _ (st : List (Storage A)) (m r : ℕ) where
    pub Run-take : (n i : ℕ) (ts : List A) → Run st m r i ts → Run st m r i (take n ts)
    Run-take zero i ts h = tt
    Run-take (suc n) i [] h = tt
    Run-take (suc n) i (t ∷ ts) h = (h.0, Run-take n (suc i) ts h.1)

    pub Run-drop :
        (n i : ℕ) (ts : List A) → n ≤ length ts → Run st m r i ts → Run st m r (i + n) (drop n ts)
    Run-drop zero i ts le h = let e : i ≡ i + 0 = omega arith in subst (λ k. Run st m r k ts) e h
    Run-drop (suc n) i [] le h = absurd (omega arith)
    Run-drop (suc n) i (t ∷ ts) le h =
        let e : suc i + n ≡ i + suc n = omega arith in
        subst (λ k. Run st m r k (drop n ts)) e (Run-drop n (suc i) ts (omega arith) h.1)

module _ {A : Type 0} (col : ColorAccessor A) where
  pub color_count-le : (c : ℕ) (ts : List A) → color_count col c ts ≤ length ts
  unfolding color_count
  color_count-le c [] = omega arith
  color_count-le c (t ∷ ts) = ground (arith, color_count-le c ts)

  pub color_count-take_le :
      (c w : ℕ) (ts : List A) → color_count col c (take w ts) ≤ color_count col c ts
  unfolding color_count
  color_count-take_le c zero ts = omega arith
  color_count-take_le c (suc w) [] = omega arith
  color_count-take_le c (suc w) (t ∷ ts) = ground (arith, color_count-take_le c w ts)

  -- A token behind the first `w` counts.
  pub color_count-beyond :
      (t : A) (w k : ℕ) (ts : List A)
      → w ≤ k
      → get_elem? ts k ≡ some t
      → color_count col (col.get_color t) (take w ts) < color_count col (col.get_color t) ts
  unfolding color_count
  color_count-beyond t w k [] le e = cc
  color_count-beyond t zero zero (a ∷ ts) le e =
      let same : a ≡ t = cc in
      let self : (col.get_color a == col.get_color t) ≡ true =
        subst (λ b. (col.get_color a == col.get_color b) ≡ true) same (ground arith) in
      rw self (omega arith)
  color_count-beyond t zero (suc k) (a ∷ ts) le e =
      let ih = color_count-beyond t 0 k ts (omega arith) e in ground arith
  color_count-beyond t (suc w) zero (a ∷ ts) le e = absurd (omega arith)
  color_count-beyond t (suc w) (suc k) (a ∷ ts) le e =
      let ih = color_count-beyond t w k ts (omega arith) e in ground arith

  pub color_count-take-drop :
      (c i : ℕ) (ts : List A)
      → color_count col c (take i ts) + color_count col c (drop i ts) ≡ color_count col c ts
  unfolding color_count
  color_count-take-drop c zero ts = omega arith
  color_count-take-drop c (suc i) [] = omega arith
  color_count-take-drop c (suc i) (t ∷ ts) = ground (arith, color_count-take-drop c i ts)

  -- The tokens that come into the area behind the first `i`.
  pub color_count-window :
      (c i w : ℕ) (ts : List A)
      → i ≤ w
      → color_count col c (take i ts) + color_count col c (drop i (take w ts))
        ≡ color_count col c (take w ts)
  color_count-window c i w ts h =
      ap (λ us. color_count col c us + color_count col c (drop i (take w ts)))
        (sym (take-take i w ts h))
      ∙ color_count-take-drop c i (take w ts)

  module _ (c : ℕ) where
    pub length-remove :
        (n : ℕ) (ts : List A)
        → n ≤ color_count col c ts
        → length (remove col c n ts) + n ≡ length ts
    unfolding color_count remove
    length-remove zero ts h = omega arith
    length-remove (suc n) [] h = absurd (omega arith)
    length-remove (suc n) (t ∷ ts) h = elim (Bool-cases (col.get_color t == c)) [
      | inl e ↦ rw e (omega (arith, length-remove n ts (ground arith)))
      | inr k ↦ rw k (omega (arith, length-remove (suc n) ts (ground arith)))
    ]

    pub color_count-remove :
        (d n : ℕ) (ts : List A)
        → n ≤ color_count col c ts
        → color_count col d (remove col c n ts)
          ≡ (if c == d then color_count col d ts - n else color_count col d ts)
    unfolding color_count remove
    color_count-remove d zero ts h = ground arith
    color_count-remove d (suc n) [] h = absurd (omega arith)
    color_count-remove d (suc n) (t ∷ ts) h = elim (Bool-cases (col.get_color t == c)) [
      | inl e ↦ rw e (ground (arith, color_count-remove d n ts (ground arith)))
      | inr k ↦ rw k (ground (arith, color_count-remove d (suc n) ts (ground arith)))
    ]

    -- Taking tokens out of the area makes it shorter by their number.
    pub take-remove :
        (w n : ℕ) (ts : List A)
        → n ≤ color_count col c (take w ts)
        → take (w - n) (remove col c n ts) ≡ remove col c n (take w ts)
    unfolding color_count remove
    take-remove w zero ts h = let e : w - 0 ≡ w = omega arith in ap (λ k. take k ts) e
    take-remove zero (suc n) ts h = absurd (omega arith)
    take-remove (suc w) (suc n) [] h = absurd (omega arith)
    take-remove (suc w) (suc n) (t ∷ ts) h = elim (Bool-cases (col.get_color t == c)) [
      | inl e ↦
          let s : suc w - suc n ≡ w - n = omega arith in
          rw (e, s) (take-remove w n ts (ground arith))
      | inr k ↦
          let le : suc n ≤ color_count col c (take w ts) = ground arith in
          let fits : color_count col c (take w ts) ≤ w =
            omega (arith, color_count-le c (take w ts), length-take w ts) in
          let s : suc w - suc n ≡ suc (w - suc n) = omega arith in
          rw (k, s) (ap (λ r. t ∷ r) (take-remove w (suc n) ts le))
    ]

    pub All-remove {κ} :
        (P : A → Type κ) (n : ℕ) (ts : List A) → All P ts → All P (remove col c n ts)
    unfolding remove
    All-remove P zero ts h = h
    All-remove P (suc n) [] h = tt
    All-remove P (suc n) (t ∷ ts) h = elim (Bool-cases (col.get_color t == c)) [
      | inl e ↦ rw e (All-remove P n ts h.1)
      | inr k ↦ rw k (h.0, All-remove P (suc n) ts h.1)
    ]
