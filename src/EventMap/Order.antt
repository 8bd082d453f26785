-- ===== src/EventMap/Order.antt =====
-- The keys of an event map rise, and every operation keeps them.
use systemoc_syste_mo_c.Event.{EventOps}
use mathlib.Core.List.{reverse, reverse-cons, reverse-reverse}
use systemoc_syste_mo_c.Common.{
  sym, ap, ◌∙◌, Bool-cases, inl, inr, ltb→lt, ltb-false→le, none, ℕ, suc, ◌≤◌, ◌<◌, ◌≡◌, refl, List,
  [], ◌∷◌, ◌++◌, All, arith, ltb,
}
use systemoc_syste_mo_c.EventMap.{
  EventMap, below, above, insert, find, notify_down, reset_up, increased_count, decreased_count,
  decreased_count_renotify, reset,
}

-- The keys are `k` or more, and each is above the one before it.
abbrev pub Ascending : {E : Type 0} → ℕ → EventMap E → Type 0
Ascending k [] = Unit {0}
Ascending k ((n, e) ∷ m) = (k ≤ n) × Ascending (suc n) m

module _ {E : Type 0} where
  pub Ascending-mono : (j k : ℕ) (m : EventMap E) → j ≤ k → Ascending k m → Ascending j m
  Ascending-mono j k [] h a = tt
  Ascending-mono j k ((n, e) ∷ m) h a = (omega arith, a.1)

  -- What holds of every key from `k` on holds of every key of the map.
  pub keys_of_Ascending :
      (P : ℕ × E → Type 0) (k : ℕ) (m : EventMap E)
      → ((n : ℕ) (e : E) → k ≤ n → P (n, e))
      → Ascending k m
      → All P m
  keys_of_Ascending P k [] f a = tt
  keys_of_Ascending P k ((n, e) ∷ m) f a =
      (f n e a.0, keys_of_Ascending P (suc n) m (λ j d h. f j d (omega arith)) a.1)

  pub below-append-above : (c : ℕ) (m : EventMap E) → below c m ++ above c m ≡ m
  unfolding below above
  below-append-above c [] = refl
  below-append-above c ((n, e) ∷ m) = ground (arith, below-append-above c m)

  pub below-keys : (c : ℕ) (m : EventMap E) → All (λ p. p.0 ≤ c) (below c m)
  unfolding below
  below-keys c [] = tt
  below-keys c ((n, e) ∷ m) = elim (Bool-cases (ltb c n)) [
    | inl h ↦ rw (h, below) tt
    | inr h ↦ rw (h, below) (ltb-false→le c n h, below-keys c m)
  ]

  pub above-keys : (c k : ℕ) (m : EventMap E) → Ascending k m → All (λ p. c < p.0) (above c m)
  unfolding above
  above-keys c k [] a = tt
  above-keys c k ((n, e) ∷ m) a = elim (Bool-cases (ltb c n)) [
    | inl h ↦
        rw (h, above)
          (ltb→lt c n h, keys_of_Ascending _ (suc n) m (λ j d g. omega (arith, ltb→lt c n h)) a.1)
    | inr h ↦ rw (h, above) (above-keys c (suc n) m a.1)
  ]

  pub Ascending-below : (c k : ℕ) (m : EventMap E) → Ascending k m → Ascending k (below c m)
  unfolding below
  Ascending-below c k [] a = tt
  Ascending-below c k ((n, e) ∷ m) a = elim (Bool-cases (ltb c n)) [
    | inl h ↦ rw (h, below) tt
    | inr h ↦ rw (h, below) (a.0, Ascending-below c (suc n) m a.1)
  ]

  pub Ascending-above : (c k : ℕ) (m : EventMap E) → Ascending k m → Ascending k (above c m)
  unfolding above
  Ascending-above c k [] a = tt
  Ascending-above c k ((n, e) ∷ m) a = elim (Bool-cases (ltb c n)) [
    | inl h ↦ rw (h, above) a
    | inr h ↦
        rw (h, above)
          (Ascending-mono k (suc n) (above c m) (omega (arith, a.0))
            (Ascending-above c (suc n) m a.1))
  ]

  pub insert-Ascending :
      (k n : ℕ) (e : E) (m : EventMap E)
      → k ≤ n
      → find n m ≡ none
      → Ascending k m
      → Ascending k (insert n e m)
  unfolding insert find
  insert-Ascending k n e [] h f a = (h, tt)
  insert-Ascending k n e ((j, d) ∷ m) h f a = ground (arith, insert-Ascending (suc j) n e m)

  -- The numbers that an event map has events for.
  pub keys : EventMap E → List ℕ
  keys [] = []
  keys ((n, e) ∷ m) = n ∷ keys m

  pub Ascending-keys : (k : ℕ) (l m : EventMap E) → keys l ≡ keys m → Ascending k m → Ascending k l
  unfolding keys
  Ascending-keys k [] m e a = tt
  Ascending-keys k ((n, d) ∷ l) [] e a = cc
  Ascending-keys k ((n, d) ∷ l) ((j, c) ∷ m) e a =
      let e0 : n ≡ j = ground arith in
      (rw e0 a.0, rw e0 (Ascending-keys (suc j) l m (ground arith) a.1))

  pub keys-append : (l m : EventMap E) → keys (l ++ m) ≡ keys l ++ keys m
  unfolding keys
  keys-append [] m = refl
  keys-append ((n, e) ∷ l) m = ap (◌∷◌ n) (keys-append l m)

  pub keys-reverse : (m : EventMap E) → keys (reverse m) ≡ reverse (keys m)
  unfolding keys
  keys-reverse [] = refl
  keys-reverse ((n, e) ∷ m) = rw (
    reverse-cons (n, e) m,
    reverse-cons n (keys m),
    keys-append (reverse m) ((n, e) ∷ []),
    keys-reverse m,
  )

module _ {E : Type 0} (ev : EventOps E) where
  pub keys-notify_down : (m : EventMap E) → keys (notify_down ev m) ≡ keys m
  unfolding keys notify_down
  keys-notify_down [] = refl
  keys-notify_down ((n, e) ∷ m) = ground (arith, keys-notify_down m)

  pub keys-reset_up : (m : EventMap E) → keys (reset_up ev m) ≡ keys m
  unfolding keys reset_up
  keys-reset_up [] = refl
  keys-reset_up ((n, e) ∷ m) = ground (arith, keys-reset_up m)

  pub keys-increased : (c : ℕ) (m : EventMap E) → keys (increased_count ev c m) ≡ keys m
  unfolding increased_count
  keys-increased c m =
      simp (keys-append, keys-reverse, keys-notify_down, reverse-reverse)
        (sym (keys-append (below c m) (above c m)) ∙ ap keys (below-append-above c m))

  pub keys-decreased : (c : ℕ) (m : EventMap E) → keys (decreased_count ev c m) ≡ keys m
  unfolding decreased_count
  keys-decreased c m =
      simp (keys-append, keys-reset_up)
        (sym (keys-append (below c m) (above c m)) ∙ ap keys (below-append-above c m))

  pub keys-renotify : (c : ℕ) (m : EventMap E) → keys (decreased_count_renotify ev c m) ≡ keys m
  unfolding keys decreased_count_renotify
  keys-renotify c [] = refl
  keys-renotify c ((n, e) ∷ m) = ap (◌∷◌ n) (keys-renotify c m)

  pub keys-reset : (m : EventMap E) → keys (reset ev m) ≡ keys m
  unfolding keys reset
  keys-reset [] = refl
  keys-reset ((n, e) ∷ m) = ap (◌∷◌ n) (keys-reset m)
