-- ===== src/EventMap/Sync.antt =====
-- The events of a map against the number of tokens or places that it stands for.
use Prim.Native.Nat.{min, max}
use mathlib.Core.List.{reverse, reverse-cons}
use systemoc_syste_mo_c.Common.{
  ℕ, suc, ◌≤◌, ◌<◌, ◌≡◌, sym, ◌∙◌, subst, true, false, [], ◌∷◌, ◌++◌, All, All-append,
  All-append_split, All-reverse, All-map, arith, leb, le→leb, Bool-cases, inl, inr,
}
use systemoc_syste_mo_c.Event.{EventOps, IsEvent}
use systemoc_syste_mo_c.EventMap.{
  EventMap, below, above, notify_down, reset_up, increased_count, decreased_count,
  decreased_count_renotify, reset,
}
use systemoc_syste_mo_c.EventMap.Order.{
  Ascending, Ascending-above, Ascending-below, below-append-above, below-keys, above-keys,
}

module _ {E : Type 0} (ev : EventOps E) where
  -- An event for `n` is active exactly if `n` is at most the count.
  abbrev pub IsSynced : ℕ → ℕ × E → Type 0
  IsSynced count p = ev.is_active p.1 ≡ leb p.0 count

  abbrev pub Synced : ℕ → EventMap E → Type 0
  Synced count m = All (IsSynced count) m

  abbrev IsActive : ℕ × E → Type 0
  IsActive p = ev.is_active p.1 ≡ true

  -- All that comes after an active event is active.
  Closed : EventMap E → Type 0
  Closed [] = Unit {0}
  Closed ((n, e) ∷ m) = (ev.is_active e ≡ true → All IsActive m) × Closed m

  Closed-snoc : (m : EventMap E) (p : ℕ × E) → IsActive p → Closed m → Closed (m ++ p ∷ [])
  unfolding Closed
  Closed-snoc [] p a h = (λ _. tt, tt)
  Closed-snoc ((n, e) ∷ m) p a h =
      (λ act. All-append IsActive m (p ∷ []) (h.0 act) (a, tt), Closed-snoc m p a h.1)

  Closed-of_inactive : (m : EventMap E) → All (λ p. ev.is_active p.1 ≡ false) m → Closed m
  unfolding Closed
  Closed-of_inactive [] h = tt
  Closed-of_inactive ((n, e) ∷ m) h = (λ act. cc (act, h.0), Closed-of_inactive m h.1)

  abbrev pub IsIdle : ℕ × E → Type 0
  IsIdle p = ev.is_active p.1 ≡ false

  -- Beyond the count no event is active.
  beyond-IsIdle : (c k : ℕ) (m : EventMap E) → c < k → Ascending k m → Synced c m → All IsIdle m
  beyond-IsIdle c k [] h a s = tt
  beyond-IsIdle c k ((n, e) ∷ m) h a s =
      (ground (arith, s.0), beyond-IsIdle c (suc n) m (omega (arith, a.0)) a.1 s.1)

  Closed-reverse : (c k : ℕ) (m : EventMap E) → Ascending k m → Synced c m → Closed (reverse m)
  unfolding Closed
  Closed-reverse c k [] a s = tt
  Closed-reverse c k ((n, e) ∷ m) a s = elim (Bool-cases (ev.is_active e)) [
    | inl act ↦
        rw (reverse-cons (n, e) m)
          (Closed-snoc (reverse m) (n, e) act (Closed-reverse c (suc n) m a.1 s.1))
    | inr idle ↦
        Closed-of_inactive (reverse ((n, e) ∷ m)) (
          All-reverse _ ((n, e) ∷ m)
            (idle, beyond-IsIdle c (suc n) m (ground (arith, s.0)) a.1 s.1))
  ]

  Synced-of_active : (d : ℕ) (m : EventMap E) → All IsActive m → All (λ p. p.0 ≤ d) m → Synced d m
  Synced-of_active d [] a h = tt
  Synced-of_active d ((n, e) ∷ m) a h = (a.0 ∙ sym (le→leb n d h.0), Synced-of_active d m a.1 h.1)

  Synced-of_idle : (d : ℕ) (m : EventMap E) → All IsIdle m → All (λ p. d < p.0) m → Synced d m
  Synced-of_idle d [] a h = tt
  Synced-of_idle d ((n, e) ∷ m) a h = (ground (arith, a.0, h.0), Synced-of_idle d m a.1 h.1)

  -- The parts before and from `upper_bound(count)`.
  Synced-parts :
      (c d : ℕ) (m : EventMap E) → Synced c m → Synced c (below d m) × Synced c (above d m)
  Synced-parts c d m s =
      All-append_split (IsSynced c) (below d m) (above d m)
        (subst (Synced c) (sym (below-append-above d m)) s)

  -- Another count that the keys do not tell from this one.
  Synced-above_max :
      (c d : ℕ) (m : EventMap E) → All (λ p. d < p.0) m → Synced c m → Synced (max c d) m
  Synced-above_max c d [] h s = tt
  Synced-above_max c d ((n, e) ∷ m) h s = (ground (arith, s.0, h.0), Synced-above_max c d m h.1 s.1)

  Synced-below_min :
      (c d : ℕ) (m : EventMap E) → All (λ p. p.0 ≤ d) m → Synced c m → Synced (min c d) m
  Synced-below_min c d [] h s = tt
  Synced-below_min c d ((n, e) ∷ m) h s = (ground (arith, s.0, h.0), Synced-below_min c d m h.1 s.1)

  module _ (laws : IsEvent ev) where
    notify_down-Active : (m : EventMap E) → Closed m → All IsActive (notify_down ev m)
    unfolding notify_down Closed
    notify_down-Active [] h = tt
    notify_down-Active ((n, e) ∷ m) h = elim (Bool-cases (ev.is_active e)) [
      | inl act ↦ rw (act, notify_down) (act, h.0 act)
      | inr idle ↦ rw (idle, notify_down) (laws.active_notify e, notify_down-Active m h.1)
    ]

    reset_up-Idle :
        (c k : ℕ) (m : EventMap E) → Ascending k m → Synced c m → All IsIdle (reset_up ev m)
    unfolding reset_up
    reset_up-Idle c k [] a s = tt
    reset_up-Idle c k ((n, e) ∷ m) a s = elim (Bool-cases (ev.is_active e)) [
      | inl act ↦ rw (act, reset_up) (laws.active_reset e, reset_up-Idle c (suc n) m a.1 s.1)
      | inr idle ↦
          rw (idle, reset_up) (idle, beyond-IsIdle c (suc n) m (ground (arith, s.0)) a.1 s.1)
    ]

    notify_down-keys :
        (d : ℕ) (m : EventMap E) → All (λ p. p.0 ≤ d) m → All (λ p. p.0 ≤ d) (notify_down ev m)
    unfolding notify_down
    notify_down-keys d [] h = tt
    notify_down-keys d ((n, e) ∷ m) h = ground (arith, notify_down-keys d m)

    reset_up-keys :
        (d : ℕ) (m : EventMap E) → All (λ p. d < p.0) m → All (λ p. d < p.0) (reset_up ev m)
    unfolding reset_up
    reset_up-keys d [] h = tt
    reset_up-keys d ((n, e) ∷ m) h = ground (arith, reset_up-keys d m)

    -- `increasedCount(d)` on a map in step with the count `c` brings it in step with the larger of
    -- the two, though its loop stops at the first active event.
    pub increased-Synced :
        (c d : ℕ) (m : EventMap E)
        → Ascending 0 m
        → Synced c m
        → Synced (max c d) (increased_count ev d m)
    unfolding increased_count
    increased-Synced c d m a s =
        let (sb, sa) = Synced-parts c d m s in
        let down = notify_down ev (reverse (below d m)) in
        let bounded =
          notify_down-keys d (reverse (below d m)) (All-reverse _ (below d m) (below-keys d m)) in
        let act =
          notify_down-Active (reverse (below d m))
            (Closed-reverse c 0 (below d m) (Ascending-below d 0 m a) sb) in
        All-append (IsSynced (max c d)) (reverse down) (above d m)
          (All-reverse _ down
            (Synced-of_active (max c d) down act (All-map _ down (λ p h. omega arith) bounded)))
          (Synced-above_max c d (above d m) (above-keys d 0 m a) sa)

    -- `decreasedCount(d)` on a map in step with the count `c` brings it in step with the smaller of
    -- the two, though its loop stops at the first inactive event.
    pub decreased-Synced :
        (c d : ℕ) (m : EventMap E)
        → Ascending 0 m
        → Synced c m
        → Synced (min c d) (decreased_count ev d m)
    unfolding decreased_count
    decreased-Synced c d m a s =
        let (sb, sa) = Synced-parts c d m s in
        let up = reset_up ev (above d m) in
        All-append (IsSynced (min c d)) (below d m) up
          (Synced-below_min c d (below d m) (below-keys d m) sb)
          (Synced-of_idle (min c d) up (reset_up-Idle c 0 (above d m) (Ascending-above d 0 m a) sa)
            (All-map _ up (λ p h. omega arith) (reset_up-keys d (above d m) (above-keys d 0 m a))))

    -- `decreasedCountRenotify(d)` does the same to a map in step with the count `c`, whatever `d` is.
    pub renotify-Synced :
        (c d : ℕ) (m : EventMap E) → Synced c m → Synced (min c d) (decreased_count_renotify ev d m)
    unfolding decreased_count_renotify
    renotify-Synced c d [] s = tt
    renotify-Synced c d ((n, e) ∷ m) s = (
      ground (arith, s.0, laws.active_renotify e, laws.active_reset e),
      renotify-Synced c d m s.1,
    )

    pub reset-Idle : (m : EventMap E) → All IsIdle (reset ev m)
    unfolding reset
    reset-Idle [] = tt
    reset-Idle ((n, e) ∷ m) = (laws.active_reset e, reset-Idle m)

    -- Where no event is active, `increasedCount(d)` brings every event in step with `d`.
    pub increased-Synced_idle :
        (d : ℕ) (m : EventMap E) → Ascending 0 m → All IsIdle m → Synced d (increased_count ev d m)
    unfolding increased_count
    increased-Synced_idle d m a idle =
        let (ib, ia) =
          All-append_split IsIdle (below d m) (above d m)
            (subst (All IsIdle) (sym (below-append-above d m)) idle) in
        let down = notify_down ev (reverse (below d m)) in
        All-append (IsSynced d) (reverse down) (above d m)
          (All-reverse _ down (
            Synced-of_active d down
              (notify_down-Active (reverse (below d m))
                (Closed-of_inactive (reverse (below d m)) (All-reverse _ (below d m) ib)))
              (notify_down-keys d (reverse (below d m))
                (All-reverse _ (below d m) (below-keys d m)))))
          (Synced-of_idle d (above d m) ia (above-keys d 0 m a))
