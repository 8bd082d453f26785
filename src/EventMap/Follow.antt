-- ===== src/EventMap/Follow.antt =====
-- An event map in order and in step with a count, after a call that tells it of the new count.
use systemoc_syste_mo_c.Common.{ℕ, ◌≤◌, ◌≡◌, subst, arith, some, [], ◌∷◌, leb, if◌then◌else◌}
use systemoc_syste_mo_c.Event.{EventOps, IsEvent}
use systemoc_syste_mo_c.EventMap
use systemoc_syste_mo_c.EventMap.{
  EventMap, increased_count, decreased_count, decreased_count_renotify, find,
}
use systemoc_syste_mo_c.EventMap.Order.{
  Ascending, Ascending-keys, keys-increased, keys-decreased, keys-renotify, keys-reset,
}
use systemoc_syste_mo_c.EventMap.Sync.{
  Synced, increased-Synced, decreased-Synced, renotify-Synced, reset-Idle, increased-Synced_idle,
}

module _ {E : Type 0} {ev : EventOps E} (ie : IsEvent ev) where
  pub follow_down :
      (m : EventMap E) (c d k : ℕ)
      → Ascending 0 m
      → Synced ev c m
      → k ≡ d
      → d ≤ c
      → Ascending 0 (decreased_count ev k m) × Synced ev d (decreased_count ev k m)
  follow_down m c d k a s e h = (
    Ascending-keys 0 _ m (keys-decreased ev k m) a,
    subst (λ n. Synced ev n (decreased_count ev k m)) (omega arith)
        (decreased-Synced ev ie c k m a s),
  )

  pub follow_renotify :
      (m : EventMap E) (c d k : ℕ)
      → Ascending 0 m
      → Synced ev c m
      → k ≡ d
      → d ≤ c
      → Ascending 0 (decreased_count_renotify ev k m)
        × Synced ev d (decreased_count_renotify ev k m)
  follow_renotify m c d k a s e h = (
    Ascending-keys 0 _ m (keys-renotify ev k m) a,
    subst (λ n. Synced ev n (decreased_count_renotify ev k m)) (omega arith)
        (renotify-Synced ev ie c k m s),
  )

  pub follow_up :
      (m : EventMap E) (c d k : ℕ)
      → Ascending 0 m
      → Synced ev c m
      → k ≡ d
      → c ≤ d
      → Ascending 0 (increased_count ev k m) × Synced ev d (increased_count ev k m)
  follow_up m c d k a s e h = (
    Ascending-keys 0 _ m (keys-increased ev k m) a,
    subst (λ n. Synced ev n (increased_count ev k m)) (omega arith)
        (increased-Synced ev ie c k m a s),
  )

  -- An event map after `reset` and `increasedCount(d)`.
  pub fresh_map :
      (m : EventMap E) (d k : ℕ)
      → Ascending 0 m
      → k ≡ d
      → let m' = EventMap.increased_count ev k (EventMap.reset ev m) in
        Ascending 0 m' × Synced ev d m'
  fresh_map m d k a e =
      let clear = EventMap.reset ev m in
      let order = Ascending-keys 0 clear m (keys-reset ev m) a in
      (
        Ascending-keys 0 _ clear (keys-increased ev k clear) order,
        subst (λ n. Synced ev n (EventMap.increased_count ev k clear)) e
            (increased-Synced_idle ev ie k clear order (reset-Idle ev ie m)),
      )

module _ {E : Type 0} (ev : EventOps E) where
  -- What `decreasedCountRenotify(count)` does to one event of the map.
  pub find-renotify :
      (count k : ℕ) (m : EventMap E) (e : E)
      → find k m ≡ some e
      → find k (decreased_count_renotify ev count m)
        ≡ some (if leb k count then ev.renotify_listener e else ev.reset e)
  unfolding find decreased_count_renotify
  find-renotify count k [] e h = cc
  find-renotify count k ((n, d) ∷ m) e h = ground (arith, find-renotify count k m e)
