-- ===== src/EventMap/Events.antt =====
-- `getEvent`: the event that a transition waits on, found or made.
use systemoc_syste_mo_c.Common.{ℕ, ◌≡◌, some, [], ◌∷◌, arith, leb, Option-cases, inl, inr}
use systemoc_syste_mo_c.Event.{EventOps, IsEvent}
use systemoc_syste_mo_c.EventMap.{EventMap, find, insert, get_event_at}
use systemoc_syste_mo_c.EventMap.Order.{Ascending, insert-Ascending}
use systemoc_syste_mo_c.EventMap.Sync.{Synced}

module _ {E : Type 0} (ev : EventOps E) where
  find-Synced :
      (c n : ℕ) (m : EventMap E) (e : E)
      → Synced ev c m
      → find n m ≡ some e
      → ev.is_active e ≡ leb n c
  unfolding find
  find-Synced c n [] e s f = cc
  find-Synced c n ((k, d) ∷ m) e s f = ground (arith, s.0, find-Synced c n m e s.1)

  insert-Synced :
      (c n : ℕ) (e : E) (m : EventMap E)
      → ev.is_active e ≡ leb n c
      → Synced ev c m
      → Synced ev c (insert n e m)
  unfolding insert
  insert-Synced c n e [] h s = (h, tt)
  insert-Synced c n e ((k, d) ∷ m) h s = ground (arith, insert-Synced c n e m h s.1)

  -- `getEvent(c, n)` on a map in step with `c` gives an event that is active exactly if `n` is at
  -- most `c`, and leaves the map in order and in step, whether the event was there or is new.
  pub get_event_at-Synced :
      (laws : IsEvent ev) (c n : ℕ) (m m' : EventMap E) (e : E)
      → Ascending 0 m
      → Synced ev c m
      → get_event_at ev c n m ≡ some (e, m')
      → (ev.is_active e ≡ leb n c) × Synced ev c m' × Ascending 0 m'
  unfolding get_event_at
  get_event_at-Synced laws c n m m' e a s h = elim (Option-cases (find n m)) [
    | inl new ↦
        let made = laws.active_new (leb n c) in
        ground (
          arith,
          h,
          new,
          made,
          insert-Synced c n (ev.new (leb n c)) m made s,
          insert-Ascending 0 n (ev.new (leb n c)) m (omega arith) new a,
        )
    | inr (old, found) ↦ ground (arith, h, found, find-Synced c n m old s found)
  ]
