-- ===== src/EventMap.antt =====
-- src/systemoc/headers/smoc/detail/EventMapManager.hpp: one event for each number of tokens, or of
-- free places, that some transition waits for. `std::map<size_t, smoc_event *>` is the list of its
-- entries in the order of their keys.
pub mod Order
pub mod Sync
pub mod Follow
pub mod Events
mod Tests
use mathlib.Core.List.{reverse}
use systemoc_syste_mo_c.Common.{
  ℕ, ◌≡◌, Bool, true, false, Option, none, some, List, [], ◌∷◌, ◌++◌, ltb, leb, ◌==◌, if◌then◌else◌,
  ◌-◌,
}
use systemoc_syste_mo_c.Event.{EventOps}
use systemoc_syste_mo_c.Queue.Rw.{size_mod}

abbrev pub EventMap : Type 0 → Type 0
EventMap E = List (ℕ × E)

module _ {E : Type 0} where
  -- The entries before `upper_bound(count)`, and those from it on.
  pub below : ℕ → EventMap E → EventMap E
  below count [] = []
  below count ((n, e) ∷ m) = if ltb count n then [] else (n, e) ∷ below count m

  pub above : ℕ → EventMap E → EventMap E
  above count [] = []
  above count ((n, e) ∷ m) = if ltb count n then (n, e) ∷ m else above count m

  -- `eventMap[n]`, where the entry is there.
  pub find : ℕ → EventMap E → Option E
  find n [] = none
  find n ((k, e) ∷ m) = if k == n then some e else find n m

  -- `eventMap[n] = e`, where it is not.
  pub insert : ℕ → E → EventMap E → EventMap E
  insert n e [] = (n, e) ∷ []
  insert n e ((k, d) ∷ m) = if ltb n k then (n, e) ∷ (k, d) ∷ m else (k, d) ∷ insert n e m

module _ {E : Type 0} (ev : EventOps E) where
  -- The loop of `increasedCount`, over the entries that it comes to, the last one first.
  pub notify_down : EventMap E → EventMap E
  notify_down [] = []
  notify_down ((n, e) ∷ m) =
      let rest = notify_down m in if ev.is_active e then (n, e) ∷ m else (n, ev.notify e) ∷ rest

  unfoldable pub increased_count : ℕ → EventMap E → EventMap E
  unfolding below above notify_down
  increased_count count m = reverse (notify_down (reverse (below count m))) ++ above count m

  -- The loop of `decreasedCount`.
  pub reset_up : EventMap E → EventMap E
  reset_up [] = []
  reset_up ((n, e) ∷ m) =
      let rest = reset_up m in if ev.is_active e then (n, ev.reset e) ∷ rest else (n, e) ∷ m

  unfoldable pub decreased_count : ℕ → EventMap E → EventMap E
  unfolding below above reset_up
  decreased_count count m = below count m ++ reset_up (above count m)

  unfoldable pub decreased_count_renotify : ℕ → EventMap E → EventMap E
  decreased_count_renotify count [] = []
  decreased_count_renotify count ((n, e) ∷ m) =
      (n, if leb n count then ev.renotify_listener e else ev.reset e)
      ∷ decreased_count_renotify count m

  unfoldable pub reset : EventMap E → EventMap E
  reset [] = []
  reset ((n, e) ∷ m) = (n, ev.reset e) ∷ reset m

  -- `getEvent(count, n)`: the event, and the map that holds it.
  unfoldable pub get_event_at : ℕ → ℕ → EventMap E → Option (E × EventMap E)
  unfolding find insert
  get_event_at count n m = if n == size_mod - 1 then none else elim (find n m) [
    | some e ↦ some (e, m)
    | none ↦ some (ev.new (leb n count), insert n (ev.new (leb n count)) m)
  ]

  -- `getEvent(n)`: a new event is inactive.
  unfoldable pub get_event : ℕ → EventMap E → Option (E × EventMap E)
  unfolding find insert
  get_event n m = if n == size_mod - 1 then none else elim (find n m) [
    | some e ↦ some (e, m)
    | none ↦ some (ev.new false, insert n (ev.new false) m)
  ]
