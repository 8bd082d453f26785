-- ===== src/EventMap/Tests.antt =====
-- An event map with events for one, two and four tokens.
use systemoc_syste_mo_c.Common.{◌≡◌, refl, Bool, true, false, [], ◌∷◌, leb, arith}
use systemoc_syste_mo_c.Event.{plain_event, plain_event-IsEvent}
use systemoc_syste_mo_c.EventMap.{EventMap, increased_count, decreased_count, get_event_at}
use systemoc_syste_mo_c.EventMap.Order.{Ascending}
use systemoc_syste_mo_c.EventMap.Sync.{
  Synced, increased-Synced, decreased-Synced, increased-Synced_idle,
}
use systemoc_syste_mo_c.EventMap.Events.{get_event_at-Synced}

abbrev waits : EventMap Bool
waits = (1, true) ∷ (2, true) ∷ (4, false) ∷ []

abbrev idle : EventMap Bool
idle = (1, false) ∷ (2, false) ∷ (4, false) ∷ []

waits-Synced : Synced plain_event 3 waits
waits-Synced = (refl, (refl, (refl, tt)))

increased_runs : increased_count plain_event 4 waits ≡ (1, true) ∷ (2, true) ∷ (4, true) ∷ []
unfolding increased_count
increased_runs = refl

increased-Synced_example : Synced plain_event 4 (increased_count plain_event 4 waits)
increased-Synced_example =
    increased-Synced plain_event plain_event-IsEvent 3 4 waits (omega arith) waits-Synced

decreased-Synced_example : Synced plain_event 1 (decreased_count plain_event 1 waits)
decreased-Synced_example =
    decreased-Synced plain_event plain_event-IsEvent 3 1 waits (omega arith) waits-Synced

increased-Synced_idle_example : Synced plain_event 2 (increased_count plain_event 2 idle)
increased-Synced_idle_example =
    increased-Synced_idle plain_event plain_event-IsEvent 2 idle (omega arith)
      (refl, (refl, (refl, tt)))

get_event_at-Synced_example :
    (true ≡ leb 3 3)
    × Synced plain_event 3 ((1, true) ∷ (2, true) ∷ (3, true) ∷ (4, false) ∷ [])
    × Ascending 0 ((1, true) ∷ (2, true) ∷ (3, true) ∷ (4, false) ∷ [])
unfolding get_event_at
get_event_at-Synced_example =
    get_event_at-Synced plain_event plain_event-IsEvent 3 3 waits _ _ (omega arith) waits-Synced
      refl
