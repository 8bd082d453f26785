-- ===== src/Node/Tests.antt =====
-- The theorems of the node's modules at concrete nodes and queues.
use systemoc_syste_mo_c.Common.{
  ℕ, suc, ◌+◌, ◌*◌, ◌≡◌, refl, true, false, Option, none, some, [], ◌∷◌, ◌==◌, if◌then◌else◌, arith,
  subst, some_pair, inr,
}
use systemoc_syste_mo_c.Node.Base.{
  enabled, State, Transition, NodeBase, World, listens, remove, add_listener, del_listener,
  set_current_state, check_transition, first_enabled, search_active_transition, set_active,
  set_use_activation_callback, schedule, signaled,
}
use systemoc_syste_mo_c.Node.Periodic.{PeriodicActor, new_actor, update_release_time}
use systemoc_syste_mo_c.Node.TimeQueue.{TimeNodePair, NodeQueue, push, register_node, get_next_node}
use systemoc_syste_mo_c.Node.Listeners.{IsListener, wants}
use systemoc_syste_mo_c.Node.Flags.{set_active-IsListener}
use systemoc_syste_mo_c.Node.Schedule.{Enters, schedule-IsListener}
use systemoc_syste_mo_c.Node.Signals.{Signals}
use systemoc_syste_mo_c.Node.Search.{IsFirst, search_active_transition-IsFirst}
use systemoc_syste_mo_c.Node.Release.{IsUpdated, update_release_time-IsUpdated}
use systemoc_syste_mo_c.Node.Order.{IsSorted, IsAwake}
use systemoc_syste_mo_c.Node.Due.{any_due, Takes, get_next_node-Takes}

abbrev t0 : Transition
t0 = record { id = 0; io_pattern_waiter = 5; dest = 1 }

abbrev t1 : Transition
t1 = record { id = 1; io_pattern_waiter = 6; dest = 0 }

abbrev s0 : State
s0 = record { id = 0; am = 5 ∷ []; transitions = t0 ∷ [] }

abbrev s1 : State
s1 = record { id = 1; am = 6 ∷ []; transitions = t1 ∷ [] }

-- Every event is active and every guard holds.
abbrev world : World ℕ
world = record {
  is_active = λ e w. true;
  guard = λ t w. enabled;
  state_at = λ i. if i == 0 then s0 else s1;
}

abbrev ready : NodeBase
ready = record {
  current_state = some s0;
  ct = some t0;
  executing = false;
  signaling_event = none;
  signaling_event_remove = false;
  use_activation_callback = true;
  active = true;
  listening = 5 ∷ [];
  notified = [];
}

ready-IsListener : IsListener ready
unfolding IsListener wants
ready-IsListener = (refl, λ e. refl)

abbrev inactive : NodeBase
inactive = record ready { active = false; listening = []; notified = false ∷ [] }

set_inactive : set_active world false ready 0 ≡ some inactive
unfolding set_active del_listener remove
set_inactive = refl

set_active-IsListener_example : IsListener inactive
set_active-IsListener_example =
    set_active-IsListener world false ready inactive 0 ready-IsListener set_inactive

abbrev polled : NodeBase
polled = record ready { use_activation_callback = false; listening = []; notified = false ∷ [] }

set_polled : set_use_activation_callback world false ready 0 ≡ some polled
unfolding set_use_activation_callback del_listener remove
set_polled = refl

-- An action that counts.
abbrev act : Transition → NodeBase → ℕ → Option (NodeBase × ℕ)
act t n w = some (n, suc w)

abbrev fired : NodeBase
fired = record ready { current_state = some s1; ct = some t1; listening = 6 ∷ [] }

act-IsListener :
    (t : Transition) (a b : NodeBase) (x y : ℕ)
    → IsListener a
    → act t a x ≡ some (b, y)
    → IsListener b
act-IsListener t a b x y h e = let (ea, ew) = some_pair e in subst IsListener ea h

schedule-ready : schedule world act ready 0 ≡ some (fired, 1)
unfolding schedule check_transition set_current_state add_listener del_listener remove listens
    search_active_transition first_enabled
schedule-ready = refl

schedule-IsListener_example :
    (t : Transition) × (ready.ct ≡ some t)
    × (check_transition world t 0 ≡ some true)
    × (m : NodeBase) × (act t (record ready { executing = true }) 0 ≡ some (m, 1))
    × Enters world t 1 fired
schedule-IsListener_example =
    schedule-IsListener world act ready fired 0 1 act-IsListener ready-IsListener schedule-ready

-- An actor with period 10 and offset 3, late at time 25.
abbrev late : PeriodicActor
late = new_actor ready 10 3

abbrev exact_release : ℕ → ℕ → ℕ → ℕ
exact_release k period offset = k * period + offset

update_release_time-IsUpdated_example :
    (b : PeriodicActor) × (update_release_time exact_release 26 25 late ≡ some b)
    × IsUpdated 25 late b
update_release_time-IsUpdated_example =
    update_release_time-IsUpdated exact_release 25 late (omega arith) (omega arith) (λ k h. refl)
      (omega arith)

late_released :
    update_release_time exact_release 26 25 late
    ≡ some (record late { period_counter = 3; next_release_time = 33 })
unfolding update_release_time
late_released = refl

abbrev entry : ℕ → ℕ → TimeNodePair
entry t n = record { time = t; node = n }

abbrev queue : NodeQueue
queue = record {
  pqueue = entry 4 1 ∷ entry 9 2 ∷ [];
  current = some (entry 4 1);
  node_added = false;
  nodes_processed = false;
  is_notified = true;
}

abbrev longer : NodeQueue
longer = record queue { pqueue = entry 4 1 ∷ entry 7 3 ∷ entry 9 2 ∷ [] }

abbrev shorter : NodeQueue
shorter = record queue { pqueue = entry 9 2 ∷ []; nodes_processed = true; is_notified = false }

queue-IsSorted : IsSorted queue.pqueue
unfolding IsSorted
queue-IsSorted = ((omega arith, tt), (tt, tt))

register_3 : register_node (λ n. true) 3 7 5 queue ≡ some longer
unfolding register_node push
register_3 = refl

queue-IsAwake : IsAwake queue
queue-IsAwake = inr (omega arith)

next_1 : get_next_node 5 queue ≡ some (1, shorter)
unfolding get_next_node
next_1 = refl

get_next_node-Takes_example : Takes 5 queue (get_next_node 5 queue)
unfolding any_due
get_next_node-Takes_example = get_next_node-Takes 5 queue queue-IsSorted queue-IsAwake refl

search-ready : search_active_transition world ready 0 ≡ some ready
unfolding search_active_transition first_enabled check_transition
search-ready = refl

search_active_transition-IsFirst_example :
    (s : State) × (ready.current_state ≡ some s) × IsFirst world 0 s.transitions ready.ct
search_active_transition-IsFirst_example =
    search_active_transition-IsFirst world ready ready 0 search-ready

-- The scheduler is told that the node is ready when its event becomes active.
abbrev told : NodeBase
told = record ready { notified = true ∷ [] }

-- The node is executing and has left the event 5: it is to be removed, once.
abbrev busy : NodeBase
busy = record ready { executing = true; signaling_event_remove = true }

signaled-busy :
    signaled world 5 busy 0 ≡ some (record busy { signaling_event_remove = false }, true)
unfolding signaled
signaled-busy = refl
