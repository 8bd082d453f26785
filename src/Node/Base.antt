-- ===== src/Node/Base.antt =====
-- cpp/detail/NodeBase.cpp, and `check` of cpp/detail/FSM/RuntimeTransition.cpp. Events, transitions
-- and states are numbers; what the event library and the guards say of them is the record `World`.
use systemoc_syste_mo_c.Common.{
  ℕ, Bool, true, false, not, ◌&&◌, Option, none, some, List, [], ◌∷◌, ◌++◌, ◌==◌, if◌then◌else◌,
  ◌>>=◌, ◌>>◌, check,
}

-- `ActivationStatus::toSymbol`
pub data Status : Type 0 where
  disabled : Status
  blocked : Status
  enabled : Status

pub record Transition : Type 0 where
  pub id : ℕ
  pub io_pattern_waiter : ℕ
  pub dest : ℕ

-- `RuntimeState`: its transitions, and the waiters `am` that it listens to.
pub record State : Type 0 where
  pub id : ℕ
  pub am : List ℕ
  pub transitions : List Transition

pub record NodeBase : Type 0 where
  pub current_state : Option State
  pub ct : Option Transition
  pub executing : Bool
  pub signaling_event : Option ℕ
  pub signaling_event_remove : Bool
  pub use_activation_callback : Bool
  pub active : Bool
  -- The events that have the node as a listener.
  pub listening : List ℕ
  -- The calls of the scheduler's `notifyActivation`, the last one at the end.
  pub notified : List Bool

-- Events, guards and states as the node reads them in a state `W` of its surroundings.
pub record World (W : Type 0) : Type 0 where
  pub is_active : ℕ → W → Bool
  pub guard : ℕ → W → Status
  pub state_at : ℕ → State

-- `NodeBase::NodeBase`
abbrev pub new_node : NodeBase
new_node = record {
  current_state = none;
  ct = none;
  executing = false;
  signaling_event = none;
  signaling_event_remove = false;
  use_activation_callback = true;
  active = true;
  listening = [];
  notified = [];
}

abbrev pub is_some {ℓ} : {A : Type ℓ} → Option A → Bool
is_some none = false
is_some (some a) = true

abbrev pub is_event : Option ℕ → ℕ → Bool
is_event none e = false
is_event (some s) e = s == e

unfoldable pub listens : ℕ → List ℕ → Bool
listens e [] = false
listens e (x ∷ xs) = if x == e then true else listens e xs

unfoldable pub remove : ℕ → List ℕ → List ℕ
remove e [] = []
remove e (x ∷ xs) = if x == e then remove e xs else x ∷ remove e xs

-- The scheduler's `notifyActivation`
abbrev pub notify_activation : Bool → NodeBase → NodeBase
notify_activation b n = record n { notified = n.notified ++ (b ∷ []) }

-- `addMySelfAsListener`
unfoldable pub add_listener : List ℕ → NodeBase → NodeBase
add_listener [] n = n
add_listener (e ∷ am) n =
    add_listener am
      (record n { listening = if listens e n.listening then n.listening else e ∷ n.listening })

-- `delMySelfAsListener`
unfoldable pub del_listener : List ℕ → NodeBase → NodeBase
del_listener [] n = n
del_listener (e ∷ am) n = del_listener am (
    if is_event n.signaling_event e
    then record n { signaling_event_remove = true }
    else record n { listening = remove e n.listening })

-- Whether the node listens to the events of its state at all.
abbrev pub is_listening : NodeBase → Bool
is_listening n = n.active && n.use_activation_callback

abbrev pub del_current : NodeBase → NodeBase
del_current n = elim n.current_state [ none ↦ n | some s ↦ del_listener s.am n ]

abbrev pub is_state : Option State → State → Bool
is_state none s = false
is_state (some r) s = r.id == s.id

unfoldable pub set_current_state : State → NodeBase → NodeBase
set_current_state new n =
    if is_listening n
    then if is_state n.current_state new
      then record n { ct = none }
      else record (add_listener new.am (record (del_current n) { current_state = some new })) {
        ct = none;
      }
    else record n { current_state = some new; ct = none }

module _ {W : Type 0} (world : World W) where
  -- `RuntimeTransition::check`
  unfoldable pub check_transition : Transition → W → Option Bool
  check_transition t w =
      if world.is_active t.io_pattern_waiter w
      then elim (world.guard t.id w) [
        | enabled ↦ some true
        | disabled ↦ some false
        | blocked ↦ none
      ]
      else some false

  -- The loop of `searchActiveTransition`.
  unfoldable pub first_enabled : List Transition → W → Option (Option Transition)
  first_enabled [] w = some none
  first_enabled (t ∷ tl) w = do
    b ← check_transition t w
    if b then some (some t) else first_enabled tl w

  unfoldable pub search_active_transition : NodeBase → W → Option NodeBase
  search_active_transition n w = do
    s ← n.current_state
    t ← first_enabled s.transitions w
    some (record n { ct = t })

  -- `searchActiveTransition` and the notification of what it found.
  abbrev pub search_and_notify : NodeBase → W → Option NodeBase
  search_and_notify n w = do
    m ← search_active_transition n w
    some (notify_activation (is_some m.ct) m)

  -- What `signaled` does when the event is active, and when it is not.
  unfoldable pub on_active : NodeBase → W → Option NodeBase
  on_active n w = do
    m ← search_active_transition n w
    some (if is_some m.ct then notify_activation true m else m)

  unfoldable pub on_inactive : NodeBase → W → Option NodeBase
  on_inactive n w =
      if is_some n.ct
      then (do
        m ← search_active_transition n w
        some (if is_some m.ct then m else notify_activation false m))
      else some n

  unfoldable pub on_event : ℕ → NodeBase → W → Option NodeBase
  on_event e n w = do
    check (not (is_some n.signaling_event))
    check (not n.signaling_event_remove)
    let n1 : NodeBase = record n { signaling_event = some e }
    n2 ← (if world.is_active e w then on_active n1 w else on_inactive n1 w)
    check (is_event n2.signaling_event e)
    some (record n2 { signaling_event = none })

  -- `signaled`: the node, and whether the event has to remove it from its listeners.
  unfoldable pub signaled : ℕ → NodeBase → W → Option (NodeBase × Bool)
  signaled e n w = do
    check (is_listening n)
    m ← (if n.executing then some n else on_event e n w)
    some (record m { signaling_event_remove = false }, m.signaling_event_remove)

  -- `renotified`
  unfoldable pub renotified : ℕ → NodeBase → W → Option NodeBase
  renotified e n w = do
    check (world.is_active e w)
    (m, remove_me) ← signaled e n w
    check (not remove_me)
    some m

  -- What a change of `isListening` does, once the flag is set.
  abbrev pub listening_changed : (old new : Bool) → Bool → State → NodeBase → W → Option NodeBase
  listening_changed true true quiet s n w = some n
  listening_changed true false quiet s n w =
      some (if quiet then del_listener s.am n else notify_activation false (del_listener s.am n))
  listening_changed false true quiet s n w = search_and_notify (add_listener s.am n) w
  listening_changed false false quiet s n w = some n

  unfoldable pub set_use_activation_callback : Bool → NodeBase → W → Option NodeBase
  set_use_activation_callback flag n w =
      let m : NodeBase = record n { use_activation_callback = flag } in
      elim n.current_state [
        | none ↦ some m
        | some s ↦ listening_changed (is_listening n) (is_listening m) false s m w
      ]

  unfoldable pub set_active : Bool → NodeBase → W → Option NodeBase
  set_active flag n w =
      let m : NodeBase = record n { active = flag } in
      elim n.current_state [
        | none ↦ some m
        | some s ↦ do
          check (not (not (is_listening n) && is_listening m && m.executing))
          listening_changed (is_listening n) (is_listening m) m.executing s m w
      ]

  -- `schedule`; `action` is what the transition's action and the scheduler do while it executes.
  unfoldable pub schedule :
      (Transition → NodeBase → W → Option (NodeBase × W)) → NodeBase → W → Option (NodeBase × W)
  schedule action n w = do
    t ← n.ct
    b ← check_transition t w
    check b
    check (not n.executing)
    (n1, w1) ← action t (record n { executing = true }) w
    let n2 : NodeBase = record (set_current_state (world.state_at t.dest) n1) { executing = false }
    check (not (is_some n2.ct))
    n3 ← (if n2.use_activation_callback then search_active_transition n2 w1 else some n2)
    some (n3, w1)

  unfoldable pub can_fire : NodeBase → W → Option (NodeBase × Bool)
  can_fire n w =
      if n.active
      then (do
        m ← (if n.use_activation_callback then some n else search_active_transition n w)
        some (m, is_some m.ct))
      else some (n, false)

  -- `doReset`, of a node with an FSM whose initial state is `init`; `reset` is the user's code.
  unfoldable pub do_reset : (W → W) → State → NodeBase → W → Option (NodeBase × W)
  do_reset reset init n w =
      let v = reset w in
      let m : NodeBase = set_current_state init n in
      do k ← (if is_listening m then search_and_notify m v else some m); some (k, v)
