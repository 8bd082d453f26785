-- ===== src/Node/Signals.antt =====
-- `signaled`: what an event that the node listens to does to it.
use systemoc_syste_mo_c.Common.{
  ℕ, ◌≡◌, Bool, true, false, Option, none, some, [], ◌∷◌, ◌++◌, if◌then◌else◌,
}
use systemoc_syste_mo_c.Node.Base.{State, Transition, NodeBase, World, is_some}
use systemoc_syste_mo_c.Node.Search.{IsFirst}
use systemoc_syste_mo_c.Node.Searched.{Searched}

module _ {W : Type 0} (world : World W) where
  -- What the search of the current state's transitions should leave.
  abbrev pub Found : W → NodeBase → NodeBase → Type 0
  Found w n m = (s : State) × (n.current_state ≡ some s) × IsFirst world w s.transitions m.ct

  -- What an event that became inactive should leave, by the transition that was enabled before.
  abbrev pub Lost : W → NodeBase → NodeBase → Option Transition → Type 0
  Lost w n m none = (m.ct ≡ none) × (m.notified ≡ n.notified)
  Lost w n m (some t) =
      Found w n m × (m.notified ≡ (if is_some m.ct then n.notified else n.notified ++ (false ∷ [])))

  -- What an event should leave of a node that does not execute, by whether the event is active.
  abbrev pub Reacts : W → Bool → NodeBase → NodeBase → Type 0
  Reacts w true n m =
      Found w n m × (m.notified ≡ (if is_some m.ct then n.notified ++ (true ∷ []) else n.notified))
  Reacts w false n m = Lost w n m n.ct

  -- What `signaled` leaves of a node that executes, and of one that does not, with what it tells the
  -- event.
  abbrev pub Signals : ℕ → W → Bool → NodeBase → NodeBase → Bool → Type 0
  Signals e w true n m rem =
      (m ≡ record n { signaling_event_remove = false }) × (rem ≡ n.signaling_event_remove)
  Signals e w false n m rem = (rem ≡ false) × Searched n m × Reacts w (world.is_active e w) n m
