-- ===== src/Node/Order.antt =====
-- The priority queue of `NodeQueue` keeps its nodes in the order of their times, and a new node wakes the
-- waiter where it would oversleep it.
use systemoc_syste_mo_c.Common.{
  ℕ, ◌+◌, ◌≤◌, ◌<◌, ◌≡◌, Bool, true, false, ◌&&◌, Option, none, some, List, [], ◌∷◌, ◌==◌,
  if◌then◌else◌, ◌⊎◌, All,
}
use systemoc_syste_mo_c.Node.TimeQueue.{TimeNodePair, NodeQueue}

-- No entry is earlier than the ones before it.
unfoldable pub IsSorted : List TimeNodePair → Type 0
IsSorted [] = Unit
IsSorted (p ∷ ps) = All (λ (q : TimeNodePair). p.time ≤ q.time) ps × IsSorted ps

-- How often a node stands in the queue with a time.
unfoldable pub entries : ℕ → ℕ → List TimeNodePair → ℕ
entries time i [] = 0
entries time i (p ∷ ps) = (if p.time == time && p.node == i then 1 else 0) + entries time i ps

-- What the waiter waits for at its head: some time that is not after any entry, or, if there is none,
-- a new entry. If not, it is told of a new entry.
abbrev pub Covers : Option TimeNodePair → List TimeNodePair → Type 0
Covers none ps = ps ≡ []
Covers (some c) ps = All (λ (p : TimeNodePair). c.time ≤ p.time) ps

abbrev pub IsAwake : NodeQueue → Type 0
IsAwake q = (q.node_added ≡ true) ⊎ Covers q.current q.pqueue

-- What `registerNode` leaves.
abbrev pub Registers :
    (is_periodic : ℕ → Bool) (node time now : ℕ) → NodeQueue → Option NodeQueue → Type 0
Registers is_periodic node time now q none = (time < now) × (is_periodic node ≡ false)
Registers is_periodic node time now q (some r) =
    ((now ≤ time) ⊎ (is_periodic node ≡ true))
    × IsSorted r.pqueue
    × IsAwake r
    × ((t i : ℕ)
        → entries t i r.pqueue ≡ (if time == t && node == i then 1 else 0) + entries t i q.pqueue)
