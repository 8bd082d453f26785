-- ===== src/Node/TimeQueue.antt =====
-- cpp/detail/NodeQueue.cpp and smoc/detail/NodeQueue.hpp: the nodes that wait for a release time. The
-- priority queue is a list with the earliest entry first.
use systemoc_syste_mo_c.Common.{
  ℕ, Bool, true, false, not, ◌||◌, ◌&&◌, Option, none, some, List, [], ◌∷◌, ltb, leb, if◌then◌else◌,
  ◌>>◌, check,
}

pub record TimeNodePair : Type 0 where
  pub time : ℕ
  pub node : ℕ

-- The queue, and the notifications that are pending.
pub record NodeQueue : Type 0 where
  pub pqueue : List TimeNodePair
  pub current : Option TimeNodePair
  pub node_added : Bool
  pub nodes_processed : Bool
  -- The queue as an event of its own.
  pub is_notified : Bool

-- `pqueue.push`
unfoldable pub push : TimeNodePair → List TimeNodePair → List TimeNodePair
push p [] = p ∷ []
push p (q ∷ qs) = if ltb p.time q.time then p ∷ q ∷ qs else q ∷ push p qs

abbrev pub is_earlier : ℕ → Option TimeNodePair → Bool
is_earlier time none = true
is_earlier time (some c) = ltb time c.time

-- `registerNode`; only a periodic actor may be late.
unfoldable pub register_node :
    (is_periodic : ℕ → Bool) (node time now : ℕ) → NodeQueue → Option NodeQueue
unfolding push
register_node is_periodic node time now q = do
  check (not (ltb time now) || is_periodic node)
  some (record q {
    pqueue = push (record { time = time; node = node }) q.pqueue;
    node_added = q.node_added || is_earlier time q.current;
  })

-- `pqueue.empty() || pqueue.top().time > now`
abbrev pub none_due : ℕ → List TimeNodePair → Bool
none_due now [] = true
none_due now (p ∷ ps) = ltb now p.time

-- `getNextNode`
unfoldable pub get_next_node : ℕ → NodeQueue → Option (ℕ × NodeQueue)
get_next_node now q = elim q.pqueue [
  | [] ↦ none
  | p ∷ ps ↦ some (
    p.node,
    (if none_due now ps
        then record q { pqueue = ps; nodes_processed = true; is_notified = false }
        else record q { pqueue = ps }),
  )
]

-- What `waiter` waits for at the head of its loop: some time, or `node_added` alone.
unfoldable pub waiter_waits : ℕ → NodeQueue → Option (NodeQueue × Option ℕ)
waiter_waits now q = elim q.pqueue [
  | [] ↦ some (record q { current = none }, none)
  | p ∷ ps ↦ do check (leb now p.time); some (record q { current = some p }, some p.time)
]

-- What `waiter` does after that wait.
unfoldable pub waiter_wakes : ℕ → NodeQueue → NodeQueue
waiter_wakes now q = elim q.current [
  | none ↦ q
  | some p ↦ if leb now p.time && leb p.time now then record q { is_notified = true } else q
]
