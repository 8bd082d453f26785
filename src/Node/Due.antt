-- ===== src/Node/Due.antt =====
-- `getNextNode` and the head of the waiter's loop: the event of the queue is notified as long as a node
-- is due, and the waiter does not oversleep a node.
use systemoc_syste_mo_c.Common.{
  ℕ, ◌+◌, ◌≤◌, ◌<◌, ◌≡◌, refl, sym, subst, inl, inr, Bool, true, false, not, ◌||◌, ◌&&◌, Option,
  none, some, List, [], ◌∷◌, ltb, leb, ltb→lt, ◌==◌, if◌then◌else◌, check, >>=-eq-some, some_pair,
  ◌⊎◌, Bool-cases, All, arith, ◌>>◌,
}
use systemoc_syste_mo_c.Node.TimeQueue.{
  TimeNodePair, NodeQueue, none_due, get_next_node, waiter_waits,
}
use systemoc_syste_mo_c.Node.Order.{IsSorted, entries, Covers, IsAwake}

-- Whether some entry is due.
unfoldable pub any_due : ℕ → List TimeNodePair → Bool
any_due now [] = false
any_due now (p ∷ ps) = leb p.time now || any_due now ps

queue_cases :
    (l : List TimeNodePair)
    → (l ≡ []) ⊎ ((p : TimeNodePair) × (ps : List TimeNodePair) × (l ≡ p ∷ ps))
queue_cases [] = inl refl
queue_cases (p ∷ ps) = inr (p, ps, refl)

-- `waiter_waits` of a queue with the entries `l`.
abbrev head_of : ℕ → NodeQueue → List TimeNodePair → Option (NodeQueue × Option ℕ)
head_of now q l = elim l [
  | [] ↦ some (record q { current = none }, none)
  | p ∷ ps ↦ do check (leb now p.time); some (record q { current = some p }, some p.time)
]

-- The head of the waiter's loop makes it wait for a time not after any entry, or for a new one.
waiter_waits-Covers :
    (now : ℕ) (until : Option ℕ) (q r : NodeQueue)
    → IsSorted q.pqueue
    → waiter_waits now q ≡ some (r, until)
    → Covers r.current r.pqueue
unfolding waiter_waits IsSorted
waiter_waits-Covers now until q r h e = elim (queue_cases q.pqueue) [
  | inl c ↦
      let (same, _) = some_pair (subst (λ l. head_of now q l ≡ some (r, until)) c e) in
      subst (λ (k : NodeQueue). Covers k.current k.pqueue) same c
  | inr (p, ps, c) ↦
      let (u, h1, h2) =
        >>=-eq-some (check (leb now p.time)) _
          (subst (λ l. head_of now q l ≡ some (r, until)) c e) in
      let (same, _) = some_pair h2 in
      let sorted = subst IsSorted c h in
      subst (λ (k : NodeQueue). Covers k.current k.pqueue) same
        (subst (All (λ (s : TimeNodePair). p.time ≤ s.time)) (sym c) (omega arith, sorted.0))
]

-- The event of the queue is notified exactly if some entry is due.
abbrev pub IsTold : ℕ → NodeQueue → Type 0
IsTold now q = q.is_notified ≡ any_due now q.pqueue

none_due_after :
    (now time : ℕ) (ps : List TimeNodePair)
    → now < time
    → All (λ (p : TimeNodePair). time ≤ p.time) ps
    → any_due now ps ≡ false
unfolding any_due
none_due_after now time [] lt h = refl
none_due_after now time (p ∷ ps) lt h = ground (arith, h.0, none_due_after now time ps lt h.1)

none_due-any_due :
    (now : ℕ) (ps : List TimeNodePair) → IsSorted ps → none_due now ps ≡ not (any_due now ps)
unfolding any_due IsSorted
none_due-any_due now [] h = refl
none_due-any_due now (p ∷ ps) h = elim (Bool-cases (ltb now p.time)) [
  | inl e ↦
      let late = none_due_after now p.time ps (ltb→lt now p.time e) h.0 in ground (arith, e, late)
  | inr e ↦ ground (arith, e)
]

-- What `getNextNode` leaves of a queue.
abbrev pub Takes : ℕ → NodeQueue → Option (ℕ × NodeQueue) → Type 0
Takes now q none = q.pqueue ≡ []
Takes now q (some (i, r)) =
    (time : ℕ) × ((t j : ℕ)
      → entries t j q.pqueue ≡ (if time == t && i == j then 1 else 0) + entries t j r.pqueue)
    × All (λ (p : TimeNodePair). time ≤ p.time) r.pqueue
    × IsSorted r.pqueue
    × IsAwake r
    × IsTold now r
    × (r.nodes_processed ≡ (q.nodes_processed || not (any_due now r.pqueue)))

rest-IsAwake :
    (added : Bool) (c : Option TimeNodePair) (p : TimeNodePair) (ps : List TimeNodePair)
    → (added ≡ true) ⊎ Covers c (p ∷ ps)
    → (added ≡ true) ⊎ Covers c ps
rest-IsAwake added c p ps (inl h) = inl h
rest-IsAwake added none p ps (inr h) = cc
rest-IsAwake added (some c) p ps (inr h) = inr h.1

take_first :
    (now : ℕ) (p : TimeNodePair) (ps : List TimeNodePair) (q : NodeQueue)
    → IsSorted (p ∷ ps)
    → (q.node_added ≡ true) ⊎ Covers q.current (p ∷ ps)
    → q.is_notified ≡ any_due now (p ∷ ps)
    → Takes now (record q { pqueue = p ∷ ps }) (get_next_node now (record q { pqueue = p ∷ ps }))
unfolding get_next_node IsSorted entries any_due
take_first now p ps q h awake told =
    let test = none_due-any_due now ps h.1 in
    let left = rest-IsAwake q.node_added q.current p ps awake in
    elim (Bool-cases (any_due now ps)) [
      | inl e ↦
          let rest : none_due now ps ≡ false = ground (arith, test, e) in
          rw rest
            (p.time, (λ t j. refl), h.0, h.1, left, ground (arith, told, e), ground (arith, e))
      | inr e ↦
          let rest : none_due now ps ≡ true = ground (arith, test, e) in
          rw rest (p.time, (λ t j. refl), h.0, h.1, left, sym e, ground (arith, e))
    ]

-- On a queue in the order of its times whose waiter is awake and whose event is notified exactly if
-- some entry is due, `getNextNode` stops exactly if the queue is empty. Otherwise it takes one entry of
-- the node that it returns, with a time that no entry that is left is before. The queue stays in
-- order and its waiter awake. Its event stays notified exactly as long as some entry that is left is
-- due, and the waiter is told that all nodes are processed exactly if none is, or it was told before.
pub get_next_node-Takes :
    (now : ℕ) (q : NodeQueue)
    → IsSorted q.pqueue
    → IsAwake q
    → IsTold now q
    → Takes now q (get_next_node now q)
unfolding get_next_node
get_next_node-Takes now q h awake told = elim (queue_cases q.pqueue) [
  | inl c ↦ rw c refl
  | inr (p, ps, c) ↦
      let Took : List TimeNodePair → Type 0 =
        λ l. Takes now (record q { pqueue = l }) (get_next_node now (record q { pqueue = l })) in
      subst Took (sym c) (
        take_first now p ps q (subst IsSorted c h)
          (subst (λ l. (q.node_added ≡ true) ⊎ Covers q.current l) c awake)
          (subst (λ l. q.is_notified ≡ any_due now l) c told))
]
