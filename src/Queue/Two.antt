-- ===== src/Queue/Two.antt =====
-- `QueueRWPtr` on its own: the tokens and the free places add up to the depth, and each move is
-- refused exactly where they do not suffice.
use systemoc_syste_mo_c.Common.{ℕ, ◌+◌, ◌-◌, ◌≤◌, ◌<◌, ◌≡◌, Option, none, some, arith}
use systemoc_syste_mo_c.Modulo.{ModuloGroup, IsModulo}
use systemoc_syste_mo_c.Modulo.Wrap.{gap, gap-lt, gap_self, gap_advance, gap_retreat, step-lt}
use systemoc_syste_mo_c.Modulo.Chain.{sub-gap, sub_rest}
use systemoc_syste_mo_c.Queue.Rw.{
  QueueRwPtr, size_mod, new, reset_queue, used_count, visible_count, free_count, depth_count, wpp,
  rpp,
}

pub record IsValid (q : QueueRwPtr) : Type 0 where
  pub rindex_in : q.rindex < q.fsize
  pub windex_in : q.windex < q.fsize
  pub fsize_fits : q.fsize < size_mod

-- The tokens in the queue.
abbrev pub used : QueueRwPtr → ℕ
used q = gap q.fsize q.rindex q.windex

-- A move stops exactly where `b` is false, and otherwise ends in a valid queue of the same size that
-- holds `n` tokens.
abbrev pub Moves : QueueRwPtr → Option QueueRwPtr → ℕ → ℕ → ℕ → Type 0
Moves q none n limit count = limit < n
Moves q (some p) n limit count = (n ≤ limit) × IsValid p × (p.fsize ≡ q.fsize) × (used p ≡ count)

pub used-lt : {q : QueueRwPtr} → IsValid q → used q < q.fsize
used-lt {q} v = gap-lt q.fsize q.rindex q.windex v.rindex_in v.windex_in

module _ {mg : ModuloGroup} (im : IsModulo mg) {q : QueueRwPtr} (v : IsValid q) where
  pub used_count-used : used_count mg q ≡ used q
  unfolding used_count
  used_count-used = sub-gap im q.fsize q.rindex q.windex v.rindex_in v.windex_in

  pub free_count-used : free_count mg q ≡ q.fsize - 1 - used q
  unfolding free_count
  free_count-used = sub_rest im q.fsize q.rindex q.windex v.rindex_in v.windex_in

  -- In a valid `QueueRWPtr`, the free places and the used ones add up to `depthCount`.
  pub free-add-used : free_count mg q + used_count mg q ≡ depth_count q
  unfolding depth_count
  free-add-used =
      omega (arith, free_count-used, used_count-used, used-lt v, v.rindex_in, v.fsize_fits)

  module _ (n : ℕ) where
    pub wpp-Moves : Moves q (wpp mg q n) n (free_count mg q) (used q + n)
    unfolding wpp
    wpp-Moves = ground (
      arith,
      v.rindex_in,
      v.windex_in,
      v.fsize_fits,
      free_count-used,
      used-lt v,
      im.add_mod q.fsize q.windex n v.windex_in,
      step-lt q.fsize q.windex n v.windex_in,
      gap_advance q.fsize q.rindex q.windex v.rindex_in v.windex_in n,
    )

    pub rpp-Moves : Moves q (rpp mg q n) n (visible_count mg q) (used q - n)
    unfolding rpp
    rpp-Moves = ground (
      arith,
      v.rindex_in,
      v.windex_in,
      v.fsize_fits,
      used_count-used,
      used-lt v,
      im.add_mod q.fsize q.rindex n v.rindex_in,
      step-lt q.fsize q.rindex n v.rindex_in,
      gap_retreat q.fsize q.rindex q.windex v.rindex_in v.windex_in n,
    )

pub new-IsValid : (n : ℕ) → n + 1 < size_mod → IsValid (new n) × (used (new n) ≡ 0)
unfolding new
new-IsValid n h = let e = gap_self (n + 1) 0 (omega arith) in ground (arith, e)

pub reset_queue-IsValid :
    {q : QueueRwPtr} → IsValid q → IsValid (reset_queue q) × (used (reset_queue q) ≡ 0)
unfolding reset_queue
reset_queue-IsValid {q} v =
    let e = gap_self q.fsize 0 (omega (arith, v.rindex_in)) in ground (arith, e)
