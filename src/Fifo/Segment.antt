-- ===== src/Fifo/Segment.antt =====
-- The places of the ring, counted from an index on.
use Prim.Native.Nat.{min}
use systemoc_syste_mo_c.Common.{
  ℕ, zero, suc, ◌+◌, ◌-◌, ◌%◌, ◌≤◌, ◌<◌, ◌≡◌, ◌≢◌, refl, ◌∙◌, ◌&&◌, none, List, [], ◌∷◌, arith,
  length, length-set, get_or, set, ltb, leb, ◌==◌, if◌then◌else◌,
}
use systemoc_syste_mo_c.Modulo.Wrap.{mod-cases}
use systemoc_syste_mo_c.Fifo.Store.{Storage, invalidate_from, ring_index}

module _ {A : Type 0} where
  -- The `k`th place from `i` on, in a ring of `m` places.
  abbrev pub place : List (Storage A) → ℕ → ℕ → ℕ → Storage A
  place st m i k = get_or st ((i + k) % m) none

  get_or-set-none :
      (st : List (Storage A)) (i j : ℕ)
      → get_or (set st i none) j none ≡ (if i == j then none else get_or st j none)
  get_or-set-none [] i j = ground arith
  get_or-set-none (x ∷ st) zero zero = refl
  get_or-set-none (x ∷ st) zero (suc j) = ground arith
  get_or-set-none (x ∷ st) (suc i) zero = ground arith
  get_or-set-none (x ∷ st) (suc i) (suc j) = ground (arith, get_or-set-none st i j)

  pub invalidate_from_lem :
      (i n j : ℕ) (st : List (Storage A))
      → get_or (invalidate_from i n st) j none
        ≡ (if leb i j && ltb j (i + n) then none else get_or st j none)
  unfolding invalidate_from
  invalidate_from_lem i zero j st = ground arith
  invalidate_from_lem i (suc n) j st =
      ground (arith, invalidate_from_lem (i + 1) n j (set st i none), get_or-set-none st i j)

  pub length-invalidate_from :
      (i n : ℕ) (st : List (Storage A)) → length (invalidate_from i n st) ≡ length st
  unfolding invalidate_from
  length-invalidate_from i zero st = refl
  length-invalidate_from i (suc n) st =
      length-invalidate_from (i + 1) n (set st i none) ∙ length-set st i none

  -- The two loops of `rpp` invalidate the `n` places from `r` on, and no other.
  pub rpp_places :
      (st : List (Storage A)) (m r n k : ℕ)
      → r < m
      → n ≤ m
      → k < m
      → let o = min n (m - r) in
        place (invalidate_from 0 (n - o) (invalidate_from r o st)) m r k
        ≡ (if ltb k n then none else place st m r k)
  rpp_places st m r n k hr hn hk = ground (
    arith,
    mod-cases m (r + k) (omega arith),
    invalidate_from_lem 0 (n - min n (m - r)) ((r + k) % m) (invalidate_from r (min n (m - r)) st),
    invalidate_from_lem r (min n (m - r)) ((r + k) % m) st,
  )

-- Places fewer than `m` apart are distinct.
pub place-ne : (m i j k : ℕ) → i < m → j < m → k < m → j ≢ k → (i + j) % m ≢ (i + k) % m
place-ne m i j k hi hj hk h =
    omega (arith, mod-cases m (i + j) (omega arith), mod-cases m (i + k) (omega arith))

pub ring_index_lem : (m i k : ℕ) → i < m → k < m → ring_index m i k ≡ (i + k) % m
unfolding ring_index
ring_index_lem m i k hi hk = ground (arith, mod-cases m (i + k) (omega arith))
