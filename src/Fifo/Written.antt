-- ===== src/Fifo/Written.antt =====
-- Tokens that the writer's port has put behind the write pointer.
use systemoc_syste_mo_c.Common.{
  ℕ, zero, suc, ◌+◌, ◌%◌, ◌≤◌, ◌<◌, ◌≡◌, ◌≢◌, refl, ◌∙◌, none, some, List, [], ◌∷◌, ◌⊎◌, inl, arith,
  length, length-set, get_or-set_self, get_or-set_ne, get_elem?,
}
use systemoc_syste_mo_c.Modulo.Wrap.{step-lt}
use systemoc_syste_mo_c.Fifo.Store
use systemoc_syste_mo_c.Fifo.Store.{QueueWithStorage, invalidate_from, ring_index}
use systemoc_syste_mo_c.Fifo.Segment.{place, place-ne, ring_index_lem}

module _ {A : Type 0} where
  -- What the writer's port does before the tokens are committed: `out[j] = t`, then the rest.
  unfoldable pub write_all : QueueWithStorage A → ℕ → List A → QueueWithStorage A
  write_all q j [] = q
  write_all q j (t ∷ ts) = write_all (Store.write_at q j t) (j + 1) ts

  pub ptr-write_all :
      (q : QueueWithStorage A) (j : ℕ) (ts : List A) → (write_all q j ts).ptr ≡ q.ptr
  unfolding write_all Store.write_at
  ptr-write_all q j [] = refl
  ptr-write_all q j (t ∷ ts) = ptr-write_all (Store.write_at q j t) (j + 1) ts

  pub length-write_all :
      (q : QueueWithStorage A) (j : ℕ) (ts : List A)
      → length (write_all q j ts).storage ≡ length q.storage
  unfolding write_all Store.write_at
  length-write_all q j [] = refl
  length-write_all q j (t ∷ ts) =
      length-write_all (Store.write_at q j t) (j + 1) ts
      ∙ length-set q.storage (ring_index q.fsize q.windex j) (some t)

  module _ (q : QueueWithStorage A) (t : A) (j : ℕ) (w : q.windex < q.fsize)
      (hj : j < q.fsize) where
    write_at_self :
        length q.storage ≡ q.fsize
        → place (Store.write_at q j t).storage q.fsize q.windex j ≡ some t
    unfolding Store.write_at Store.put
    write_at_self room = rw (ring_index_lem q.fsize q.windex j w hj) (
        get_or-set_self q.storage ((q.windex + j) % q.fsize) (some t) none
          (omega (arith, room, step-lt q.fsize q.windex j w)))

    write_at_ne :
        (k : ℕ)
        → k < q.fsize
        → j ≢ k
        → place (Store.write_at q j t).storage q.fsize q.windex k
          ≡ place q.storage q.fsize q.windex k
    unfolding Store.write_at
    write_at_ne k hk ne = rw (ring_index_lem q.fsize q.windex j w hj) (
        get_or-set_ne q.storage ((q.windex + j) % q.fsize) ((q.windex + k) % q.fsize) (some t) none
          (place-ne q.fsize q.windex j k w hj hk ne))

  pub write_all_kept :
      (q : QueueWithStorage A) (j : ℕ) (ts : List A) (k : ℕ)
      → q.windex < q.fsize
      → j + length ts ≤ q.fsize
      → k < q.fsize
      → (k < j) ⊎ (j + length ts ≤ k)
      → place (write_all q j ts).storage q.fsize q.windex k ≡ place q.storage q.fsize q.windex k
  unfolding write_all Store.write_at
  write_all_kept q j [] k w hj hk out = refl
  write_all_kept q j (t ∷ ts) k w hj hk out =
      write_all_kept (Store.write_at q j t) (j + 1) ts k w (omega arith) hk (omega arith)
      ∙ write_at_ne q t j w (omega arith) k hk (omega arith)

  pub write_all_new :
      (q : QueueWithStorage A) (j : ℕ) (ts : List A) (i : ℕ)
      → q.windex < q.fsize
      → length q.storage ≡ q.fsize
      → j + length ts ≤ q.fsize
      → i < length ts
      → place (write_all q j ts).storage q.fsize q.windex (j + i) ≡ get_elem? ts i
  unfolding write_all Store.write_at
  write_all_new q j [] i w room hj hi = elim hi [ ]
  write_all_new q j (t ∷ ts) zero w room hj hi =
      let e : j + 0 ≡ j = omega arith in
      rw e (
        write_all_kept (Store.write_at q j t) (j + 1) ts j w (omega arith) (omega arith)
          (inl (omega arith))
        ∙ write_at_self q t j w (omega arith) room)
  write_all_new q j (t ∷ ts) (suc i) w room hj hi =
      let e : j + suc i ≡ j + 1 + i = omega arith in
      let room' = length-set q.storage (ring_index q.fsize q.windex j) (some t) ∙ room in
      rw e (write_all_new (Store.write_at q j t) (j + 1) ts i w room' (omega arith) (omega arith))
