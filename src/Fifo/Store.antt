-- ===== src/Fifo/Store.antt =====
-- Storage.hpp, RingAccess.hpp and QueueWithStorage.hpp: places that hold a token or none, and the
-- queue that invalidates the places of consumed tokens.
use Prim.Native.Nat.{min}
use systemoc_syste_mo_c.Common.{
  ℕ, zero, suc, ◌+◌, ◌-◌, Option, none, some, List, ◌>>=◌, get_or, set, replicate, ltb, leb,
  if◌then◌else◌,
}
use systemoc_syste_mo_c.Modulo.{ModuloGroup}
use systemoc_syste_mo_c.Queue.Rw
use systemoc_syste_mo_c.Queue.Rw.{QueueRwPtr}

-- `Storage<T>`: `none` is a place that is not valid.
abbrev pub Storage : Type 0 → Type 0
Storage A = Option A

module _ {A : Type 0} where
  unfoldable pub put : A → Storage A → Storage A
  put t s = some t

  unfoldable pub invalidate : Storage A → Storage A
  invalidate s = none

  -- `get` of a type with no default constructor asserts that the place is valid.
  unfoldable pub get : Storage A → Option A
  get s = s

-- The place that `operator[](n)` reads or writes.
unfoldable pub ring_index : ℕ → ℕ → ℕ → ℕ
ring_index ring_storage_size ring_offset n =
    if ltb (ring_offset + n) ring_storage_size
    then ring_offset + n
    else ring_offset + n - ring_storage_size

pub record QueueWithStorage (A : Type 0) : Type 0 where
  pub ptr : QueueRwPtr
  pub open ptr use *
  pub storage : List (Storage A)

module _ {A : Type 0} where
  unfoldable pub new : ℕ → QueueWithStorage A
  unfolding Rw.new
  new n = record { ptr = Rw.new n; storage = replicate (Rw.new n).fsize none }

  -- `for (; i < i + n; ++i) storage[i].invalidate()`
  unfoldable pub invalidate_from : ℕ → ℕ → List (Storage A) → List (Storage A)
  unfolding invalidate
  invalidate_from i zero st = st
  invalidate_from i (suc n) st =
      invalidate_from (i + 1) n (set st i (invalidate (get_or st i none)))

  unfoldable pub rpp : ModuloGroup → QueueWithStorage A → ℕ → Option (QueueWithStorage A)
  unfolding invalidate_from Rw.rpp
  rpp mg q n = do
    let o = min n (q.fsize - q.rindex)
    let st = invalidate_from 0 (n - o) (invalidate_from q.rindex o q.storage)
    base ← Rw.rpp mg q.ptr n
    some (record { ptr = base; storage = st })

  unfoldable pub wpp : ModuloGroup → QueueWithStorage A → ℕ → Option (QueueWithStorage A)
  unfolding Rw.wpp
  wpp mg q n = do base ← Rw.wpp mg q.ptr n; some (record q { ptr = base })

  unfoldable pub reset_queue : QueueWithStorage A → QueueWithStorage A
  unfolding invalidate_from Rw.reset_queue
  reset_queue q =
      let o = if leb q.rindex q.windex then q.windex else q.fsize in
      let p = if leb q.rindex q.windex then 0 else q.windex in
      record {
        ptr = Rw.reset_queue q.ptr;
        storage = invalidate_from 0 p (invalidate_from q.rindex (o - q.rindex) q.storage);
      }

  -- A token through the port of the reader, and one through the port of the writer.
  unfoldable pub read_at : QueueWithStorage A → ℕ → Option A
  unfolding ring_index get
  read_at q n = get (get_or q.storage (ring_index q.fsize q.rindex n) none)

  unfoldable pub write_at : QueueWithStorage A → ℕ → A → QueueWithStorage A
  unfolding ring_index put
  write_at q n t =
      let i = ring_index q.fsize q.windex n in
      record q { storage = set q.storage i (put t (get_or q.storage i none)) }
