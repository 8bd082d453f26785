-- ===== src/Queue/Rw.antt =====
-- headers/smoc/detail/QueueRWPtr.hpp: a read and a write pointer. Used and visible tokens are the
-- same here, and `vpp` and `fpp` do nothing.
use systemoc_syste_mo_c.Common.{ℕ, ◌+◌, ◌-◌, ◌%◌, ◌^◌, Option, some, ◌>>◌, check, leb, ◌==◌}
use systemoc_syste_mo_c.Modulo.{ModuloGroup}

-- The range of `size_t`.
abbrev pub size_mod : ℕ
size_mod = 2 ^ 64

pub record QueueRwPtr : Type 0 where
  pub fsize : ℕ
  pub rindex : ℕ
  pub windex : ℕ

unfoldable pub new : ℕ → QueueRwPtr
new n = record { fsize = (n + 1) % size_mod; rindex = 0; windex = 0 }

unfoldable pub depth_count : QueueRwPtr → ℕ
depth_count q = (q.fsize + size_mod - 1) % size_mod

unfoldable pub reset_queue : QueueRwPtr → QueueRwPtr
reset_queue q = record q { rindex = 0; windex = 0 }

-- Only with SYSTEMOC_ENABLE_SGX.
unfoldable pub resize : QueueRwPtr → ℕ → Option QueueRwPtr
resize q n = do
  check (q.rindex == 0)
  check (leb q.windex n)
  some (record q { fsize = (n + 1) % size_mod })

module _ (mg : ModuloGroup) where
  unfoldable pub used_count : QueueRwPtr → ℕ
  used_count q = mg.sub q.fsize q.windex q.rindex

  unfoldable pub visible_count : QueueRwPtr → ℕ
  unfolding used_count
  visible_count q = used_count q

  unfoldable pub free_count : QueueRwPtr → ℕ
  free_count q = mg.sub q.fsize (mg.sub q.fsize q.rindex q.windex) 1

  unfoldable pub wpp : QueueRwPtr → ℕ → Option QueueRwPtr
  unfolding free_count
  wpp q n = do check (leb n (free_count q)); some (record q { windex = mg.add q.fsize q.windex n })

  unfoldable pub rpp : QueueRwPtr → ℕ → Option QueueRwPtr
  unfolding visible_count
  rpp q n = do
    check (leb n (visible_count q))
    some (record q { rindex = mg.add q.fsize q.rindex n })

  unfoldable pub drop_r_visible : QueueRwPtr → ℕ → Option QueueRwPtr
  unfolding rpp
  drop_r_visible q n = rpp q n
