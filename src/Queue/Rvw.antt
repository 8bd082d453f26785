-- ===== src/Queue/Rvw.antt =====
-- headers/smoc/detail/QueueRVWPtr.hpp: a third pointer ends the visible tokens, and those up to the
-- write pointer are still in the pipeline.
use systemoc_syste_mo_c.Common.{ℕ, Option, some, ◌>>=◌, ◌>>◌, check, leb, ◌==◌}
use systemoc_syste_mo_c.Modulo.{ModuloGroup}
use systemoc_syste_mo_c.Queue.Rw
use systemoc_syste_mo_c.Queue.Rw.{QueueRwPtr}

pub record QueueRvwPtr : Type 0 where
  pub rw_ptr : QueueRwPtr
  pub open rw_ptr use *
  pub vindex : ℕ

unfoldable pub new : ℕ → QueueRvwPtr
unfolding Rw.new
new n = record { rw_ptr = Rw.new n; vindex = 0 }

unfoldable pub reset_queue : QueueRvwPtr → QueueRvwPtr
unfolding Rw.reset_queue
reset_queue q = record { rw_ptr = Rw.reset_queue q.rw_ptr; vindex = 0 }

-- Only with SYSTEMOC_ENABLE_SGX.
unfoldable pub resize : QueueRvwPtr → ℕ → Option QueueRvwPtr
unfolding Rw.resize
resize q n = do
  check (q.vindex == 0)
  base ← Rw.resize q.rw_ptr n
  some (record q { rw_ptr = base })

module _ (mg : ModuloGroup) where
  unfoldable pub visible_count : QueueRvwPtr → ℕ
  visible_count q = mg.sub q.fsize q.vindex q.rindex

  -- The class declares this method only with SYSTEMOC_ENABLE_DEBUG.
  unfoldable pub rpp : QueueRvwPtr → ℕ → Option QueueRvwPtr
  unfolding visible_count Rw.rpp
  rpp q n = do
    check (leb n (visible_count q))
    base ← Rw.rpp mg q.rw_ptr n
    some (record q { rw_ptr = base })

  unfoldable pub vpp : QueueRvwPtr → ℕ → Option QueueRvwPtr
  vpp q n = do
    check (mg.between q.fsize q.vindex q.rindex q.windex)
    check (leb n (mg.sub q.fsize q.windex q.vindex))
    some (record q { vindex = mg.add q.fsize q.vindex n })

  -- Inherited from `QueueRWPtr`, whose `rpp` it calls.
  unfoldable pub drop_r_visible : QueueRvwPtr → ℕ → Option QueueRvwPtr
  unfolding Rw.drop_r_visible
  drop_r_visible q n = do base ← Rw.drop_r_visible mg q.rw_ptr n; some (record q { rw_ptr = base })

  unfoldable pub drop_r_invisible : QueueRvwPtr → ℕ → Option QueueRvwPtr
  unfolding vpp drop_r_visible
  drop_r_invisible q n = do moved ← vpp q n; drop_r_visible moved n
