-- ===== src/Queue/Frvw.antt =====
-- headers/smoc/detail/QueueFRVWPtr.hpp: a fourth pointer starts the tokens that are being consumed,
-- whose places are not free yet.
use systemoc_syste_mo_c.Common.{ℕ, Option, some, ◌>>=◌, ◌>>◌, check, leb, ◌==◌}
use systemoc_syste_mo_c.Modulo.{ModuloGroup}
use systemoc_syste_mo_c.Queue.Rw
use systemoc_syste_mo_c.Queue.Rvw
use systemoc_syste_mo_c.Queue.Rvw.{QueueRvwPtr}

pub record QueueFrvwPtr : Type 0 where
  pub rvw_ptr : QueueRvwPtr
  pub open rvw_ptr use *
  pub findex : ℕ

unfoldable pub new : ℕ → QueueFrvwPtr
unfolding Rvw.new
new n = record { rvw_ptr = Rvw.new n; findex = 0 }

unfoldable pub reset_queue : QueueFrvwPtr → QueueFrvwPtr
unfolding Rvw.reset_queue
reset_queue q = record { rvw_ptr = Rvw.reset_queue q.rvw_ptr; findex = 0 }

-- Only with SYSTEMOC_ENABLE_SGX.
unfoldable pub resize : QueueFrvwPtr → ℕ → Option QueueFrvwPtr
unfolding Rvw.resize
resize q n = do
  check (q.findex == 0)
  base ← Rvw.resize q.rvw_ptr n
  some (record q { rvw_ptr = base })

module _ (mg : ModuloGroup) where
  unfoldable pub free_count : QueueFrvwPtr → ℕ
  free_count q = mg.sub q.fsize (mg.sub q.fsize q.findex q.windex) 1

  -- The class declares this method only with SYSTEMOC_ENABLE_DEBUG.
  unfoldable pub wpp : QueueFrvwPtr → ℕ → Option QueueFrvwPtr
  unfolding free_count Rw.wpp
  wpp q n = do
    check (leb n (free_count q))
    base ← Rw.wpp mg q.rw_ptr n
    some (record q { rvw_ptr = record (q.rvw_ptr) { rw_ptr = base } })

  -- Inherited.
  unfoldable pub rpp : QueueFrvwPtr → ℕ → Option QueueFrvwPtr
  unfolding Rvw.rpp
  rpp q n = do base ← Rvw.rpp mg q.rvw_ptr n; some (record q { rvw_ptr = base })

  -- Inherited.
  unfoldable pub vpp : QueueFrvwPtr → ℕ → Option QueueFrvwPtr
  unfolding Rvw.vpp
  vpp q n = do base ← Rvw.vpp mg q.rvw_ptr n; some (record q { rvw_ptr = base })

  unfoldable pub fpp : QueueFrvwPtr → ℕ → Option QueueFrvwPtr
  fpp q n = do
    check (mg.between q.fsize q.findex (mg.add q.fsize q.windex 1) q.rindex)
    check (leb n (mg.sub q.fsize q.rindex q.findex))
    some (record q { findex = mg.add q.fsize q.findex n })

  unfoldable pub drop_r_visible : QueueFrvwPtr → ℕ → Option QueueFrvwPtr
  unfolding Rvw.drop_r_visible fpp
  drop_r_visible q n = do
    base ← Rvw.drop_r_visible mg q.rvw_ptr n
    fpp (record q { rvw_ptr = base }) n

  unfoldable pub drop_r_invisible : QueueFrvwPtr → ℕ → Option QueueFrvwPtr
  unfolding Rvw.drop_r_invisible fpp
  drop_r_invisible q n = do
    base ← Rvw.drop_r_invisible mg q.rvw_ptr n
    fpp (record q { rvw_ptr = base }) n
