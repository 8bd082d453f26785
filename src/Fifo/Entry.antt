-- ===== src/Fifo/Entry.antt =====
-- FifoEntry.hpp: the end of the channel that the writing port is bound to.
use systemoc_syste_mo_c.Common.{ℕ, ◌+◌, ◌%◌, Option, some, ◌>>=◌}
use systemoc_syste_mo_c.Modulo.{ModuloGroup}
use systemoc_syste_mo_c.Event.{EventOps}
use systemoc_syste_mo_c.EventMap
use systemoc_syste_mo_c.Queue.Rw.{size_mod}
use systemoc_syste_mo_c.Fifo.Store
use systemoc_syste_mo_c.Fifo.Chan.{FifoChan, free_count, latency_expired}

module _ (mg : ModuloGroup) {E : Type 0} (ev : EventOps E) {A : Type 0} where
  -- `FifoEntry::commStart`
  unfoldable pub comm_start : ℕ → FifoChan E A → Option (FifoChan E A)
  comm_start produce c = do
    written ← Store.wpp mg c.queue produce
    let moved = record c { queue = written; token_id = (c.token_id + produce) % size_mod }
    some
        (record moved { emm_space = EventMap.decreased_count ev (free_count mg moved) c.emm_space })

  -- `FifoEntry::commFinish`, of tokens that are not dropped.
  unfoldable pub comm_finish : ℕ → FifoChan E A → FifoChan E A
  comm_finish produce c = latency_expired mg ev produce c

  unfoldable pub comm_exec : ℕ → FifoChan E A → Option (FifoChan E A)
  comm_exec produce c = do d ← comm_start produce c; some (comm_finish produce d)
