-- ===== src/Fifo/Outlet.antt =====
-- FifoOutlet.hpp: the end of the channel that the reading port is bound to.
use systemoc_syste_mo_c.Common.{ℕ, ◌+◌, ◌-◌, ◌%◌, Bool, true, false, Option, none, some, ◌>>=◌}
use systemoc_syste_mo_c.Modulo.{ModuloGroup}
use systemoc_syste_mo_c.Event.{EventOps}
use systemoc_syste_mo_c.EventMap
use systemoc_syste_mo_c.Queue.Rw
use systemoc_syste_mo_c.Queue.Rw.{size_mod}
use systemoc_syste_mo_c.Fifo.Store
use systemoc_syste_mo_c.Fifo.Chan.{FifoChan, visible_count, read_consume_event_expired}

module _ (mg : ModuloGroup) {E : Type 0} (ev : EventOps E) {A : Type 0} where
  -- `FifoOutlet::commStart`
  unfoldable pub comm_start : ℕ → FifoChan E A → Option (FifoChan E A)
  comm_start consume c = do
    rest ← Store.rpp mg c.queue consume
    let moved = record c { queue = rest }
    some (record moved {
      emm_data = EventMap.decreased_count ev (visible_count mg moved) c.emm_data;
    })

  -- `FifoOutlet::commFinish`, which asserts that no token is dropped.
  unfoldable pub comm_finish : ℕ → Bool → FifoChan E A → Option (FifoChan E A)
  comm_finish consume dropped c = elim dropped [
    | true ↦ none
    | false ↦ some (read_consume_event_expired mg ev consume c)
  ]

  unfoldable pub comm_exec : ℕ → FifoChan E A → Option (FifoChan E A)
  comm_exec consume c = do d ← comm_start consume c; comm_finish consume false d

  -- `FifoOutlet::inTokenId`, in `size_t`.
  unfoldable pub in_token_id : FifoChan E A → ℕ
  in_token_id c = (c.token_id + size_mod - Rw.used_count mg c.ptr) % size_mod
