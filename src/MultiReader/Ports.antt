-- ===== src/MultiReader/Ports.antt =====
-- smoc_multireader_fifo_outlet and smoc_multireader_fifo_entry: a reader's and a writer's end of the
-- channel. Each holds nothing but a reference to the channel.
use systemoc_syste_mo_c.Common.{
  ℕ, Bool, true, false, Option, none, some, ◌>>=◌, ◌>>◌, check, ◌==◌, not,
}
use systemoc_syste_mo_c.Modulo.{ModuloGroup}
use systemoc_syste_mo_c.Event.{EventOps}
use systemoc_syste_mo_c.EventMap
use systemoc_syste_mo_c.MultiReader.Chan.{
  MultiReaderChan, consume, produce, latency_expired, read_consume_event_expired,
}

module _ (mg : ModuloGroup) {E : Type 0} (ev : EventOps E) {A : Type 0} where
  unfoldable pub outlet_comm_start : ℕ → MultiReaderChan E A → Option (MultiReaderChan E A)
  outlet_comm_start n c = consume mg ev n c

  -- It asserts that no token is dropped.
  unfoldable pub outlet_comm_finish : ℕ → Bool → MultiReaderChan E A → Option (MultiReaderChan E A)
  outlet_comm_finish n dropped c = elim dropped [
    | true ↦ none
    | false ↦ some (read_consume_event_expired mg ev n c)
  ]

  unfoldable pub outlet_comm_exec : ℕ → MultiReaderChan E A → Option (MultiReaderChan E A)
  unfolding outlet_comm_start outlet_comm_finish
  outlet_comm_exec n c = do d ← outlet_comm_start n c; outlet_comm_finish n false d

  unfoldable pub entry_comm_start : ℕ → MultiReaderChan E A → Option (MultiReaderChan E A)
  entry_comm_start n c = produce mg ev n c

  unfoldable pub entry_comm_finish : ℕ → Bool → MultiReaderChan E A → Option (MultiReaderChan E A)
  entry_comm_finish n dropped c = elim dropped [
    | true ↦ none
    | false ↦ some (latency_expired mg ev n c)
  ]

  unfoldable pub entry_comm_exec : ℕ → MultiReaderChan E A → Option (MultiReaderChan E A)
  unfolding entry_comm_start entry_comm_finish
  entry_comm_exec n c = do d ← entry_comm_start n c; entry_comm_finish n false d

module _ {E : Type 0} (ev : EventOps E) {A : Type 0} where
  -- `dataAvailableEvent`: the event, and the channel whose map holds it.
  unfoldable pub data_available_event : ℕ → MultiReaderChan E A → Option (E × MultiReaderChan E A)
  data_available_event n c = do
    check (not (n == 0))
    (e, m) ← EventMap.get_event ev n c.emm_data
    some (e, record c { emm_data = m })

  unfoldable pub space_available_event : ℕ → MultiReaderChan E A → Option (E × MultiReaderChan E A)
  space_available_event n c = do
    check (not (n == 0))
    (e, m) ← EventMap.get_event ev n c.emm_space
    some (e, record c { emm_space = m })
