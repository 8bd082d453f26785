-- ===== src/MultiReader/Chan.antt =====
-- smoc_multireader_fifo_chan_base over FifoStorage, without routing: the channel, and what its ports
-- call.
use systemoc_syste_mo_c.Common.{
  ℕ, ◌+◌, ◌-◌, ◌%◌, Option, some, List, [], ◌>>=◌, ◌>>◌, check, leb, length,
}
use systemoc_syste_mo_c.Modulo.{ModuloGroup}
use systemoc_syste_mo_c.Event.{EventOps}
use systemoc_syste_mo_c.EventMap
use systemoc_syste_mo_c.Queue.Rw
use systemoc_syste_mo_c.Queue.Rw.{size_mod}
use systemoc_syste_mo_c.Fifo.Store
use systemoc_syste_mo_c.Fifo.Chan.{FifoChan, visible_count, free_count, place}

-- Its fields `emmData`, `emmSpace` and `tokenId` are those of `FifoChanBase`, and it stands below the
-- same `FifoStorage`.
abbrev pub MultiReaderChan : Type 0 → Type 0 → Type 0
MultiReaderChan E A = FifoChan E A

module _ {E A : Type 0} where
  unfoldable pub new : ℕ → List A → MultiReaderChan E A
  unfolding Store.new
  new n marking = record {
    queue = Store.new n;
    emm_data = [];
    emm_space = [];
    token_id = 0;
    initial_tokens = marking;
  }

  unfoldable pub out_token_id : MultiReaderChan E A → ℕ
  out_token_id c = c.token_id

module _ (mg : ModuloGroup) {E : Type 0} (ev : EventOps E) {A : Type 0} where
  unfoldable pub more_data : MultiReaderChan E A → MultiReaderChan E A
  more_data c = record c { emm_data = EventMap.increased_count ev (visible_count mg c) c.emm_data }

  -- No call of it is left: `consume` renotifies instead.
  unfoldable pub less_data : MultiReaderChan E A → MultiReaderChan E A
  less_data c = record c { emm_data = EventMap.decreased_count ev (visible_count mg c) c.emm_data }

  unfoldable pub more_space : MultiReaderChan E A → MultiReaderChan E A
  more_space c = record c { emm_space = EventMap.increased_count ev (free_count mg c) c.emm_space }

  unfoldable pub less_space : MultiReaderChan E A → MultiReaderChan E A
  less_space c = record c { emm_space = EventMap.decreased_count ev (free_count mg c) c.emm_space }

  unfoldable pub consume : ℕ → MultiReaderChan E A → Option (MultiReaderChan E A)
  consume n c = do
    rest ← Store.rpp mg c.queue n
    let moved = record c { queue = rest }
    some (record moved {
      emm_data = EventMap.decreased_count_renotify ev (visible_count mg moved) c.emm_data;
    })

  unfoldable pub produce : ℕ → MultiReaderChan E A → Option (MultiReaderChan E A)
  unfolding less_space
  produce n c = do
    written ← Store.wpp mg c.queue n
    some (less_space (record c { queue = written; token_id = (c.token_id + n) % size_mod }))

  -- `vpp` does nothing.
  unfoldable pub latency_expired : ℕ → MultiReaderChan E A → MultiReaderChan E A
  unfolding more_data
  latency_expired n c = more_data c

  -- `fpp` does nothing.
  unfoldable pub read_consume_event_expired : ℕ → MultiReaderChan E A → MultiReaderChan E A
  unfolding more_space
  read_consume_event_expired n c = more_space c

  -- `smoc_multireader_fifo_chan_base::doReset`, less `ChanBase::doReset`.
  unfoldable pub reset_base : MultiReaderChan E A → MultiReaderChan E A
  unfolding more_space more_data
  reset_base c = more_data (
      more_space (record c {
        emm_space = EventMap.reset ev c.emm_space;
        emm_data = EventMap.reset ev c.emm_data;
      }))

  -- `FifoStorage::doReset` over it.
  unfoldable pub do_reset : MultiReaderChan E A → Option (MultiReaderChan E A)
  unfolding reset_base
  do_reset c = do
    let clear = Store.reset_queue c.queue
    check (leb (length c.initial_tokens) (Rw.depth_count clear.ptr))
    let marked = record clear { storage = place 0 c.initial_tokens clear.storage }
    filled ← Store.wpp mg marked (length c.initial_tokens)
    some (reset_base (record c { queue = filled }))

module _ (mg : ModuloGroup) {E A : Type 0} where
  -- In `size_t`.
  unfoldable pub in_token_id : MultiReaderChan E A → ℕ
  in_token_id c = (c.token_id + size_mod - Rw.used_count mg c.ptr) % size_mod
