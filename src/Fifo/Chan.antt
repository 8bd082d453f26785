-- ===== src/Fifo/Chan.antt =====
-- FifoChanBase, FifoStorage, FifoEntry and FifoOutlet: the channel, and what the two ports do.
use systemoc_syste_mo_c.Common.{
  ℕ, ◌+◌, Option, none, some, List, [], ◌∷◌, ◌>>=◌, ◌>>◌, check, leb, length, get_or, set,
}
use systemoc_syste_mo_c.Modulo.{ModuloGroup}
use systemoc_syste_mo_c.Event.{EventOps}
use systemoc_syste_mo_c.EventMap
use systemoc_syste_mo_c.EventMap.{EventMap}
use systemoc_syste_mo_c.Queue.Rw
use systemoc_syste_mo_c.Queue.Rw.{size_mod}
use systemoc_syste_mo_c.Fifo.Store
use systemoc_syste_mo_c.Fifo.Store.{QueueWithStorage, put}

pub record FifoChan (E : Type 0) (A : Type 0) : Type 0 where
  pub queue : QueueWithStorage A
  pub open queue use *
  pub emm_data : EventMap E
  pub emm_space : EventMap E
  pub token_id : ℕ
  pub initial_tokens : List A

module _ {E A : Type 0} where
  unfoldable pub new : ℕ → List A → FifoChan E A
  unfolding Store.new
  new n marking = record {
    queue = Store.new n;
    emm_data = [];
    emm_space = [];
    token_id = 0;
    initial_tokens = marking;
  }

module _ {A : Type 0} where
  -- `storage[j].put(initialTokens[j])`, from `j` on.
  unfoldable pub place : ℕ → List A → List (Option A) → List (Option A)
  unfolding put
  place j [] st = st
  place j (t ∷ ts) st = place (j + 1) ts (set st j (put t (get_or st j none)))

module _ (mg : ModuloGroup) {E A : Type 0} where
  unfoldable pub visible_count : FifoChan E A → ℕ
  visible_count c = Rw.visible_count mg c.ptr

  unfoldable pub free_count : FifoChan E A → ℕ
  free_count c = Rw.free_count mg c.ptr

module _ (mg : ModuloGroup) {E : Type 0} (ev : EventOps E) {A : Type 0} where
  -- `FifoChanBase::latencyExpired`, where `vpp` does nothing.
  unfoldable pub latency_expired : ℕ → FifoChan E A → FifoChan E A
  latency_expired n c = record c {
    emm_data = EventMap.increased_count ev (visible_count mg c) c.emm_data;
  }

  -- `FifoChanBase::readConsumeEventExpired`, where `fpp` does nothing.
  unfoldable pub read_consume_event_expired : ℕ → FifoChan E A → FifoChan E A
  read_consume_event_expired n c = record c {
    emm_space = EventMap.increased_count ev (free_count mg c) c.emm_space;
  }

  -- `FifoChanBase::doReset`, less `ChanBase::doReset`.
  unfoldable pub reset_base : FifoChan E A → FifoChan E A
  reset_base c = record c {
    emm_space = EventMap.increased_count ev (free_count mg c) (EventMap.reset ev c.emm_space);
    emm_data = EventMap.increased_count ev (visible_count mg c) (EventMap.reset ev c.emm_data);
  }

  -- `FifoStorage::doReset`
  unfoldable pub do_reset : FifoChan E A → Option (FifoChan E A)
  do_reset c = do
    let clear = Store.reset_queue c.queue
    check (leb (length c.initial_tokens) (Rw.depth_count clear.ptr))
    let marked = record clear { storage = place 0 c.initial_tokens clear.storage }
    filled ← Store.wpp mg marked (length c.initial_tokens)
    some (reset_base (record c { queue = filled }))
