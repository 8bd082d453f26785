-- ===== src/Multiplex/Ports.antt =====
-- smoc_multiplex_vfifo_entry, smoc_multiplex_vfifo_outlet, smoc_multiplex_fifo_entry and
-- smoc_multiplex_fifo_outlet: the ends of the virtual FIFOs, and those of the shared one.
use systemoc_syste_mo_c.Common.{
  ℕ, zero, suc, [], ◌∷◌, ◌++◌, ◌+◌, ◌-◌, Bool, true, false, Option, none, some, List, ◌>>=◌, ◌>>◌,
  check, ltb, leb, ◌==◌, if◌then◌else◌, get_or, set,
}
use systemoc_syste_mo_c.Modulo.{ModuloGroup}
use systemoc_syste_mo_c.Event.{EventOps}
use systemoc_syste_mo_c.EventMap
use systemoc_syste_mo_c.EventMap.{EventMap}
use systemoc_syste_mo_c.Queue.Rw
use systemoc_syste_mo_c.Fifo.Store
use systemoc_syste_mo_c.Fifo.Store.{QueueWithStorage, Storage, put, get}
use systemoc_syste_mo_c.Multiplex.Chan.{
  ColorAccessor, MultiplexChan, find_outlet, at_outlet, less_data,
}
use systemoc_syste_mo_c.Multiplex.Consume.{consume, latency_expired, read_consume_event_expired}

module _ {A : Type 0} (col : ColorAccessor A) where
  -- `smoc_multiplex_vfifo_outlet::AccessImpl::operator[]`, on fuel for the places it comes to.
  unfoldable pub read_color : (fuel : ℕ) → List (Storage A) → (m c rindex n : ℕ) → Option A
  unfolding get
  read_color zero st m c rindex n = none
  read_color (suc fuel) st m c rindex n = do
    t ← get (get_or st rindex none)
    let n' = if col.get_color t == c then n - 1 else n
    let rest = read_color fuel st m c (if ltb rindex (m - 1) then rindex + 1 else 0) n'
    if leb 1 n then rest else if col.get_color t == c then some t else rest

  unfoldable pub read_at : {E : Type 0} → ℕ → MultiplexChan E A → ℕ → Option A
  unfolding read_color
  read_at c chan n = read_color chan.fsize chan.storage chan.fsize c chan.rindex n

  -- The place that `smoc_multiplex_vfifo_entry::AccessImpl::operator[](n)` writes.
  unfoldable pub write_place : {E : Type 0} → MultiplexChan E A → ℕ → ℕ
  write_place c n = let w = c.windex + n in if leb c.fsize w then w - c.fsize else w

  -- `smoc_multiplex_vfifo_chan::chan_init::add`: an initial token of the virtual FIFO `id`.
  unfoldable pub add_initial : {E : Type 0} → ℕ → A → MultiplexChan E A → MultiplexChan E A
  add_initial id x c = record c { initial_tokens = c.initial_tokens ++ col.put_color x id ∷ [] }

  -- The loop of `smoc_multiplex_vfifo_entry::commStart`.
  unfoldable pub color_places :
      (c produce m windex : ℕ) → List (Storage A) → Option (List (Storage A))
  unfolding get put
  color_places c zero m windex st = some st
  color_places c (suc n) m windex st = do
    t ← get (get_or st windex none)
    color_places c n m (if leb m (windex + 1) then windex + 1 - m else windex + 1)
        (set st windex (put (col.put_color t c) (get_or st windex none)))

  module _ {E : Type 0} (ev : EventOps E) (mg : ModuloGroup) where
    -- Both `commStart` of a writer, on the storage `st`.
    unfoldable pub produce : ℕ → List (Storage A) → MultiplexChan E A → Option (MultiplexChan E A)
    produce n st c = do
      q ← Store.wpp mg (record (c.queue) { storage = st }) n
      let moved = record c { queue = q }
      some (record moved {
        emm_free = EventMap.decreased_count ev (Rw.free_count mg q.ptr) c.emm_free;
      })

    -- `smoc_multiplex_fifo_entry`
    unfoldable pub entry_comm_start : ℕ → MultiplexChan E A → Option (MultiplexChan E A)
    unfolding produce
    entry_comm_start n c = produce n c.storage c

    -- `commFinish` of both, which asserts that no token is dropped.
    unfoldable pub entry_comm_finish : ℕ → Bool → MultiplexChan E A → Option (MultiplexChan E A)
    entry_comm_finish n dropped c = elim dropped [
      | true ↦ none
      | false ↦ latency_expired col ev mg n c
    ]

    unfoldable pub entry_comm_exec : ℕ → MultiplexChan E A → Option (MultiplexChan E A)
    entry_comm_exec n c = do d ← entry_comm_start n c; entry_comm_finish n false d

    -- `smoc_multiplex_vfifo_entry` of the virtual FIFO `id`
    unfoldable pub v_entry_comm_start : (id n : ℕ) → MultiplexChan E A → Option (MultiplexChan E A)
    unfolding color_places produce
    v_entry_comm_start id n c = do st ← color_places id n c.fsize c.windex c.storage; produce n st c

    unfoldable pub v_entry_comm_exec : (id n : ℕ) → MultiplexChan E A → Option (MultiplexChan E A)
    v_entry_comm_exec id n c = do d ← v_entry_comm_start id n c; entry_comm_finish n false d

    -- `smoc_multiplex_fifo_outlet`
    unfoldable pub outlet_comm_start : ℕ → MultiplexChan E A → Option (MultiplexChan E A)
    outlet_comm_start n c = do
      q ← Store.rpp mg c.queue n
      some (record c {
        queue = q;
        emm_available = EventMap.decreased_count ev (Rw.visible_count mg q.ptr) c.emm_available;
      })

    unfoldable pub outlet_comm_finish : ℕ → Bool → MultiplexChan E A → Option (MultiplexChan E A)
    outlet_comm_finish n dropped c = elim dropped [
      | true ↦ none
      | false ↦ some (read_consume_event_expired col ev mg n c)
    ]

    unfoldable pub outlet_comm_exec : ℕ → MultiplexChan E A → Option (MultiplexChan E A)
    outlet_comm_exec n c = do d ← outlet_comm_start n c; outlet_comm_finish n false d

    -- `smoc_multiplex_vfifo_outlet` of the virtual FIFO `id`
    unfoldable pub v_outlet_comm_start : (id n : ℕ) → MultiplexChan E A → Option (MultiplexChan E A)
    unfolding find_outlet at_outlet less_data
    v_outlet_comm_start id n c = do
      o ← find_outlet id c.v_outlets
      check (leb n o.count_available)
      os ← at_outlet id (less_data ev n) c.v_outlets
      consume col ev mg id n (record c { v_outlets = os })

    unfoldable pub v_outlet_comm_exec : (id n : ℕ) → MultiplexChan E A → Option (MultiplexChan E A)
    v_outlet_comm_exec id n c = do d ← v_outlet_comm_start id n c; outlet_comm_finish n false d
