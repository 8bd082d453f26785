-- ===== src/Multiplex/Consume.antt =====
-- smoc_multiplex_fifo_chan_base and smoc_multiplex_fifo_chan. Loops over indices have fuel for the
-- places of the ring. The storage has less than 2 ^ 63 places, so that a sum of two indices does not
-- wrap round.
use Prim.Native.Nat.{min}
use systemoc_syste_mo_c.Common.{
  ℕ, zero, suc, ◌+◌, ◌-◌, ◌%◌, Option, none, some, List, [], ◌∷◌, ◌>>=◌, ◌>>◌, check, ltb, leb,
  ◌==◌, if◌then◌else◌, length, get_or, set,
}
use systemoc_syste_mo_c.Modulo.{ModuloGroup}
use systemoc_syste_mo_c.Event.{EventOps}
use systemoc_syste_mo_c.EventMap
use systemoc_syste_mo_c.EventMap.{EventMap}
use systemoc_syste_mo_c.Queue.Rw
use systemoc_syste_mo_c.Queue.Rw.{size_mod}
use systemoc_syste_mo_c.Fifo.Store
use systemoc_syste_mo_c.Fifo.Store.{QueueWithStorage, Storage, put, get}
use systemoc_syste_mo_c.Fifo.Chan.{place}
use systemoc_syste_mo_c.Multiplex.Chan.{
  ColorAccessor, MultiplexChan, VOutletMap, is_empty, at_outlet, more_data, reset_outlets,
}

module _ {A : Type 0} (col : ColorAccessor A) where
  -- The two loops of `consume` that look for the `n`th token of the colour `from`; `v` is `vIndex()`.
  module _ (mg : ModuloGroup) (st : List (Storage A)) (m r v from : ℕ) where
    unfoldable pub find_before_last : (fuel mc dindex : ℕ) → Option ℕ
    unfolding get
    find_before_last zero mc dindex = none
    find_before_last (suc fuel) mc dindex =
        let rest : Option ℕ = (do
          check (mg.between m dindex r (mg.sub m v 1))
          t ← get (get_or st dindex none)
          find_before_last fuel (if col.get_color t == from then mc - 1 else mc)
              (mg.add m dindex 1)) in
        if ltb 1 mc then rest else some dindex

    unfoldable pub find_last : (fuel dindex : ℕ) → Option ℕ
    unfolding get
    find_last zero dindex = none
    find_last (suc fuel) dindex = do
      t ← get (get_or st dindex none)
      let rest : Option ℕ = (do
        check (mg.between m dindex r (mg.sub m v 1))
        find_last fuel (mg.add m dindex 1))
      if col.get_color t == from then some dindex else rest

  -- The loop that moves the tokens before it which are kept.
  module _ (mg : ModuloGroup) (m r from : ℕ) where
    unfoldable pub move_kept :
        (fuel sindex dindex : ℕ) → List (Storage A) → Option (List (Storage A))
    unfolding get put
    move_kept zero sindex dindex st = none
    move_kept (suc fuel) sindex dindex st =
        let rest : Option (List (Storage A)) = (do
          let s = mg.sub m sindex 1
          check (mg.between m s r (mg.sub m dindex 1))
          t ← get (get_or st s none)
          let moved =
              move_kept fuel s (mg.sub m dindex 1) (set st dindex (put t (get_or st dindex none)))
          let kept = move_kept fuel s dindex st
          if col.get_color t == from then kept else moved) in
        if sindex == r then some st else rest

  unfoldable pub gather : ModuloGroup → ℕ → ℕ → QueueWithStorage A → Option (List (Storage A))
  unfolding find_before_last find_last move_kept
  gather mg from n q = if n == 0 then some q.storage else (do
    d ← find_before_last mg q.storage q.fsize q.rindex q.windex from q.fsize n q.rindex
    e ← find_last mg q.storage q.fsize q.rindex q.windex from q.fsize d
    move_kept mg q.fsize q.rindex from q.fsize e e q.storage)

  module _ {E : Type 0} (ev : EventOps E) where
    -- The loop that tells the outlets of the tokens from `xindex` to `oindex`.
    unfoldable pub announce :
        (fuel : ℕ) → List (Storage A) → (m xindex oindex : ℕ) → VOutletMap E → Option (VOutletMap E)
    unfolding get at_outlet more_data
    announce zero st m xindex oindex os = none
    announce (suc fuel) st m xindex oindex os =
        let rest : Option (VOutletMap E) = (do
          t ← get (get_or st xindex none)
          os' ← at_outlet (col.get_color t) (more_data ev 1) os
          announce fuel st m ((xindex + 1) % m) oindex os') in
        if xindex == oindex then some os else rest

    -- The same for the initial tokens in `doReset`.
    unfoldable pub announce_initial : List A → VOutletMap E → Option (VOutletMap E)
    unfolding at_outlet more_data
    announce_initial [] os = some os
    announce_initial (t ∷ ts) os = do
      os' ← at_outlet (col.get_color t) (more_data ev 1) os
      announce_initial ts os'

    module _ (mg : ModuloGroup) where
      -- The end of `consume`, and of `latencyExpired`: the tokens from the place `x` on that are in
      -- the area out of order.
      unfoldable pub announce_from : ℕ → MultiplexChan E A → Option (MultiplexChan E A)
      unfolding announce
      announce_from x c = do
        let vcount = Rw.visible_count mg c.ptr
        let xindex = (c.rindex + x) % c.fsize
        let oindex = (c.rindex + min ((c.fifo_out_of_order + 1) % size_mod) vcount) % c.fsize
        os ← announce c.fsize c.storage c.fsize xindex oindex c.v_outlets
        some (record c { v_outlets = os })

      unfoldable pub latency_expired : ℕ → MultiplexChan E A → Option (MultiplexChan E A)
      unfolding announce_from
      latency_expired n c = do
        let vcount = Rw.visible_count mg c.ptr
        check (leb n vcount)
        if is_empty c.v_outlets
            then some
                (record c { emm_available = EventMap.increased_count ev vcount c.emm_available })
            else announce_from (min ((c.fifo_out_of_order + 1) % size_mod) (vcount - n)) c

      unfoldable pub consume : (from n : ℕ) → MultiplexChan E A → Option (MultiplexChan E A)
      unfolding gather announce_from
      consume from n c = do
        st ← gather mg from n c.queue
        let moved : QueueWithStorage A = record (c.queue) { storage = st }
        q ← Store.rpp mg moved n
        let vcount = Rw.visible_count mg q.ptr
        let taken = record c {
          queue = q;
          emm_available = EventMap.decreased_count ev vcount c.emm_available;
        }
        announce_from (min ((c.fifo_out_of_order + 1 + size_mod - n) % size_mod) vcount) taken

      unfoldable pub read_consume_event_expired : ℕ → MultiplexChan E A → MultiplexChan E A
      read_consume_event_expired n c = record c {
        emm_free = EventMap.increased_count ev (Rw.free_count mg c.ptr) c.emm_free;
      }

      -- `smoc_multiplex_fifo_chan_base::doReset`
      unfoldable pub reset_base : MultiplexChan E A → MultiplexChan E A
      reset_base c = record c {
        emm_free =
            EventMap.increased_count ev (Rw.free_count mg c.ptr) (EventMap.reset ev c.emm_free);
        emm_available =
            let clear = EventMap.reset ev c.emm_available in
            if is_empty c.v_outlets
            then EventMap.increased_count ev (Rw.visible_count mg c.ptr) clear
            else clear;
      }

      -- `smoc_multiplex_fifo_chan::doReset`, with `FifoStorage::doReset`.
      unfoldable pub do_reset : MultiplexChan E A → Option (MultiplexChan E A)
      unfolding reset_base announce_initial reset_outlets
      do_reset c = do
        let clear = Store.reset_queue c.queue
        check (leb (length c.initial_tokens) (Rw.depth_count clear.ptr))
        let marked : QueueWithStorage A = record clear {
          storage = place 0 c.initial_tokens clear.storage;
        }
        filled ← Store.wpp mg marked (length c.initial_tokens)
        let base = reset_base (record c { queue = filled })
        if is_empty base.v_outlets then some base else (do
          os ← announce_initial c.initial_tokens (reset_outlets ev base.v_outlets)
          some (record base { v_outlets = os }))
