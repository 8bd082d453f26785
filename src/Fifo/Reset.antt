-- ===== src/Fifo/Reset.antt =====
-- `FifoStorage::doReset` with `FifoChanBase::doReset`, at the start of a simulation and on each reset.
use systemoc_syste_mo_c.Common.{
  ℕ, ◌+◌, ◌-◌, ◌≤◌, ◌<◌, ◌≡◌, refl, sym, ap, ◌∙◌, subst, Option, none, some, List, [], ◌∷◌, inl,
  inr, arith, length, set, leb, leb→le, leb-false→lt, Bool-cases, Option-cases, if◌then◌else◌,
}
use systemoc_syste_mo_c.Modulo.{ModuloGroup, IsModulo}
use systemoc_syste_mo_c.Modulo.Wrap.{gap_self}
use systemoc_syste_mo_c.Event.{EventOps, IsEvent}
use systemoc_syste_mo_c.EventMap.Order.{Ascending}
use systemoc_syste_mo_c.EventMap.Follow.{fresh_map}
use systemoc_syste_mo_c.Queue.Two.{IsValid}
use systemoc_syste_mo_c.Queue.Rw.{depth_count}
use systemoc_syste_mo_c.Fifo.Store
use systemoc_syste_mo_c.Fifo.Store.{QueueWithStorage, Storage, ring_index, invalidate_from}
use systemoc_syste_mo_c.Fifo.Segment.{length-invalidate_from}
use systemoc_syste_mo_c.Fifo.Chan.{FifoChan, visible_count, free_count, reset_base, do_reset, place}
use systemoc_syste_mo_c.Fifo.Contents.{Holds, Leaves}
use systemoc_syste_mo_c.Fifo.Written.{write_all, ptr-write_all}
use systemoc_syste_mo_c.Fifo.Commit.{wpp-Holds}
use systemoc_syste_mo_c.Fifo.Exec.{IsReady, visible-Holds, free-Holds}

module _ {A : Type 0} where
  -- The places that `doReset` fills are those that the writer's port would fill.
  place-write_all :
      (q : QueueWithStorage A) (j : ℕ) (ts : List A)
      → q.windex ≡ 0
      → j + length ts ≤ q.fsize
      → place j ts q.storage ≡ (write_all q j ts).storage
  unfolding place write_all Store.write_at Store.put
  place-write_all q j [] w h = refl
  place-write_all q j (t ∷ ts) w h =
      let e : ring_index q.fsize q.windex j ≡ j = unfold ring_index in ground arith in
      ap (λ i. place (j + 1) ts (set q.storage i (some t))) (sym e)
      ∙ place-write_all (Store.write_at q j t) (j + 1) ts w (omega arith)

  pub marked-write_all :
      (q : QueueWithStorage A) (ts : List A)
      → q.windex ≡ 0
      → length ts ≤ q.fsize - 1
      → 0 < q.fsize
      → ◌≡◌ {A = QueueWithStorage A}
          (record q { storage = place 0 ts q.storage })
          (write_all q 0 ts)
  marked-write_all q ts w le pos =
      let same = ptr-write_all q 0 ts in
      let stored = place-write_all q 0 ts w (omega arith) in
      λ i. record { ptr = sym same i; storage = stored i }

  pub clear-windex : (q : QueueWithStorage A) → (Store.reset_queue q).windex ≡ 0
  unfolding Store.reset_queue
  clear-windex q = refl

  pub clear-fsize : (q : QueueWithStorage A) → (Store.reset_queue q).fsize ≡ q.fsize
  unfolding Store.reset_queue
  clear-fsize q = refl

  pub clear-Holds :
      (q : QueueWithStorage A)
      → IsValid q.ptr
      → length q.storage ≡ q.fsize
      → Holds (Store.reset_queue q) []
  unfolding Store.reset_queue
  clear-Holds q v room = record {
    valid = record {
      rindex_in = omega (arith, v.rindex_in);
      windex_in = omega (arith, v.rindex_in);
      fsize_fits = v.fsize_fits;
    };
    room =
        let o = if leb q.rindex q.windex then q.windex else q.fsize in
        let p = if leb q.rindex q.windex then 0 else q.windex in
        length-invalidate_from 0 p (invalidate_from q.rindex (o - q.rindex) q.storage)
        ∙ length-invalidate_from q.rindex (o - q.rindex) q.storage
        ∙ room;
    count = gap_self q.fsize 0 (omega (arith, v.rindex_in));
    tokens = λ k h. elim h [ ];
  }

  pub depth_count-reset :
      (q : QueueWithStorage A) → IsValid q.ptr → depth_count (Store.reset_queue q).ptr ≡ q.fsize - 1
  unfolding depth_count Store.reset_queue
  depth_count-reset q v = omega (arith, v.rindex_in, v.fsize_fits)

module _ {E : Type 0} (ev : EventOps E) {A : Type 0} where
  -- What `doReset` leaves: it stops exactly if the initial tokens do not fit.
  abbrev pub Resets : FifoChan E A → Option (FifoChan E A) → Type 0
  Resets c none = c.fsize - 1 < length c.initial_tokens
  Resets c (some d) =
      (length c.initial_tokens ≤ c.fsize - 1) × (d.fsize ≡ c.fsize) × IsReady ev d c.initial_tokens

module _ {mg : ModuloGroup} (im : IsModulo mg) {E : Type 0} {ev : EventOps E}
    (ie : IsEvent ev) where
  module _ {A : Type 0} where
    reset_base-IsReady :
        (c : FifoChan E A) (ts : List A)
        → Holds c.queue ts
        → Ascending 0 c.emm_data
        → Ascending 0 c.emm_space
        → IsReady ev (reset_base mg ev c) ts
    unfolding reset_base visible_count free_count
    reset_base-IsReady c ts h od os =
        let (data_order, data_synced) =
          fresh_map ie c.emm_data (length ts) _ od (visible-Holds im ie c ts h) in
        let (space_order, space_synced) =
          fresh_map ie c.emm_space (c.fsize - 1 - length ts) _ os (free-Holds im ie c ts h) in
        record {
          holds = h;
          data_order = data_order;
          space_order = space_order;
          data_synced = data_synced;
          space_synced = space_synced;
        }

    -- Whatever a channel went through, with its pointers in range and its event maps in order,
    -- `doReset` stops exactly if the initial tokens do not fit. Otherwise it leaves exactly them in the
    -- channel, and every event in step with the counts.
    pub do_reset-Resets :
        (c : FifoChan E A)
        → IsValid c.ptr
        → length c.storage ≡ c.fsize
        → Ascending 0 c.emm_data
        → Ascending 0 c.emm_space
        → Resets ev c (do_reset mg ev c)
    unfolding do_reset
    do_reset-Resets c v room od os =
        let clear = Store.reset_queue c.queue in
        let us = c.initial_tokens in
        let depth : depth_count clear.ptr ≡ c.fsize - 1 = depth_count-reset c.queue v in
        elim (Bool-cases (leb (length us) (c.fsize - 1))) [
          | inl fits ↦
              let le = leb→le (length us) (c.fsize - 1) fits in
              let size' = clear-fsize c.queue in
              let marked =
                marked-write_all clear us (clear-windex c.queue) (omega (arith, size'))
                  (omega (arith, v.rindex_in, size')) in
              let fact = wpp-Holds im clear [] us (clear-Holds c.queue v room) in
              elim (Option-cases (Store.wpp mg (write_all clear 0 us) (length us))) [
                | inl stop ↦
                    let room' =
                      subst (λ o. Leaves clear o (length us) (clear.fsize - 1 - 0) us) stop fact in
                    absurd (omega (arith, room', size'))
                | inr (p, go) ↦
                    let (_, size, h) =
                      subst (λ o. Leaves clear o (length us) (clear.fsize - 1 - 0) us) go fact in
                    rw (depth, fits, marked, go)
                      (
                        le,
                        unfold reset_base in (size ∙ size'),
                        reset_base-IsReady (record c { queue = p }) us h od os,
                      )
              ]
          | inr short ↦ rw (depth, short) (leb-false→lt (length us) (c.fsize - 1) short)
        ]
