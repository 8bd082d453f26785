-- ===== src/MultiReader/Exec.antt =====
-- A whole communication of a reader's or a writer's port, and a reset.
use systemoc_syste_mo_c.Common.{
  ℕ, ◌-◌, ◌≤◌, ◌≡◌, refl, ◌∙◌, sym, subst, Option, none, some, List, ◌++◌, inl, inr, arith, length,
  length-drop, drop, Option-cases, leb, if◌then◌else◌,
}
use systemoc_syste_mo_c.Modulo.{ModuloGroup, IsModulo}
use systemoc_syste_mo_c.Event.{EventOps, IsEvent}
use systemoc_syste_mo_c.EventMap.{find, decreased_count_renotify}
use systemoc_syste_mo_c.EventMap.Order.{Ascending}
use systemoc_syste_mo_c.EventMap.Follow.{follow_up, follow_renotify, find-renotify}
use systemoc_syste_mo_c.Queue.Two.{IsValid}
use systemoc_syste_mo_c.Fifo.Store
use systemoc_syste_mo_c.Fifo.Store.{QueueWithStorage}
use systemoc_syste_mo_c.Fifo.Chan
use systemoc_syste_mo_c.Fifo.Chan.{visible_count, free_count}
use systemoc_syste_mo_c.Fifo.Entry
use systemoc_syste_mo_c.Fifo.Contents.{Holds, Leaves, rpp-Holds}
use systemoc_syste_mo_c.Fifo.Written.{write_all}
use systemoc_syste_mo_c.Fifo.Exec.{IsReady, Ends, entry-Ends, visible-Holds, free-Holds}
use systemoc_syste_mo_c.Fifo.Reset.{Resets, do_reset-Resets}
use systemoc_syste_mo_c.MultiReader.Chan.{
  MultiReaderChan, consume, produce, latency_expired, read_consume_event_expired, less_space,
  more_space, more_data, reset_base, do_reset,
}
use systemoc_syste_mo_c.MultiReader.Ports.{
  outlet_comm_exec, outlet_comm_start, outlet_comm_finish, entry_comm_exec, entry_comm_start,
  entry_comm_finish,
}

module _ {E : Type 0} (ev : EventOps E) {A : Type 0} where
  -- An event of the data map for a number that is still there is told to its listener again; any
  -- other one is reset.
  abbrev pub Renotifies : MultiReaderChan E A → Option (MultiReaderChan E A) → ℕ → Type 0
  Renotifies c none rest = Unit {0}
  Renotifies c (some d) rest =
      (k : ℕ) (e : E)
      → find k c.emm_data ≡ some e
      → find k d.emm_data ≡ some (if leb k rest then ev.renotify_listener e else ev.reset e)

module _ (mg : ModuloGroup) {E : Type 0} (ev : EventOps E) {A : Type 0} where
  -- A writer does what the only writer of a FIFO does.
  entry_same :
      (n : ℕ) (c : MultiReaderChan E A) → entry_comm_exec mg ev n c ≡ Entry.comm_exec mg ev n c
  unfolding entry_comm_exec entry_comm_start entry_comm_finish produce less_space latency_expired
      more_data Entry.comm_exec Entry.comm_start Entry.comm_finish Chan.latency_expired
  entry_same n c = elim (Option-cases (Store.wpp mg c.queue n)) [
    | inl stop ↦ rw stop refl
    | inr (p, go) ↦ rw go refl
  ]

  reset_same : (c : MultiReaderChan E A) → do_reset mg ev c ≡ Chan.do_reset mg ev c
  unfolding do_reset reset_base more_space more_data Chan.do_reset Chan.reset_base visible_count
      free_count
  reset_same c = refl

module _ {mg : ModuloGroup} (im : IsModulo mg) {E : Type 0} {ev : EventOps E}
    (ie : IsEvent ev) where
  module _ {A : Type 0} (c : MultiReaderChan E A) (ts : List A) (r : IsReady ev c ts) where
    outlet_done :
        (n : ℕ) (p : QueueWithStorage A)
        → n ≤ length ts
        → p.fsize ≡ c.fsize
        → Holds p (drop n ts)
        → let m = record c {
          queue = p;
          emm_data =
              decreased_count_renotify ev (visible_count mg (record c { queue = p })) c.emm_data;
        } in
          IsReady ev (read_consume_event_expired mg ev n m) (drop n ts)
          × Renotifies ev c (some (read_consume_event_expired mg ev n m)) (length ts - n)
    unfolding read_consume_event_expired more_space visible_count free_count
    outlet_done n p le size h =
        let v = visible-Holds im ie (record c { queue = p }) (drop n ts) h in
        let f = free-Holds im ie (record c { queue = p }) (drop n ts) h in
        let less = length-drop n ts in
        let (data_order, data_synced) =
          follow_renotify ie c.emm_data (length ts) (length (drop n ts)) _ r.data_order
            r.data_synced v (omega (arith, less)) in
        let (space_order, space_synced) =
          follow_up ie c.emm_space (c.fsize - 1 - length ts) (p.fsize - 1 - length (drop n ts)) _
            r.space_order r.space_synced f (omega (arith, less, size)) in
        (
          record {
            holds = h;
            data_order = data_order;
            space_order = space_order;
            data_synced = data_synced;
            space_synced = space_synced;
          },
          λ k e found.
              subst
                (λ l.
                  find k (decreased_count_renotify ev l c.emm_data)
                  ≡ some (if leb k (length ts - n) then ev.renotify_listener e else ev.reset e))
                (sym (v ∙ less)) (find-renotify ev (length ts - n) k c.emm_data e found),
        )

    -- `commExec(n)` of a reader stops exactly if fewer than `n` tokens are in the channel. Otherwise it
    -- takes the `n` oldest ones from all readers, and the events for tokens and for places are those
    -- of the new counts. Every event for a number of tokens that is still there is told to its
    -- listener again, so that the other readers look anew, and every other one is reset.
    pub outlet-Renotifies :
        (n : ℕ)
        → Ends ev c (outlet_comm_exec mg ev n c) n (length ts) (drop n ts)
          × Renotifies ev c (outlet_comm_exec mg ev n c) (length ts - n)
    unfolding outlet_comm_exec outlet_comm_start outlet_comm_finish consume
        read_consume_event_expired more_space
    outlet-Renotifies n = elim (Option-cases (Store.rpp mg c.queue n)) [
      | inl stop ↦ rw stop (
        subst (λ o. Leaves c.queue o n (length ts) (drop n ts)) stop
            (rpp-Holds im c.queue ts r.holds n),
        tt,
      )
      | inr (p, go) ↦
          let (le, size, h) =
            subst (λ o. Leaves c.queue o n (length ts) (drop n ts)) go
              (rpp-Holds im c.queue ts r.holds n) in
          let (ready, told) = outlet_done n p le size h in rw go ((le, size, ready), told)
    ]

    pub write-Ends :
        (us : List A)
        → Ends ev c
            (entry_comm_exec mg ev (length us) (record c { queue = write_all c.queue 0 us }))
            (length us)
            (c.fsize - 1 - length ts)
            (ts ++ us)
    write-Ends us =
        subst (λ o. Ends ev c o (length us) (c.fsize - 1 - length ts) (ts ++ us))
          (sym (entry_same mg ev (length us) (record c { queue = write_all c.queue 0 us })))
          (entry-Ends im ie c ts r us)

  -- Whatever a channel went through, with its pointers in range and its event maps in order,
  -- `doReset` stops exactly if the initial tokens do not fit. Otherwise it leaves exactly them in the
  -- channel for all readers, and every event in step with the counts.
  pub reset-Resets :
      {A : Type 0} (c : MultiReaderChan E A)
      → IsValid c.ptr
      → length c.storage ≡ c.fsize
      → Ascending 0 c.emm_data
      → Ascending 0 c.emm_space
      → Resets ev c (do_reset mg ev c)
  reset-Resets c v room od os =
      subst (Resets ev c) (sym (reset_same mg ev c)) (do_reset-Resets im ie c v room od os)
