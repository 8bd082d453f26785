-- ===== src/Fifo/Exec.antt =====
-- A whole communication of either port: the tokens of the channel and both event maps after it.
use systemoc_syste_mo_c.Common.{
  ℕ, ◌-◌, ◌≤◌, ◌<◌, ◌≡◌, ap, ◌∙◌, subst, Option, none, some, List, ◌++◌, inl, inr, arith, length,
  length-append, length-drop, drop, Option-cases,
}
use systemoc_syste_mo_c.Modulo.{ModuloGroup, IsModulo}
use systemoc_syste_mo_c.Event.{EventOps, IsEvent}
use systemoc_syste_mo_c.EventMap.{decreased_count}
use systemoc_syste_mo_c.EventMap.Order.{Ascending}
use systemoc_syste_mo_c.EventMap.Sync.{Synced}
use systemoc_syste_mo_c.EventMap.Follow.{follow_up, follow_down}
use systemoc_syste_mo_c.Queue.Two.{free_count-used, used_count-used}
use systemoc_syste_mo_c.Queue.Rw
use systemoc_syste_mo_c.Fifo.Store
use systemoc_syste_mo_c.Fifo.Store.{QueueWithStorage}
use systemoc_syste_mo_c.Fifo.Chan.{
  FifoChan, visible_count, free_count, latency_expired, read_consume_event_expired,
}
use systemoc_syste_mo_c.Fifo.Entry
use systemoc_syste_mo_c.Fifo.Outlet
use systemoc_syste_mo_c.Fifo.Contents.{Holds, Leaves, rpp-Holds}
use systemoc_syste_mo_c.Fifo.Written.{write_all}
use systemoc_syste_mo_c.Fifo.Commit.{wpp-Holds}

module _ {E : Type 0} (ev : EventOps E) {A : Type 0} where
  -- The channel holds the tokens `ts`; an event for `n` tokens is active exactly if `n` are there,
  -- and one for `n` places exactly if `n` are free.
  pub record IsReady (c : FifoChan E A) (ts : List A) : Type 0 where
    pub holds : Holds c.queue ts
    pub data_order : Ascending 0 c.emm_data
    pub space_order : Ascending 0 c.emm_space
    pub data_synced : Synced ev (length ts) c.emm_data
    pub space_synced : Synced ev (c.fsize - 1 - length ts) c.emm_space

  -- A call stops exactly where `n` is above `limit`, and otherwise leaves a channel of the same size
  -- that holds `ts`.
  abbrev pub Ends : FifoChan E A → Option (FifoChan E A) → ℕ → ℕ → List A → Type 0
  Ends c none n limit ts = limit < n
  Ends c (some d) n limit ts = (n ≤ limit) × (d.fsize ≡ c.fsize) × IsReady d ts

module _ {mg : ModuloGroup} (im : IsModulo mg) {E : Type 0} {ev : EventOps E}
    (ie : IsEvent ev) where
  module _ {A : Type 0} where
    pub visible-Holds :
        (c : FifoChan E A) (ts : List A) → Holds c.queue ts → visible_count mg c ≡ length ts
    unfolding visible_count Rw.visible_count
    visible-Holds c ts h = used_count-used im h.valid ∙ h.count

    pub free-Holds :
        (c : FifoChan E A) (ts : List A)
        → Holds c.queue ts
        → free_count mg c ≡ c.fsize - 1 - length ts
    unfolding free_count
    free-Holds c ts h = free_count-used im h.valid ∙ ap (λ u. c.fsize - 1 - u) h.count

  -- An event map that follows its count down, and up.

  module _ {A : Type 0} (c : FifoChan E A) (ts : List A) (r : IsReady ev c ts) where
    outlet_done :
        (n : ℕ) (p : QueueWithStorage A)
        → n ≤ length ts
        → p.fsize ≡ c.fsize
        → Holds p (drop n ts)
        → IsReady ev
            (read_consume_event_expired mg ev n (record c {
              queue = p;
              emm_data = decreased_count ev (visible_count mg (record c { queue = p })) c.emm_data;
            }))
            (drop n ts)
    unfolding read_consume_event_expired visible_count free_count
    outlet_done n p le size h =
        let v = visible-Holds (record c { queue = p }) (drop n ts) h in
        let f = free-Holds (record c { queue = p }) (drop n ts) h in
        let less = length-drop n ts in
        let (data_order, data_synced) =
          follow_down ie c.emm_data (length ts) (length (drop n ts)) _ r.data_order r.data_synced v
            (omega (arith, less)) in
        let (space_order, space_synced) =
          follow_up ie c.emm_space (c.fsize - 1 - length ts) (p.fsize - 1 - length (drop n ts)) _
            r.space_order r.space_synced f (omega (arith, less, size)) in
        record {
          holds = h;
          data_order = data_order;
          space_order = space_order;
          data_synced = data_synced;
          space_synced = space_synced;
        }

    -- `FifoOutlet::commExec(n)` stops exactly if fewer than `n` tokens are there. Otherwise it takes
    -- the `n` oldest ones, and the events for tokens and for places are those of the new counts.
    pub outlet-Ends : (n : ℕ) → Ends ev c (Outlet.comm_exec mg ev n c) n (length ts) (drop n ts)
    unfolding Outlet.comm_exec Outlet.comm_start Outlet.comm_finish read_consume_event_expired
    outlet-Ends n = elim (Option-cases (Store.rpp mg c.queue n)) [
      | inl stop ↦ rw stop (
          subst (λ o. Leaves c.queue o n (length ts) (drop n ts)) stop
            (rpp-Holds im c.queue ts r.holds n))
      | inr (p, go) ↦
          let (le, size, h) =
            subst (λ o. Leaves c.queue o n (length ts) (drop n ts)) go
              (rpp-Holds im c.queue ts r.holds n) in
          rw go (le, size, outlet_done n p le size h)
    ]

    entry_done :
        (n : ℕ) (us : List A) (p : QueueWithStorage A) (t : ℕ)
        → length us ≤ c.fsize - 1 - length ts
        → p.fsize ≡ c.fsize
        → Holds p (ts ++ us)
        → IsReady ev
            (latency_expired mg ev n (record c {
              queue = p;
              token_id = t;
              emm_space =
                  decreased_count ev
                    (free_count mg (record c { queue = p; token_id = t }))
                    c.emm_space;
            }))
            (ts ++ us)
    unfolding latency_expired visible_count free_count
    entry_done n us p t le size h =
        let v = visible-Holds (record c { queue = p }) (ts ++ us) h in
        let f = free-Holds (record c { queue = p }) (ts ++ us) h in
        let more = length-append ts us in
        let (space_order, space_synced) =
          follow_down ie c.emm_space (c.fsize - 1 - length ts) (p.fsize - 1 - length (ts ++ us)) _
            r.space_order r.space_synced f (omega (arith, more, size)) in
        let (data_order, data_synced) =
          follow_up ie c.emm_data (length ts) (length (ts ++ us)) _ r.data_order r.data_synced v
            (omega (arith, more)) in
        record {
          holds = h;
          data_order = data_order;
          space_order = space_order;
          data_synced = data_synced;
          space_synced = space_synced;
        }

    -- Where the writer's port has put the tokens `us`, `FifoEntry::commExec` of their number stops
    -- exactly if they do not fit. Otherwise the channel holds them behind the old tokens, and the
    -- events for tokens and for places are those of the new counts.
    pub entry-Ends :
        (us : List A)
        → Ends ev c
            (Entry.comm_exec mg ev (length us) (record c { queue = write_all c.queue 0 us }))
            (length us)
            (c.fsize - 1 - length ts)
            (ts ++ us)
    unfolding Entry.comm_exec Entry.comm_start Entry.comm_finish latency_expired
    entry-Ends us =
        let fact = wpp-Holds im c.queue ts us r.holds in
        let limit = c.fsize - 1 - length ts in
        elim (Option-cases (Store.wpp mg (write_all c.queue 0 us) (length us))) [
          | inl stop ↦
              rw stop (subst (λ o. Leaves c.queue o (length us) limit (ts ++ us)) stop fact)
          | inr (p, go) ↦
              let (le, size, h) =
                subst (λ o. Leaves c.queue o (length us) limit (ts ++ us)) go fact in
              rw go (le, size, entry_done (length us) us p _ le size h)
        ]
