-- ===== src/Multiplex/Reset.antt =====
-- `smoc_multiplex_fifo_chan::doReset` with virtual FIFOs: it tells the outlets of every initial token,
-- also of those behind the area out of order.
use systemoc_syste_mo_c.Common.{
  ℕ, suc, ◌+◌, ◌-◌, ◌≤◌, ◌<◌, ◌≡◌, refl, sym, subst, inl, inr, Bool-cases, Option-cases, ◌∙◌, Bool,
  true, false, Option, none, some, List, [], ◌∷◌, arith, length, take, get_elem?, All, All-map, leb,
  leb→le, leb-false→lt,
}
use systemoc_syste_mo_c.Modulo.{ModuloGroup, IsModulo}
use systemoc_syste_mo_c.Event.{EventOps, IsEvent}
use systemoc_syste_mo_c.EventMap
use systemoc_syste_mo_c.EventMap.{EventMap}
use systemoc_syste_mo_c.EventMap.Order.{Ascending, Ascending-mono, Ascending-keys, keys-reset}
use systemoc_syste_mo_c.EventMap.Sync.{Synced}
use systemoc_syste_mo_c.EventMap.Follow.{fresh_map}
use systemoc_syste_mo_c.Queue.Rw
use systemoc_syste_mo_c.Queue.Two.{IsValid}
use systemoc_syste_mo_c.Fifo.Store
use systemoc_syste_mo_c.Fifo.Store.{QueueWithStorage}
use systemoc_syste_mo_c.Fifo.Contents.{Holds, Leaves}
use systemoc_syste_mo_c.Fifo.Chan.{place}
use systemoc_syste_mo_c.Fifo.Commit.{wpp-Holds}
use systemoc_syste_mo_c.Fifo.Reset.{
  marked-write_all, clear-windex, clear-fsize, clear-Holds, depth_count-reset,
}
use systemoc_syste_mo_c.Multiplex.Chan.{
  ColorAccessor, MultiplexChan, VOutlet, VOutletMap, find_outlet, is_empty, reset_outlets,
}
use systemoc_syste_mo_c.Multiplex.Consume.{announce_initial, reset_base, do_reset}
use systemoc_syste_mo_c.Multiplex.Colors.{color_count}
use systemoc_syste_mo_c.Multiplex.Outlets.{
  Known, IsCounted, IsTuned, find-reset_outlets, Known-reset,
}
use systemoc_syste_mo_c.Multiplex.Announce.{announce_initial-Announced}
use systemoc_syste_mo_c.Multiplex.Windows.{color_count-le, color_count-beyond, take_all}
use systemoc_syste_mo_c.Multiplex.Shared.{window, IsShared, free_lem}

module _ {E : Type 0} {ev : EventOps E} (ie : IsEvent ev) where
  -- No event is active after a reset, so those for one token and more are in step with none.
  reset-Synced :
      (k : ℕ) (m : EventMap E) → 1 ≤ k → Ascending k m → Synced ev 0 (EventMap.reset ev m)
  unfolding EventMap.reset
  reset-Synced k [] h a = tt
  reset-Synced k ((n, e) ∷ m) h a =
      (ground (arith, ie.active_reset e), reset-Synced (suc n) m (omega arith) a.1)

  -- There are no events for no tokens.
  abbrev pub HasKeys : VOutletMap E → Type 0
  HasKeys os = (c : ℕ) (o : VOutlet E) → find_outlet c os ≡ some o → Ascending 1 o.emm

  module _ {A : Type 0} (col : ColorAccessor A) where
    reset-IsCounted : (os : VOutletMap E) → HasKeys os → IsCounted ev (reset_outlets ev os) (λ c. 0)
    reset-IsCounted os keys c o e =
        let (p, z, same) = find-reset_outlets ie c os o e in
        let a = keys c p z in
        let t : IsTuned ev 0 (record { count_available = 0; emm = EventMap.reset ev p.emm }) =
          record {
            count = refl;
            order =
                Ascending-keys 0 (EventMap.reset ev p.emm) p.emm (keys-reset ev p.emm)
                  (Ascending-mono 0 1 p.emm (omega arith) a);
            synced = reset-Synced 1 p.emm (omega arith) a;
          } in
        subst (IsTuned ev 0) (sym same) t

    module _ {mg : ModuloGroup} (im : IsModulo mg) (c : MultiplexChan E A) where
      abbrev clear : QueueWithStorage A
      clear = Store.reset_queue c.queue

      abbrev fits : Bool
      fits = leb (length c.initial_tokens) (Rw.depth_count clear.ptr)

      abbrev marked : QueueWithStorage A
      marked = record clear { storage = place 0 c.initial_tokens clear.storage }

      reset_stops : fits ≡ false → do_reset col ev mg c ≡ none
      unfolding do_reset
      reset_stops h = rw h

      reset_goes :
          (p : QueueWithStorage A) (os : VOutletMap E)
          → fits ≡ true
          → Store.wpp mg marked (length c.initial_tokens) ≡ some p
          → is_empty c.v_outlets ≡ false
          → announce_initial col ev c.initial_tokens (reset_outlets ev c.v_outlets) ≡ some os
          → do_reset col ev mg c
            ≡ some (record (reset_base col ev mg (record c { queue = p })) { v_outlets = os })
      unfolding do_reset reset_base
      reset_goes p os h1 h2 h3 h4 = rw (h1, h2, h3) (rw h4)

      -- What `doReset` leaves: it stops exactly if the initial tokens do not fit.
      abbrev pub ResetsAll : Option (MultiplexChan E A) → Type 0
      ResetsAll none = c.fsize - 1 < length c.initial_tokens
      ResetsAll (some d) =
          (length c.initial_tokens ≤ c.fsize - 1)
          × (d.fsize ≡ c.fsize)
          × (d.fifo_out_of_order ≡ c.fifo_out_of_order)
          × Holds d.queue c.initial_tokens
          × IsCounted ev d.v_outlets (λ e. color_count col e c.initial_tokens)
          × All (λ t. Known (col.get_color t) d.v_outlets) c.initial_tokens
          × Ascending 0 d.emm_free
          × Synced ev (d.fsize - 1 - length c.initial_tokens) d.emm_free

      module _ (v : IsValid c.ptr) (room : length c.storage ≡ c.fsize)
          (order : Ascending 0 c.emm_free) (keys : HasKeys c.v_outlets)
          (some_outlet : is_empty c.v_outlets ≡ false)
          (known : All (λ t. Known (col.get_color t) c.v_outlets) c.initial_tokens) where
        abbrev us : List A
        us = c.initial_tokens

        depth_lem : Rw.depth_count clear.ptr ≡ c.fsize - 1
        depth_lem = depth_count-reset c.queue v

        filled :
            length us ≤ c.fsize - 1
            → (p : QueueWithStorage A) × (Store.wpp mg marked (length us) ≡ some p)
              × (p.fsize ≡ c.fsize)
              × Holds p us
        filled le =
            let size = clear-fsize c.queue in
            let same =
              marked-write_all clear us (clear-windex c.queue) (omega (arith, size, le))
                (omega (arith, v.rindex_in, size)) in
            let fact = wpp-Holds im clear [] us (clear-Holds c.queue v room) in
            let fact' =
              subst
                (λ q.
                  Leaves clear (Store.wpp mg q (length us)) (length us) (clear.fsize - 1 - 0) us)
                (sym same) fact in
            elim (Option-cases (Store.wpp mg marked (length us))) [
              | inl stop ↦
                  let bad =
                    subst (λ o. Leaves clear o (length us) (clear.fsize - 1 - 0) us) stop fact' in
                  absurd (omega (arith, bad, size, le))
              | inr (p, go) ↦
                  let (_, s, h) =
                    subst (λ o. Leaves clear o (length us) (clear.fsize - 1 - 0) us) go fact' in
                  (p, go, s ∙ size, h)
            ]

        -- With virtual FIFOs, each with its events in order, and an outlet for every initial token,
        -- `doReset` stops exactly if the initial tokens do not fit. Otherwise they are what the
        -- channel holds, the events for places are in step, and the outlet of each colour counts
        -- all initial tokens of its colour.
        pub do_reset-ResetsAll : ResetsAll (do_reset col ev mg c)
        unfolding reset_base
        do_reset-ResetsAll = elim (Bool-cases fits) [
          | inr short ↦
              subst ResetsAll (sym (reset_stops short)) (
                omega (arith, depth_lem, leb-false→lt (length us) (Rw.depth_count clear.ptr) short))
          | inl enough ↦
              let le : length us ≤ c.fsize - 1 =
                omega (arith, depth_lem, leb→le (length us) (Rw.depth_count clear.ptr) enough) in
              let (p, go, size, h) = filled le in
              let fresh = reset_outlets ev c.v_outlets in
              let a =
                announce_initial-Announced ie col us fresh (λ e. 0)
                  (All-map _ us (λ t z. Known-reset ie (col.get_color t) c.v_outlets z) known)
                  (reset-IsCounted c.v_outlets keys)
                  (λ e. omega (arith, color_count-le col e us, le, v.fsize_fits)) in
              let (free_order, free_synced) =
                fresh_map ie c.emm_free (p.fsize - 1 - length us) _ order (free_lem im p us h) in
              subst ResetsAll (sym (reset_goes p a.after enough go some_outlet a.result)) (
                le,
                size,
                refl,
                h,
                λ e o z.
                    let n : 0 + color_count col e us ≡ color_count col e us = omega arith in
                    subst (λ k. IsTuned ev k o) n (a.counted e o z),
                All-map _ us
                    (λ t z.
                      a.known (col.get_color t) (Known-reset ie (col.get_color t) c.v_outlets z))
                    known,
                free_order,
                free_synced,
              )
        ]

        module _ (d : MultiplexChan E A) (done : do_reset col ev mg c ≡ some d) where
          -- With virtual FIFOs, each with its events in order, an outlet for every initial
          -- token, and all initial tokens in the area out of order, which is shorter than the
          -- ring, a `doReset` that succeeds leaves a channel that shares them.
          pub do_reset-IsShared :
              c.fifo_out_of_order + 1 ≤ c.fsize - 1
              → length c.initial_tokens ≤ c.fifo_out_of_order + 1
              → IsShared ev col d c.initial_tokens
          do_reset-IsShared deep few =
              let (le, size, win, h, counted, known', order', synced) =
                subst ResetsAll done do_reset-ResetsAll in
              let all : take (d.fifo_out_of_order + 1) us ≡ us =
                take_all (d.fifo_out_of_order + 1) us (omega (arith, few, win)) in
              record {
                holds = h;
                deep = omega (arith, deep, size, win);
                counted = λ e o z.
                    subst (λ ts. IsTuned ev (color_count col e ts) o) (sym all) (counted e o z);
                known = known';
                free_order = order';
                free_synced = synced;
              }

          -- With virtual FIFOs, each with its events in order, and an outlet for every initial
          -- token: after a `doReset` that succeeds, the outlet of an initial token behind the area
          -- out of order counts more tokens than the area holds of its colour.
          pub do_reset-beyond :
              (k : ℕ) (t : A) (o : VOutlet E)
              → get_elem? c.initial_tokens k ≡ some t
              → c.fifo_out_of_order + 1 ≤ k
              → find_outlet (col.get_color t) d.v_outlets ≡ some o
              → color_count col (col.get_color t) (window ev col d c.initial_tokens)
                < o.count_available
          do_reset-beyond k t o e far z =
              let (le, size, win, h, counted, known', order', synced) =
                subst ResetsAll done do_reset-ResetsAll in
              let more =
                color_count-beyond col t (d.fifo_out_of_order + 1) k us (omega (arith, win, far))
                  e in
              omega (arith, more, (counted (col.get_color t) o z).count)
