-- ===== src/Multiplex/Exec.antt =====
-- A whole communication of the reader of a virtual FIFO.
use systemoc_syste_mo_c.Common.{
  ℕ, ◌+◌, ◌-◌, ◌≤◌, ◌<◌, ◌≡◌, ap, sym, subst, inl, inr, Bool-cases, ◌∙◌, true, false, Option, none,
  some, List, arith, length, take, All, All-map, ◌==◌, if◌then◌else◌, leb, leb→le, leb-false→lt,
}
use systemoc_syste_mo_c.Modulo.{ModuloGroup, IsModulo}
use systemoc_syste_mo_c.Event.{EventOps, IsEvent}
use systemoc_syste_mo_c.EventMap
use systemoc_syste_mo_c.EventMap.{EventMap}
use systemoc_syste_mo_c.EventMap.Order.{Ascending}
use systemoc_syste_mo_c.EventMap.Sync.{Synced}
use systemoc_syste_mo_c.EventMap.Follow.{follow_up}
use systemoc_syste_mo_c.Queue.Rw
use systemoc_syste_mo_c.Queue.Rw.{size_mod}
use systemoc_syste_mo_c.Multiplex.Chan.{
  ColorAccessor, MultiplexChan, VOutlet, VOutletMap, find_outlet, at_outlet, less_data,
}
use systemoc_syste_mo_c.Multiplex.Consume.{consume, read_consume_event_expired}
use systemoc_syste_mo_c.Multiplex.Ports.{
  v_outlet_comm_start, v_outlet_comm_exec, outlet_comm_finish,
}
use systemoc_syste_mo_c.Multiplex.Colors.{color_count, remove}
use systemoc_syste_mo_c.Multiplex.Outlets.{
  Known, IsCounted, Updated, at_outlet-Updated, Updated-Known, Updated-IsCounted, less_data-IsTuned,
}
use systemoc_syste_mo_c.Multiplex.Windows.{length-remove, All-remove, color_count-take_le}
use systemoc_syste_mo_c.Multiplex.Shared.{window, IsShared, Told, consume-Told, free_lem}

-- What the channel relies on.
abbrev pub IsAccessor : {A : Type 0} → ColorAccessor A → Type 0
IsAccessor {A} col = (t : A) (c : ℕ) → col.get_color (col.put_color t c) ≡ c

module _ {E A : Type 0} (ev : EventOps E) (col : ColorAccessor A) where
  -- A call stops exactly where `n` is above `limit`, and otherwise leaves a channel of the same size,
  -- with the same area out of order and the same ids, that shares `ts`.
  abbrev pub Ends : MultiplexChan E A → Option (MultiplexChan E A) → ℕ → ℕ → List A → Type 0
  Ends c none n limit ts = limit < n
  Ends c (some d) n limit ts =
      (n ≤ limit)
      × (d.fsize ≡ c.fsize)
      × (d.fifo_out_of_order ≡ c.fifo_out_of_order)
      × IsShared ev col d ts
      × ((e : ℕ) → Known e c.v_outlets → Known e d.v_outlets)

module _ {E A : Type 0} {ev : EventOps E} (ie : IsEvent ev) {mg : ModuloGroup} (im : IsModulo mg)
    (col : ColorAccessor A) where
  pub Known-after :
      (c : MultiplexChan E A) (ts : List A) (res : Option (MultiplexChan E A))
      → (t : Told ev col c ts res) → All (λ a. Known (col.get_color a) c.v_outlets) ts
      → All (λ a. Known (col.get_color a) t.after.v_outlets) ts
  Known-after c ts res t k = All-map _ ts (λ a z. t.known (col.get_color a) z) k

  pub IsCounted-after :
      (c : MultiplexChan E A) (ts : List A) (res : Option (MultiplexChan E A))
      → (t : Told ev col c ts res)
      → IsCounted ev t.after.v_outlets (λ d. color_count col d (window ev col t.after ts))
  IsCounted-after c ts res t =
      subst (λ m. IsCounted ev t.after.v_outlets (λ d. color_count col d (take (m + 1) ts)))
        (sym t.same_window) t.counted

  -- `commFinish` of a reader.
  outlet_finished :
      (c : MultiplexChan E A) (ts us : List A) (n : ℕ) (res : Option (MultiplexChan E A))
      → (t : Told ev col c us res) → c.fifo_out_of_order + 1 ≤ c.fsize - 1
      → Ascending 0 c.emm_free
      → Synced ev (c.fsize - 1 - length ts) c.emm_free
      → All (λ a. Known (col.get_color a) c.v_outlets) us
      → length us ≤ length ts
      → IsShared ev col (read_consume_event_expired col ev mg n t.after) us
  unfolding read_consume_event_expired
  outlet_finished c ts us n res t deep order synced k le =
      let free = free_lem im t.after.queue us t.holds ∙ ap (λ m. m - 1 - length us) t.size in
      let (a, z) =
        follow_up ie t.after.emm_free (c.fsize - 1 - length ts) (c.fsize - 1 - length us) _
          (subst (Ascending 0) (sym t.same_free) order)
          (subst (Synced ev (c.fsize - 1 - length ts)) (sym t.same_free) synced) free
          (omega arith) in
      record {
        holds = t.holds;
        deep = omega (arith, deep, t.size, t.same_window);
        counted = IsCounted-after c us res t;
        known = Known-after c us res t k;
        free_order = a;
        free_synced =
            subst
              (λ m.
                Synced ev (m - 1 - length us)
                  (EventMap.increased_count ev (Rw.free_count mg t.after.ptr) t.after.emm_free))
              (sym t.size) z;
      }

  module _ (c : MultiplexChan E A) (ts : List A) (s : IsShared ev col c ts) (id : ℕ) where
    -- The limit of the reader of `id`.
    abbrev available : ℕ
    available = color_count col id (window ev col c ts)

    outlet_started :
        (n : ℕ) (o : VOutlet E) (res : Option (VOutletMap E))
        → find_outlet id c.v_outlets ≡ some o
        → (u : Updated id (less_data ev n) c.v_outlets res) → n ≤ available
        → Told ev col
            (record c { v_outlets = u.after })
            (remove col id n ts)
            (consume col ev mg id n (record c { v_outlets = u.after }))
    outlet_started n o res e u le =
        consume-Told ie im col (record c { v_outlets = u.after }) ts id n s.holds s.deep le
          (All-map _ ts
            (λ a z. Updated-Known id (col.get_color a) (less_data ev n) c.v_outlets res u z)
            s.known)
          (Updated-IsCounted ie id (less_data ev n) c.v_outlets res
            (λ d. color_count col d (window ev col c ts))
            (λ d.
              if id == d
              then color_count col d (window ev col c ts) - n
              else color_count col d (window ev col c ts))
            u (o, e) s.counted
            (λ p i.
              let self : (id == id) ≡ true = ground arith in
              rw self (less_data-IsTuned ie n available p i))
            (λ d z. rw z))

    outlet_stops :
        (n : ℕ) (o : VOutlet E)
        → find_outlet id c.v_outlets ≡ some o
        → leb n o.count_available ≡ false
        → v_outlet_comm_exec col ev mg id n c ≡ none
    unfolding v_outlet_comm_exec v_outlet_comm_start
    outlet_stops n o e h = rw (e, h)

    outlet_goes :
        (n : ℕ) (o : VOutlet E) (os : VOutletMap E) (d : MultiplexChan E A)
        → find_outlet id c.v_outlets ≡ some o
        → leb n o.count_available ≡ true
        → at_outlet id (less_data ev n) c.v_outlets ≡ some os
        → consume col ev mg id n (record c { v_outlets = os }) ≡ some d
        → v_outlet_comm_exec col ev mg id n c ≡ some (read_consume_event_expired col ev mg n d)
    unfolding v_outlet_comm_exec v_outlet_comm_start outlet_comm_finish
    outlet_goes n o os d e h u r = rw (e, h, u, r)

    -- In a channel that shares `ts`, `commExec(n)` of the reader of `id` stops exactly if the area out
    -- of order holds fewer than `n` tokens of the colour `id`. Otherwise it takes the first `n` of
    -- them, wherever they stand, and keeps the others in their order; each outlet then counts the
    -- tokens of its colour in the new area, and its events and those for places are in step.
    pub v_outlet-Ends :
        (n : ℕ)
        → Known id c.v_outlets
        → Ends ev col c
            (v_outlet_comm_exec col ev mg id n c)
            n
            (color_count col id (window ev col c ts))
            (remove col id n ts)
    unfolding read_consume_event_expired
    v_outlet-Ends n (o, e) =
        let t = s.counted id o e in
        let ts' = remove col id n ts in
        elim (Bool-cases (leb n available)) [
          | inr gt ↦
              let stop = outlet_stops n o e (ap (leb n) t.count ∙ gt) in
              subst (λ r. Ends ev col c r n available ts') (sym stop) (leb-false→lt n available gt)
          | inl fits ↦
              let le = leb→le n available fits in
              let u = at_outlet-Updated id (less_data ev n) c.v_outlets (o, e) in
              let told = outlet_started n o _ e u le in
              let go =
                outlet_goes n o u.after told.after e (ap (leb n) t.count ∙ fits) u.result
                  told.result in
              let less =
                length-remove col id n ts
                  (omega (arith, le, color_count-take_le col id (c.fifo_out_of_order + 1) ts)) in
              let known =
                All-map _ ts'
                  (λ a z. Updated-Known id (col.get_color a) (less_data ev n) c.v_outlets _ u z)
                  (All-remove col id _ n ts s.known) in
              subst (λ r. Ends ev col c r n available ts') (sym go)
                (
                  le,
                  told.size,
                  told.same_window,
                  outlet_finished (record c { v_outlets = u.after }) ts ts' n _ told s.deep
                      s.free_order s.free_synced known (omega (arith, less)),
                  λ b z. told.known b (Updated-Known id b (less_data ev n) c.v_outlets _ u z),
                )
        ]
