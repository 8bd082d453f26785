-- ===== src/Multiplex/Entries.antt =====
-- A whole communication of the writer of a virtual FIFO.
use systemoc_syste_mo_c.Common.{
  ℕ, suc, ◌+◌, ◌-◌, ◌%◌, ◌≤◌, ◌≡◌, refl, ap, sym, subst, inl, inr, Bool-cases, Option-cases, ◌∙◌,
  Option, none, some, List, [], ◌∷◌, ◌++◌, arith, length, length-append, All, All-append, leb,
  leb→le, leb-false→lt,
}
use systemoc_syste_mo_c.Modulo.{ModuloGroup, IsModulo}
use systemoc_syste_mo_c.Event.{EventOps, IsEvent}
use systemoc_syste_mo_c.EventMap
use systemoc_syste_mo_c.EventMap.{EventMap}
use systemoc_syste_mo_c.EventMap.Order.{Ascending}
use systemoc_syste_mo_c.EventMap.Sync.{Synced}
use systemoc_syste_mo_c.EventMap.Follow.{follow_down}
use systemoc_syste_mo_c.Queue.Rw
use systemoc_syste_mo_c.Queue.Rw.{size_mod}
use systemoc_syste_mo_c.Queue.Two.{used-lt}
use systemoc_syste_mo_c.Fifo.Store
use systemoc_syste_mo_c.Fifo.Store.{QueueWithStorage, Storage}
use systemoc_syste_mo_c.Fifo.Contents.{Holds, Leaves}
use systemoc_syste_mo_c.Fifo.Commit.{Behind, wpp-Behind, windex_lem}
use systemoc_syste_mo_c.Multiplex.Chan.{ColorAccessor, MultiplexChan}
use systemoc_syste_mo_c.Multiplex.Consume.{latency_expired}
use systemoc_syste_mo_c.Multiplex.Ports.{
  v_entry_comm_start, v_entry_comm_exec, entry_comm_finish, color_places, produce,
}
use systemoc_syste_mo_c.Multiplex.Colors.{tokens-Run, Run-tokens}
use systemoc_syste_mo_c.Multiplex.Outlets.{Known}
use systemoc_syste_mo_c.Multiplex.Recolor.{colored, Recolored, color_places-Recolored}
use systemoc_syste_mo_c.Multiplex.Shared.{IsShared, Told, free_lem}
use systemoc_syste_mo_c.Multiplex.Exec.{IsAccessor, Ends, Known-after, IsCounted-after}
use systemoc_syste_mo_c.Multiplex.Latency.{latency-Told}

length-colored :
    {A : Type 0} (col : ColorAccessor A) (id : ℕ) (us : List A)
    → length (colored col id us) ≡ length us
length-colored col id [] = refl
length-colored col id (t ∷ us) = ap suc (length-colored col id us)

module _ {E A : Type 0} {ev : EventOps E} (ie : IsEvent ev) {mg : ModuloGroup} (im : IsModulo mg)
    (col : ColorAccessor A) where
  module _ (c : MultiplexChan E A) (ts us : List A) (st : List (Storage A)) (id : ℕ)
      (s : IsShared ev col c ts) where
    abbrev places : ℕ
    places = c.fsize - 1 - length ts

    -- The tokens behind the others, once they have their colour.
    recolored :
        (b : Behind c.queue ts us st)
        → length us ≤ places
        → Recolored col id st c.fsize c.rindex
            (length ts)
            us
            (color_places col id (length us) c.fsize c.windex st)
    recolored b le =
        let h = s.holds in
        let full = used-lt h.valid in
        let here : (c.rindex + length ts) % c.fsize ≡ c.windex =
          ap (λ k. (c.rindex + k) % c.fsize) (sym h.count) ∙ sym (windex_lem h.valid) in
        subst
          (λ w.
            Recolored col id st c.fsize c.rindex (length ts) us
              (color_places col id (length us) c.fsize w st))
          here
          (color_places-Recolored col id us st c.fsize c.rindex (length ts) h.valid.rindex_in b.room
            (omega (arith, full, h.count)) (tokens-Run st c.fsize c.rindex (length ts) us b.new))

    Behind-colored :
        (b : Behind c.queue ts us st)
        → length us ≤ places
        → (res : Option (List (Storage A)))
        → (z : Recolored col id st c.fsize c.rindex (length ts) us res)
        → Behind c.queue ts (colored col id us) z.after
    Behind-colored b le res z =
        let full = used-lt s.holds.valid in
        let same = length-colored col id us in
        record {
          room = z.room;
          kept = λ k lt. z.others k (inl lt) (omega (arith, full, s.holds.count)) ∙ b.kept k lt;
          new = Run-tokens z.after c.fsize c.rindex (length ts) (colored col id us) z.run;
        }

    abbrev written_to : MultiplexChan E A
    written_to = record c { queue = record (c.queue) { storage = st } }

    entry_stops_color :
        color_places col id (length us) c.fsize c.windex st ≡ none
        → v_entry_comm_exec col ev mg id (length us) written_to ≡ none
    unfolding v_entry_comm_exec v_entry_comm_start
    entry_stops_color e = rw e

    module _ (st' : List (Storage A))
        (e : color_places col id (length us) c.fsize c.windex st ≡ some st') where
      entry_stops_room :
          Store.wpp mg (record (c.queue) { storage = st' }) (length us) ≡ none
          → v_entry_comm_exec col ev mg id (length us) written_to ≡ none
      unfolding v_entry_comm_exec v_entry_comm_start produce
      entry_stops_room h = rw (e, h)

      entry_goes :
          (p : QueueWithStorage A) (d : MultiplexChan E A)
          → Store.wpp mg (record (c.queue) { storage = st' }) (length us) ≡ some p
          → latency_expired col ev mg (length us) (record c {
            queue = p;
            emm_free = EventMap.decreased_count ev (Rw.free_count mg p.ptr) c.emm_free;
          })
            ≡ some d
          → v_entry_comm_exec col ev mg id (length us) written_to ≡ some d
      unfolding v_entry_comm_exec v_entry_comm_start produce entry_comm_finish
      entry_goes p d h l = rw (e, h) l

    All-colored :
        (vs : List A)
        → IsAccessor col
        → Known id c.v_outlets
        → All (λ a. Known (col.get_color a) c.v_outlets) (colored col id vs)
    All-colored [] law k = tt
    All-colored (t ∷ vs) law k =
        (subst (λ b. Known b c.v_outlets) (sym (law t id)) k, All-colored vs law k)

    entry_done :
        (p : QueueWithStorage A) (new : List A) (res : Option (MultiplexChan E A))
        → (t : Told ev col
            (record c {
              queue = p;
              emm_free = EventMap.decreased_count ev (Rw.free_count mg p.ptr) c.emm_free;
            })
            (ts ++ new)
            res)
        → Holds p (ts ++ new)
        → p.fsize ≡ c.fsize
        → All (λ a. Known (col.get_color a) c.v_outlets) new
        → IsShared ev col t.after (ts ++ new)
    entry_done p new res t h size ks =
        let more = length-append ts new in
        let d : MultiplexChan E A = record c {
          queue = p;
          emm_free = EventMap.decreased_count ev (Rw.free_count mg p.ptr) c.emm_free;
        } in
        let (a, z) =
          follow_down ie c.emm_free (c.fsize - 1 - length ts) (p.fsize - 1 - length (ts ++ new)) _
            s.free_order s.free_synced (free_lem im p (ts ++ new) h) (omega (arith, more, size)) in
        record {
          holds = t.holds;
          deep = omega (arith, s.deep, size, t.size, t.same_window);
          counted = IsCounted-after ie im col d (ts ++ new) res t;
          known = Known-after ie im col d (ts ++ new) res t (All-append _ ts new s.known ks);
          free_order = subst (Ascending 0) (sym t.same_free) a;
          free_synced =
              subst (λ f. Synced ev (f - 1 - length (ts ++ new)) t.after.emm_free) (sym t.size)
                (subst (Synced ev (p.fsize - 1 - length (ts ++ new))) (sym t.same_free) z);
        }

    committed_fact :
        (st' : List (Storage A))
        → color_places col id (length us) c.fsize c.windex st ≡ some st'
        → (length us ≤ places → Behind c.queue ts us st)
        → Leaves c.queue
            (Store.wpp mg (record (c.queue) { storage = st' }) (length us))
            (length us)
            places
            (ts ++ colored col id us)
    committed_fact st' go b =
        let new = colored col id us in
        let same = length-colored col id us in
        subst
          (λ n.
            Leaves c.queue (Store.wpp mg (record (c.queue) { storage = st' }) n) n places
              (ts ++ new))
          same
          (wpp-Behind im c.queue ts new st' s.holds (λ fits.
            let le : length us ≤ places = omega (arith, same, fits) in
            let z = recolored (b le) le in
            let after : z.after ≡ st' = cc (z.result) in
            subst (Behind c.queue ts new) after (Behind-colored (b le) le _ z)))

    -- In a channel that shares `ts`, and whose ring holds the tokens `us` behind these if they fit,
    -- `commExec` of the writer of `id` stops exactly if they do not fit. Otherwise it gives them the
    -- colour `id` and puts them behind `ts`; each outlet then counts the tokens of its colour in the
    -- area out of order, and its events and those for places are in step.
    pub v_entry-Ends :
        (length us ≤ c.fsize - 1 - length ts → Behind c.queue ts us st)
        → IsAccessor col
        → Known id c.v_outlets
        → Ends ev col c
            (v_entry_comm_exec col ev mg id
              (length us)
              (record c { queue = record (c.queue) { storage = st } }))
            (length us)
            (c.fsize - 1 - length ts)
            (ts ++ colored col id us)
    v_entry-Ends b law k =
        let new = colored col id us in
        let same = length-colored col id us in
        let goal =
          λ (r : Option (MultiplexChan E A)). Ends ev col c r (length us) places (ts ++ new) in
        elim (Option-cases (color_places col id (length us) c.fsize c.windex st)) [
          | inl stop ↦
              subst goal (sym (entry_stops_color stop))
                (elim (Bool-cases (leb (length us) places)) [
                  | inl le ↦
                      let fits = leb→le (length us) places le in
                      let z = recolored (b fits) fits in cc (z.result)
                  | inr gt ↦ leb-false→lt (length us) places gt
                ])
          | inr (st', go) ↦
              let fact = committed_fact st' go b in
              elim (Option-cases (Store.wpp mg (record (c.queue) { storage = st' }) (length us))) [
                | inl stop ↦
                    subst goal (sym (entry_stops_room st' go stop))
                      (subst (λ o. Leaves c.queue o (length us) places (ts ++ new)) stop fact)
                | inr (p, room) ↦
                    let (le, size, h) =
                      subst (λ o. Leaves c.queue o (length us) places (ts ++ new)) room fact in
                    let ks = All-colored us law k in
                    let told =
                      latency-Told ie im col c ts id s (length us) p _ new h size (sym same) k ks in
                    subst goal (sym (entry_goes st' go p told.after room told.result)) (
                      le,
                      told.size ∙ size,
                      told.same_window,
                      entry_done p new _ told h size ks,
                      told.known,
                    )
              ]
        ]
