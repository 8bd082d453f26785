-- ===== src/Multiplex/Shared.antt =====
-- The invariant of a multiplex FIFO with virtual FIFOs, and `announce_from` and `consume` on it.
use Prim.Native.Nat.{min}
use systemoc_syste_mo_c.Common.{
  ℕ, ◌+◌, ◌-◌, ◌%◌, ◌≤◌, ◌≡◌, refl, ap, sym, subst, ◌∙◌, Option, some, List, arith, length,
  length-drop, take, drop, All, ◌==◌, if◌then◌else◌,
}
use systemoc_syste_mo_c.Modulo.{ModuloGroup, IsModulo}
use systemoc_syste_mo_c.Event.{EventOps, IsEvent}
use systemoc_syste_mo_c.EventMap
use systemoc_syste_mo_c.EventMap.{EventMap}
use systemoc_syste_mo_c.EventMap.Order.{Ascending}
use systemoc_syste_mo_c.EventMap.Sync.{Synced}
use systemoc_syste_mo_c.Queue.Rw
use systemoc_syste_mo_c.Queue.Rw.{size_mod}
use systemoc_syste_mo_c.Queue.Two.{used_count-used, free_count-used, used-lt}
use systemoc_syste_mo_c.Fifo.Store.{QueueWithStorage}
use systemoc_syste_mo_c.Fifo.Segment.{place}
use systemoc_syste_mo_c.Fifo.Contents.{Holds, rpp-rest}
use systemoc_syste_mo_c.Multiplex.Chan.{ColorAccessor, MultiplexChan}
use systemoc_syste_mo_c.Multiplex.Consume.{announce, announce_from, consume}
use systemoc_syste_mo_c.Multiplex.Colors.{color_count, remove, Run, tokens-Run}
use systemoc_syste_mo_c.Multiplex.Gather.{gather-Gathered}
use systemoc_syste_mo_c.Multiplex.Outlets.{Known, IsCounted, IsTuned}
use systemoc_syste_mo_c.Multiplex.Announce.{Announced, announce-Announced}
use systemoc_syste_mo_c.Multiplex.Windows.{
  length-take, take-min, All-take, All-drop, Run-take, Run-drop, color_count-le,
  color_count-take_le, color_count-window, color_count-remove, take-remove, All-remove,
}

module _ {A : Type 0} {mg : ModuloGroup} (im : IsModulo mg) (q : QueueWithStorage A) (ts : List A)
    (h : Holds q ts) where
  pub visible_lem : Rw.visible_count mg q.ptr ≡ length ts
  unfolding Rw.visible_count
  visible_lem = used_count-used im h.valid ∙ h.count

  pub free_lem : Rw.free_count mg q.ptr ≡ q.fsize - 1 - length ts
  free_lem = free_count-used im h.valid ∙ ap (λ u. q.fsize - 1 - u) h.count

module _ {E A : Type 0} (ev : EventOps E) (col : ColorAccessor A) where
  -- The area out of order.
  abbrev pub window : MultiplexChan E A → List A → List A
  window c ts = take (c.fifo_out_of_order + 1) ts

  -- The ring holds `ts`; the outlet of each colour counts the tokens of its colour in the area out of
  -- order; every token has an outlet; and an event for `n` places is active exactly if `n` are free.
  pub record IsShared (c : MultiplexChan E A) (ts : List A) : Type 0 where
    pub holds : Holds c.queue ts
    pub deep : c.fifo_out_of_order + 1 ≤ c.fsize - 1
    pub counted : IsCounted ev c.v_outlets (λ d. color_count col d (window c ts))
    pub known : All (λ t. Known (col.get_color t) c.v_outlets) ts
    pub free_order : Ascending 0 c.emm_free
    pub free_synced : Synced ev (c.fsize - 1 - length ts) c.emm_free

  -- The same without the free places.
  pub record Told (c : MultiplexChan E A) (ts : List A) (res : Option (MultiplexChan E A))
      : Type 0 where
    pub after : MultiplexChan E A
    pub result : res ≡ some after
    pub holds : Holds after.queue ts
    pub size : after.fsize ≡ c.fsize
    pub same_window : after.fifo_out_of_order ≡ c.fifo_out_of_order
    pub counted : IsCounted ev after.v_outlets (λ d. color_count col d (window c ts))
    pub known : (d : ℕ) → Known d c.v_outlets → Known d after.v_outlets
    pub same_free : after.emm_free ≡ c.emm_free

module _ {E A : Type 0} {ev : EventOps E} (ie : IsEvent ev) {mg : ModuloGroup} (im : IsModulo mg)
    (col : ColorAccessor A) where
  module _ (c : MultiplexChan E A) (ts : List A) (h : Holds c.queue ts)
      (deep : c.fifo_out_of_order + 1 ≤ c.fsize - 1) where
    -- The tokens from the place `i` on that are in the area.
    abbrev entering : ℕ → List A
    entering i = drop i (take (c.fifo_out_of_order + 1) ts)

    entering-Announced :
        (i : ℕ)
        → i ≤ min (c.fifo_out_of_order + 1) (length ts)
        → All (λ t. Known (col.get_color t) c.v_outlets) ts
        → IsCounted ev c.v_outlets (λ d. color_count col d (take i ts))
        → Announced ie col c.v_outlets
            (λ d. color_count col d (take i ts))
            (entering i)
            (announce col ev c.fsize c.storage c.fsize
              ((c.rindex + i) % c.fsize)
              ((c.rindex + min (c.fifo_out_of_order + 1) (length ts)) % c.fsize)
              c.v_outlets)
    entering-Announced i le k u =
        let w = c.fifo_out_of_order + 1 in
        let lt = length-take w ts in
        let ld = length-drop i (take w ts) in
        let full = used-lt h.valid in
        let run = Run-drop c.storage c.fsize c.rindex i 0 (take w ts) (omega (arith, lt)) (
          Run-take c.storage c.fsize c.rindex w 0 ts (
            tokens-Run c.storage c.fsize c.rindex 0 ts (λ j l.
              let z : 0 + j ≡ j = omega arith in
              ap (place c.storage c.fsize c.rindex) z ∙ h.tokens j l))) in
        let z : 0 + i ≡ i = omega arith in
        announce-Announced ie col c.storage c.fsize c.rindex h.valid.rindex_in c.fsize i
          (min w (length ts)) (entering i) c.v_outlets (λ d. color_count col d (take i ts))
          (omega (arith, ld, lt, deep)) (omega (arith, ld, lt))
          (omega (arith, deep, h.valid.rindex_in))
          (subst (λ j. Run c.storage c.fsize c.rindex j (entering i)) z run)
          (All-drop _ i (take w ts) (All-take _ w ts k)) u
          (λ d. omega (
            arith,
            color_count-window col d i w ts (omega arith),
            color_count-le col d (take w ts),
            lt,
            full,
            h.count,
            h.valid.fsize_fits,
          ))

    pub announce_from-Told :
        (x i : ℕ)
        → x ≡ i
        → i ≤ min (c.fifo_out_of_order + 1) (length ts)
        → All (λ t. Known (col.get_color t) c.v_outlets) ts
        → IsCounted ev c.v_outlets (λ d. color_count col d (take i ts))
        → Told ev col c ts (announce_from col ev mg x c)
    unfolding announce_from
    announce_from-Told x i e le k u =
        let a = entering-Announced i le k u in
        let w = c.fifo_out_of_order + 1 in
        let o : min ((c.fifo_out_of_order + 1) % size_mod) (Rw.visible_count mg c.ptr)
            ≡ min w (length ts) =
          ap (min ((c.fifo_out_of_order + 1) % size_mod)) (visible_lem im c.queue ts h)
          ∙ omega (arith, deep, h.valid.fsize_fits) in
        record {
          after = record c { v_outlets = a.after };
          result = rw (e, o, a.result);
          holds = h;
          size = refl;
          same_window = refl;
          counted = λ d p z.
              subst (λ j. IsTuned ev j p) (color_count-window col d i w ts (omega arith))
                (a.counted d p z);
          known = a.known;
          same_free = refl;
        }

  -- `consume` of `n` tokens that are in the area: the others stay, in their order.
  pub consume-Told :
      (c : MultiplexChan E A) (ts : List A) (from n : ℕ)
      → Holds c.queue ts
      → c.fifo_out_of_order + 1 ≤ c.fsize - 1
      → n ≤ color_count col from (window ev col c ts)
      → All (λ t. Known (col.get_color t) c.v_outlets) ts
      → IsCounted ev c.v_outlets (λ d.
        if from == d
        then color_count col d (window ev col c ts) - n
        else color_count col d (window ev col c ts))
      → Told ev col c (remove col from n ts) (consume col ev mg from n c)
  unfolding consume
  consume-Told c ts from n h deep le k u =
      let w = c.fifo_out_of_order + 1 in
      let ts' = remove col from n ts in
      let g =
        gather-Gathered col im from n c.queue ts h
          (omega (arith, color_count-take_le col from w ts)) in
      let (p, go, size, hp, _) =
        rpp-rest im (record (c.queue) { storage = g.moved }) n ts' g.holds in
      let taken : MultiplexChan E A = record c {
        queue = p;
        emm_available = EventMap.decreased_count ev (Rw.visible_count mg p.ptr) c.emm_available;
      } in
      let few : n ≤ w = omega (arith, color_count-le col from (take w ts), length-take w ts) in
      let i = min (w - n) (length ts') in
      let x : min ((w + size_mod - n) % size_mod) (Rw.visible_count mg p.ptr) ≡ i =
        ap (min ((w + size_mod - n) % size_mod)) (visible_lem im p ts' hp)
        ∙ omega (arith, few, deep, h.valid.fsize_fits) in
      let counts = λ (d : ℕ).
        sym (color_count-remove col from d n (take w ts) le)
        ∙ ap (color_count col d)
            (sym (take-remove col from w n ts le) ∙ sym (take-min (w - n) ts')) in
      let told =
        announce_from-Told taken ts' hp (omega (arith, size, deep)) _ i x (omega arith)
          (All-remove col from _ n ts k)
          (λ d o z. subst (λ j. IsTuned ev j o) (counts d) (u d o z)) in
      record {
        after = told.after;
        result = rw (g.result, go) told.result;
        holds = told.holds;
        size = told.size ∙ size;
        same_window = told.same_window;
        counted = told.counted;
        known = told.known;
        same_free = told.same_free;
      }
