-- ===== src/Multiplex/Latency.antt =====
-- `latencyExpired`, once the new tokens are committed.
use Prim.Native.Nat.{min}
use systemoc_syste_mo_c.Common.{
  ℕ, ◌+◌, ◌-◌, ◌%◌, ◌≡◌, refl, sym, subst, ◌∙◌, true, false, List, [], ◌∷◌, ◌++◌, arith, length,
  length-append, All, All-append, leb, le→leb,
}
use systemoc_syste_mo_c.Modulo.{ModuloGroup, IsModulo}
use systemoc_syste_mo_c.Event.{EventOps, IsEvent}
use systemoc_syste_mo_c.EventMap.{EventMap}
use systemoc_syste_mo_c.Queue.Rw
use systemoc_syste_mo_c.Queue.Rw.{size_mod}
use systemoc_syste_mo_c.Fifo.Store.{QueueWithStorage}
use systemoc_syste_mo_c.Fifo.Contents.{Holds}
use systemoc_syste_mo_c.Multiplex.Chan.{
  ColorAccessor, MultiplexChan, VOutletMap, find_outlet, is_empty,
}
use systemoc_syste_mo_c.Multiplex.Consume.{latency_expired, announce_from}
use systemoc_syste_mo_c.Multiplex.Colors.{color_count}
use systemoc_syste_mo_c.Multiplex.Outlets.{Known, IsTuned}
use systemoc_syste_mo_c.Multiplex.Windows.{take-min-append}
use systemoc_syste_mo_c.Multiplex.Shared.{IsShared, Told, announce_from-Told, visible_lem}

is_empty-Known : {E : Type 0} (c : ℕ) (os : VOutletMap E) → Known c os → is_empty os ≡ false
unfolding find_outlet
is_empty-Known c [] k = absurd (ground (arith, k.1))
is_empty-Known c (o ∷ os) k = refl

module _ {E A : Type 0} {ev : EventOps E} (ie : IsEvent ev) {mg : ModuloGroup} (im : IsModulo mg)
    (col : ColorAccessor A) where
  module _ (c : MultiplexChan E A) (ts : List A) (id : ℕ) (s : IsShared ev col c ts) where
    -- `commFinish` of the writer, on the queue `p` that holds the new tokens.
    module _ (n : ℕ) (p : QueueWithStorage A) (m : EventMap E) (new : List A)
        (h : Holds p (ts ++ new)) (size : p.fsize ≡ c.fsize) (e : n ≡ length new)
        (k : Known id c.v_outlets) where
      abbrev committed : MultiplexChan E A
      committed = record c { queue = p; emm_free = m }

      latency-announce :
          latency_expired col ev mg n committed
          ≡ announce_from col ev mg
              (min ((c.fifo_out_of_order + 1) % size_mod) (Rw.visible_count mg p.ptr - n))
              committed
      unfolding latency_expired
      latency-announce =
          let v = visible_lem im p (ts ++ new) h in
          let more = length-append ts new in
          let fits : leb n (Rw.visible_count mg p.ptr) ≡ true =
            le→leb n (Rw.visible_count mg p.ptr) (omega (arith, v, more, e)) in
          rw (fits, is_empty-Known id c.v_outlets k)

      pub latency-Told :
          All (λ a. Known (col.get_color a) c.v_outlets) new
          → Told ev col committed (ts ++ new) (latency_expired col ev mg n committed)
      latency-Told ks =
          let w = c.fifo_out_of_order + 1 in
          let v = visible_lem im p (ts ++ new) h in
          let more = length-append ts new in
          let i = min w (length ts) in
          let told =
            announce_from-Told ie im col committed (ts ++ new) h (omega (arith, s.deep, size)) _ i
              (omega (arith, v, more, e, s.deep, s.holds.valid.fsize_fits)) (omega (arith, more))
              (All-append _ ts new s.known ks)
              (λ d o z.
                subst (λ us. IsTuned ev (color_count col d us) o) (sym (take-min-append w ts new))
                  (s.counted d o z)) in
          record {
            after = told.after;
            result = latency-announce ∙ told.result;
            holds = told.holds;
            size = told.size;
            same_window = told.same_window;
            counted = told.counted;
            known = told.known;
            same_free = told.same_free;
          }
