-- ===== src/Multiplex/Recolor.antt =====
-- The writer of a virtual FIFO gives its tokens their colour before it commits them.
use systemoc_syste_mo_c.Common.{
  ℕ, suc, ◌+◌, ◌-◌, ◌%◌, ◌≤◌, ◌<◌, ◌≡◌, refl, ◌∙◌, ◌⊎◌, inl, Option, some, List, [], ◌∷◌, map,
  arith, length, length-set, set, leb, if◌then◌else◌,
}
use systemoc_syste_mo_c.Modulo.{plain_group-IsModulo}
use systemoc_syste_mo_c.Modulo.Wrap.{mod-cases, step-lt}
use systemoc_syste_mo_c.Fifo.Store.{Storage}
use systemoc_syste_mo_c.Fifo.Segment.{place}
use systemoc_syste_mo_c.Multiplex.Chan.{ColorAccessor}
use systemoc_syste_mo_c.Multiplex.Ports.{color_places}
use systemoc_syste_mo_c.Multiplex.Colors.{Run}
use systemoc_syste_mo_c.Multiplex.Gather.{Run-same}
use systemoc_syste_mo_c.Multiplex.Index.{next_index, place-set_self, place-set_ne}

module _ {A : Type 0} (col : ColorAccessor A) (id : ℕ) where
  -- The tokens with the colour.
  abbrev pub colored : List A → List A
  colored us = map (λ t. col.put_color t id) us

  -- The storage after the loop over the places from `k` on.
  pub record Recolored (st : List (Storage A)) (m r k : ℕ) (us : List A)
      (res : Option (List (Storage A))) : Type 0 where
    pub after : List (Storage A)
    pub result : res ≡ some after
    pub room : length after ≡ m
    pub run : Run after m r k (colored us)
    pub others :
        (j : ℕ) → (j < k) ⊎ (k + length us ≤ j) → j < m → place after m r j ≡ place st m r j

  wrap_index :
      (m r k : ℕ)
      → r < m
      → let w = (r + k) % m in (if leb m (w + 1) then w + 1 - m else w + 1) ≡ (r + suc k) % m
  wrap_index m r k hr =
      let w = (r + k) % m in
      let lt = step-lt m r k hr in
      ground (arith, next_index m r k, mod-cases m (w + 1) (omega arith))

  color_places-step :
      (st : List (Storage A)) (m r k n : ℕ) (t : A)
      → r < m
      → place st m r k ≡ some t
      → color_places col id (suc n) m ((r + k) % m) st
        ≡ color_places col id n m
            ((r + suc k) % m)
            (set st ((r + k) % m) (some (col.put_color t id)))
  unfolding color_places
  color_places-step st m r k n t hr h = let e = wrap_index m r k hr in rw (h, e)

  pub color_places-Recolored :
      (us : List A) (st : List (Storage A)) (m r k : ℕ)
      → r < m
      → length st ≡ m
      → k + length us ≤ m
      → Run st m r k us
      → Recolored st m r k us (color_places col id (length us) m ((r + k) % m) st)
  color_places-Recolored [] st m r k hr room le h = record {
    after = st;
    result = unfold color_places in refl;
    room = room;
    run = tt;
    others = λ j o lt. refl;
  }
  color_places-Recolored (t ∷ us) st m r k hr room le h =
      let x = some (col.put_color t id) in
      let st' = set st ((r + k) % m) x in
      let im = plain_group-IsModulo in
      let room' : length st' ≡ m = length-set st ((r + k) % m) x ∙ room in
      let ih = color_places-Recolored us st' m r (suc k) hr room' (omega arith) (
        Run-same st st' m r (suc k) us (omega arith)
          (λ j a c. place-set_ne im m r hr st room k x j (omega arith) c (omega arith)) h.1) in
      record {
        after = ih.after;
        result = color_places-step st m r k (length us) t hr h.0 ∙ ih.result;
        room = ih.room;
        run = (
          ih.others k (inl (omega arith)) (omega arith) ∙ place-set_self im m r hr st room k x,
          ih.run,
        );
        others = λ j o lt.
            ih.others j (omega arith) lt
            ∙ place-set_ne im m r hr st room k x j (omega arith) lt (omega arith);
      }
