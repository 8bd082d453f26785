-- ===== src/Multiplex/Reads.antt =====
-- The port of a reader of a virtual FIFO.
use systemoc_syste_mo_c.Common.{
  ℕ, zero, suc, ◌+◌, ◌-◌, ◌%◌, ◌≤◌, ◌<◌, ◌≡◌, refl, ap, sym, inl, inr, Bool-cases, ◌∙◌, true, some,
  List, [], ◌∷◌, ◌++◌, arith, length, get_elem?, drop, ltb, ◌==◌, if◌then◌else◌,
}
use native.Mathlib.Nat.{mod-eq_of_lt}
use systemoc_syste_mo_c.Modulo.Wrap.{mod-cases, step-lt}
use systemoc_syste_mo_c.Queue.Two.{used-lt}
use systemoc_syste_mo_c.Fifo.Store.{Storage}
use systemoc_syste_mo_c.Fifo.Segment.{place}
use systemoc_syste_mo_c.Fifo.Contents.{Holds}
use systemoc_syste_mo_c.Multiplex.Chan.{ColorAccessor, MultiplexChan}
use systemoc_syste_mo_c.Multiplex.Ports.{read_color, read_at}
use systemoc_syste_mo_c.Multiplex.Colors.{color_count, of_color, remove, Run, tokens-Run}
use systemoc_syste_mo_c.Multiplex.Index.{next_index}

module _ {A : Type 0} (col : ColorAccessor A) (c : ℕ) where
  turn_index :
      (m r k : ℕ)
      → r < m
      → let w = (r + k) % m in (if ltb w (m - 1) then w + 1 else 0) ≡ (r + suc k) % m
  turn_index m r k hr =
      let w = (r + k) % m in
      let lt = step-lt m r k hr in
      ground (arith, next_index m r k, mod-cases m (w + 1) (omega arith))

  read_color-step :
      (st : List (Storage A)) (m r k f n : ℕ) (t : A)
      → r < m
      → place st m r k ≡ some t
      → read_color col (suc f) st m c ((r + k) % m) n ≡ (
          if ltb 0 n
          then read_color col f st m c ((r + suc k) % m) (if col.get_color t == c then n - 1 else n)
          else if col.get_color t == c
          then some t
          else read_color col f st m c ((r + suc k) % m) n)
  unfolding read_color
  read_color-step st m r k f n t hr h =
      let e = turn_index m r k hr in
      elim (Bool-cases (col.get_color t == c)) [
        | inl x ↦ rw (h, e, x) (ground arith)
        | inr x ↦ rw (h, e, x) (ground arith)
      ]

  read_color_lem :
      (rs : List A) (st : List (Storage A)) (m r k f n : ℕ)
      → r < m
      → length rs ≤ f
      → n < color_count col c rs
      → Run st m r k rs
      → read_color col f st m c ((r + k) % m) n ≡ get_elem? (of_color col c rs) n
  unfolding color_count of_color
  read_color_lem [] st m r k f n hr le lt run = absurd (omega arith)
  read_color_lem (t ∷ rs) st m r k zero n hr le lt run = absurd (omega arith)
  read_color_lem (t ∷ rs) st m r k (suc f) zero hr le lt run =
      elim (Bool-cases (col.get_color t == c)) [
        | inl e ↦ rw e (read_color-step st m r k f 0 t hr run.0 ∙ rw e)
        | inr x ↦ rw x (
            read_color-step st m r k f 0 t hr run.0
            ∙ rw x (read_color_lem rs st m r (suc k) f 0 hr (omega arith) (ground arith) run.1))
      ]
  read_color_lem (t ∷ rs) st m r k (suc f) (suc n) hr le lt run =
      let s = read_color-step st m r k f (suc n) t hr run.0 in
      let more : ltb 0 (suc n) ≡ true = ground arith in
      elim (Bool-cases (col.get_color t == c)) [
        | inl e ↦
            let less : suc n - 1 ≡ n = omega arith in
            rw e (
              s
              ∙ rw (more, e, less)
                  (read_color_lem rs st m r (suc k) f n hr (omega arith) (ground arith) run.1))
        | inr x ↦ rw x (
            s
            ∙ rw (more, x)
                (read_color_lem rs st m r (suc k) f (suc n) hr (omega arith) (ground arith) run.1))
      ]

  -- Where the ring holds more than `n` tokens of the colour, the reader's port gives the `n`th of
  -- them.
  pub read_at-of_color :
      {E : Type 0} (chan : MultiplexChan E A) (ts : List A) (n : ℕ)
      → Holds chan.queue ts
      → n < color_count col c ts
      → read_at col c chan n ≡ get_elem? (of_color col c ts) n
  unfolding read_at
  read_at-of_color chan ts n h lt =
      let full = used-lt h.valid in
      let here : (chan.rindex + 0) % chan.fsize ≡ chan.rindex =
        ap (λ i. i % chan.fsize) (omega arith) ∙ mod-eq_of_lt h.valid.rindex_in in
      let run = tokens-Run chan.storage chan.fsize chan.rindex 0 ts (λ k l.
        let z : 0 + k ≡ k = omega arith in
        ap (place chan.storage chan.fsize chan.rindex) z ∙ h.tokens k l) in
      ap (λ i. read_color col chan.fsize chan.storage chan.fsize c i n) (sym here)
      ∙ read_color_lem ts chan.storage chan.fsize chan.rindex 0 chan.fsize n h.valid.rindex_in
          (omega (arith, full, h.count)) lt run

module _ {A : Type 0} (col : ColorAccessor A) where
  -- Each virtual FIFO on its own: the reader of `c` takes from the front of its queue.
  pub of_color-remove :
      (c d n : ℕ) (ts : List A)
      → of_color col d (remove col c n ts)
        ≡ (if c == d then drop n (of_color col d ts) else of_color col d ts)
  unfolding of_color remove
  of_color-remove c d zero ts = elim (Bool-cases (c == d)) [ inl e ↦ rw e | inr e ↦ rw e ]
  of_color-remove c d (suc n) [] = elim (Bool-cases (c == d)) [ inl e ↦ rw e | inr e ↦ rw e ]
  of_color-remove c d (suc n) (t ∷ ts) =
      ground (arith, of_color-remove c d n ts, of_color-remove c d (suc n) ts)

  pub of_color-append :
      (d : ℕ) (ts us : List A) → of_color col d (ts ++ us) ≡ of_color col d ts ++ of_color col d us
  unfolding of_color
  of_color-append d [] us = refl
  of_color-append d (t ∷ ts) us = elim (Bool-cases (col.get_color t == d)) [
    | inl e ↦ rw e (ap (λ r. t ∷ r) (of_color-append d ts us))
    | inr e ↦ rw e (of_color-append d ts us)
  ]
