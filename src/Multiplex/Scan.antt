-- ===== src/Multiplex/Scan.antt =====
-- `consume` finds the `n`th token of its colour.
use systemoc_syste_mo_c.Common.{
  ℕ, zero, suc, ◌+◌, ◌-◌, ◌%◌, ◌≤◌, ◌<◌, ◌≡◌, inl, inr, Bool-cases, ◌∙◌, true, Option, some, List,
  [], ◌∷◌, arith, length, ◌==◌, ltb, if◌then◌else◌,
}
use systemoc_syste_mo_c.Modulo.{ModuloGroup, IsModulo}
use systemoc_syste_mo_c.Modulo.Wrap.{gap}
use systemoc_syste_mo_c.Fifo.Store.{Storage}
use systemoc_syste_mo_c.Multiplex.Chan.{ColorAccessor}
use systemoc_syste_mo_c.Multiplex.Consume.{find_before_last, find_last}
use systemoc_syste_mo_c.Multiplex.Colors.{color_count, rev_onto, Run, Back}
use systemoc_syste_mo_c.Multiplex.Index.{add_index, between_end}

-- A place that a loop over `q ++ rest` can stop at.
pub record Stop {A : Type 0} (col : ColorAccessor A) (st : List (Storage A)) (m r from n : ℕ)
    (all : List A) (res : Option ℕ) : Type 0 where
  pub q : List A
  pub rest : List A
  pub index : res ≡ some ((r + length q) % m)
  pub whole : rev_onto q rest ≡ all
  pub count : color_count col from q + 1 ≡ n
  pub more : 1 ≤ color_count col from rest
  pub size : length q + length rest ≡ length all
  pub back : Back st m r q
  pub run : Run st m r (length q) rest

-- The place of the token itself.
pub record Found {A : Type 0} (col : ColorAccessor A) (st : List (Storage A)) (m r from n : ℕ)
    (all : List A) (res : Option ℕ) : Type 0 where
  pub q : List A
  pub token : A
  pub rest : List A
  pub index : res ≡ some ((r + length q) % m)
  pub whole : rev_onto q (token ∷ rest) ≡ all
  pub count : color_count col from q + 1 ≡ n
  pub color : (col.get_color token == from) ≡ true
  pub size : length q + suc (length rest) ≡ length all
  pub back : Back st m r q
  pub run : Run st m r (length q) (token ∷ rest)

module _ {A : Type 0} (col : ColorAccessor A) {mg : ModuloGroup} (im : IsModulo mg)
    (st : List (Storage A)) (m r v from : ℕ) (hr : r < m) (hv : v < m) where
  pub find_before_last-Stop :
      (fuel mc : ℕ) (q rest all : List A)
      → 1 ≤ mc
      → mc ≤ color_count col from rest
      → length rest < fuel
      → length q + length rest ≤ gap m r v
      → length q + length rest ≡ length all
      → rev_onto q rest ≡ all
      → Back st m r q
      → Run st m r (length q) rest
      → Stop col st m r from
          (color_count col from q + mc)
          all
          (find_before_last col mg st m r v from fuel mc ((r + length q) % m))
  unfolding find_before_last color_count rev_onto
  find_before_last-Stop zero mc q rest all one le lt fit size w b h = absurd (omega arith)
  find_before_last-Stop (suc fuel) mc q [] all one le lt fit size w b h = absurd (omega arith)
  find_before_last-Stop (suc fuel) mc q (t ∷ rest) all one le lt fit size w b h =
      elim (Bool-cases (ltb 1 mc)) [
        | inr stop ↦ record {
          q = q;
          rest = t ∷ rest;
          index = rw stop;
          whole = w;
          count = ground arith;
          more = omega arith;
          size = size;
          back = b;
          run = h;
        }
        | inl go ↦
            let mc' = if col.get_color t == from then mc - 1 else mc in
            let s =
              find_before_last-Stop fuel mc' (t ∷ q) rest all (ground arith) (ground arith)
                (omega arith) (omega arith) (omega (arith, size)) w (h.0, b) h.1 in
            let inside = between_end im m r hr v (length q) hv (omega arith) in
            record {
              q = s.q;
              rest = s.rest;
              index = rw (go, inside, h.0, add_index im m r hr (length q)) s.index;
              whole = s.whole;
              count = s.count ∙ ground arith;
              more = s.more;
              size = s.size;
              back = s.back;
              run = s.run;
            }
      ]

  pub find_last-Found :
      (fuel n : ℕ) (q rest all : List A)
      → color_count col from q + 1 ≡ n
      → 1 ≤ color_count col from rest
      → length rest ≤ fuel
      → length q + length rest ≤ gap m r v
      → length q + length rest ≡ length all
      → rev_onto q rest ≡ all
      → Back st m r q
      → Run st m r (length q) rest
      → Found col st m r from n all (find_last col mg st m r v from fuel ((r + length q) % m))
  unfolding find_last color_count rev_onto
  find_last-Found fuel n q [] all c more lt fit size w b h = absurd (omega arith)
  find_last-Found zero n q (t ∷ rest) all c more lt fit size w b h = absurd (omega arith)
  find_last-Found (suc fuel) n q (t ∷ rest) all c more lt fit size w b h =
      elim (Bool-cases (col.get_color t == from)) [
        | inl here ↦ record {
          q = q;
          token = t;
          rest = rest;
          index = rw (h.0, here);
          whole = w;
          count = c;
          color = here;
          size = size;
          back = b;
          run = h;
        }
        | inr on ↦
            let f =
              find_last-Found fuel n (t ∷ q) rest all (ground arith) (ground arith) (omega arith)
                (omega arith) (omega (arith, size)) w (h.0, b) h.1 in
            let inside = between_end im m r hr v (length q) hv (omega arith) in
            record {
              q = f.q;
              token = f.token;
              rest = f.rest;
              index = rw (h.0, on, inside, add_index im m r hr (length q)) f.index;
              whole = f.whole;
              count = f.count;
              color = f.color;
              size = f.size;
              back = f.back;
              run = f.run;
            }
      ]
