-- ===== src/Modulo/Chain.antt =====
-- Four places in order round a ring, with at least one place left behind the last.
use systemoc_syste_mo_c.Common.{ℕ, ◌+◌, ◌-◌, ◌%◌, ◌<◌, ◌≡◌, ◌∙◌, ap, true, arith}
use systemoc_syste_mo_c.Modulo.{ModuloGroup, IsModulo, in_arc}
use systemoc_syste_mo_c.Modulo.Wrap.{
  gap, gap-cases, gap-lt, gap_trans, gap_rest, gap_sub, step-lt, mod-cases,
}
use systemoc_syste_mo_c.Modulo.Arc.{in_arc_of_le}

pub record Chain (m f r v w : ℕ) : Type 0 where
  pub f_in : f < m
  pub r_in : r < m
  pub v_in : v < m
  pub w_in : w < m
  pub fits : gap m f r + gap m r v + gap m v w < m

module _ {m f r v w : ℕ} (c : Chain m f r v w) where
  pub gap-f-v : gap m f v ≡ gap m f r + gap m r v
  gap-f-v = gap_trans m f r c.f_in c.r_in v c.v_in (omega (arith, c.fits))

  pub gap-r-w : gap m r w ≡ gap m r v + gap m v w
  gap-r-w = gap_trans m r v c.r_in c.v_in w c.w_in (omega (arith, c.fits))

  pub gap-f-w : gap m f w ≡ gap m f r + gap m r v + gap m v w
  gap-f-w =
      gap_trans m f v c.f_in c.v_in w c.w_in (omega (arith, c.fits, gap-f-v))
      ∙ ap (λ k. k + gap m v w) gap-f-v

  -- Both arc tests of the source hold.
  pub arc-r-w : in_arc v r w ≡ true
  arc-r-w = in_arc_of_le m v r w c.v_in c.r_in c.w_in (omega (arith, gap-r-w))

  next-f : gap m ((w + 1) % m) f ≡ m - 1 - gap m f w
  next-f = omega (
    arith,
    c.f_in,
    c.w_in,
    gap-cases m f w c.f_in c.w_in,
    mod-cases m (w + 1) (omega (arith, c.w_in)),
    gap-cases m ((w + 1) % m) f (step-lt m w 1 c.w_in) c.f_in,
    gap-f-w,
    c.fits,
  )

  next-r : gap m ((w + 1) % m) r ≡ m - 1 - gap m r w
  next-r = omega (
    arith,
    c.r_in,
    c.w_in,
    gap-cases m r w c.r_in c.w_in,
    mod-cases m (w + 1) (omega (arith, c.w_in)),
    gap-cases m ((w + 1) % m) r (step-lt m w 1 c.w_in) c.r_in,
    gap-r-w,
    c.fits,
  )

  pub arc-next-r : in_arc f ((w + 1) % m) r ≡ true
  arc-next-r =
      in_arc_of_le m f ((w + 1) % m) r c.f_in (step-lt m w 1 c.w_in) c.r_in
        (omega (arith, next-f, next-r, gap-f-w, gap-r-w))

-- The same in the operations of the group.
module _ {mg : ModuloGroup} (im : IsModulo mg) where
  pub sub-gap : (m a b : ℕ) → a < m → b < m → mg.sub m b a ≡ gap m a b
  sub-gap m a b ha hb = gap_sub m a b (im.sub_mod m b a hb (omega arith))

  pub sub_rest : (m a b : ℕ) → a < m → b < m → mg.sub m (mg.sub m a b) 1 ≡ m - 1 - gap m a b
  sub_rest m a b ha hb =
      rw (sub-gap m b a hb ha)
        (im.sub_mod m (gap m b a) 1 (gap-lt m b a hb ha) (omega arith) ∙ gap_rest m a b ha hb)

module _ {mg : ModuloGroup} (im : IsModulo mg) {m f r v w : ℕ} (c : Chain m f r v w) where
  pub sub-w-r : mg.sub m w r ≡ gap m r v + gap m v w
  sub-w-r = sub-gap im m r w c.r_in c.w_in ∙ gap-r-w c

  pub sub-v-r : mg.sub m v r ≡ gap m r v
  sub-v-r = sub-gap im m r v c.r_in c.v_in

  pub sub-w-v : mg.sub m w v ≡ gap m v w
  sub-w-v = sub-gap im m v w c.v_in c.w_in

  pub sub-r-f : mg.sub m r f ≡ gap m f r
  sub-r-f = sub-gap im m f r c.f_in c.r_in

  pub sub-free : mg.sub m (mg.sub m f w) 1 ≡ m - 1 - (gap m f r + gap m r v + gap m v w)
  sub-free = sub_rest im m f w c.f_in c.w_in ∙ ap (λ k. m - 1 - k) (gap-f-w c)

  pub sub-free_base : mg.sub m (mg.sub m r w) 1 ≡ m - 1 - (gap m r v + gap m v w)
  sub-free_base = sub_rest im m r w c.r_in c.w_in ∙ ap (λ k. m - 1 - k) (gap-r-w c)

  pub between-v : mg.between m v r w ≡ true
  between-v = im.between_arc m v r w c.v_in c.r_in c.w_in ∙ arc-r-w c

  pub between-f : mg.between m f (mg.add m w 1) r ≡ true
  between-f =
      rw (im.add_mod m w 1 c.w_in)
        (im.between_arc m f ((w + 1) % m) r c.f_in (step-lt m w 1 c.w_in) c.r_in ∙ arc-next-r c)
