-- ===== src/Modulo/Moves.antt =====
-- Moving one of four places in order keeps the order, and changes the gaps beside it.
use systemoc_syste_mo_c.Common.{ℕ, ◌+◌, ◌-◌, ◌%◌, ◌≤◌, ◌≡◌, arith}
use systemoc_syste_mo_c.Modulo.Wrap.{gap, gap_advance, gap_retreat, step-lt}
use systemoc_syste_mo_c.Modulo.Chain.{Chain}

module _ {m f r v w : ℕ} (n : ℕ) (c : Chain m f r v w) where
  pub gap-write :
      n ≤ m - 1 - (gap m f r + gap m r v + gap m v w) → gap m v ((w + n) % m) ≡ gap m v w + n
  gap-write h = gap_advance m v w c.v_in c.w_in n (omega (arith, c.fits))

  pub Chain-write : n ≤ m - 1 - (gap m f r + gap m r v + gap m v w) → Chain m f r v ((w + n) % m)
  Chain-write h = record {
    f_in = c.f_in;
    r_in = c.r_in;
    v_in = c.v_in;
    w_in = step-lt m w n c.w_in;
    fits = omega (arith, gap-write h, c.fits);
  }

  module _ (h : n ≤ gap m v w) where
    pub gap-publish : gap m r ((v + n) % m) ≡ gap m r v + n
    gap-publish = gap_advance m r v c.r_in c.v_in n (omega (arith, c.fits))

    pub gap-publish_rest : gap m ((v + n) % m) w ≡ gap m v w - n
    gap-publish_rest = gap_retreat m v w c.v_in c.w_in n h

    pub Chain-publish : Chain m f r ((v + n) % m) w
    Chain-publish = record {
      f_in = c.f_in;
      r_in = c.r_in;
      v_in = step-lt m v n c.v_in;
      w_in = c.w_in;
      fits = omega (arith, gap-publish, gap-publish_rest, c.fits);
    }

  module _ (h : n ≤ gap m r v) where
    pub gap-read : gap m f ((r + n) % m) ≡ gap m f r + n
    gap-read = gap_advance m f r c.f_in c.r_in n (omega (arith, c.fits))

    pub gap-read_rest : gap m ((r + n) % m) v ≡ gap m r v - n
    gap-read_rest = gap_retreat m r v c.r_in c.v_in n h

    pub Chain-read : Chain m f ((r + n) % m) v w
    Chain-read = record {
      f_in = c.f_in;
      r_in = step-lt m r n c.r_in;
      v_in = c.v_in;
      w_in = c.w_in;
      fits = omega (arith, gap-read, gap-read_rest, c.fits);
    }

  module _ (h : n ≤ gap m f r) where
    pub gap-release : gap m ((f + n) % m) r ≡ gap m f r - n
    gap-release = gap_retreat m f r c.f_in c.r_in n h

    pub Chain-release : Chain m ((f + n) % m) r v w
    Chain-release = record {
      f_in = step-lt m f n c.f_in;
      r_in = c.r_in;
      v_in = c.v_in;
      w_in = c.w_in;
      fits = omega (arith, gap-release, c.fits);
    }
