-- ===== src/Multiplex/Index.antt =====
-- The indices that the loops go through, counted from the read index.
use native.Mathlib.Nat.{mod-add-mod}
use systemoc_syste_mo_c.Common.{
  ℕ, suc, ◌+◌, ◌-◌, ◌%◌, ◌≤◌, ◌<◌, ◌≡◌, ap, ◌∙◌, true, false, List, arith, length, set,
  get_or-set_self, get_or-set_ne, none, ◌==◌, ◌≢◌,
}
use systemoc_syste_mo_c.Modulo.{ModuloGroup, IsModulo}
use systemoc_syste_mo_c.Modulo.Wrap.{
  gap, mod-cases, gap_advance, gap_self, step-lt, gap-lt, gap-cases,
}
use systemoc_syste_mo_c.Modulo.Arc.{in_arc_of_le}
use systemoc_syste_mo_c.Fifo.Store.{Storage}
use systemoc_syste_mo_c.Fifo.Segment.{place, place-ne}

module _ (m r k : ℕ) where
  pub next_index : (((r + k) % m) + 1) % m ≡ (r + suc k) % m
  next_index = mod-add-mod (r + k) m 1 ∙ ap (λ i. i % m) (omega arith)

  pub prev_index : r < m → suc k < m → ((r + suc k) % m + m - 1) % m ≡ (r + k) % m
  prev_index h lt = omega (
    arith,
    mod-cases m (r + suc k) (omega arith),
    mod-cases m (r + k) (omega arith),
    mod-cases m ((r + suc k) % m + m - 1) (omega (arith, step-lt m r (suc k) h)),
  )

  pub gap_index : r < m → k < m → gap m r ((r + k) % m) ≡ k
  gap_index h lt =
      gap_advance m r r h h k (omega (arith, gap_self m r h)) ∙ omega (arith, gap_self m r h)

module _ {mg : ModuloGroup} (im : IsModulo mg) (m r : ℕ) (hr : r < m) where
  pub add_index : (k : ℕ) → mg.add m ((r + k) % m) 1 ≡ (r + suc k) % m
  add_index k = im.add_mod m ((r + k) % m) 1 (step-lt m r k hr) ∙ next_index m r k

  pub sub_index : (k : ℕ) → suc k < m → mg.sub m ((r + suc k) % m) 1 ≡ (r + k) % m
  sub_index k lt =
      im.sub_mod m ((r + suc k) % m) 1 (step-lt m r (suc k) hr) (omega arith)
      ∙ prev_index m r k hr lt

  -- The assertions of the loops.
  pub between_index : (k j : ℕ) → k ≤ j → j < m → mg.between m ((r + k) % m) r ((r + j) % m) ≡ true
  between_index k j le lt =
      im.between_arc m ((r + k) % m) r ((r + j) % m) (step-lt m r k hr) hr (step-lt m r j hr)
      ∙ in_arc_of_le m ((r + k) % m) r ((r + j) % m) (step-lt m r k hr) hr (step-lt m r j hr)
          (omega (arith, gap_index m r k hr (omega arith), gap_index m r j hr lt))

  pub end_index : (v : ℕ) → v < m → v ≡ (r + gap m r v) % m
  end_index v hv = omega (
    arith,
    gap-cases m r v hr hv,
    mod-cases m (r + gap m r v) (omega (arith, gap-lt m r v hr hv)),
  )

  pub between_end :
      (v k : ℕ) → v < m → k < gap m r v → mg.between m ((r + k) % m) r (mg.sub m v 1) ≡ true
  between_end v k hv lt =
      let g = gap-lt m r v hr hv in
      let e : gap m r v ≡ suc (gap m r v - 1) = omega arith in
      let f = ap (λ i. mg.sub m i 1) (end_index v hv ∙ ap (λ i. (r + i) % m) e) in
      let last = f ∙ sub_index (gap m r v - 1) (omega arith) in
      ap (mg.between m ((r + k) % m) r) last
      ∙ between_index k (gap m r v - 1) (omega arith) (omega arith)

  module _ {A : Type 0} (st : List (Storage A)) (room : length st ≡ m) (k : ℕ) (x : Storage A) where
    pub place-set_self : place (set st ((r + k) % m) x) m r k ≡ x
    place-set_self = get_or-set_self st ((r + k) % m) x none (omega (arith, room, step-lt m r k hr))

    pub place-set_ne :
        (j : ℕ) → k < m → j < m → k ≢ j → place (set st ((r + k) % m) x) m r j ≡ place st m r j
    place-set_ne j lk lj h =
        get_or-set_ne st ((r + k) % m) ((r + j) % m) x none (place-ne m r k j hr lk lj h)

module _ (m r : ℕ) (hr : r < m) where
  pub at_start : (((r + 0) % m) == r) ≡ true
  at_start = ground (arith, mod-cases m (r + 0) (omega arith))

  pub past_start : (k : ℕ) → 0 < k → k < m → (((r + k) % m) == r) ≡ false
  past_start k h lt = ground (arith, mod-cases m (r + k) (omega arith))

  pub ne_index : (k j : ℕ) → k < m → j < m → k ≢ j → (((r + k) % m) == ((r + j) % m)) ≡ false
  ne_index k j lk lj h = let n = place-ne m r k j hr lk lj h in ground arith
