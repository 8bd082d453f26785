-- ===== src/Modulo/Wrap.antt =====
-- Distances round a ring of `m` places.
use native.Mathlib.Nat.{mod-eq_of_lt, mod-eq-sub-mod, mod-lt}
use native.Mathlib.Decide.{dec_lt}
use systemoc_syste_mo_c.Common.{ℕ, ◌+◌, ◌-◌, ◌%◌, ◌≤◌, ◌<◌, ◌≡◌, ◌∙◌, ◌⊎◌, inl, inr, arith}

-- The steps from `a` forward to `b`.
unfoldable pub gap : ℕ → ℕ → ℕ → ℕ
gap m a b = (b + m - a) % m

-- A number below two rounds is reduced by at most one.
pub mod-cases : (m x : ℕ) → x < m + m → ((x < m) × (x % m ≡ x)) ⊎ ((m ≤ x) × (x % m ≡ x - m))
mod-cases m x h = elim (dec_lt x m) [
  | yes p ↦ inl (p, mod-eq_of_lt p)
  | no p ↦ inr (
    omega arith,
    mod-eq-sub-mod {n = x} {m = m} (omega arith) ∙ mod-eq_of_lt {n = x - m} {m = m} (omega arith),
  )
]

pub gap-cases :
    (m a b : ℕ)
    → a < m
    → b < m
    → ((a ≤ b) × (gap m a b ≡ b - a)) ⊎ ((b < a) × (gap m a b ≡ b + m - a))
unfolding gap
gap-cases m a b ha hb = ground (arith, mod-cases m (b + m - a))

pub gap-lt : (m a b : ℕ) → a < m → b < m → gap m a b < m
gap-lt m a b ha hb = omega (arith, gap-cases m a b ha hb)

pub gap_self : (m a : ℕ) → a < m → gap m a a ≡ 0
gap_self m a ha = omega (arith, gap-cases m a a ha ha)

pub step-lt : (m a n : ℕ) → a < m → (a + n) % m < m
step-lt m a n h = mod-lt (a + n) {m = m} (omega arith)

module _ (m a b : ℕ) (ha : a < m) (hb : b < m) where
  pub gap_trans : (c : ℕ) → c < m → gap m a b + gap m b c < m → gap m a c ≡ gap m a b + gap m b c
  gap_trans c hc h =
      omega (arith, gap-cases m a b ha hb, gap-cases m b c hb hc, gap-cases m a c ha hc)

  -- Moving the end on makes the gap longer,
  pub gap_advance : (n : ℕ) → gap m a b + n < m → gap m a ((b + n) % m) ≡ gap m a b + n
  gap_advance n h = omega (
    arith,
    gap-cases m a b ha hb,
    mod-cases m (b + n) (omega arith),
    gap-cases m a ((b + n) % m) ha (step-lt m b n hb),
  )

  -- and moving the start on makes it shorter.
  pub gap_retreat : (n : ℕ) → n ≤ gap m a b → gap m ((a + n) % m) b ≡ gap m a b - n
  gap_retreat n h = omega (
    arith,
    gap-cases m a b ha hb,
    mod-cases m (a + n) (omega (arith, gap-lt m a b ha hb)),
    gap-cases m ((a + n) % m) b (step-lt m a n ha) hb,
  )

  -- The places behind `b` and before `a`, less one.
  pub gap_rest : (gap m b a + m - 1) % m ≡ m - 1 - gap m a b
  gap_rest = omega (
    arith,
    gap-cases m a b ha hb,
    gap-cases m b a hb ha,
    mod-cases m (gap m b a + m - 1) (omega (arith, gap-lt m b a hb ha)),
  )

pub gap_sub : (m a b : ℕ) {x : ℕ} → x ≡ (b + m - a) % m → x ≡ gap m a b
unfolding gap
gap_sub m a b e = e
