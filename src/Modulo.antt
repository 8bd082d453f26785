-- ===== src/Modulo.antt =====
-- `CoSupport::Math::ModuloGroup` over `Modulus<size_t>`, which headers/smoc/detail/QueueRWPtr.hpp
-- names MG: a library that the repository does not hold, so its operations are a parameter.
pub mod Wrap
pub mod Arc
pub mod Chain
pub mod Moves
use systemoc_syste_mo_c.Common.{
  ℕ, ◌+◌, ◌-◌, ◌%◌, ◌≤◌, ◌<◌, ◌≡◌, refl, Bool, ◌&&◌, ◌||◌, leb, if◌then◌else◌,
}

-- The values (`getValue()`) of `MG(a, m) + b`, of `MG(a, m) - b`, and of `MG(v, m).between(lo, hi)`.
pub record ModuloGroup : Type 0 where
  pub add : ℕ → ℕ → ℕ → ℕ
  pub sub : ℕ → ℕ → ℕ → ℕ
  pub between : ℕ → ℕ → ℕ → ℕ → Bool

-- The test that the comments in `QueueRVWPtr::vpp` and `QueueFRVWPtr::fpp` spell out.
abbrev pub in_arc : ℕ → ℕ → ℕ → Bool
in_arc v lo hi = if leb lo hi then leb lo v && leb v hi else leb lo v || leb v hi

-- What the callers rely on: arithmetic modulo `m`, and the test above.
pub record IsModulo (g : ModuloGroup) : Type 0 where
  pub add_mod : (m a b : ℕ) → a < m → g.add m a b ≡ (a + b) % m
  pub sub_mod : (m a b : ℕ) → a < m → b ≤ m → g.sub m a b ≡ (a + m - b) % m
  pub between_arc : (m v lo hi : ℕ) → v < m → lo < m → hi < m → g.between m v lo hi ≡ in_arc v lo hi

-- A group that meets them.
abbrev pub plain_group : ModuloGroup
plain_group = record {
  add = λ m a b. (a + b) % m;
  sub = λ m a b. (a + m - b) % m;
  between = λ m v lo hi. in_arc v lo hi;
}

pub plain_group-IsModulo : IsModulo plain_group
plain_group-IsModulo = record {
  add_mod = λ m a b h. refl;
  sub_mod = λ m a b h k. refl;
  between_arc = λ m v lo hi h k l. refl;
}
