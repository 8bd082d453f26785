-- ===== src/Modulo/Arc.antt =====
-- The arc test of `between`, as an order between gaps.
use systemoc_syste_mo_c.Common.{ℕ, ◌≤◌, ◌<◌, ◌≡◌, true, arith}
use systemoc_syste_mo_c.Modulo.{in_arc}
use systemoc_syste_mo_c.Modulo.Wrap.{gap, gap-cases}

pub in_arc_of_le :
    (m v lo hi : ℕ) → v < m → lo < m → hi < m → gap m lo v ≤ gap m lo hi → in_arc v lo hi ≡ true
in_arc_of_le m v lo hi hv hl hh h = ground (arith, gap-cases m lo v hl hv, gap-cases m lo hi hl hh)
