-- ===== src/Queue/Areas.antt =====
-- What the four pointers promise: the sizes of the areas of a buffer that holds `depth` tokens. A
-- token goes from free to pipeline, to visible, to consuming, and back to free.
use systemoc_syste_mo_c.Common.{ℕ, ◌+◌, ◌-◌, Option, some, ◌>>=◌, ◌>>◌, check, leb, List, [], ◌∷◌}

pub record Areas : Type 0 where
  pub depth : ℕ
  pub consuming : ℕ
  pub visible : ℕ
  pub pipeline : ℕ

abbrev pub free : Areas → ℕ
free a = a.depth - (a.consuming + a.visible + a.pipeline)

pub data Op : Type 0 where
  write publish read release drop skip : ℕ → Op
  clear : Op

-- Each step moves `n` tokens from one area to the next, and is refused where the area has fewer.
-- A drop takes tokens of the pipeline straight back to the free area, and a skip visible ones.
abbrev pub step : Areas → Op → Option Areas
step a (write n) = do check (leb n (free a)); some (record a { pipeline = a.pipeline + n })
step a (publish n) = do
  check (leb n a.pipeline)
  some (record a { pipeline = a.pipeline - n; visible = a.visible + n })
step a (read n) = do
  check (leb n a.visible)
  some (record a { visible = a.visible - n; consuming = a.consuming + n })
step a (release n) = do check (leb n a.consuming); some (record a { consuming = a.consuming - n })
step a (drop n) = do check (leb n a.pipeline); some (record a { pipeline = a.pipeline - n })
step a (skip n) = do check (leb n a.visible); some (record a { visible = a.visible - n })
step a clear = some (record a { consuming = 0; visible = 0; pipeline = 0 })

unfoldable pub run : Areas → List Op → Option Areas
run a [] = some a
run a (o ∷ os) = do b ← step a o; run b os
