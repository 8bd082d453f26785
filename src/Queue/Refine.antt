-- ===== src/Queue/Refine.antt =====
-- A valid `QueueFRVWPtr` against the sizes of its areas, over every sequence of calls.
use systemoc_syste_mo_c.Common.{
  ℕ, ◌+◌, ◌-◌, ◌≤◌, ◌<◌, ◌≡◌, refl, sym, Option, none, some, List, [], ◌∷◌, arith, ◌>>=◌, subst,
}
use systemoc_syste_mo_c.Modulo.{ModuloGroup, IsModulo}
use systemoc_syste_mo_c.Modulo.Wrap.{gap_self}
use systemoc_syste_mo_c.Modulo.Chain.{sub-w-r, sub-v-r, sub-free}
use systemoc_syste_mo_c.Queue.Rw
use systemoc_syste_mo_c.Queue.Rw.{size_mod}
use systemoc_syste_mo_c.Queue.Rvw
use systemoc_syste_mo_c.Queue.Frvw
use systemoc_syste_mo_c.Queue.Frvw.{QueueFrvwPtr}
use systemoc_syste_mo_c.Queue.Areas
use systemoc_syste_mo_c.Queue.Areas.{
  Areas, free, Op, write, publish, read, release, drop, skip, clear, step,
}
use systemoc_syste_mo_c.Queue.Ptrs.{
  IsValid, view, Agrees, wpp-Agrees, vpp-Agrees, rpp-Agrees, fpp-Agrees, drop_r_invisible-Agrees,
  drop_r_visible-Agrees,
}

abbrev pub call : ModuloGroup → QueueFrvwPtr → Op → Option QueueFrvwPtr
call mg q (write n) = Frvw.wpp mg q n
call mg q (publish n) = Frvw.vpp mg q n
call mg q (read n) = Frvw.rpp mg q n
call mg q (release n) = Frvw.fpp mg q n
call mg q (drop n) = Frvw.drop_r_invisible mg q n
call mg q (skip n) = Frvw.drop_r_visible mg q n
call mg q clear = some (Frvw.reset_queue q)

unfoldable pub run : ModuloGroup → QueueFrvwPtr → List Op → Option QueueFrvwPtr
run mg q [] = some q
run mg q (o ∷ os) = do p ← call mg q o; run mg p os

-- `dropRVisible` is asked for visible tokens only.
abbrev pub Fits : Areas → Op → Type 0
Fits a (skip n) = n ≤ a.visible
Fits a (write n) = Unit {0}
Fits a (publish n) = Unit {0}
Fits a (read n) = Unit {0}
Fits a (release n) = Unit {0}
Fits a (drop n) = Unit {0}
Fits a clear = Unit {0}

-- So are all calls until one stops.
unfoldable pub AllFit : Areas → List Op → Type 0
AllFit a [] = Unit {0}
AllFit a (o ∷ os) = Fits a o × elim (step a o) [ none ↦ Unit {0} | some b ↦ AllFit b os ]

pub reset-IsValid :
    (q : QueueFrvwPtr)
    → 0 < q.fsize
    → IsValid (Frvw.reset_queue q)
      × (view (Frvw.reset_queue q)
          ≡ record { depth = q.fsize - 1; consuming = 0; visible = 0; pipeline = 0 })
unfolding Frvw.reset_queue
reset-IsValid q h = let e = gap_self q.fsize 0 h in ground (arith, e)

module _ {mg : ModuloGroup} (im : IsModulo mg) where
  -- Every method of `QueueFRVWPtr` that moves pointers, on a valid queue: an assertion stops
  -- it exactly where the area it takes from has fewer than `n` tokens (or free places, for `wpp`),
  -- and otherwise the queue stays valid and the tokens change areas as `Areas.step` says.
  pub call-Agrees :
      {q : QueueFrvwPtr} (o : Op)
      → IsValid q
      → Fits (view q) o
      → Agrees (call mg q o) (step (view q) o)
  call-Agrees (write n) c f = wpp-Agrees im n c
  call-Agrees (publish n) c f = vpp-Agrees im n c
  call-Agrees (read n) c f = rpp-Agrees im n c
  call-Agrees (release n) c f = fpp-Agrees im n c
  call-Agrees (drop n) c f = drop_r_invisible-Agrees im n c
  call-Agrees (skip n) c f = drop_r_visible-Agrees im n c f
  call-Agrees {q} clear c f = reset-IsValid q (omega (arith, c.f_in))

  -- What the three counts of a valid queue are: the visible tokens, all tokens not yet consumed, and
  -- the depth less the tokens in all areas.
  pub counts-view :
      {q : QueueFrvwPtr}
      → IsValid q
      → (Rvw.visible_count mg q.rvw_ptr ≡ (view q).visible)
        × (Rw.used_count mg q.rw_ptr ≡ (view q).visible + (view q).pipeline)
        × (Frvw.free_count mg q ≡ free (view q))
  unfolding Rvw.visible_count Rw.used_count Frvw.free_count
  counts-view c = (sub-v-r im c, sub-w-r im c, sub-free im c)

  run_step :
      (os : List Op) (p : Option QueueFrvwPtr) (b : Option Areas)
      → Agrees p b
      → (elim b as (λ o. Type 0) [ none ↦ Unit {0} | some a ↦ AllFit a os ])
      → ((q : QueueFrvwPtr)
          → IsValid q
          → AllFit (view q) os
          → Agrees (run mg q os) (Areas.run (view q) os))
      → Agrees (p >>= λ q. run mg q os) (b >>= λ a. Areas.run a os)
  run_step os none none h f rest = tt
  run_step os none (some a) h f rest = elim h [ ]
  run_step os (some q) none h f rest = elim h [ ]
  run_step os (some q) (some a) h f rest =
      subst (λ b. Agrees (run mg q os) (Areas.run b os)) h.1
        (rest q h.0 (subst (λ b. AllFit b os) (sym h.1) f))

  -- No sequence of calls of `wpp`, `vpp`, `rpp`, `fpp`, `dropRInvisible`, `dropRVisible` and `resetQueue`
  -- tells a valid `QueueFRVWPtr` from the sizes of its areas, as long as `dropRVisible` is not asked for
  -- more tokens than are visible: both stop at the same call, which is one that its area has too few
  -- tokens or places for, or end in states that agree.
  pub run-Agrees :
      (os : List Op) (q : QueueFrvwPtr)
      → IsValid q
      → AllFit (view q) os
      → Agrees (run mg q os) (Areas.run (view q) os)
  unfolding run Areas.run AllFit
  run-Agrees [] q c f = (c, refl)
  run-Agrees (o ∷ os) q c f =
      run_step os (call mg q o) (step (view q) o) (call-Agrees o c f.0) f.1 (run-Agrees os)

-- A new queue for `n` tokens is valid and empty.
pub new-IsValid :
    (n : ℕ)
    → n + 1 < size_mod
    → IsValid (Frvw.new n)
      × (view (Frvw.new n) ≡ record { depth = n; consuming = 0; visible = 0; pipeline = 0 })
unfolding Frvw.new
new-IsValid n h = let e = gap_self (n + 1) 0 (omega arith) in ground (arith, e)
