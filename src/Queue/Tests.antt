-- ===== src/Queue/Tests.antt =====
-- The pointer classes on a buffer for three tokens whose pointers have gone round once.
use systemoc_syste_mo_c.Common.{◌≡◌, refl, some, none, List, [], ◌∷◌, arith}
use systemoc_syste_mo_c.Modulo.{plain_group, plain_group-IsModulo}
use systemoc_syste_mo_c.Modulo.Wrap.{gap}
use systemoc_syste_mo_c.Queue.Frvw
use systemoc_syste_mo_c.Queue.Frvw.{QueueFrvwPtr}
use systemoc_syste_mo_c.Queue.Areas
use systemoc_syste_mo_c.Queue.Areas.{Op, write, publish, read, release, skip, clear}
use systemoc_syste_mo_c.Queue.Ptrs.{IsValid, view, Agrees, drop_r_visible-beyond}
use systemoc_syste_mo_c.Queue.Refine
use systemoc_syste_mo_c.Queue.Refine.{AllFit, run-Agrees}

-- One token is being consumed, one is visible and one in the pipeline.
abbrev round_q : QueueFrvwPtr
round_q = record {
  rvw_ptr = record { rw_ptr = record { fsize = 4; rindex = 3; windex = 1 }; vindex = 0 };
  findex = 2;
}

abbrev script : List Op
script = release 1 ∷ write 1 ∷ publish 2 ∷ read 2 ∷ skip 1 ∷ []

round_q-IsValid : IsValid round_q
unfolding gap
round_q-IsValid = omega arith

script_runs :
    Refine.run plain_group round_q script
    ≡ some (record {
      rvw_ptr = record { rw_ptr = record { fsize = 4; rindex = 2; windex = 2 }; vindex = 2 };
      findex = 0;
    })
unfolding Refine.run Frvw.wpp Frvw.vpp Frvw.rpp Frvw.fpp Frvw.drop_r_visible
script_runs = refl

full_refuses : Frvw.wpp plain_group round_q 1 ≡ none
unfolding Frvw.wpp
full_refuses = refl

script_fits : AllFit (view round_q) script
unfolding AllFit gap
script_fits = (tt, (tt, (tt, (tt, (omega arith, tt)))))

run-Agrees_example :
    Agrees (Refine.run plain_group round_q script) (Areas.run (view round_q) script)
run-Agrees_example = run-Agrees plain_group-IsModulo script round_q round_q-IsValid script_fits

-- A visible token and one of the pipeline.
drop_r_visible-beyond_example :
    (p : QueueFrvwPtr) × (Frvw.drop_r_visible plain_group round_q 2 ≡ some p) × ¬ IsValid p
unfolding gap
drop_r_visible-beyond_example =
    drop_r_visible-beyond plain_group-IsModulo {q = round_q} 2 round_q-IsValid (omega arith)
      (omega arith)
