-- ===== src/Register/Tests.antt =====
-- A register with an initial token, and its writers and readers.
use systemoc_syste_mo_c.Common.{
  ℕ, ◌≡◌, refl, false, true, Option, none, some, List, [], ◌∷◌, ◌++◌, ◌>>=◌, arith,
}
use systemoc_syste_mo_c.Fifo.Store.{put}
use systemoc_syste_mo_c.Register.Chan.{
  RegisterInit, RegisterChan, new_init, add, new, put_first, start_of_simulation, is_valid,
  get_on_demand,
}
use systemoc_syste_mo_c.Register.Ports.{
  write, read, write_at, read_at, comm_exec, comm_start, comm_finish, exec, run, token_is_valid,
}
use systemoc_syste_mo_c.Register.Values.{new-read_at, run-reads_written}

abbrev with_seven : RegisterInit ℕ
with_seven = record { chan = false; marking = 7 ∷ [] }

add_seven : add 7 new_init ≡ some with_seven
unfolding add new_init
add_seven = refl

-- A second initial token is refused.
add_eight : add 8 with_seven ≡ none
unfolding add
add_eight = refl

-- Before the simulation starts the initial token is there.
seven_there : (do c ← new with_seven; token_is_valid 0 c) ≡ some true
unfolding new token_is_valid is_valid put_first put
seven_there = refl

new-read_at_example :
    (do c ← new with_seven; (t, d) ← read_at (some 0) 0 (start_of_simulation c); some t) ≡ some 0
new-read_at_example = new-read_at (some 0) with_seven (omega arith)

abbrev holds_four : RegisterChan ℕ
holds_four = record { token_id = 0; actual_value = some 4 }

run-reads_written_example :
    ◌≡◌ {A = Option (List ℕ × RegisterChan ℕ)}
      (run none holds_four (read 0 ∷ write 0 5 ∷ read 1 ∷ read 0 ∷ []))
      (do
        (got, d) ← run none holds_four (read 0 ∷ [])
        some (got ++ 5 ∷ 5 ∷ [], record d { actual_value = some 5 }))
run-reads_written_example = run-reads_written none (read 0 ∷ []) 0 5 (1 ∷ 0 ∷ []) holds_four

four_then_five :
    run none holds_four (read 0 ∷ write 0 5 ∷ read 1 ∷ [])
    ≡ some (4 ∷ 5 ∷ [], record { token_id = 0; actual_value = some 5 })
unfolding run exec write_at read_at put get_on_demand comm_exec comm_start comm_finish
four_then_five = refl
