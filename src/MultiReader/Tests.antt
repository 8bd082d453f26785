-- ===== src/MultiReader/Tests.antt =====
-- A channel for two tokens with two readers and a writer, after its pointers have gone round.
use systemoc_syste_mo_c.Common.{
  ℕ, ◌-◌, ◌<◌, ◌≡◌, refl, Bool, true, false, none, some, List, [], ◌∷◌, arith, zero, suc, get_elem?,
}
use systemoc_syste_mo_c.Modulo.{plain_group, plain_group-IsModulo}
use systemoc_syste_mo_c.Modulo.Wrap.{gap}
use systemoc_syste_mo_c.Event.{plain_event, plain_event-IsEvent}
use systemoc_syste_mo_c.Queue.Rw
use systemoc_syste_mo_c.Fifo.Store
use systemoc_syste_mo_c.Fifo.Contents.{Holds}
use systemoc_syste_mo_c.Fifo.Segment
use systemoc_syste_mo_c.Fifo.Written.{write_all}
use systemoc_syste_mo_c.Fifo.Exec.{IsReady, Ends}
use systemoc_syste_mo_c.Fifo.Refine.{reads}
use systemoc_syste_mo_c.MultiReader.Chan.{
  MultiReaderChan, consume, produce, latency_expired, read_consume_event_expired, less_space,
  more_space, more_data, in_token_id,
}
use systemoc_syste_mo_c.MultiReader.Ports.{
  outlet_comm_exec, outlet_comm_start, outlet_comm_finish, entry_comm_exec, entry_comm_start,
  entry_comm_finish,
}
use systemoc_syste_mo_c.MultiReader.Exec.{Renotifies, outlet-Renotifies}
use systemoc_syste_mo_c.MultiReader.Ids.{Ids, run-Ids}
use systemoc_syste_mo_c.Queue.Rw.{size_mod}
use systemoc_syste_mo_c.MultiReader.Refine.{
  Op, put, get, exec, run, written, spec, spec_run, Delivered, run-Delivered,
}

abbrev shared : MultiReaderChan Bool ℕ
shared = record {
  queue = record {
    ptr = record { fsize = 3; rindex = 2; windex = 1 };
    storage = some 6 ∷ none ∷ some 5 ∷ [];
  };
  emm_data = (1, true) ∷ (2, true) ∷ [];
  emm_space = (1, false) ∷ [];
  token_id = 7;
  initial_tokens = 4 ∷ [];
}

shared-Holds : Holds shared.queue (5 ∷ 6 ∷ [])
unfolding gap
shared-Holds = record { valid = omega arith; room = refl; count = refl; tokens = place_at }
  where
    place_at : (k : ℕ) → k < 2 → Segment.place shared.storage 3 2 k ≡ get_elem? (5 ∷ 6 ∷ []) k
    place_at zero h = refl
    place_at (suc zero) h = refl
    place_at (suc (suc k)) h = absurd (omega arith)

shared-IsReady : IsReady plain_event shared (5 ∷ 6 ∷ [])
shared-IsReady = record {
  holds = shared-Holds;
  data_order = omega arith;
  space_order = omega arith;
  data_synced = (refl, (refl, tt));
  space_synced = (refl, tt);
}

-- Reader 0 takes a token, a writer puts one, reader 1 takes two.
abbrev script : List (Op ℕ)
script = get 0 1 ∷ put 0 (8 ∷ []) ∷ get 1 2 ∷ []

script_puts : written script ≡ 8 ∷ []
unfolding written
script_puts = refl

script_delivers : spec_run 2 (5 ∷ 6 ∷ []) script ≡ some ((0, 5) ∷ (1, 6) ∷ (1, 8) ∷ [], [])
unfolding spec_run spec
script_delivers = refl

-- Two tokens do not fit after the one that is left.
script_stops : run plain_group plain_event shared (get 0 1 ∷ put 0 (8 ∷ 9 ∷ []) ∷ []) ≡ none
unfolding run exec reads write_all Store.read_at Store.write_at Store.wpp Store.rpp entry_comm_exec
    entry_comm_start entry_comm_finish outlet_comm_exec outlet_comm_start outlet_comm_finish consume
    produce less_space more_space more_data latency_expired read_consume_event_expired
script_stops = refl

shared_next : in_token_id plain_group shared ≡ 5
unfolding in_token_id Rw.used_count
shared_next = refl

run-Delivered_example :
    Delivered plain_event shared
      (spec_run 2 (5 ∷ 6 ∷ []) script)
      (5 ∷ 6 ∷ written script)
      (run plain_group plain_event shared script)
run-Delivered_example =
    run-Delivered plain_group-IsModulo plain_event-IsEvent script shared (5 ∷ 6 ∷ []) shared-IsReady

outlet-Renotifies_example :
    Ends plain_event shared (outlet_comm_exec plain_group plain_event 1 shared) 1 2 (6 ∷ [])
    × Renotifies plain_event shared (outlet_comm_exec plain_group plain_event 1 shared) 1
outlet-Renotifies_example =
    outlet-Renotifies plain_group-IsModulo plain_event-IsEvent shared (5 ∷ 6 ∷ []) shared-IsReady 1

-- The next token has the last id before the wrap-around.
abbrev late : MultiReaderChan Bool ℕ
late = record shared { token_id = size_mod - 1 }

late-IsReady : IsReady plain_event late (5 ∷ 6 ∷ [])
late-IsReady = record {
  holds = shared-Holds;
  data_order = omega arith;
  space_order = omega arith;
  data_synced = (refl, (refl, tt));
  space_synced = (refl, tt);
}

run-Ids_example : Ids plain_group late 1 (run plain_group plain_event late script)
unfolding written
run-Ids_example =
    run-Ids plain_group-IsModulo plain_event-IsEvent script late (5 ∷ 6 ∷ []) late-IsReady
      (omega arith)
