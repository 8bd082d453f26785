-- ===== src/Fifo/Tests.antt =====
-- A channel for two tokens whose pointers have gone round, with its events.
use systemoc_syste_mo_c.Common.{
  ℕ, ◌<◌, ◌≡◌, refl, Bool, true, false, none, some, List, [], ◌∷◌, arith, zero, suc, get_elem?,
}
use systemoc_syste_mo_c.Modulo.{plain_group, plain_group-IsModulo}
use systemoc_syste_mo_c.Modulo.Wrap.{gap}
use systemoc_syste_mo_c.Event.{plain_event, plain_event-IsEvent}
use systemoc_syste_mo_c.Fifo.Store
use systemoc_syste_mo_c.Fifo.Chan.{FifoChan, do_reset, latency_expired, read_consume_event_expired}
use systemoc_syste_mo_c.Fifo.Entry
use systemoc_syste_mo_c.Fifo.Outlet
use systemoc_syste_mo_c.Fifo.Contents.{Holds}
use systemoc_syste_mo_c.Fifo.Segment
use systemoc_syste_mo_c.Fifo.Written.{write_all}
use systemoc_syste_mo_c.Fifo.Exec.{IsReady, Ends, entry-Ends, outlet-Ends}
use systemoc_syste_mo_c.Fifo.Reset.{Resets, do_reset-Resets}
use systemoc_syste_mo_c.Fifo.Refine.{Op, put, get, run, spec_run, run-spec, reads}

abbrev chan : FifoChan Bool ℕ
chan = record {
  queue = record {
    ptr = record { fsize = 3; rindex = 2; windex = 0 };
    storage = none ∷ none ∷ some 7 ∷ [];
  };
  emm_data = (1, true) ∷ (2, false) ∷ [];
  emm_space = (1, true) ∷ (2, false) ∷ [];
  token_id = 5;
  initial_tokens = 4 ∷ 3 ∷ [];
}

chan-Holds : Holds chan.queue (7 ∷ [])
unfolding gap
chan-Holds = record { valid = omega arith; room = refl; count = refl; tokens = first }
  where
    first : (k : ℕ) → k < 1 → Segment.place chan.storage 3 2 k ≡ get_elem? (7 ∷ []) k
    first zero h = refl
    first (suc k) h = absurd (omega arith)

chan-IsReady : IsReady plain_event chan (7 ∷ [])
chan-IsReady = record {
  holds = chan-Holds;
  data_order = omega arith;
  space_order = omega arith;
  data_synced = (refl, (refl, tt));
  space_synced = (refl, (refl, tt));
}

abbrev script : List (Op ℕ)
script = put (8 ∷ []) ∷ get 2 ∷ put (9 ∷ 1 ∷ []) ∷ get 1 ∷ []

script_runs : run plain_group plain_event chan script ≡ some (some 7 ∷ some 8 ∷ some 9 ∷ [])
unfolding run Entry.comm_exec Entry.comm_start Entry.comm_finish Outlet.comm_exec Outlet.comm_start
    Outlet.comm_finish write_all Store.write_at Store.read_at Store.wpp Store.rpp reads
    latency_expired read_consume_event_expired
script_runs = refl

run-spec_example : run plain_group plain_event chan script ≡ spec_run 2 (7 ∷ []) script
run-spec_example =
    run-spec plain_group-IsModulo plain_event-IsEvent script chan (7 ∷ []) chan-IsReady

entry-Ends_example :
    Ends plain_event chan
      (Entry.comm_exec plain_group plain_event 1
        (record chan { queue = write_all chan.queue 0 (8 ∷ []) }))
      1
      1
      (7 ∷ 8 ∷ [])
entry-Ends_example =
    entry-Ends plain_group-IsModulo plain_event-IsEvent chan (7 ∷ []) chan-IsReady (8 ∷ [])

outlet-Ends_example : Ends plain_event chan (Outlet.comm_exec plain_group plain_event 1 chan) 1 1 []
outlet-Ends_example =
    outlet-Ends plain_group-IsModulo plain_event-IsEvent chan (7 ∷ []) chan-IsReady 1

do_reset-Resets_example : Resets plain_event chan (do_reset plain_group plain_event chan)
do_reset-Resets_example =
    do_reset-Resets plain_group-IsModulo plain_event-IsEvent chan (omega arith) refl (omega arith)
      (omega arith)
