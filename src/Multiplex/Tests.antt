-- ===== src/Multiplex/Tests.antt =====
-- The theorems at a channel of four places with an area out of order of two, and runs of `doReset`.
use systemoc_syste_mo_c.Common.{
  ℕ, zero, suc, ◌+◌, ◌<◌, ◌≡◌, refl, Bool, true, false, none, some, List, [], ◌∷◌, ◌++◌, arith,
  subst, get_elem?,
}
use systemoc_syste_mo_c.Modulo.{plain_group, plain_group-IsModulo}
use systemoc_syste_mo_c.Event.{plain_event, plain_event-IsEvent}
use systemoc_syste_mo_c.Modulo.Wrap.{gap}
use systemoc_syste_mo_c.Fifo.Contents.{Holds}
use systemoc_syste_mo_c.Multiplex.Chan.{ColorAccessor, MultiplexChan, VOutlet, find_outlet}
use systemoc_syste_mo_c.Multiplex.Consume.{
  do_reset, consume, read_consume_event_expired, latency_expired,
}
use systemoc_syste_mo_c.Multiplex.Ports.{
  read_at, v_entry_comm_exec, v_outlet_comm_exec, v_outlet_comm_start, outlet_comm_finish,
  v_entry_comm_start, entry_comm_finish,
}
use systemoc_syste_mo_c.EventMap.{increased_count, decreased_count, reset}
use systemoc_syste_mo_c.Queue.Rw.{depth_count}
use systemoc_syste_mo_c.Fifo.Chan.{place as initial_place}
use systemoc_syste_mo_c.Multiplex.Colors.{color_count, of_color, remove}
use systemoc_syste_mo_c.Multiplex.Outlets.{Known, IsCounted, IsTuned}
use systemoc_syste_mo_c.Multiplex.Shared.{IsShared, window}
use systemoc_syste_mo_c.Multiplex.Exec.{IsAccessor, Ends, v_outlet-Ends}
use systemoc_syste_mo_c.Multiplex.Entries.{v_entry-Ends}
use systemoc_syste_mo_c.Multiplex.Reads.{read_at-of_color}
use systemoc_syste_mo_c.Multiplex.Queues.{Call, take_from, put_to, call, run, list_run, spec_run}
use systemoc_syste_mo_c.Multiplex.Refine.{Shares, run-Shares, run-Queues}
use systemoc_syste_mo_c.Multiplex.Reset.{
  HasKeys, ResetsAll, do_reset-ResetsAll, do_reset-IsShared, do_reset-beyond,
}
use systemoc_syste_mo_c.EventMap.Order.{Ascending}
use systemoc_syste_mo_c.Fifo.Store
use systemoc_syste_mo_c.Fifo.Written.{write_all}
use systemoc_syste_mo_c.Fifo.Commit.{Behind}
use systemoc_syste_mo_c.Fifo.Segment.{place}

-- A token is a colour and a value.
abbrev pair : ColorAccessor (ℕ × ℕ)
pair = record { get_color = λ t. t.0; put_color = λ t c. (c, t.1) }

abbrev outlet : ℕ → VOutlet Bool
outlet n = record { count_available = n; emm = [] }

abbrev tokens : List (ℕ × ℕ)
tokens = (1, 10) ∷ (2, 20) ∷ (1, 30) ∷ []

-- Three tokens, of which two are in the area out of order.
abbrev chan : MultiplexChan Bool (ℕ × ℕ)
chan = record {
  queue = record {
    ptr = record { fsize = 5; rindex = 4; windex = 2 };
    storage = some (2, 20) ∷ some (1, 30) ∷ none ∷ none ∷ some (1, 10) ∷ [];
  };
  v_outlets = (1, outlet 1) ∷ (2, outlet 1) ∷ [];
  fifo_out_of_order = 1;
  emm_free = (1, true) ∷ (2, false) ∷ [];
  emm_available = [];
  initial_tokens = tokens;
}

chan-Holds : Holds chan.queue tokens
unfolding gap
chan-Holds = record {
  valid = record { rindex_in = omega arith; windex_in = omega arith; fsize_fits = omega arith };
  room = refl;
  count = refl;
  tokens = each;
}
  where
    each : (k : ℕ) → k < 3 → place chan.storage 5 4 k ≡ get_elem? tokens k
    each zero h = refl
    each (suc zero) h = refl
    each (suc (suc zero)) h = refl
    each (suc (suc (suc k))) h = absurd (omega arith)

tuned : (o : VOutlet Bool) → some (outlet 1) ≡ some o → IsTuned plain_event 1 o
tuned o e =
    let same : outlet 1 ≡ o = cc in
    let t : IsTuned plain_event 1 (outlet 1) = record { count = refl; order = tt; synced = tt } in
    subst (IsTuned plain_event 1) same t

chan-IsCounted :
    IsCounted plain_event chan.v_outlets
      (λ d. color_count pair d (window plain_event pair chan tokens))
unfolding find_outlet color_count
chan-IsCounted zero o e = cc
chan-IsCounted (suc zero) o e = tuned o e
chan-IsCounted (suc (suc zero)) o e = tuned o e
chan-IsCounted (suc (suc (suc n))) o e = absurd (ground arith)

first_found : Known 1 chan.v_outlets
unfolding find_outlet
first_found = (outlet 1, refl)

second_found : Known 2 chan.v_outlets
unfolding find_outlet
second_found = (outlet 1, refl)

chan-IsShared : IsShared plain_event pair chan tokens
chan-IsShared = record {
  holds = chan-Holds;
  deep = omega arith;
  counted = chan-IsCounted;
  known = (first_found, (second_found, (first_found, tt)));
  free_order = omega arith;
  free_synced = (refl, (refl, tt));
}

pair-IsAccessor : IsAccessor pair
pair-IsAccessor t c = refl

v_outlet-Ends_example :
    Ends plain_event pair chan
      (v_outlet_comm_exec pair plain_event plain_group 2 1 chan)
      1
      (color_count pair 2 (window plain_event pair chan tokens))
      (remove pair 2 1 tokens)
v_outlet-Ends_example =
    v_outlet-Ends plain_event-IsEvent plain_group-IsModulo pair chan tokens chan-IsShared 2 1
      second_found

-- The writer of 2 has put one token, whose colour is not yet set.
abbrev put_one : MultiplexChan Bool (ℕ × ℕ)
put_one = record chan {
  queue = record (chan.queue) {
    storage = some (2, 20) ∷ some (1, 30) ∷ some (0, 40) ∷ none ∷ some (1, 10) ∷ [];
  };
}

put_one-Behind : Behind chan.queue tokens ((0, 40) ∷ []) put_one.storage
put_one-Behind = record { room = refl; kept = old; new = next }
  where
    old : (k : ℕ) → k < 3 → place put_one.storage 5 4 k ≡ get_elem? tokens k
    old zero h = refl
    old (suc zero) h = refl
    old (suc (suc zero)) h = refl
    old (suc (suc (suc k))) h = absurd (omega arith)

    next : (i : ℕ) → i < 1 → place put_one.storage 5 4 (3 + i) ≡ get_elem? ((0, 40) ∷ []) i
    next zero h = refl
    next (suc i) h = absurd (omega arith)

v_entry-Ends_example :
    Ends plain_event pair chan
      (v_entry_comm_exec pair plain_event plain_group 2 1 put_one)
      1
      1
      (tokens ++ (2, 40) ∷ [])
v_entry-Ends_example =
    v_entry-Ends plain_event-IsEvent plain_group-IsModulo pair chan tokens ((0, 40) ∷ [])
      put_one.storage 2 chan-IsShared (λ le. put_one-Behind) pair-IsAccessor second_found

read_at-of_color_example : read_at pair 1 chan 1 ≡ get_elem? (of_color pair 1 tokens) 1
read_at-of_color_example =
    read_at-of_color pair 1 chan tokens 1 chan-Holds (unfold color_count in omega arith)

-- The readers of 2 and 1 take a token each, and the writer of 2 puts one.
abbrev calls : List (Call (ℕ × ℕ))
calls = take_from 2 1 ∷ put_to 2 ((0, 50) ∷ []) ∷ take_from 1 1 ∷ []

run-Shares_example :
    Shares plain_event pair chan
      (run pair plain_event plain_group calls chan)
      (list_run pair 5 1 calls tokens)
run-Shares_example =
    run-Shares plain_event-IsEvent plain_group-IsModulo pair pair-IsAccessor calls chan tokens
      chan-IsShared (second_found, (second_found, (first_found, tt)))

abbrev after_calls : MultiplexChan Bool (ℕ × ℕ)
after_calls = record chan {
  queue = record {
    ptr = record { fsize = 5; rindex = 1; windex = 3 };
    storage = none ∷ some (1, 30) ∷ some (2, 50) ∷ none ∷ none ∷ [];
  };
  emm_free = (1, true) ∷ (2, true) ∷ [];
}

calls-run : run pair plain_event plain_group calls chan ≡ some after_calls
unfolding run call write_all Store.write_at v_entry_comm_exec v_outlet_comm_exec v_outlet_comm_start
    consume Store.rpp outlet_comm_finish v_entry_comm_start read_consume_event_expired Store.wpp
    entry_comm_finish latency_expired decreased_count increased_count
calls-run = refl

run-Queues_example :
    (us : List (ℕ × ℕ)) × IsShared plain_event pair after_calls us
    × ((e : ℕ) → of_color pair e us ≡ spec_run pair calls (λ b. of_color pair b tokens) e)
run-Queues_example =
    run-Queues plain_event-IsEvent plain_group-IsModulo pair pair-IsAccessor calls chan after_calls
      tokens chan-IsShared (second_found, (second_found, (first_found, tt))) calls-run

abbrev reset_chan : MultiplexChan Bool (ℕ × ℕ)
reset_chan = record {
  queue = record {
    ptr = record { fsize = 5; rindex = 0; windex = 3 };
    storage = some (1, 10) ∷ some (2, 20) ∷ some (1, 30) ∷ none ∷ none ∷ [];
  };
  v_outlets = (1, outlet 2) ∷ (2, outlet 1) ∷ [];
  fifo_out_of_order = 1;
  emm_free = (1, true) ∷ (2, false) ∷ [];
  emm_available = [];
  initial_tokens = tokens;
}

chan-reset : do_reset pair plain_event plain_group chan ≡ some reset_chan
unfolding do_reset Store.reset_queue Store.wpp increased_count depth_count initial_place reset
chan-reset = refl

chan-HasKeys : HasKeys plain_event-IsEvent chan.v_outlets
unfolding find_outlet
chan-HasKeys zero o e = cc
chan-HasKeys (suc zero) o e = let same : outlet 1 ≡ o = cc in subst (λ p. Ascending 1 p.emm) same tt
chan-HasKeys (suc (suc zero)) o e =
    let same : outlet 1 ≡ o = cc in subst (λ p. Ascending 1 p.emm) same tt
chan-HasKeys (suc (suc (suc n))) o e = absurd (ground arith)

do_reset-ResetsAll_example :
    ResetsAll plain_event-IsEvent pair plain_group-IsModulo chan
      (do_reset pair plain_event plain_group chan)
do_reset-ResetsAll_example =
    do_reset-ResetsAll plain_event-IsEvent pair plain_group-IsModulo chan chan-Holds.valid refl
      (omega arith) chan-HasKeys refl (first_found, (second_found, (first_found, tt)))

-- The token (1, 30) stands behind the area, where the outlet of 1 counts two tokens instead of one.
do_reset-beyond_example : color_count pair 1 (window plain_event pair reset_chan tokens) < 2
do_reset-beyond_example =
    do_reset-beyond plain_event-IsEvent pair plain_group-IsModulo chan chan-Holds.valid refl
      (omega arith) chan-HasKeys refl (first_found, (second_found, (first_found, tt))) reset_chan
      chan-reset 2 (1, 30) (outlet 2) refl (omega arith) (unfold find_outlet in refl)

-- The same with all tokens in the area.
abbrev wide : MultiplexChan Bool (ℕ × ℕ)
wide = record chan { fifo_out_of_order = 2 }

wide-reset :
    do_reset pair plain_event plain_group wide ≡ some (record reset_chan { fifo_out_of_order = 2 })
unfolding do_reset Store.reset_queue Store.wpp increased_count depth_count initial_place reset
wide-reset = refl

do_reset-IsShared_example :
    IsShared plain_event pair (record reset_chan { fifo_out_of_order = 2 }) tokens
do_reset-IsShared_example =
    do_reset-IsShared plain_event-IsEvent pair plain_group-IsModulo wide chan-Holds.valid refl
      (omega arith) chan-HasKeys refl (first_found, (second_found, (first_found, tt)))
      (record reset_chan { fifo_out_of_order = 2 }) wide-reset (omega arith) (omega arith)
