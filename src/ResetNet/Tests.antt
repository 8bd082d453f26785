-- ===== src/ResetNet/Tests.antt =====
-- A reset channel with two of three FIFOs and a node.
use systemoc_syste_mo_c.Common.{
  ℕ, ◌≡◌, refl, Bool, true, false, none, some, List, [], ◌∷◌, arith, All,
}
use systemoc_syste_mo_c.Modulo.{plain_group, plain_group-IsModulo}
use systemoc_syste_mo_c.Event.{plain_event, plain_event-IsEvent}
use systemoc_syste_mo_c.Fifo.Chan.{FifoChan}
use systemoc_syste_mo_c.Node.Base.{enabled, World}
use systemoc_syste_mo_c.ResetNet.Chan.{ResetChan, Sim, member, connect_chan, reset_chans}
use systemoc_syste_mo_c.ResetNet.Order.{Distinct}
use systemoc_syste_mo_c.ResetNet.Fifos.{
  AnyChan, fifo, multireader_fifo, reset_any, IsSound, IsSoundAny, EachFresh, reset_chans-EachFresh,
}

abbrev net : ResetChan Bool
net = record { token_id = 1; sae = true; dae = false; chans = 0 ∷ 2 ∷ []; nodes = [] }

net-Distinct : Distinct net.chans
unfolding Distinct member
net-Distinct = (refl, (refl, tt))

-- A FIFO of one place that holds the token `t`, and has the initial token 4.
abbrev chan_with : ℕ → FifoChan Bool ℕ
chan_with t = record {
  queue = record {
    ptr = record { fsize = 2; rindex = 0; windex = 1 };
    storage = some t ∷ none ∷ [];
  };
  emm_data = (1, true) ∷ [];
  emm_space = (1, false) ∷ [];
  token_id = 3;
  initial_tokens = 4 ∷ [];
}

chan_with-IsSound : (t : ℕ) → IsSound (chan_with t)
chan_with-IsSound t = record {
  valid = omega arith;
  room = refl;
  data_order = omega arith;
  space_order = omega arith;
  fits = omega arith;
}

abbrev three : List (AnyChan Bool ℕ)
three = fifo (chan_with 7) ∷ fifo (chan_with 8) ∷ multireader_fifo (chan_with 9) ∷ []

three-IsSound : All IsSoundAny three
three-IsSound = (chan_with-IsSound 7, (chan_with-IsSound 8, (chan_with-IsSound 9, tt)))

-- Everything is active and enabled.
abbrev world : World (Sim (AnyChan Bool ℕ) ℕ)
world = record {
  is_active = λ e w. true;
  guard = λ t w. enabled;
  state_at = λ i. record { id = i; am = []; transitions = [] };
}

reset_chans-EachFresh_example :
    (ds : List (AnyChan Bool ℕ)) × (reset_chans
        (reset_any plain_group plain_event)
        world
        (0 ∷ 2 ∷ [])
        three
      ≡ some ds)
    × EachFresh plain_event (0 ∷ 2 ∷ []) 0 three ds
reset_chans-EachFresh_example =
    reset_chans-EachFresh plain_group-IsModulo plain_event-IsEvent world (0 ∷ 2 ∷ []) three
      net-Distinct (omega arith, (omega arith, tt)) three-IsSound

connect_second : connect_chan 1 net ≡ some (record net { chans = 0 ∷ 1 ∷ 2 ∷ [] })
unfolding connect_chan
connect_second = refl

connect_again : connect_chan 2 net ≡ none
unfolding connect_chan
connect_again = refl
