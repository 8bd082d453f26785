-- ===== src/Multiplex/Chan.antt =====
-- The state of a multiplex FIFO and of the outlets of its virtual FIFOs.
use systemoc_syste_mo_c.Common.{
  ℕ, ◌+◌, ◌-◌, ◌%◌, Bool, true, false, Option, none, some, List, [], ◌∷◌, ◌>>=◌, ◌>>◌, check, ltb,
  leb, ◌==◌, if◌then◌else◌,
}
use systemoc_syste_mo_c.Event.{EventOps}
use systemoc_syste_mo_c.EventMap
use systemoc_syste_mo_c.EventMap.{EventMap}
use systemoc_syste_mo_c.Queue.Rw
use systemoc_syste_mo_c.Queue.Rw.{size_mod}
use systemoc_syste_mo_c.Fifo.Store
use systemoc_syste_mo_c.Fifo.Store.{QueueWithStorage, Storage, put, get}

-- The template parameter `A` of the channel: the colour of a token, by which it belongs to a virtual
-- FIFO. The user of the library gives it.
pub record ColorAccessor (A : Type 0) : Type 0 where
  pub get_color : A → ℕ
  pub put_color : A → ℕ → A

-- The fields of smoc_multiplex_vfifo_outlet, less its id.
pub record VOutlet (E : Type 0) : Type 0 where
  pub count_available : ℕ
  pub emm : EventMap E

abbrev pub VOutletMap : Type 0 → Type 0
VOutletMap E = List (ℕ × VOutlet E)

pub record MultiplexChan (E : Type 0) (A : Type 0) : Type 0 where
  pub queue : QueueWithStorage A
  pub open queue use *
  pub v_outlets : VOutletMap E
  pub fifo_out_of_order : ℕ
  pub emm_free : EventMap E
  pub emm_available : EventMap E
  pub initial_tokens : List A

module _ {E : Type 0} where
  -- `vOutlets.find(fifoId)`
  unfoldable pub find_outlet : ℕ → VOutletMap E → Option (VOutlet E)
  find_outlet c [] = none
  find_outlet c ((d, o) ∷ os) = if d == c then some o else find_outlet c os

  -- A method of the outlet that is found; the caller asserts that there is one.
  unfoldable pub at_outlet : ℕ → (VOutlet E → VOutlet E) → VOutletMap E → Option (VOutletMap E)
  at_outlet c f [] = none
  at_outlet c f ((d, o) ∷ os) =
      let rest = at_outlet c f os in
      if d == c then some ((d, f o) ∷ os) else (do os' ← rest; some ((d, o) ∷ os'))

  -- `vOutlets.empty()`
  abbrev pub is_empty : VOutletMap E → Bool
  is_empty [] = true
  is_empty (o ∷ os) = false

  -- `registerVOutlet`, on a new outlet, in the order of the ids.
  unfoldable pub register_v_outlet : ℕ → VOutletMap E → Option (VOutletMap E)
  register_v_outlet c [] = some ((c, record { count_available = 0; emm = [] }) ∷ [])
  register_v_outlet c ((d, o) ∷ os) =
      let rest = register_v_outlet c os in
      if ltb c d
      then some ((c, record { count_available = 0; emm = [] }) ∷ (d, o) ∷ os)
      else if d == c
      then none
      else (do os' ← rest; some ((d, o) ∷ os'))

  unfoldable pub deregister_v_outlet : ℕ → VOutletMap E → VOutletMap E
  deregister_v_outlet c [] = []
  deregister_v_outlet c ((d, o) ∷ os) =
      let rest = deregister_v_outlet c os in if d == c then os else (d, o) ∷ rest

module _ {E : Type 0} (ev : EventOps E) where
  -- `smoc_multiplex_vfifo_outlet::moreData`
  unfoldable pub more_data : ℕ → VOutlet E → VOutlet E
  more_data n o =
      let c = (o.count_available + n) % size_mod in
      record { count_available = c; emm = EventMap.increased_count ev c o.emm }

  -- What its `commStart` does to its own fields, once its assertion has passed.
  unfoldable pub less_data : ℕ → VOutlet E → VOutlet E
  less_data n o =
      let c = o.count_available - n in
      record { count_available = c; emm = EventMap.decreased_count ev c o.emm }

  -- `smoc_multiplex_vfifo_outlet::reset`, of every outlet.
  unfoldable pub reset_outlets : VOutletMap E → VOutletMap E
  reset_outlets [] = []
  reset_outlets ((d, o) ∷ os) =
      (d, record { count_available = 0; emm = EventMap.reset ev o.emm }) ∷ reset_outlets os

module _ {E A : Type 0} where
  -- The constructor, for `n` tokens and `m` places out of order.
  unfoldable pub new : ℕ → ℕ → List A → Option (MultiplexChan E A)
  unfolding Store.new
  new n m marking = do
    let q = Store.new n
    check (leb ((m + 1) % size_mod) (Rw.depth_count q.ptr))
    some (record {
      queue = q;
      v_outlets = [];
      fifo_out_of_order = m;
      emm_free = [];
      emm_available = [];
      initial_tokens = marking;
    })
