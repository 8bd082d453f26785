-- ===== src/ResetNet/Chan.antt =====
-- smoc_reset_chan with its ports, and `connect` of smoc_reset_net. A pointer is the place of its object
-- in the list of all channels or nodes.
use systemoc_syste_mo_c.Common.{
  ℕ, ◌+◌, ◌-◌, ◌%◌, Bool, true, false, not, Option, some, List, [], ◌∷◌, ◌>>=◌, ◌>>◌, check, ltb,
  ◌==◌, if◌then◌else◌, get_elem?, set,
}
use systemoc_syste_mo_c.Event.{EventOps}
use systemoc_syste_mo_c.Queue.Rw.{size_mod}
use systemoc_syste_mo_c.Node.Base
use systemoc_syste_mo_c.Node.Base.{NodeBase, State, World}

-- The pointers of `chans` and of `nodes` are `std::set`s, in the order of the addresses.
pub record ResetChan (E : Type 0) : Type 0 where
  pub token_id : ℕ
  pub sae : E
  pub dae : E
  pub chans : List ℕ
  pub nodes : List ℕ

-- A node, its own code for a reset, which changes variables of the user, and its initial state.
pub record NetNode (U : Type 0) : Type 0 where
  pub node : NodeBase
  pub user_reset : U → U
  pub initial_state : State

-- All channels and nodes, and the variables of the user.
pub record Sim (C U : Type 0) : Type 0 where
  pub all_chans : List C
  pub all_nodes : List (NetNode U)
  pub user : U

unfoldable pub member : ℕ → List ℕ → Bool
member i [] = false
member i (j ∷ js) = if j == i then true else member i js

-- `std::set::insert` of an element that is not there.
unfoldable pub insert : ℕ → List ℕ → List ℕ
insert i [] = i ∷ []
insert i (j ∷ js) = if ltb i j then i ∷ j ∷ js else j ∷ insert i js

module _ {E : Type 0} where
  -- `smoc_reset_net::connect` of a channel, and of a node.
  unfoldable pub connect_chan : ℕ → ResetChan E → Option (ResetChan E)
  unfolding member insert
  connect_chan i r = do check (not (member i r.chans)); some (record r { chans = insert i r.chans })

  unfoldable pub connect_node : ℕ → ResetChan E → Option (ResetChan E)
  unfolding member insert
  connect_node i r = do check (not (member i r.nodes)); some (record r { nodes = insert i r.nodes })

  unfoldable pub in_token_id : ResetChan E → ℕ
  in_token_id r = (r.token_id + size_mod - 1) % size_mod

  unfoldable pub out_token_id : ResetChan E → ℕ
  out_token_id r = r.token_id

  -- `sae` and `dae` are events as their default constructor makes them.
  unfoldable pub new : E → E → ResetChan E
  new sae dae = record { token_id = 1; sae = sae; dae = dae; chans = []; nodes = [] }

module _ {E : Type 0} (ev : EventOps E) where
  -- `smoc_reset_chan::doReset`, less `ChanBase::doReset`.
  unfoldable pub do_reset : ResetChan E → ResetChan E
  do_reset r = record r { sae = ev.notify r.sae }

-- `reset_chan` is the virtual `doReset` of a channel; `world` is what nodes read of everything.
module _ {C U : Type 0} (reset_chan : C → Option C) (world : World (Sim C U)) where
  -- The loop over `chans`: what it does to the channels. The events that a `doReset` notifies reach the
  -- listening nodes in between; what these do then is not part of it.
  unfoldable pub reset_chans : List ℕ → List C → Option (List C)
  reset_chans [] cs = some cs
  reset_chans (i ∷ js) cs = do c ← get_elem? cs i; d ← reset_chan c; reset_chans js (set cs i d)

  -- `doReset` of the node at `i`.
  unfoldable pub reset_node : ℕ → Sim C U → Option (Sim C U)
  reset_node i s = do
    n ← get_elem? s.all_nodes i
    (m, t) ←
        Base.do_reset world (λ w. record w { user = n.user_reset w.user }) n.initial_state n.node s
    some (record t { all_nodes = set t.all_nodes i (record n { node = m }) })

  -- The loop over `nodes`.
  unfoldable pub reset_nodes : List ℕ → Sim C U → Option (Sim C U)
  unfolding reset_node
  reset_nodes [] s = some s
  reset_nodes (i ∷ js) s = do t ← reset_node i s; reset_nodes js t

  module _ {E : Type 0} where
    unfoldable pub produce : ResetChan E → Sim C U → Option (ResetChan E × Sim C U)
    unfolding reset_chans reset_nodes
    produce r s = do
      cs ← reset_chans r.chans s.all_chans
      t ← reset_nodes r.nodes (record s { all_chans = cs })
      some (record r { token_id = (r.token_id + 1) % size_mod }, t)

    unfoldable pub entry_comm_start : ℕ → ResetChan E → Option (ResetChan E)
    entry_comm_start n r = do check (n == 1); some r

    unfoldable pub entry_comm_finish :
        ℕ → Bool → ResetChan E → Sim C U → Option (ResetChan E × Sim C U)
    entry_comm_finish n dropped r s = do check (n == 1); check (not dropped); produce r s

    unfoldable pub entry_comm_exec : ℕ → ResetChan E → Sim C U → Option (ResetChan E × Sim C U)
    unfolding entry_comm_start entry_comm_finish
    entry_comm_exec n r s = do q ← entry_comm_start n r; entry_comm_finish n false q s
