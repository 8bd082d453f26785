-- ===== src/Fsm/State.antt =====
-- cpp/detail/FSM/BaseStateImpl, StateImpl, FiringStateImpl, XORStateImpl, ANDStateImpl,
-- MultiStateImpl and JunctionStateImpl: the states as the user builds them. A pointer to a state is
-- the number of its object, `id`; the tree holds the states below a state.
use systemoc_syste_mo_c.Common.{
  ℕ, suc, ◌-◌, ◌^◌, ◌/◌, Bool, true, false, Option, none, some, List, [], ◌∷◌, ◌++◌, ltb, ◌==◌,
  if◌then◌else◌,
}
use systemoc_syste_mo_c.Fsm.Rule.{FiringRule}

-- `PartialTransition`
pub record PartialTransition : Type 0 where
  pub rule : FiringRule
  pub dest : ℕ

-- The class of a state in a hierarchy; an XOR state has a pointer to its initial state.
pub data Kind : Type 0 where
  firing_state : Kind
  and_state : Kind
  xor_state : (init : Option ℕ) → Kind

mutual
  pub data StateImpl : Type 0 where
    state_impl : Kind → (id name code bits : ℕ) → List PartialTransition → (c : States) → StateImpl

  pub data States : Type 0 where
    no_states : States
    state_cons : StateImpl → States → States

unfoldable pub id_of : StateImpl → ℕ
id_of (state_impl k i n cd b p c) = i

unfoldable pub code_of : StateImpl → ℕ
code_of (state_impl k i n cd b p c) = cd

unfoldable pub bits_of : StateImpl → ℕ
bits_of (state_impl k i n cd b p c) = b

unfoldable pub children_of : StateImpl → States
children_of (state_impl k i n cd b p c) = c

unfoldable pub count : States → ℕ
count no_states = 0
count (state_cons s ss) = suc (count ss)

-- `StateImpl::StateImpl`; a name is a number here, so the assertions on separators in its text have no
-- counterpart.
abbrev pub new_state : Kind → (id name : ℕ) → StateImpl
new_state k i n = state_impl k i n 0 1 [] no_states

-- `StateImpl::isAncestor`
unfoldable pub is_ancestor : StateImpl → StateImpl → Bool
unfolding id_of code_of bits_of
is_ancestor a s =
    if id_of s == id_of a
    then true
    else if ltb (bits_of a) (bits_of s)
    then code_of a == code_of s / 2 ^ (bits_of s - bits_of a)
    else false

-- `states` and `condStates` of a `MultiStateImpl`: sets in the order of the pointers.
pub record MultiStateImpl : Type 0 where
  pub id : ℕ
  pub ptl : List PartialTransition
  pub states : List ℕ
  pub cond_states : List (ℕ × Bool)

pub record JunctionStateImpl : Type 0 where
  pub id : ℕ
  pub ptl : List PartialTransition

-- A state that `FiringFSM::states` holds.
pub data BaseStateImpl : Type 0 where
  hierarchical : StateImpl → BaseStateImpl
  multi : MultiStateImpl → BaseStateImpl
  junction : JunctionStateImpl → BaseStateImpl

-- A `std::set` of pointers.
unfoldable pub set_insert : ℕ → List ℕ → List ℕ
set_insert x [] = x ∷ []
set_insert x (y ∷ ys) =
    if ltb x y then x ∷ y ∷ ys else if x == y then y ∷ ys else y ∷ set_insert x ys

unfoldable pub contains : ℕ → List ℕ → Bool
contains x [] = false
contains x (y ∷ ys) = if x == y then true else contains x ys

-- A pointer with its chain of parents: the state, its parent, and so on up to the top.
abbrev pub Lineage : Type 0
Lineage = List StateImpl

abbrev pub first_of {ℓ} : {A : Type ℓ} → Option A → Option A → Option A
first_of none o = o
first_of (some a) o = some a

unfoldable mutual
  pub path_to : ℕ → StateImpl → Option Lineage
  path_to i (state_impl k j n cd b p c) =
      let below = path_among i c in
      if j == i
      then some (state_impl k j n cd b p c ∷ [])
      else elim below [ none ↦ none | some q ↦ some (q ++ (state_impl k j n cd b p c ∷ [])) ]

  pub path_among : ℕ → States → Option Lineage
  path_among i no_states = none
  path_among i (state_cons s ss) = first_of (path_to i s) (path_among i ss)
