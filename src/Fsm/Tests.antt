-- ===== src/Fsm/Tests.antt =====
-- Runs of the firing FSM on a small hierarchy: an XOR state of two states, beside a third state.
use systemoc_syste_mo_c.Common.{
  ℕ, suc, ◌≡◌, refl, Bool, true, false, some, List, [], ◌∷◌, map, zero, ◌-◌, ◌^◌, ◌≤◌, ◌<◌, ◌≢◌,
  ◌↔◌, ◌⊎◌, inl, inr, subst, ap, arith, All, ◌==◌, if◌then◌else◌,
}
use mathlib.Core.List.{Memᴰ}
use systemoc_syste_mo_c.Fsm.Codes.{Within, WithinAny, IsSmall}
use systemoc_syste_mo_c.Fsm.Ancestors.{
  is_ancestor-Within, is_ancestor-below, is_ancestor-only_child,
}
use systemoc_syste_mo_c.Fsm.Targets.{IdsBelow}
use systemoc_syste_mo_c.Fsm.Lowest.{IsLowest, get_top_state-IsLowest}
use systemoc_syste_mo_c.Fsm.Junctions.{IsRanked, expand_transition-ends}
use systemoc_syste_mo_c.Fsm.Table.{to}
use systemoc_syste_mo_c.Fsm.Reach.{Reachable, Leaves}
use systemoc_syste_mo_c.Fsm.Build.{
  before_end_of_elaboration-ends, before_end_of_elaboration-Reachable,
}
use systemoc_syste_mo_c.Fsm.Outcome.{Outcome, ok, modeling_error, assertion_failed, out_of_fuel}
use systemoc_syste_mo_c.Fsm.Rule.{
  RuntimeFiringRule, runtime_firing_rule, visit, merge, FiringRule, literal,
}
use systemoc_syste_mo_c.Fsm.State.{
  children_of, set_insert, contains, id_of, code_of, bits_of, is_ancestor, path_to, count,
  PartialTransition, firing_state, xor_state, StateImpl, state_impl, no_states, state_cons,
  BaseStateImpl, hierarchical, junction,
}
use systemoc_syste_mo_c.Fsm.Config.{
  get_initial_state, marked_child, mark, mark_states, get_top_state, ProdState,
}
use systemoc_syste_mo_c.Fsm.Explore.{
  explore, start, add_targets, add_target, has_state, same_set, RuntimeTransition,
}
use systemoc_syste_mo_c.Fsm.Elaborate.{
  top_state, prepare, has_init, top_level, Elaborated, before_end_of_elaboration,
}
use systemoc_syste_mo_c.Fsm.Expand.{
  ExpandedTransition, expand_at, expand_junction, for_each, expand_transition, lookup,
  push_expanded,
}
use systemoc_syste_mo_c.Fsm.Finalise.{
  finalise_others, finalise, check_init, child_codes, expand_all,
}
use systemoc_syste_mo_c.Fsm.Product.{
  is_implied_all, paths_to, head_of, heads_of, states_at, cond_states, keep_others, target,
  is_enabled, transitions_from,
}

-- Bits for `n` values: more than the least number, from four values on.
abbrev bits_for : ℕ → ℕ
bits_for n = n - 1

suc-le-pow : (m : ℕ) → suc m ≤ 2 ^ m
suc-le-pow zero = omega arith
suc-le-pow (suc m) = omega (arith, suc-le-pow m)

bits_for-enough : (n : ℕ) → n ≤ 2 ^ bits_for n
bits_for-enough zero = omega arith
bits_for-enough (suc m) = subst (λ k. suc m ≤ 2 ^ k) (omega arith) (suc-le-pow m)

abbrev rule : FiringRule
rule = record { guard = literal 1; action = 7 ∷ [] }

abbrev go_to : ℕ → PartialTransition
go_to d = record { rule = rule; dest = d }

-- `x` (1) holds `a` (2), initial, and `b` (3); `c` (4) is beside it, and 5 is a junction to `b`.
abbrev a : StateImpl
a = state_impl firing_state 2 0 0 1 (go_to 3 ∷ []) no_states

abbrev b : StateImpl
b = state_impl firing_state 3 0 0 1 [] no_states

abbrev x : StateImpl
x = state_impl (xor_state (some 2)) 1 0 0 1 (go_to 4 ∷ []) (state_cons a (state_cons b no_states))

abbrev c : StateImpl
c = state_impl firing_state 4 0 0 1 (go_to 5 ∷ []) no_states

abbrev j : BaseStateImpl
j = junction (record { id = 5; ptl = go_to 3 ∷ [] })

abbrev states : List BaseStateImpl
states = hierarchical x ∷ hierarchical c ∷ j ∷ []

abbrev steps : Outcome Elaborated → List (ProdState × ProdState)
steps (ok e) = map (λ (t : RuntimeTransition). (t.src, t.dest)) e.tables.transitions
steps (modeling_error e) = []
steps assertion_failed = []
steps out_of_fuel = []

run_steps :
    steps (before_end_of_elaboration bits_for 2 4 9 1 states)
    ≡ ((2 ∷ [], 3 ∷ []) ∷ (2 ∷ [], 4 ∷ []) ∷ (3 ∷ [], 4 ∷ []) ∷ (4 ∷ [], 3 ∷ []) ∷ [])
unfolding before_end_of_elaboration prepare has_init top_level finalise_others finalise check_init
    child_codes count expand_all for_each expand_at expand_junction expand_transition lookup path_to
    push_expanded runtime_firing_rule visit merge get_initial_state marked_child mark mark_states
    get_top_state set_insert contains id_of code_of bits_of is_ancestor is_implied_all paths_to
    head_of heads_of states_at cond_states keep_others target is_enabled transitions_from explore
    start add_targets add_target has_state same_set
run_steps = refl

abbrev etl_of : Outcome (StateImpl × List ExpandedTransition) → List ExpandedTransition
etl_of (ok r) = r.1
etl_of (modeling_error e) = []
etl_of assertion_failed = []
etl_of out_of_fuel = []

-- `x` and its children with their codes.
abbrev coded_a : StateImpl
coded_a = state_impl firing_state 2 0 0 2 (go_to 3 ∷ []) no_states

abbrev coded_b : StateImpl
coded_b = state_impl firing_state 3 0 1 2 [] no_states

abbrev coded_x : StateImpl
coded_x =
    state_impl (xor_state (some 2)) 1 0 0 1 (go_to 4 ∷ [])
      (state_cons coded_a (state_cons coded_b no_states))

abbrev etl_x : List ExpandedTransition
etl_x = etl_of (finalise bits_for 2 states 0 1 x)

finalise-x : finalise bits_for 2 states 0 1 x ≡ ok (coded_x, etl_x)
unfolding finalise check_init child_codes count expand_all for_each expand_at expand_junction
    expand_transition lookup path_to push_expanded runtime_firing_rule visit
finalise-x = refl

x-IsSmall : IsSmall x
unfolding IsSmall count
x-IsSmall = (omega arith, ((omega arith, tt), ((omega arith, tt), tt)))

x_in_x : Within coded_x coded_x
unfolding Within
x_in_x = inl refl

b_below_x : WithinAny coded_b (children_of coded_x)
unfolding Within children_of
b_below_x = inr (inl (inl refl))

b_in_x : Within coded_b coded_x
unfolding Within
b_in_x = inr (inr (inl (inl refl)))

two_children : 2 ≤ count (children_of coded_x)
unfolding count children_of
two_children = omega arith

is_ancestor-Within_example : (is_ancestor coded_x coded_b ≡ true) ↔ (
    (id_of coded_b ≡ id_of coded_x)
    ⊎ ((bits_of coded_x < bits_of coded_b) × Within coded_b coded_x))
is_ancestor-Within_example =
    is_ancestor-Within bits_for bits_for-enough 2 states 0 1 x coded_x etl_x (omega arith)
      (omega arith) x-IsSmall finalise-x coded_x coded_b x_in_x b_in_x

is_ancestor-below_example : is_ancestor coded_x coded_b ≡ true
is_ancestor-below_example =
    is_ancestor-below bits_for bits_for-enough 2 states 0 1 x coded_x etl_x (omega arith)
      (omega arith) x-IsSmall finalise-x coded_x coded_b x_in_x two_children b_below_x

-- An XOR state with one child.
abbrev only : StateImpl
only = state_impl firing_state 2 0 0 1 [] no_states

abbrev coded_y : StateImpl
coded_y = state_impl (xor_state (some 2)) 1 0 0 1 [] (state_cons only no_states)

finalise_y :
    finalise bits_for 2 [] 0 1
      (state_impl (xor_state (some 2)) 1 0 0 1 [] (state_cons only no_states))
    ≡ ok (coded_y, [])
unfolding finalise check_init child_codes count expand_all for_each expand_at expand_junction
finalise_y = refl

other_id : id_of only ≢ 1
unfolding id_of
other_id e = absurd (omega arith)

is_ancestor-only_child_example :
    (t : StateImpl) × (children_of coded_y ≡ state_cons t no_states)
    × (is_ancestor coded_y t ≡ false)
is_ancestor-only_child_example =
    is_ancestor-only_child bits_for 2 [] 0 1 (xor_state (some 2)) 1 0 0 1 [] only coded_y [] refl
      other_id finalise_y

states-IdsBelow : IdsBelow 10 (top_state 9 1 states)
unfolding IdsBelow top_level
states-IdsBelow = (
  omega arith,
  ((omega arith, ((omega arith, tt), ((omega arith, tt), tt))), ((omega arith, tt), tt)),
)

abbrev is_out_of_fuel {ℓ} : {A : Type ℓ} → Outcome A → Bool
is_out_of_fuel (ok a) = false
is_out_of_fuel (modeling_error e) = false
is_out_of_fuel assertion_failed = false
is_out_of_fuel out_of_fuel = true

prepare-runs : prepare bits_for 2 1024 9 1 states ≢ out_of_fuel
unfolding prepare has_init top_level finalise_others finalise check_init child_codes count
    expand_all for_each expand_at expand_junction expand_transition lookup path_to push_expanded
    runtime_firing_rule visit merge get_initial_state marked_child contains set_insert id_of
prepare-runs e = let t : false ≡ true = ap is_out_of_fuel e in cc

before_end_of_elaboration-ends_example :
    before_end_of_elaboration bits_for 2 (2 ^ 10) 9 1 states ≢ out_of_fuel
before_end_of_elaboration-ends_example =
    before_end_of_elaboration-ends bits_for 2 9 1 states 10 states-IdsBelow prepare-runs

abbrev get : Outcome Elaborated → Elaborated → Elaborated
get (ok e) d = e
get (modeling_error e) d = d
get assertion_failed d = d
get out_of_fuel d = d

abbrev built : Elaborated
built = get (before_end_of_elaboration bits_for 2 4 9 1 states) (record {
  top = x;
  etl = [];
  init = [];
  tables = record { states = []; new_states = []; transitions = [] };
})

build_4 : before_end_of_elaboration bits_for 2 4 9 1 states ≡ ok built
unfolding before_end_of_elaboration prepare has_init top_level finalise_others finalise check_init
    child_codes count expand_all for_each expand_at expand_junction expand_transition lookup path_to
    push_expanded runtime_firing_rule visit merge get_initial_state marked_child mark mark_states
    get_top_state set_insert contains id_of code_of bits_of is_ancestor is_implied_all paths_to
    head_of heads_of states_at cond_states keep_others target is_enabled transitions_from explore
    start add_targets add_target has_state same_set
build_4 = refl

before_end_of_elaboration-Reachable_example :
    ((p : ProdState)
      → Memᴰ p built.tables.states ↔ Reachable (transitions_from built.top built.etl) built.init p)
    × ((p d : ProdState) (fr : RuntimeFiringRule)
        → Memᴰ (to p (fr, d)) built.tables.transitions ↔ (
            Reachable (transitions_from built.top built.etl) built.init p
            × Leaves (transitions_from built.top built.etl) p fr d))
before_end_of_elaboration-Reachable_example =
    before_end_of_elaboration-Reachable bits_for 2 9 1 states 4 built build_4

-- Only the junction leads to another state without an end of its own.
abbrev rank : ℕ → ℕ
rank i = if i == 5 then 1 else 0

states-IsRanked : All (IsRanked rank) states
unfolding IsRanked
states-IsRanked = (tt, (tt, ((omega arith, tt), tt)))

expand_transition-ends_example : expand_transition 2 states 5 4 [] rule ≢ out_of_fuel
expand_transition-ends_example =
    expand_transition-ends rank states states-IsRanked 2 5 4 [] rule (omega arith)

-- From `a` to `a` and `b`, the lowest state is `x`.
top_of_a_b :
    get_top_state (coded_a ∷ coded_x ∷ []) (coded_a ∷ coded_b ∷ []) true ≡ ok (coded_x ∷ [])
unfolding get_top_state is_ancestor id_of code_of bits_of
top_of_a_b = refl

get_top_state-IsLowest_example :
    IsLowest (coded_a ∷ coded_x ∷ []) (coded_a ∷ coded_b ∷ []) true (coded_x ∷ [])
get_top_state-IsLowest_example =
    get_top_state-IsLowest (coded_a ∷ coded_x ∷ []) (coded_x ∷ []) (coded_a ∷ coded_b ∷ []) true
      top_of_a_b
