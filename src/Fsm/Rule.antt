-- ===== src/Fsm/Rule.antt =====
-- The guard and the action of a transition: the nodes that smoc_guard.hpp builds guards of,
-- cpp/smoc_action.cpp, smoc_firing_rule.hpp and cpp/detail/FSM/RuntimeFiringRule.cpp.
use systemoc_syste_mo_c.Common.{ℕ, ◌+◌, Bool, true, false, ◌||◌, List, [], ◌∷◌, ◌++◌, leb, ◌==◌}
use systemoc_syste_mo_c.Fsm.Outcome.{Outcome, ok, ◌>>=◌, ◌>>◌, check}

-- The operators that the model tells apart.
pub data OpBin : Type 0 where
  l_and : OpBin
  other_op : ℕ → OpBin

-- An expression, as `ExprVisitor` sees it. Names, ports and waiters are numbers.
pub data Guard : Type 0 where
  var : (name : ℕ) → Guard
  literal : (value : ℕ) → Guard
  mem_guard : (name : ℕ) → Guard
  event : (waiter : ℕ) → Guard
  token : (port n : ℕ) → Guard
  comm : (port : ℕ) (is_input : Bool) (consumed required : ℕ) → Guard
  un_op : (op : ℕ) → Guard → Guard
  bin_op : OpBin → Guard → Guard → Guard

-- `smoc_action`: a list of function calls.
abbrev pub Action : Type 0
Action = List ℕ

pub record FiringRule : Type 0 where
  pub guard : Guard
  pub action : Action

-- `operator&&` on guards
abbrev pub and_guard : Guard → Guard → Guard
and_guard a b = bin_op l_and a b

-- `Detail::merge`
unfoldable pub merge : Action → Action → Action
merge [] b = b
merge (f ∷ a) [] = f ∷ a
merge (f ∷ a) (g ∷ b) = (f ∷ a) ++ (g ∷ b)

pub record PortInfo : Type 0 where
  pub port : ℕ
  pub consumed : ℕ
  pub required : ℕ

-- `RuntimeFiringRule`, with the events of its guard in the order in which they are added.
pub record RuntimeFiringRule : Type 0 where
  pub rule : FiringRule
  pub guard_complexity : ℕ
  pub guard_names : List ℕ
  pub events : List ℕ
  pub port_in_infos : List PortInfo
  pub port_out_infos : List PortInfo

-- `GuardVisitor`: what a visit adds to the rule.
unfoldable pub visit : Guard → RuntimeFiringRule → Outcome RuntimeFiringRule
visit (var n) fr = ok (record fr { guard_complexity = fr.guard_complexity + 2 })
visit (literal v) fr = ok (record fr { guard_complexity = fr.guard_complexity + 1 })
visit (mem_guard n) fr = ok (record fr { guard_names = fr.guard_names ++ (n ∷ []) })
visit (event e) fr =
    ok (record fr { events = fr.events ++ (e ∷ []); guard_complexity = fr.guard_complexity + 1 })
visit (token p n) fr = ok (record fr { guard_complexity = fr.guard_complexity + 5 })
visit (comm p true c r) fr = do
  check (leb c r)
  ok (record fr {
    guard_complexity = fr.guard_complexity + 3;
    port_in_infos = fr.port_in_infos ++ (record { port = p; consumed = c; required = r } ∷ []);
  })
visit (comm p false c r) fr = do
  check ((c == 0) || (c == r))
  ok (record fr {
    guard_complexity = fr.guard_complexity + 3;
    port_out_infos = fr.port_out_infos ++ (record { port = p; consumed = c; required = r } ∷ []);
  })
visit (un_op o e) fr = visit e (record fr { guard_complexity = fr.guard_complexity + 1 })
visit (bin_op o a b) fr = do
  fa ← visit a (record fr { guard_complexity = fr.guard_complexity + 1 })
  visit b fa

unfoldable pub runtime_firing_rule : FiringRule → Outcome RuntimeFiringRule
unfolding visit
runtime_firing_rule r = visit r.guard (record {
  rule = r;
  guard_complexity = 0;
  guard_names = [];
  events = [];
  port_in_infos = [];
  port_out_infos = [];
})
