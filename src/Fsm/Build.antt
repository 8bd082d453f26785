-- ===== src/Fsm/Build.antt =====
-- `FiringFSM::before_end_of_elaboration` as a whole: it ends, and it builds the reachable part of the
-- product FSM.
use mathlib.Core.List.{Memᴰ}
use systemoc_syste_mo_c.Common.{ℕ, suc, ◌%◌, ◌^◌, ◌≡◌, ◌≢◌, sym, subst, ◌↔◌, List, []}
use systemoc_syste_mo_c.Fsm.Outcome.{
  ok, out_of_fuel, >>=-eq-ok, >>=-ends, demand, initial_state_not_on_top,
}
use systemoc_syste_mo_c.Fsm.Rule.{RuntimeFiringRule}
use systemoc_syste_mo_c.Fsm.State.{
  StateImpl, state_impl, States, no_states, state_cons, BaseStateImpl,
}
use systemoc_syste_mo_c.Fsm.Expand.{ExpandedTransition}
use systemoc_syste_mo_c.Fsm.Finalise.{finalise, finalise_children, finalise_others}
use systemoc_syste_mo_c.Fsm.Config.{ProdState, get_initial_state}
use systemoc_syste_mo_c.Fsm.Product.{transitions_from}
use systemoc_syste_mo_c.Fsm.Explore.{explore, start}
use systemoc_syste_mo_c.Fsm.Elaborate.{
  Elaborated, top_level, has_init, top_state, prepare, before_end_of_elaboration,
}
use systemoc_syste_mo_c.Fsm.Table.{to}
use systemoc_syste_mo_c.Fsm.Reach.{Leaves, Reachable, explore-Reachable}
use systemoc_syste_mo_c.Fsm.Codes.{finalise-ok, children-ok, children-ok_none}
use systemoc_syste_mo_c.Fsm.Sets.{IsSetFrom}
use systemoc_syste_mo_c.Fsm.Targets.{IdsBelow, AllIdsBelow, IsProd, Gives, get_initial_state-IsProd}
use systemoc_syste_mo_c.Fsm.Total.{transitions_from-ends}

module _ (flog2c : ℕ → ℕ) (junctions m : ℕ) (fsm : List BaseStateImpl) where
  mutual
    unfolding IdsBelow

    -- `finalise` keeps the ids.
    finalise-IdsBelow :
        (code bits : ℕ) (s s' : StateImpl) (etl : List ExpandedTransition)
        → IdsBelow m s
        → finalise flog2c junctions fsm code bits s ≡ ok (s', etl)
        → IdsBelow m s'
    finalise-IdsBelow code bits (state_impl k i n cd b p c) s' etl (lt, h) e =
        let (fc, cb, c', now, h1, h2, q) =
          finalise-ok flog2c junctions fsm code bits k i n cd b p c s' etl e in
        subst (IdsBelow m) (sym q) (lt, children-IdsBelow fc cb c c' now h h2)

    children-IdsBelow :
        (fc cb : ℕ) (ss ss' : States) (etl : List ExpandedTransition)
        → AllIdsBelow m ss
        → finalise_children flog2c junctions fsm fc cb ss ≡ ok (ss', etl)
        → AllIdsBelow m ss'
    children-IdsBelow fc cb no_states ss' etl h e =
        subst (AllIdsBelow m) (sym (children-ok_none flog2c junctions fsm fc cb ss' etl e)) tt
    children-IdsBelow fc cb (state_cons s ss) ss' etl (hs, hss) e =
        let (s1, now, ss1, rest, h1, h2, q) =
          children-ok flog2c junctions fsm fc cb s ss ss' etl e in
        subst (AllIdsBelow m) (sym q) (
          finalise-IdsBelow fc cb s s1 now hs h1,
          children-IdsBelow (suc fc % 2 ^ 64) cb ss ss1 rest hss h2,
        )

module _ (flog2c : ℕ → ℕ) (junctions top_id hsinit : ℕ) (states : List BaseStateImpl) where
  -- The parts of a successful preparation.
  prepare-IdsBelow :
      (m : ℕ) (top : StateImpl) (etl : List ExpandedTransition) (p0 : ProdState)
      → IdsBelow m (top_state top_id hsinit states)
      → prepare flog2c junctions (2 ^ m) top_id hsinit states ≡ ok (top, etl, p0)
      → IdsBelow m top × IsProd m p0
  unfolding prepare IsSetFrom
  prepare-IdsBelow m top etl p0 h e =
      let (u, h1, h2) =
        >>=-eq-ok (demand initial_state_not_on_top (has_init hsinit (top_level states))) _ e in
      let (others, h3, h4) = >>=-eq-ok (finalise_others flog2c junctions states states) _ h2 in
      let ((top', own), h5, h6) =
        >>=-eq-ok (finalise flog2c junctions states 0 1 (top_state top_id hsinit states)) _ h4 in
      let (p0', h7, h8) = >>=-eq-ok (get_initial_state top' [] []) _ h6 in
      let e1 : top' ≡ top = cc in
      let e2 : p0' ≡ p0 = cc in
      let below = finalise-IdsBelow flog2c junctions m states 0 1 _ top' own h h5 in
      (
        subst (IdsBelow m) e1 below,
        subst (IsProd m) e2
            (subst (Gives (IsProd m)) h7 (get_initial_state-IsProd m top' [] [] below tt)),
      )

  -- If every state in the hierarchy has an id below `m`, as has the top state, and the part of
  -- `before_end_of_elaboration` before its loop over product states ends, then the loop ends too,
  -- after 2 ^ m rounds at most.
  pub before_end_of_elaboration-ends :
      (m : ℕ)
      → IdsBelow m (top_state top_id hsinit states)
      → prepare flog2c junctions (2 ^ m) top_id hsinit states ≢ out_of_fuel
      → before_end_of_elaboration flog2c junctions (2 ^ m) top_id hsinit states ≢ out_of_fuel
  unfolding before_end_of_elaboration
  before_end_of_elaboration-ends m below runs =
      >>=-ends (prepare flog2c junctions (2 ^ m) top_id hsinit states) _ runs (λ (top, etl, p0) h.
        let (ids, set) = prepare-IdsBelow m top etl p0 below h in
        >>=-ends (explore (transitions_from top etl) (2 ^ m) (start (transitions_from top etl) p0))
          _ (transitions_from-ends m top etl p0 ids set) (λ tb k q. cc))

  -- If `before_end_of_elaboration` succeeds, then its runtime states are exactly the product states
  -- that the expanded transitions reach from the initial one, and its runtime transitions are exactly
  -- those that leave these states.
  pub before_end_of_elaboration-Reachable :
      (rounds : ℕ) (e : Elaborated)
      → before_end_of_elaboration flog2c junctions rounds top_id hsinit states ≡ ok e
      → ((p : ProdState)
          → Memᴰ p e.tables.states ↔ Reachable (transitions_from e.top e.etl) e.init p)
        × ((p d : ProdState) (fr : RuntimeFiringRule)
            → Memᴰ (to p (fr, d)) e.tables.transitions ↔ (
                Reachable (transitions_from e.top e.etl) e.init p
                × Leaves (transitions_from e.top e.etl) p fr d))
  unfolding before_end_of_elaboration
  before_end_of_elaboration-Reachable rounds e h =
      let ((top, etl, p0), h1, h2) =
        >>=-eq-ok (prepare flog2c junctions rounds top_id hsinit states) _ h in
      let (tb, h3, h4) =
        >>=-eq-ok (explore (transitions_from top etl) rounds (start (transitions_from top etl) p0))
          _ h2 in
      let made : Elaborated = record { top = top; etl = etl; init = p0; tables = tb } in
      let same : made ≡ e = cc in
      subst
        (λ (x : Elaborated).
          ((p : ProdState)
            → Memᴰ p x.tables.states ↔ Reachable (transitions_from x.top x.etl) x.init p)
          × ((p d : ProdState) (fr : RuntimeFiringRule)
              → Memᴰ (to p (fr, d)) x.tables.transitions ↔ (
                  Reachable (transitions_from x.top x.etl) x.init p
                  × Leaves (transitions_from x.top x.etl) p fr d)))
        same (explore-Reachable (transitions_from top etl) p0 rounds tb h3)
