-- ===== src/Fsm/Reach.antt =====
-- What the loop over the product states gives: exactly the states that the transitions reach, each
-- with exactly its transitions.
use mathlib.Core.List.{Memᴰ}
use mathlib.Core.List.Memᴰ
use systemoc_syste_mo_c.Common.{
  ℕ, zero, suc, ◌≡◌, refl, sym, ap, subst, ◌∙◌, ◌⊎◌, inl, inr, ◌↔◌, List, [], ◌∷◌,
}
use systemoc_syste_mo_c.Fsm.Outcome.{Outcome, ok, out_of_fuel, ◌>>=◌, >>=-eq-ok}
use systemoc_syste_mo_c.Fsm.Rule.{RuntimeFiringRule}
use systemoc_syste_mo_c.Fsm.Config.{ProdState}
use systemoc_syste_mo_c.Fsm.Explore.{RuntimeTransition, Tables, add_targets, explore, start}
use systemoc_syste_mo_c.Fsm.Table.{Adds, Adds-add_targets, to}

pub list_cases :
    (l : List ProdState) → (l ≡ []) ⊎ ((p : ProdState) × (ns : List ProdState) × (l ≡ p ∷ ns))
list_cases [] = inl refl
list_cases (p ∷ ns) = inr (p, ns, refl)

module _ (next : ProdState → Outcome (List (RuntimeFiringRule × ProdState))) where
  -- A transition that leaves `p` by the code of the loop's body.
  abbrev pub Leaves : ProdState → RuntimeFiringRule → ProdState → Type 0
  Leaves p fr d = (ts : List (RuntimeFiringRule × ProdState)) × (next p ≡ ok ts) × Memᴰ (fr, d) ts

  pub data Reachable (p0 : ProdState) : ProdState → Type 0 where
    initially : Reachable p0 p0
    by_transition :
        {p d : ProdState} {fr : RuntimeFiringRule} → Reachable p0 p → Leaves p fr d → Reachable p0 d

  -- The transitions of `p` are in the tables.
  abbrev pub Done : Tables → ProdState → Type 0
  Done tb p =
      (ts : List (RuntimeFiringRule × ProdState)) × (next p ≡ ok ts)
      × ((fr : RuntimeFiringRule) (d : ProdState)
          → Memᴰ (fr, d) ts
          → Memᴰ d tb.states × Memᴰ (to p (fr, d)) tb.transitions)

  -- The invariant of the loop.
  pub record Inv (p0 : ProdState) (tb : Tables) : Type 0 where
    pub closed : (p : ProdState) → Memᴰ p tb.states → Memᴰ p tb.new_states ⊎ Done tb p
    pub reached : (p : ProdState) → Memᴰ p tb.states → Reachable p0 p
    pub queued : (p : ProdState) → Memᴰ p tb.new_states → Memᴰ p tb.states
    pub real :
        (t : RuntimeTransition)
        → Memᴰ t tb.transitions
        → Memᴰ t.src tb.states × Leaves t.src t.firing_rule t.dest
    pub initial : Memᴰ p0 tb.states

  Inv-start : (p0 : ProdState) → Inv p0 (start next p0)
  unfolding start
  Inv-start p0 = record {
    closed = λ p m. inl m;
    reached = λ p m. subst (Reachable p0) (sym (Memᴰ.eq_of_singleton m)) initially;
    queued = λ p m. m;
    real = λ t m. absurd (Memᴰ.not-nil m);
    initial = Memᴰ.head refl;
  }

  -- The loop's body.
  Inv-step :
      {p0 p : ProdState} {ns : List ProdState} {ts : List (RuntimeFiringRule × ProdState)}
      {tb : Tables}
      → Inv p0 tb
      → tb.new_states ≡ p ∷ ns
      → next p ≡ ok ts
      → (tb' : Tables) → Adds p ts (record tb { new_states = ns }) tb'
      → Inv p0 tb'
  Inv-step {p0} {p} {ns} {ts} {tb} inv e h tb' a =
      let in_states : Memᴰ p tb.states =
        inv.queued p (subst (λ l. Memᴰ p l) (sym e) (Memᴰ.head refl)) in
      record {
        closed = λ q m. elim (a.fresh q m) [
          | inl old ↦ elim (inv.closed q old) [
            | inl waiting ↦ elim (Memᴰ.cases_cons (subst (λ l. Memᴰ q l) e waiting)) [
              | inl same ↦ inr (
                ts,
                ap next same ∙ h,
                λ fr d k.
                    let f = a.found fr d k in (f.0, Memᴰ.cast (ap (λ r. to r (fr, d)) same) (f.1)),
              )
              | inr later ↦ inl (a.new_kept q later)
            ]
            | inr done ↦ inr (
              done.0,
              done.1,
              λ fr d k.
                  let f = done.2 fr d k in (a.states_kept d (f.0), a.transitions_kept _ (f.1)),
            )
          ]
          | inr now ↦ inl (now.0)
        ];
        reached = λ q m. elim (a.fresh q m) [
          | inl old ↦ inv.reached q old
          | inr now ↦ by_transition (inv.reached p in_states) (ts, h, now.1.1)
        ];
        queued = λ q m. elim (a.queued q m) [
          | inl old ↦ a.states_kept q (inv.queued q (subst (λ l. Memᴰ q l) (sym e) (Memᴰ.tail old)))
          | inr now ↦ now
        ];
        real = λ t m. elim (a.transitions_new t m) [
          | inl old ↦ let r = inv.real t old in (a.states_kept _ (r.0), r.1)
          | inr now ↦
              (a.states_kept _ (Memᴰ.cast (now.0) in_states), (ts, ap next (now.0) ∙ h, now.1))
        ];
        initial = a.states_kept p0 inv.initial;
      }

  -- Whether the loop goes on.
  pub explore-nil : (fuel : ℕ) (tb : Tables) → tb.new_states ≡ [] → explore next fuel tb ≡ ok tb
  unfolding explore
  explore-nil zero tb e = rw e refl
  explore-nil (suc fuel) tb e = rw e refl

  pub explore-zero :
      {p : ProdState} {ns : List ProdState} (tb : Tables)
      → tb.new_states ≡ p ∷ ns
      → explore next zero tb ≡ out_of_fuel
  unfolding explore
  explore-zero tb e = rw e refl

  pub explore-suc :
      {p : ProdState} {ns : List ProdState} (fuel : ℕ) (tb : Tables)
      → tb.new_states ≡ p ∷ ns
      → explore next (suc fuel) tb
        ≡ (next p >>= λ ts. explore next fuel (add_targets p ts (record tb { new_states = ns })))
  unfolding explore
  explore-suc fuel tb e = rw e refl

  at_empty :
      {p0 : ProdState} (fuel : ℕ) (tb tb' : Tables)
      → Inv p0 tb
      → tb.new_states ≡ []
      → explore next fuel tb ≡ ok tb'
      → Inv p0 tb' × (tb'.new_states ≡ [])
  at_empty fuel tb tb' inv e h =
      let same : ok tb ≡ ok tb' = sym (explore-nil fuel tb e) ∙ h in
      let eq : tb ≡ tb' = cc in
      (subst (Inv _) eq inv, sym (ap (λ (t : Tables). t.new_states) eq) ∙ e)

  Inv-explore :
      {p0 : ProdState} (fuel : ℕ) (tb tb' : Tables)
      → Inv p0 tb
      → explore next fuel tb ≡ ok tb'
      → Inv p0 tb' × (tb'.new_states ≡ [])
  Inv-explore zero tb tb' inv h = elim (list_cases tb.new_states) [
    | inl e ↦ at_empty zero tb tb' inv e h
    | inr (p, ns, e) ↦ let stuck : out_of_fuel ≡ ok tb' = sym (explore-zero tb e) ∙ h in cc
  ]
  Inv-explore (suc fuel) tb tb' inv h = elim (list_cases tb.new_states) [
    | inl e ↦ at_empty (suc fuel) tb tb' inv e h
    | inr (p, ns, e) ↦
        let (ts, e1, e2) = >>=-eq-ok (next p) _ (sym (explore-suc fuel tb e) ∙ h) in
        Inv-explore fuel _ tb' (Inv-step inv e e1 _ (Adds-add_targets p ts _)) e2
  ]

  Reachable-states :
      {p0 : ProdState} {tb : Tables}
      → Inv p0 tb
      → tb.new_states ≡ []
      → (p : ProdState) → Reachable p0 p
      → Memᴰ p tb.states
  Reachable-states inv e p initially = inv.initial
  Reachable-states {p0} {tb} inv e d (by_transition {p = p} {fr = fr} r (ts, h, m)) =
      elim (inv.closed p (Reachable-states inv e p r)) [
        | inl waiting ↦ absurd (Memᴰ.not-nil (subst (λ l. Memᴰ p l) e waiting))
        | inr (us, k, f) ↦
            let same : ok us ≡ ok ts = sym k ∙ h in
            let eq : ts ≡ us = cc in (f fr d (subst (λ l. Memᴰ (fr, d) l) eq m)).0
      ]

  -- The transitions of the tables are the ones that leave a state of the tables.
  Leaves-transitions :
      {p0 : ProdState} {tb : Tables}
      → Inv p0 tb
      → tb.new_states ≡ []
      → (p d : ProdState) (fr : RuntimeFiringRule) → Memᴰ p tb.states
      → Leaves p fr d
      → Memᴰ (to p (fr, d)) tb.transitions
  Leaves-transitions {p0} {tb} inv e p d fr r (ts, h, m) = elim (inv.closed p r) [
    | inl waiting ↦ absurd (Memᴰ.not-nil (subst (λ l. Memᴰ p l) e waiting))
    | inr (us, k, f) ↦
        let same : ok us ≡ ok ts = sym k ∙ h in
        let eq : ts ≡ us = cc in (f fr d (subst (λ l. Memᴰ (fr, d) l) eq m)).1
  ]

  -- When the loop of `before_end_of_elaboration` ends, its states are exactly those that transitions
  -- reach from the initial state, and its transitions are exactly the ones that leave these states.
  pub explore-Reachable :
      (p0 : ProdState) (fuel : ℕ) (tb : Tables)
      → explore next fuel (start next p0) ≡ ok tb
      → ((p : ProdState) → Memᴰ p tb.states ↔ Reachable p0 p)
        × ((p d : ProdState) (fr : RuntimeFiringRule)
            → Memᴰ (to p (fr, d)) tb.transitions ↔ (Reachable p0 p × Leaves p fr d))
  explore-Reachable p0 fuel tb h =
      let (inv, e) = Inv-explore fuel (start next p0) tb (Inv-start p0) h in
      (
        λ p. (inv.reached p, Reachable-states inv e p),
        λ p d fr. (
          λ m. let r = inv.real (to p (fr, d)) m in (inv.reached p (r.0), r.1),
          λ r. Leaves-transitions inv e p d fr (Reachable-states inv e p (r.0)) (r.1),
        ),
      )
