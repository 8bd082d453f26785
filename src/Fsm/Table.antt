-- ===== src/Fsm/Table.antt =====
-- The table of product states: lookup, and what adding targets keeps and adds.
use mathlib.Core.List.{Memᴰ}
use mathlib.Core.List.Memᴰ
use systemoc_syste_mo_c.Common.{
  ◌≡◌, refl, ap, ap₂, subst, ◌⊎◌, inl, inr, ◌&&◌, Bool, true, false, List, [], ◌∷◌, ◌++◌, ◌==◌,
  ==_iff, if◌then◌else◌, Bool-cases,
}
use systemoc_syste_mo_c.Fsm.Rule.{RuntimeFiringRule}
use systemoc_syste_mo_c.Fsm.Config.{ProdState}
use systemoc_syste_mo_c.Fsm.Explore.{
  same_set, has_state, RuntimeTransition, Tables, add_target, add_targets,
}

and-true : (a b : Bool) → (a && b) ≡ true → (a ≡ true) × (b ≡ true)
and-true true b h = (refl, h)
and-true false b h = cc

pub same_set→≡ : (p q : ProdState) → same_set p q ≡ true → p ≡ q
unfolding same_set
same_set→≡ [] [] h = refl
same_set→≡ [] (y ∷ ys) h = cc
same_set→≡ (x ∷ xs) [] h = cc
same_set→≡ (x ∷ xs) (y ∷ ys) h =
    let (e, r) = and-true (x == y) (same_set xs ys) h in
    ap₂ ◌∷◌ ((==_iff x y).0 e) (same_set→≡ xs ys r)

pub same_set_refl : (p : ProdState) → same_set p p ≡ true
unfolding same_set
same_set_refl [] = refl
same_set_refl (x ∷ xs) = rw ((==_iff x x).1 refl) (same_set_refl xs)

pub has_state→Mem : (p : ProdState) (st : List ProdState) → has_state p st ≡ true → Memᴰ p st
unfolding has_state
has_state→Mem p [] h = cc
has_state→Mem p (q ∷ st) h = elim (Bool-cases (same_set p q)) [
  | inl e ↦ Memᴰ.head (same_set→≡ p q e)
  | inr e ↦
      Memᴰ.tail (has_state→Mem p st (subst (λ b. (if b then true else has_state p st) ≡ true) e h))
]

pub Mem→has_state : (p : ProdState) (st : List ProdState) → Memᴰ p st → has_state p st ≡ true
unfolding has_state
Mem→has_state p [] m = absurd (Memᴰ.not-nil m)
Mem→has_state p (q ∷ st) (Memᴰ.head e) =
    rw (subst (λ r. same_set p r ≡ true) e (same_set_refl p)) refl
Mem→has_state p (q ∷ st) (Memᴰ.tail m) = elim (Bool-cases (same_set p q)) [
  | inl e ↦ rw e refl
  | inr e ↦ rw e (Mem→has_state p st m)
]

-- What adding the targets `ts` of `p` does to the tables.
pub record Adds (p : ProdState) (ts : List (RuntimeFiringRule × ProdState)) (tb tb' : Tables)
    : Type 0 where
  pub states_kept : (q : ProdState) → Memᴰ q tb.states → Memᴰ q tb'.states
  pub new_kept : (q : ProdState) → Memᴰ q tb.new_states → Memᴰ q tb'.new_states
  pub transitions_kept : (t : RuntimeTransition) → Memᴰ t tb.transitions → Memᴰ t tb'.transitions
  pub found :
      (fr : RuntimeFiringRule) (d : ProdState)
      → Memᴰ (fr, d) ts
      → Memᴰ d tb'.states × Memᴰ (record { src = p; firing_rule = fr; dest = d }) tb'.transitions
  pub fresh :
      (q : ProdState)
      → Memᴰ q tb'.states
      → Memᴰ q tb.states ⊎ (Memᴰ q tb'.new_states × ((fr : RuntimeFiringRule) × Memᴰ (fr, q) ts))
  pub queued : (q : ProdState) → Memᴰ q tb'.new_states → Memᴰ q tb.new_states ⊎ Memᴰ q tb'.states
  pub transitions_new :
      (t : RuntimeTransition)
      → Memᴰ t tb'.transitions
      → Memᴰ t tb.transitions ⊎ ((t.src ≡ p) × Memᴰ (t.firing_rule, t.dest) ts)

add_nothing : {p : ProdState} (tb : Tables) → Adds p [] tb tb
add_nothing tb = record {
  states_kept = λ q m. m;
  new_kept = λ q m. m;
  transitions_kept = λ t m. m;
  found = λ fr d m. absurd (Memᴰ.not-nil m);
  fresh = λ q m. inl m;
  queued = λ q m. inl m;
  transitions_new = λ t m. inl m;
}

-- Membership in a list with one element more at its end.
pub at_end {ℓ} : {A : Type ℓ} (x : A) (xs : List A) → Memᴰ x (xs ++ (x ∷ []))
at_end x xs = Memᴰ.append_right xs (Memᴰ.head refl)

split_end {ℓ} :
    {A : Type ℓ} {y : A} (x : A) (xs : List A) → Memᴰ y (xs ++ (x ∷ [])) → Memᴰ y xs ⊎ (y ≡ x)
split_end x [] (Memᴰ.head e) = inr e
split_end x [] (Memᴰ.tail m) = absurd (Memᴰ.not-nil m)
split_end x (z ∷ xs) (Memᴰ.head e) = inl (Memᴰ.head e)
split_end x (z ∷ xs) (Memᴰ.tail m) = elim (split_end x xs m) [
  | inl r ↦ inl (Memᴰ.tail r)
  | inr e ↦ inr e
]

-- The transition to a target.
abbrev pub to : ProdState → RuntimeFiringRule × ProdState → RuntimeTransition
to p x = record { src = p; firing_rule = x.0; dest = x.1 }

abbrev pair : RuntimeFiringRule → ProdState → RuntimeFiringRule × ProdState
pair fr d = (fr, d)

abbrev as_pair : RuntimeTransition → RuntimeFiringRule × ProdState
as_pair t = (t.firing_rule, t.dest)

new_transition :
    (p : ProdState) (x : RuntimeFiringRule × ProdState) (tr : List RuntimeTransition)
    (t : RuntimeTransition)
    → Memᴰ t (tr ++ (to p x ∷ []))
    → Memᴰ t tr ⊎ ((t.src ≡ p) × Memᴰ (t.firing_rule, t.dest) (x ∷ []))
new_transition p x tr t m = elim (split_end (to p x) tr m) [
  | inl r ↦ inl r
  | inr e ↦ inr (ap (λ (r : RuntimeTransition). r.src) e, Memᴰ.head (ap as_pair e))
]

new_state :
    (fr : RuntimeFiringRule) (d q : ProdState) (st ns : List ProdState)
    → Memᴰ q (st ++ (d ∷ []))
    → Memᴰ q st
      ⊎ (Memᴰ q (ns ++ (d ∷ [])) × ((f : RuntimeFiringRule) × Memᴰ (pair f q) (pair fr d ∷ [])))
new_state fr d q st ns m = elim (split_end d st m) [
  | inl r ↦ inl r
  | inr e ↦ inr (Memᴰ.cast e (at_end d ns), (fr, Memᴰ.head (ap (pair fr) e)))
]

new_queued :
    (d q : ProdState) (st ns : List ProdState)
    → Memᴰ q (ns ++ (d ∷ []))
    → Memᴰ q ns ⊎ Memᴰ q (st ++ (d ∷ []))
new_queued d q st ns m = elim (split_end d ns m) [
  | inl r ↦ inl r
  | inr e ↦ inr (Memᴰ.cast e (at_end d st))
]

-- One target.
pub Adds-add_target :
    (p : ProdState) (fr : RuntimeFiringRule) (d : ProdState) (tb : Tables)
    → Adds p ((fr, d) ∷ []) tb (add_target p fr d tb)
unfolding add_target
Adds-add_target p fr d tb = elim (Bool-cases (has_state d tb.states)) [
  | inl e ↦ rw e (record {
    states_kept = λ q m. m;
    new_kept = λ q m. m;
    transitions_kept = λ t m. Memᴰ.append_left _ m;
    found = λ f q m.
        let h = Memᴰ.eq_of_singleton m in
        (
          Memᴰ.cast (ap (λ x. x.1) h) (has_state→Mem d tb.states e),
          Memᴰ.cast (ap (to p) h) (at_end (to p (fr, d)) tb.transitions),
        );
    fresh = λ q m. inl m;
    queued = λ q m. inl m;
    transitions_new = λ t m. new_transition p (fr, d) tb.transitions t m;
  })
  | inr e ↦ rw e (record {
    states_kept = λ q m. Memᴰ.append_left _ m;
    new_kept = λ q m. Memᴰ.append_left _ m;
    transitions_kept = λ t m. Memᴰ.append_left _ m;
    found = λ f q m.
        let h = Memᴰ.eq_of_singleton m in
        (
          Memᴰ.cast (ap (λ x. x.1) h) (at_end d tb.states),
          Memᴰ.cast (ap (to p) h) (at_end (to p (fr, d)) tb.transitions),
        );
    fresh = λ q m. new_state fr d q tb.states tb.new_states m;
    queued = λ q m. new_queued d q tb.states tb.new_states m;
    transitions_new = λ t m. new_transition p (fr, d) tb.transitions t m;
  })
]

-- One target after another.
then_add :
    {p : ProdState} {x : RuntimeFiringRule × ProdState} {ts : List (RuntimeFiringRule × ProdState)}
    {ta tb tc : Tables}
    → Adds p (x ∷ []) ta tb
    → Adds p ts tb tc
    → Adds p (x ∷ ts) ta tc
then_add {p} {x} {ts} a b = record {
  states_kept = λ q m. b.states_kept q (a.states_kept q m);
  new_kept = λ q m. b.new_kept q (a.new_kept q m);
  transitions_kept = λ t m. b.transitions_kept t (a.transitions_kept t m);
  found = λ fr d m. elim (Memᴰ.cases_cons m) [
    | inl e ↦
        let h = a.found fr d (Memᴰ.head e) in (b.states_kept d (h.0), b.transitions_kept _ (h.1))
    | inr r ↦ b.found fr d r
  ];
  fresh = λ q m. elim (b.fresh q m) [
    | inl r ↦ elim (a.fresh q r) [
      | inl k ↦ inl k
      | inr k ↦ inr (b.new_kept q (k.0), (k.1.0, Memᴰ.append_left ts (k.1.1)))
    ]
    | inr k ↦ inr (k.0, (k.1.0, Memᴰ.tail (k.1.1)))
  ];
  queued = λ q m. elim (b.queued q m) [
    | inl r ↦ elim (a.queued q r) [ inl k ↦ inl k | inr k ↦ inr (b.states_kept q k) ]
    | inr k ↦ inr k
  ];
  transitions_new = λ t m. elim (b.transitions_new t m) [
    | inl r ↦ elim (a.transitions_new t r) [
      | inl k ↦ inl k
      | inr k ↦ inr (k.0, Memᴰ.append_left ts (k.1))
    ]
    | inr k ↦ inr (k.0, Memᴰ.tail (k.1))
  ];
}

pub Adds-add_targets :
    (p : ProdState) (ts : List (RuntimeFiringRule × ProdState)) (tb : Tables)
    → Adds p ts tb (add_targets p ts tb)
unfolding add_targets
Adds-add_targets p [] tb = add_nothing tb
Adds-add_targets p ((fr, d) ∷ ts) tb =
    then_add (Adds-add_target p fr d tb) (Adds-add_targets p ts (add_target p fr d tb))
