-- ===== src/Fsm/Ends.antt =====
-- The loop over the product states ends: each state is taken once, and there are only so many.
use mathlib.Core.List.{Memᴰ}
use mathlib.Core.List.Memᴰ
use systemoc_syste_mo_c.Common.{
  ℕ, zero, suc, ◌+◌, ◌≤◌, ◌≡◌, ◌≢◌, ◌⊎◌, refl, sym, ap, subst, ◌∙◌, inl, inr, true, false, List, [],
  ◌∷◌, ◌++◌, if◌then◌else◌, Bool-cases, length, length-append, arith,
}
use systemoc_syste_mo_c.Fsm.Outcome.{
  Outcome, ok, modeling_error, assertion_failed, out_of_fuel, ◌>>=◌,
}
use systemoc_syste_mo_c.Fsm.Rule.{RuntimeFiringRule}
use systemoc_syste_mo_c.Fsm.Config.{ProdState}
use systemoc_syste_mo_c.Fsm.Explore.{Tables, has_state, add_target, add_targets, explore, start}
use systemoc_syste_mo_c.Fsm.Table.{has_state→Mem, Mem→has_state, at_end, Adds-add_targets}
use systemoc_syste_mo_c.Fsm.Reach.{Leaves, explore-nil, explore-suc, list_cases}

-- How many of some states are not in the table.
missing : List ProdState → List ProdState → ℕ
missing [] st = 0
missing (u ∷ us) st = if has_state u st then missing us st else suc (missing us st)

has_state-append :
    (q d : ProdState) (st : List ProdState)
    → has_state q st ≡ true
    → has_state q (st ++ (d ∷ [])) ≡ true
has_state-append q d st h = Mem→has_state q _ (Memᴰ.append_left _ (has_state→Mem q st h))

has_state-added : (d : ProdState) (st : List ProdState) → has_state d (st ++ (d ∷ [])) ≡ true
has_state-added d st = Mem→has_state d _ (at_end d st)

missing-append :
    (us : List ProdState) (d : ProdState) (st : List ProdState)
    → missing us (st ++ (d ∷ [])) ≤ missing us st
unfolding missing
missing-append [] d st = omega arith
missing-append (u ∷ us) d st = elim (Bool-cases (has_state u st)) [
  | inl e ↦ rw e (rw (has_state-append u d st e) (missing-append us d st))
  | inr e ↦ elim (Bool-cases (has_state u (st ++ (d ∷ [])))) [
    | inl k ↦ rw e (rw k (omega (arith, missing-append us d st)))
    | inr k ↦ rw e (rw k (omega (arith, missing-append us d st)))
  ]
]

missing-added :
    (us : List ProdState) (d : ProdState) (st : List ProdState)
    → Memᴰ d us
    → has_state d st ≡ false
    → suc (missing us (st ++ (d ∷ []))) ≤ missing us st
unfolding missing
missing-added [] d st m h = absurd (Memᴰ.not-nil m)
missing-added (u ∷ us) d st (Memᴰ.head e) h =
    let hu : has_state u st ≡ false = subst (λ q. has_state q st ≡ false) e h in
    let ha : has_state u (st ++ (d ∷ [])) ≡ true =
      subst (λ q. has_state q (st ++ (d ∷ [])) ≡ true) e (has_state-added d st) in
    rw hu (rw ha (omega (arith, missing-append us d st)))
missing-added (u ∷ us) d st (Memᴰ.tail m) h = elim (Bool-cases (has_state u st)) [
  | inl e ↦ rw e (rw (has_state-append u d st e) (missing-added us d st m h))
  | inr e ↦ elim (Bool-cases (has_state u (st ++ (d ∷ [])))) [
    | inl k ↦ rw e (rw k (omega (arith, missing-added us d st m h)))
    | inr k ↦ rw e (rw k (omega (arith, missing-added us d st m h)))
  ]
]

missing_le : (us st : List ProdState) → missing us st ≤ length us
unfolding missing
missing_le [] st = omega arith
missing_le (u ∷ us) st = elim (Bool-cases (has_state u st)) [
  | inl e ↦ rw e (omega (arith, missing_le us st))
  | inr e ↦ rw e (omega (arith, missing_le us st))
]

module _ (us : List ProdState) where
  -- The states that the loop will still take, at most.
  abbrev left : Tables → ℕ
  left tb = length tb.new_states + missing us tb.states

  left-add_target :
      (p : ProdState) (fr : RuntimeFiringRule) (d : ProdState) (tb : Tables)
      → Memᴰ d us
      → left (add_target p fr d tb) ≤ left tb
  unfolding add_target
  left-add_target p fr d tb m = elim (Bool-cases (has_state d tb.states)) [
    | inl e ↦ rw e (omega arith)
    | inr e ↦
        rw e (omega (arith, missing-added us d tb.states m e, length-append tb.new_states (d ∷ [])))
  ]

  left-add_targets :
      (p : ProdState) (ts : List (RuntimeFiringRule × ProdState)) (tb : Tables)
      → ((fr : RuntimeFiringRule) (d : ProdState) → Memᴰ (fr, d) ts → Memᴰ d us)
      → left (add_targets p ts tb) ≤ left tb
  unfolding add_targets
  left-add_targets p [] tb h = omega arith
  left-add_targets p ((fr, d) ∷ ts) tb h = omega (
    arith,
    left-add_target p fr d tb (h fr d (Memᴰ.head refl)),
    left-add_targets p ts (add_target p fr d tb) (λ f q m. h f q (Memᴰ.tail m)),
  )

missing-start :
    (us : List ProdState) (p : ProdState) → Memᴰ p us → suc (missing us (p ∷ [])) ≤ length us
unfolding has_state
missing-start us p m = omega (arith, missing-added us p [] m refl, missing_le us [])

Outcome-cases :
    {A : Type 0} (m : Outcome A)
    → m ≢ out_of_fuel
    → ((a : A) × (m ≡ ok a)) ⊎ ((f : A → Outcome Tables) → (m >>= f) ≢ out_of_fuel)
Outcome-cases (ok a) h = inl (a, refl)
Outcome-cases (modeling_error e) h = inr (λ f k. cc)
Outcome-cases assertion_failed h = inr (λ f k. cc)
Outcome-cases out_of_fuel h = absurd (h refl)

module _ (next : ProdState → Outcome (List (RuntimeFiringRule × ProdState))) (us : List ProdState)
    (fuelled : (p : ProdState) → Memᴰ p us → next p ≢ out_of_fuel)
    (closed : (p d : ProdState) (fr : RuntimeFiringRule)
      → Memᴰ p us
      → Leaves next p fr d
      → Memᴰ d us) where
  ends :
      (fuel : ℕ) (tb : Tables)
      → ((p : ProdState) → Memᴰ p tb.states → Memᴰ p us)
      → ((p : ProdState) → Memᴰ p tb.new_states → Memᴰ p tb.states)
      → left us tb ≤ fuel
      → explore next fuel tb ≢ out_of_fuel
  ends zero tb inside queued enough h = elim (list_cases tb.new_states) [
    | inl e ↦ let same = sym (explore-nil next zero tb e) ∙ h in cc
    | inr (p, ns, e) ↦ let len : length tb.new_states ≡ suc (length ns) = ap length e in omega arith
  ]
  ends (suc fuel) tb inside queued enough h = elim (list_cases tb.new_states) [
    | inl e ↦ let same = sym (explore-nil next (suc fuel) tb e) ∙ h in cc
    | inr (p, ns, e) ↦
        let in_states : Memᴰ p tb.states =
          queued p (subst (λ l. Memᴰ p l) (sym e) (Memᴰ.head refl)) in
        let goes = sym (explore-suc next fuel tb e) ∙ h in
        let len : length tb.new_states ≡ suc (length ns) = ap length e in
        elim (Outcome-cases (next p) (fuelled p (inside p in_states))) [
          | inl (ts, k) ↦
              let tb1 : Tables = record tb { new_states = ns } in
              let a = Adds-add_targets p ts tb1 in
              ends fuel (add_targets p ts tb1)
                (λ q m. elim (a.fresh q m) [
                  | inl old ↦ inside q old
                  | inr now ↦ closed p q (now.1.0) (inside p in_states) (ts, k, now.1.1)
                ])
                (λ q m. elim (a.queued q m) [
                  | inl old ↦
                      a.states_kept q (queued q (subst (λ l. Memᴰ q l) (sym e) (Memᴰ.tail old)))
                  | inr now ↦ now
                ])
                (omega (
                  arith,
                  left-add_targets us p ts tb1
                      (λ f q m. closed p q f (inside p in_states) (ts, k, m)),
                ))
                (subst (λ m. (m >>= λ r. explore next fuel (add_targets p r tb1)) ≡ out_of_fuel) k
                  goes)
          | inr stops ↦ stops _ goes
        ]
  ]

  -- If `us` holds the initial state and the targets of its own states, whose transitions the loop's
  -- body computes, then the loop has ended after as many rounds as `us` has states.
  pub explore-ends :
      (p0 : ProdState) → Memᴰ p0 us → explore next (length us) (start next p0) ≢ out_of_fuel
  unfolding start
  explore-ends p0 m =
      ends (length us) (start next p0) (λ p k. Memᴰ.cast (Memᴰ.eq_of_singleton k) m) (λ p k. k)
        (omega (arith, missing-start us p0 m))
