-- ===== src/Fsm/Ancestors.antt =====
-- `StateImpl::isAncestor` against the tree: the test on codes finds the states below a state.
use systemoc_syste_mo_c.Common.{
  ℕ, zero, suc, ◌+◌, ◌-◌, ◌*◌, ◌%◌, ◌/◌, ◌^◌, ◌≤◌, ◌<◌, ◌≡◌, ◌≢◌, sym, ap, subst, ◌∙◌, ◌⊎◌, inl,
  inr, ◌↔◌, true, false, List, ltb, arith,
}
use systemoc_syste_mo_c.Fsm.Outcome.{ok, check, >>=-eq-ok}
use systemoc_syste_mo_c.Fsm.State.{
  Kind, PartialTransition, StateImpl, state_impl, States, no_states, state_cons, BaseStateImpl,
  id_of, code_of, bits_of, count, children_of, is_ancestor,
}
use systemoc_syste_mo_c.Fsm.Expand.{ExpandedTransition}
use systemoc_syste_mo_c.Fsm.Finalise.{finalise, child_codes}
use systemoc_syste_mo_c.Fsm.Codes.{
  Within, WithinAny, Coded, CodedFrom, IsSmall, Extends, Coded-Extends, CodedFrom-Extends,
  shift_shift, finalise-Coded, finalise-ok, children-ok, children-ok_none,
}

-- The test on the codes.
abbrev Front : StateImpl → StateImpl → Type 0
Front a b = (bits_of a < bits_of b) × (code_of a ≡ code_of b / 2 ^ (bits_of b - bits_of a))

-- What the test computes.
is_ancestor_iff : (a b : StateImpl) → (is_ancestor a b ≡ true) ↔ ((id_of b ≡ id_of a) ⊎ Front a b)
unfolding is_ancestor
is_ancestor_iff a b = ground arith

-- States under two children have different fronts.
apart :
    (fa fb cb : ℕ) (a b : StateImpl)
    → fa < fb ⊎ fb < fa
    → Extends fa cb a
    → Extends fb cb b
    → Front a b
    → ⊥
apart fa fb cb a b ne (ea, ha, ka) (eb, hb, kb) (lt, front) =
    let d : ℕ = bits_of b - bits_of a in
    let e : d + ea ≡ eb = omega arith in
    let chain : code_of a / 2 ^ ea ≡ code_of b / 2 ^ eb =
      ap (λ x. x / 2 ^ ea) front ∙ shift_shift (code_of b) d ea ∙ ap (λ k. code_of b / 2 ^ k) e in
    omega arith

mutual
  unfolding Coded Within count bits_of

  Front-Within :
      (code bits : ℕ) (top a b : StateImpl)
      → Coded code bits top
      → Within a top
      → Within b top
      → Front a b
      → Within b a
  Front-Within code bits (state_impl k i n cd bi p c) a b h (inl e) mb front =
      subst (Within b) (sym e) mb
  Front-Within code bits (state_impl k i n cd bi p c) a b (ec, eb, (w, few, h)) (inr ma) (inl e)
        (lt, front) =
      let (j, small, (x, ha, ka)) = CodedFrom-Extends (code * 2 ^ w) (w + bits) c a h ma in
      let same : bits_of b ≡ bi = ap bits_of e in absurd (omega arith)
  Front-Within code bits (state_impl k i n cd bi p c) a b (ec, eb, (w, few, h)) (inr ma) (inr mb)
        front =
      Front-WithinAny (code * 2 ^ w) (w + bits) c a b h ma mb front

  Front-WithinAny :
      (fc cb : ℕ) (ss : States) (a b : StateImpl)
      → CodedFrom fc cb ss
      → WithinAny a ss
      → WithinAny b ss
      → Front a b
      → Within b a
  Front-WithinAny fc cb no_states a b h ma mb front = elim ma [ ]
  Front-WithinAny fc cb (state_cons s ss) a b (hs, hss) (inl ma) (inl mb) front =
      Front-Within fc cb s a b hs ma mb front
  Front-WithinAny fc cb (state_cons s ss) a b (hs, hss) (inr ma) (inr mb) front =
      Front-WithinAny (suc fc) cb ss a b hss ma mb front
  Front-WithinAny fc cb (state_cons s ss) a b (hs, hss) (inl ma) (inr mb) front =
      let (j, lt, x) = CodedFrom-Extends (suc fc) cb ss b hss mb in
      absurd
        (apart fc (suc fc + j) cb a b (inl (omega arith)) (Coded-Extends fc cb s a hs ma) x front)
  Front-WithinAny fc cb (state_cons s ss) a b (hs, hss) (inr ma) (inl mb) front =
      let (j, lt, x) = CodedFrom-Extends (suc fc) cb ss a hss ma in
      absurd
        (apart (suc fc + j) fc cb a b (inr (omega arith)) x (Coded-Extends fc cb s b hs mb) front)

-- The codes of the states in a coded tree are those of its root.
mutual
  unfolding Coded Within

  Within-Coded :
      (code bits : ℕ) (top a : StateImpl)
      → Coded code bits top
      → Within a top
      → (fc cb : ℕ) × Coded fc cb a
  Within-Coded code bits (state_impl k i n cd bi p c) a h (inl e) =
      (code, bits, subst (Coded code bits) (sym e) h)
  Within-Coded code bits (state_impl k i n cd bi p c) a (ec, eb, (w, few, h)) (inr m) =
      WithinAny-Coded (code * 2 ^ w) (w + bits) c a h m

  WithinAny-Coded :
      (fc cb : ℕ) (ss : States) (a : StateImpl)
      → CodedFrom fc cb ss
      → WithinAny a ss
      → (gc gb : ℕ) × Coded gc gb a
  WithinAny-Coded fc cb no_states a h m = elim m [ ]
  WithinAny-Coded fc cb (state_cons s ss) a (hs, hss) (inl m) = Within-Coded fc cb s a hs m
  WithinAny-Coded fc cb (state_cons s ss) a (hs, hss) (inr m) =
      WithinAny-Coded (suc fc) cb ss a hss m

own_codes :
    (code bits : ℕ) (a : StateImpl) → Coded code bits a → (code_of a ≡ code) × (bits_of a ≡ bits)
unfolding Coded code_of bits_of
own_codes code bits (state_impl k i n cd bi p c) (ec, eb, h) = (ec, eb)

-- A state below has the front.
Within-Front :
    (code bits : ℕ) (a b : StateImpl)
    → Coded code bits a
    → Within b a
    → bits_of a < bits_of b
    → Front a b
Within-Front code bits a b h m lt =
    let (ec, eb) = own_codes code bits a h in
    let (e, hb, hc) = Coded-Extends code bits a b h m in
    let d : bits_of b - bits_of a ≡ e = omega arith in
    (lt, ec ∙ sym hc ∙ ap (λ k. code_of b / 2 ^ k) (sym d))

bits_needed : (n w : ℕ) → 2 ≤ n → n ≤ 2 ^ w → 0 < w
bits_needed n zero h k = absurd (omega arith)
bits_needed n (suc w) h k = omega arith

-- A state below a state with two children has more bits.
more_bits :
    (code bits : ℕ) (a b : StateImpl)
    → Coded code bits a
    → 2 ≤ count (children_of a)
    → WithinAny b (children_of a)
    → bits_of a < bits_of b
unfolding Coded children_of bits_of
more_bits code bits (state_impl k i n cd bi p c) b (ec, eb, (w, few, h)) two m =
    let (j, lt, (e, hb, kb)) = CodedFrom-Extends (code * 2 ^ w) (w + bits) c b h m in
    omega (arith, bits_needed (count c) w two few)

children-Within : (a b : StateImpl) → WithinAny b (children_of a) → Within b a
unfolding Within children_of
children-Within (state_impl k i n cd bi p c) b m = inr m

module _ (flog2c : ℕ → ℕ) (enough : (n : ℕ) → n ≤ 2 ^ flog2c n) (fuel : ℕ)
    (fsm : List BaseStateImpl) (code bits : ℕ) (s top : StateImpl) (etl : List ExpandedTransition)
    (small : code < 2 ^ bits) (few_bits : bits < 64) (few : IsSmall s)
    (done : finalise flog2c fuel fsm code bits s ≡ ok (top, etl)) where
  coded : Coded code bits top
  coded = finalise-Coded flog2c fuel fsm enough code bits s top etl small few_bits few done

  -- Let `flog2c n` bits be enough for `n` values, and let `finalise` succeed on a tree whose root has
  -- less than 64 bits and a code that fits in them, and whose states have less than 2 ^ 32 children
  -- each. Then `isAncestor` of two states of the result holds exactly if they are the same object, or
  -- the second has more bits and stands in the tree below the first.
  pub is_ancestor-Within :
      (a b : StateImpl)
      → Within a top
      → Within b top
      → (is_ancestor a b ≡ true) ↔ ((id_of b ≡ id_of a) ⊎ ((bits_of a < bits_of b) × Within b a))
  is_ancestor-Within a b ma mb =
      let (fc, cb, ha) = Within-Coded code bits top a coded ma in
      let i = is_ancestor_iff a b in
      (
        λ h. elim (i.0 h) [
          | inl e ↦ inl e
          | inr front ↦ inr (front.0, Front-Within code bits top a b coded ma mb front)
        ],
        λ h. elim h [
          | inl e ↦ i.1 (inl e)
          | inr m ↦ i.1 (inr (Within-Front fc cb a b ha (m.1) (m.0)))
        ],
      )

  -- Let `flog2c n` bits be enough for `n` values, and let `finalise` succeed on a tree whose root
  -- has less than 64 bits and a code that fits in them, and whose states have less than 2 ^ 32
  -- children each. Then a state of the result with two children or more is an ancestor, by
  -- `isAncestor`, of every state below it.
  pub is_ancestor-below :
      (a b : StateImpl)
      → Within a top
      → 2 ≤ count (children_of a)
      → WithinAny b (children_of a)
      → is_ancestor a b ≡ true
  is_ancestor-below a b ma two m =
      let (fc, cb, ha) = Within-Coded code bits top a coded ma in
      (is_ancestor_iff a b).1
        (inr (Within-Front fc cb a b ha (children-Within a b m) (more_bits fc cb a b ha two m)))

finalise-own :
    (flog2c : ℕ → ℕ) (fuel : ℕ) (fsm : List BaseStateImpl) (code bits : ℕ) (s t : StateImpl)
    (etl : List ExpandedTransition)
    → finalise flog2c fuel fsm code bits s ≡ ok (t, etl)
    → (id_of t ≡ id_of s) × (bits_of t ≡ bits)
unfolding id_of bits_of
finalise-own flog2c fuel fsm code bits (state_impl k i n cd b p c) t etl h =
    let (fc, cb, c', now, h1, h2, e) =
      finalise-ok flog2c fuel fsm code bits k i n cd b p c t etl h in
    (ap id_of e, ap bits_of e)

same_bits-is_ancestor :
    (a b : StateImpl) → id_of b ≢ id_of a → bits_of b ≡ bits_of a → is_ancestor a b ≡ false
unfolding is_ancestor
same_bits-is_ancestor a b ne e = ground arith

-- Let one value need no bit, `flog2c 1 ≡ 0`, and let `finalise` succeed on a state with exactly one
-- child, which is another object. Then the result has one child, and by `isAncestor` the state is no
-- ancestor of it.
pub is_ancestor-only_child :
    (flog2c : ℕ → ℕ) (fuel : ℕ) (fsm : List BaseStateImpl) (code bits : ℕ) (k : Kind) (i n cd b : ℕ)
    (p : List PartialTransition) (s a : StateImpl) (etl : List ExpandedTransition)
    → flog2c 1 ≡ 0
    → id_of s ≢ i
    → finalise flog2c fuel fsm code bits (state_impl k i n cd b p (state_cons s no_states))
      ≡ ok (a, etl)
    → (t : StateImpl) × (children_of a ≡ state_cons t no_states) × (is_ancestor a t ≡ false)
unfolding child_codes count children_of id_of bits_of
is_ancestor-only_child flog2c fuel fsm code bits k i n cd b p s a etl none ne h =
    let (fc, cb, c', now, h1, h2, e) =
      finalise-ok flog2c fuel fsm code bits k i n cd b p (state_cons s no_states) a etl h in
    let (t, here, ss1, rest, h3, h4, e2) =
      children-ok flog2c fuel fsm fc cb s no_states c' now h2 in
    let e3 = children-ok_none flog2c fuel fsm (suc fc % 2 ^ 64) cb ss1 rest h4 in
    let (u, k1, k2) = >>=-eq-ok (check (ltb (flog2c (1 % 2 ^ 32) + bits) 64)) _ h1 in
    let same_bits : flog2c (1 % 2 ^ 32) + bits ≡ cb = cc in
    let (own_id, own_bits) = finalise-own flog2c fuel fsm fc cb s t here h3 in
    let id_a : id_of a ≡ i = ap id_of e in
    let bits_a : bits_of a ≡ bits = ap bits_of e in
    (
      t,
      ap children_of e ∙ e2 ∙ ap (state_cons t) e3,
      same_bits-is_ancestor a t (λ q. ne (sym own_id ∙ q ∙ id_a)) (omega arith),
    )
