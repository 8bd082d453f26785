-- ===== src/Fsm/Codes.antt =====
-- The codes that `finalise` gives: the code of a state is the front of the codes below it.
use native.Mathlib.Nat.{
  mul-le-mul_right, mod-eq_of_lt, one-le-pow, pow-le-pow_right, div-one, div-div-eq-div-mul,
  mul-add-div_right, div-eq_of_lt,
}
use systemoc_syste_mo_c.Common.{
  ℕ, zero, suc, ◌+◌, ◌*◌, ◌/◌, ◌%◌, ◌^◌, ◌≤◌, ◌<◌, ◌≡◌, refl, sym, ap, subst, ◌∙◌, ◌⊎◌, inl, inr,
  List, [], ltb, ltb→lt, arith,
}
use systemoc_syste_mo_c.Fsm.Outcome.{ok, check, >>=-eq-ok, check-eq-ok}
use systemoc_syste_mo_c.Fsm.State.{
  Kind, PartialTransition, StateImpl, state_impl, States, no_states, state_cons, BaseStateImpl,
  code_of, bits_of, count,
}
use systemoc_syste_mo_c.Fsm.Expand.{ExpandedTransition}
use systemoc_syste_mo_c.Fsm.Finalise.{
  expand_all, check_init, child_codes, finalise, finalise_children,
}

-- `b` is `a` or stands below it.
unfoldable mutual
  pub Within : StateImpl → StateImpl → Type 0
  Within b (state_impl k i n cd bi p c) = (b ≡ state_impl k i n cd bi p c) ⊎ WithinAny b c

  pub WithinAny : StateImpl → States → Type 0
  WithinAny b no_states = ⊥
  WithinAny b (state_cons s ss) = Within b s ⊎ WithinAny b ss

-- The codes of a tree, from the code and the bits of its root.
unfoldable mutual
  pub Coded : (code bits : ℕ) → StateImpl → Type 0
  Coded code bits (state_impl k i n cd b p c) =
      (cd ≡ code)
      × (b ≡ bits)
      × ((w : ℕ) × (count c ≤ 2 ^ w) × CodedFrom (code * 2 ^ w) (w + bits) c)

  pub CodedFrom : (fc cb : ℕ) → States → Type 0
  CodedFrom fc cb no_states = Unit
  CodedFrom fc cb (state_cons s ss) = Coded fc cb s × CodedFrom (suc fc) cb ss

-- No state has 2 ^ 32 children.
unfoldable mutual
  pub IsSmall : StateImpl → Type 0
  IsSmall (state_impl k i n cd b p c) = (count c < 2 ^ 32) × AllSmall c

  pub AllSmall : States → Type 0
  AllSmall no_states = Unit
  AllSmall (state_cons s ss) = IsSmall s × AllSmall ss

pow_add : (m n : ℕ) → 2 ^ m * 2 ^ n ≡ 2 ^ (m + n)
pow_add zero n =
    let e : 0 + n ≡ n = omega arith in
    let f : 2 ^ (0 + n) ≡ 2 ^ n = ap (λ k. 2 ^ k) e in omega arith
pow_add (suc m) n =
    let e : suc m + n ≡ suc (m + n) = omega arith in
    let f : 2 ^ (suc m + n) ≡ 2 ^ suc (m + n) = ap (λ k. 2 ^ k) e in
    let ih = pow_add m n in grind arith

pow_mono : (m n : ℕ) → m ≤ n → 2 ^ m ≤ 2 ^ n
pow_mono m n h = pow-le-pow_right (omega arith) h

pow_pos : (n : ℕ) → 0 < 2 ^ n
pow_pos n = one-le-pow n 2 (omega arith)

-- A further division.
pub shift_shift : (x d e : ℕ) → x / 2 ^ d / 2 ^ e ≡ x / 2 ^ (d + e)
shift_shift x d e = div-div-eq-div-mul x (2 ^ d) (2 ^ e) ∙ ap (λ k. x / k) (pow_add d e)

shift-child : (code w i : ℕ) → i < 2 ^ w → (code * 2 ^ w + i) / 2 ^ w ≡ code
shift-child code w i h =
    mul-add-div_right (pow_pos w) code i ∙ ap (λ k. code + k) (div-eq_of_lt h) ∙ omega arith

-- The code of a state below is the code of the root, and `e` bits more.
abbrev pub Extends : (code bits : ℕ) → StateImpl → Type 0
Extends code bits b = (e : ℕ) × (bits_of b ≡ e + bits) × (code_of b / 2 ^ e ≡ code)

mutual
  unfolding Coded Within bits_of code_of count

  pub Coded-Extends :
      (code bits : ℕ) (a b : StateImpl) → Coded code bits a → Within b a → Extends code bits b
  Coded-Extends code bits (state_impl k i n cd bi p c) b (ec, eb, (w, few, h)) (inl e) =
      let same : bits_of b ≡ bi = ap bits_of e in
      (0, omega arith, div-one (code_of b) ∙ ap code_of e ∙ ec)
  Coded-Extends code bits (state_impl k i n cd bi p c) b (ec, eb, (w, few, h)) (inr m) =
      let (j, lt, (e, hb, hc)) = CodedFrom-Extends (code * 2 ^ w) (w + bits) c b h m in
      (
        e + w,
        omega arith,
        sym (shift_shift (code_of b) e w)
            ∙ ap (λ x. x / 2 ^ w) hc
            ∙ shift-child code w j (omega arith),
      )

  pub CodedFrom-Extends :
      (fc cb : ℕ) (ss : States) (b : StateImpl)
      → CodedFrom fc cb ss
      → WithinAny b ss
      → (j : ℕ) × (j < count ss) × Extends (fc + j) cb b
  CodedFrom-Extends fc cb no_states b h m = elim m [ ]
  CodedFrom-Extends fc cb (state_cons s ss) b (hs, hss) (inl m) =
      (0, omega arith, subst (λ k. Extends k cb b) (omega arith) (Coded-Extends fc cb s b hs m))
  CodedFrom-Extends fc cb (state_cons s ss) b (hs, hss) (inr m) =
      let (j, lt, x) = CodedFrom-Extends (suc fc) cb ss b hss m in
      (suc j, omega arith, subst (λ k. Extends k cb b) (omega arith) x)

-- The codes below a state do not wrap around.
code_room : (code bits w : ℕ) → code < 2 ^ bits → code * 2 ^ w + 2 ^ w ≤ 2 ^ (w + bits)
code_room code bits w h =
    let e = pow_add w bits in
    let m : suc code * 2 ^ w ≤ 2 ^ bits * 2 ^ w = mul-le-mul_right (2 ^ w) h in grind arith

below_64 : (x cb : ℕ) → cb < 64 → x < 2 ^ cb → x % 2 ^ 64 ≡ x
below_64 x cb h lt = let m = pow_mono cb 63 (omega arith) in mod-eq_of_lt (omega arith)

module _ (flog2c : ℕ → ℕ) where
  child_codes-ok :
      (enough : (n : ℕ) → n ≤ 2 ^ flog2c n) (code bits fc cb : ℕ) (c : States)
      → code < 2 ^ bits
      → bits < 64
      → count c < 2 ^ 32
      → child_codes flog2c code bits c ≡ ok (fc, cb)
      → (w : ℕ) × (count c ≤ 2 ^ w) × (fc ≡ code * 2 ^ w) × (cb ≡ w + bits) × (cb < 64)
  unfolding child_codes count
  child_codes-ok enough code bits fc cb no_states small lt few h =
      let e1 : code ≡ fc = cc in
      let e2 : bits ≡ cb = cc in (0, omega arith, omega arith, omega arith, omega arith)
  child_codes-ok enough code bits fc cb (state_cons s ss) small lt few h =
      let n : ℕ = suc (count ss) in
      let w : ℕ = flog2c (n % 2 ^ 32) in
      let (u, h1, h2) = >>=-eq-ok (check (ltb (w + bits) 64)) _ h in
      let lt' = ltb→lt (w + bits) 64 (check-eq-ok (ltb (w + bits) 64) h1) in
      let e1 : code * 2 ^ w % 2 ^ 64 ≡ fc = cc in
      let e2 : w + bits ≡ cb = cc in
      let space = code_room code bits w small in
      let some_room = pow_pos w in
      let fits = enough (n % 2 ^ 32) in
      let whole : n % 2 ^ 32 ≡ n = mod-eq_of_lt few in
      (
        w,
        subst (λ k. k ≤ 2 ^ w) whole fits,
        sym e1 ∙ below_64 (code * 2 ^ w) (w + bits) lt' (omega arith),
        sym e2,
        omega arith,
      )

  module _ (fuel : ℕ) (fsm : List BaseStateImpl) where
    pub finalise-ok :
        (code bits : ℕ) (k : Kind) (i n cd b : ℕ) (p : List PartialTransition) (c : States)
        (s' : StateImpl) (etl : List ExpandedTransition)
        → finalise flog2c fuel fsm code bits (state_impl k i n cd b p c) ≡ ok (s', etl)
        → (fc cb : ℕ) × (c' : States) × (now : List ExpandedTransition) × (child_codes flog2c code
              bits c
            ≡ ok (fc, cb))
          × (finalise_children flog2c fuel fsm fc cb c ≡ ok (c', now))
          × (s' ≡ state_impl k i n code bits p c')
    unfolding finalise
    finalise-ok code bits k i n cd b p c s' etl h =
        let (u, h1, h2) = >>=-eq-ok (check_init k) _ h in
        let ((fc, cb), h3, h4) = >>=-eq-ok (child_codes flog2c code bits c) _ h2 in
        let ((c', now), h5, h6) = >>=-eq-ok (finalise_children flog2c fuel fsm fc cb c) _ h4 in
        let (own, h7, h8) = >>=-eq-ok (expand_all flog2c fuel fsm i [] p) _ h6 in
        let e : state_impl k i n code bits p c' ≡ s' = cc in (fc, cb, c', now, h3, h5, sym e)

    pub children-ok :
        (fc cb : ℕ) (s : StateImpl) (ss ss' : States) (etl : List ExpandedTransition)
        → finalise_children flog2c fuel fsm fc cb (state_cons s ss) ≡ ok (ss', etl)
        → (s1 : StateImpl) × (now : List ExpandedTransition) × (ss1 : States) × (rest : List
            ExpandedTransition)
          × (finalise flog2c fuel fsm fc cb s ≡ ok (s1, now))
          × (finalise_children flog2c fuel fsm (suc fc % 2 ^ 64) cb ss ≡ ok (ss1, rest))
          × (ss' ≡ state_cons s1 ss1)
    unfolding finalise
    children-ok fc cb s ss ss' etl h =
        let ((s1, now), h1, h2) = >>=-eq-ok (finalise flog2c fuel fsm fc cb s) _ h in
        let ((ss1, rest), h3, h4) =
          >>=-eq-ok (finalise_children flog2c fuel fsm (suc fc % 2 ^ 64) cb ss) _ h2 in
        let e : state_cons s1 ss1 ≡ ss' = cc in (s1, now, ss1, rest, h1, h3, sym e)

    pub children-ok_none :
        (fc cb : ℕ) (ss' : States) (etl : List ExpandedTransition)
        → finalise_children flog2c fuel fsm fc cb no_states ≡ ok (ss', etl)
        → ss' ≡ no_states
    unfolding finalise
    children-ok_none fc cb ss' etl h = cc

    module _ (enough : (n : ℕ) → n ≤ 2 ^ flog2c n) where
      mutual
        unfolding IsSmall Coded count

        -- `finalise` gives such codes.
        pub finalise-Coded :
            (code bits : ℕ) (s s' : StateImpl) (etl : List ExpandedTransition)
            → code < 2 ^ bits
            → bits < 64
            → IsSmall s
            → finalise flog2c fuel fsm code bits s ≡ ok (s', etl)
            → Coded code bits s'
        finalise-Coded code bits (state_impl k i n cd b p c) s' etl small lt (few, all) h =
            let (fc, cb, c', now, h1, h2, e) = finalise-ok code bits k i n cd b p c s' etl h in
            let (w, room, ef, eb, lt') = child_codes-ok enough code bits fc cb c small lt few h1 in
            let space = code_room code bits w small in
            let t : 2 ^ cb ≡ 2 ^ (w + bits) = ap (λ k. 2 ^ k) eb in
            let (hc, same) = finalise_children-Coded fc cb c c' now lt' (omega arith) all h2 in
            subst (Coded code bits) (sym e) (
              refl,
              refl,
              (
                w,
                omega arith,
                subst (λ f. CodedFrom f (w + bits) c') ef (subst (λ k. CodedFrom fc k c') eb hc),
              ),
            )

        pub finalise_children-Coded :
            (fc cb : ℕ) (ss ss' : States) (etl : List ExpandedTransition)
            → cb < 64
            → fc + count ss ≤ 2 ^ cb
            → AllSmall ss
            → finalise_children flog2c fuel fsm fc cb ss ≡ ok (ss', etl)
            → CodedFrom fc cb ss' × (count ss' ≡ count ss)
        finalise_children-Coded fc cb no_states ss' etl lt room small h =
            let e = children-ok_none fc cb ss' etl h in
            subst (λ t. CodedFrom fc cb t × (count t ≡ 0)) (sym e) (tt, refl)
        finalise_children-Coded fc cb (state_cons s ss) ss' etl lt room (hs, hss) h =
            let (s1, now, ss1, rest, h1, h2, e) = children-ok fc cb s ss ss' etl h in
            let top = pow_mono cb 63 (omega arith) in
            let wrap : suc fc % 2 ^ 64 ≡ suc fc = mod-eq_of_lt (omega arith) in
            let first = finalise-Coded fc cb s s1 now (omega arith) lt hs h1 in
            let (later, same) =
              finalise_children-Coded (suc fc) cb ss ss1 rest lt (omega arith) hss
                (subst (λ f. finalise_children flog2c fuel fsm f cb ss ≡ ok (ss1, rest)) wrap h2) in
            subst (λ t. CodedFrom fc cb t × (count t ≡ suc (count ss))) (sym e)
              ((first, later), ap suc same)
