-- ===== src/Fsm/Sets.antt =====
-- Sets of pointers below a bound: their insertion, and the list of all of them.
use mathlib.Core.List.{Memᴰ}
use mathlib.Core.List.Memᴰ
use systemoc_syste_mo_c.Common.{
  ℕ, zero, suc, ◌+◌, ◌≤◌, ◌<◌, ◌≡◌, refl, sym, ap, subst, inl, inr, List, [], ◌∷◌, ◌++◌, map,
  length, length-append, ◌^◌, ltb, ltb→lt, ltb-false→le, ◌==◌, ==_iff, Bool-cases, arith,
}
use systemoc_syste_mo_c.Fsm.State.{set_insert}
use systemoc_syste_mo_c.Fsm.Config.{ProdState}

-- The elements ascend, from `lo` on and below `hi`.
unfoldable pub IsSetFrom : (lo hi : ℕ) → ProdState → Type 0
IsSetFrom lo hi [] = Unit
IsSetFrom lo hi (x ∷ xs) = (lo ≤ x) × (x < hi) × IsSetFrom (suc x) hi xs

pub set_insert-IsSetFrom :
    (lo hi x : ℕ) (xs : ProdState)
    → lo ≤ x
    → x < hi
    → IsSetFrom lo hi xs
    → IsSetFrom lo hi (set_insert x xs)
unfolding IsSetFrom set_insert
set_insert-IsSetFrom lo hi x [] h k s = (h, k, tt)
set_insert-IsSetFrom lo hi x (y ∷ ys) h k (a, b, s) = elim (Bool-cases (ltb x y)) [
  | inl e ↦ rw e (h, k, (ltb→lt x y e, b, s))
  | inr e ↦ elim (Bool-cases (x == y)) [
    | inl q ↦ rw e (rw q (a, b, s))
    | inr q ↦
        let ge = ltb-false→le x y e in
        let ne : (x ≡ y) → ⊥ = λ z. let t = (==_iff x y).1 z in cc in
        rw e (rw q (a, b, set_insert-IsSetFrom (suc y) hi x ys (omega arith) k s))
  ]
]

-- All sets from `lo` on, below `lo + n`.
pub subsets : (lo n : ℕ) → List ProdState
subsets lo zero = [] ∷ []
subsets lo (suc n) = subsets (suc lo) n ++ map (λ p. lo ∷ p) (subsets (suc lo) n)

length-map {ℓ κ} : {A : Type ℓ} {B : Type κ} (f : A → B) (l : List A) → length (map f l) ≡ length l
length-map f [] = refl
length-map f (x ∷ l) = ap suc (length-map f l)

pub length-subsets : (lo n : ℕ) → length (subsets lo n) ≡ 2 ^ n
unfolding subsets
length-subsets lo zero = refl
length-subsets lo (suc n) =
    let p : ProdState → ProdState = λ q. lo ∷ q in
    omega (
      arith,
      length-append (subsets (suc lo) n) (map p (subsets (suc lo) n)),
      length-map p (subsets (suc lo) n),
      length-subsets (suc lo) n,
    )

mem-map {ℓ κ} :
    {A : Type ℓ} {B : Type κ} (f : A → B) (a : A) (l : List A) → Memᴰ a l → Memᴰ (f a) (map f l)
mem-map f a (x ∷ l) (Memᴰ.head e) = Memᴰ.head (ap f e)
mem-map f a (x ∷ l) (Memᴰ.tail m) = Memᴰ.tail (mem-map f a l m)
mem-map f a [] m = absurd (Memᴰ.not-nil m)

weaken : (lo lo' hi : ℕ) (p : ProdState) → lo' ≤ lo → IsSetFrom lo hi p → IsSetFrom lo' hi p
unfolding IsSetFrom
weaken lo lo' hi [] h s = tt
weaken lo lo' hi (x ∷ xs) h (a, b, s) = (omega arith, b, s)

pub subsets-IsSetFrom : (lo n : ℕ) (p : ProdState) → IsSetFrom lo (lo + n) p → Memᴰ p (subsets lo n)
unfolding IsSetFrom subsets
subsets-IsSetFrom lo zero [] s = Memᴰ.head refl
subsets-IsSetFrom lo zero (x ∷ xs) (a, b, s) = absurd (omega arith)
subsets-IsSetFrom lo (suc n) [] s = Memᴰ.append_left _ (subsets-IsSetFrom (suc lo) n [] tt)
subsets-IsSetFrom lo (suc n) (x ∷ xs) (a, b, s) =
    let e : lo + suc n ≡ suc lo + n = omega arith in
    let s' = subst (λ k. IsSetFrom (suc x) k xs) e s in
    elim (Bool-cases (ltb lo x)) [
      | inl h ↦
          let lt = ltb→lt lo x h in
          Memᴰ.append_left _ (subsets-IsSetFrom (suc lo) n (x ∷ xs) (lt, omega arith, s'))
      | inr h ↦
          let ge = ltb-false→le lo x h in
          let same : lo ≡ x = omega arith in
          Memᴰ.append_right (subsets (suc lo) n) (
            subst (λ y. Memᴰ (y ∷ xs) (map (λ p. lo ∷ p) (subsets (suc lo) n))) same
              (mem-map (λ p. lo ∷ p) xs (subsets (suc lo) n)
                (subsets-IsSetFrom (suc lo) n xs
                  (subst (λ k. IsSetFrom k (suc lo + n) xs) (ap suc (sym same)) s'))))
    ]
