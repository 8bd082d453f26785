-- ===== src/MultiReader/Refine.antt =====
-- Several readers and writers against one bounded list of tokens, over every order of their
-- communications.
use mathlib.Core.List.{map-append}
use systemoc_syste_mo_c.Common.{
  ℕ, zero, suc, ◌-◌, ◌≡◌, refl, sym, ap, ◌∙◌, subst, Option, none, some, List, [], ◌∷◌, ◌++◌,
  append_assoc, append-nil, map, inl, inr, arith, length, take, drop, leb, lt→leb-false, le→leb,
  Option-cases, if◌then◌else◌, ◌>>=◌,
}
use systemoc_syste_mo_c.Modulo.{ModuloGroup, IsModulo}
use systemoc_syste_mo_c.Event.{EventOps, IsEvent}
use systemoc_syste_mo_c.Fifo.Written.{write_all}
use systemoc_syste_mo_c.Fifo.Exec.{IsReady, Ends}
use systemoc_syste_mo_c.Fifo.Refine.{reads, reads-Holds}
use systemoc_syste_mo_c.MultiReader.Chan.{MultiReaderChan}
use systemoc_syste_mo_c.MultiReader.Ports.{outlet_comm_exec, entry_comm_exec}
use systemoc_syste_mo_c.MultiReader.Exec.{outlet-Renotifies, write-Ends}

-- A communication: a writer puts tokens, or a reader reads a number of tokens. Ports are numbers.
pub data Op (A : Type 0) : Type 0 where
  put : ℕ → List A → Op A
  get : ℕ → ℕ → Op A

-- All tokens that are put, in order.
unfoldable pub written : {A : Type 0} → List (Op A) → List A
written [] = []
written (put w us ∷ os) = us ++ written os
written (get r n ∷ os) = written os

-- The abstract channel: which reader gets which token, and the tokens after it.
unfoldable pub spec : {A : Type 0} → ℕ → List A → Op A → Option (List (ℕ × A) × List A)
spec depth ts (put w us) = if leb (length us) (depth - length ts) then some ([], ts ++ us) else none
spec depth ts (get r n) =
    if leb n (length ts) then some (map (λ x. (r, x)) (take n ts), drop n ts) else none

unfoldable pub spec_run : {A : Type 0} → ℕ → List A → List (Op A) → Option (List (ℕ × A) × List A)
unfolding spec
spec_run depth ts [] = some ([], ts)
spec_run depth ts (o ∷ os) = do
  (out, us) ← spec depth ts o
  (rest, vs) ← spec_run depth us os
  some (out ++ rest, vs)

module _ (mg : ModuloGroup) {E : Type 0} (ev : EventOps E) {A : Type 0} where
  -- `none` in place of a token is a place that is not valid.
  unfoldable pub exec :
      MultiReaderChan E A → Op A → Option (List (ℕ × Option A) × MultiReaderChan E A)
  exec c (put w us) = do
    d ← entry_comm_exec mg ev (length us) (record c { queue = write_all c.queue 0 us })
    some ([], d)
  exec c (get r n) = do
    d ← outlet_comm_exec mg ev n c
    some (map (λ t. (r, t)) (reads c.queue 0 n), d)

  unfoldable pub run :
      MultiReaderChan E A → List (Op A) → Option (List (ℕ × Option A) × MultiReaderChan E A)
  unfolding exec
  run c [] = some ([], c)
  run c (o ∷ os) = do (out, d) ← exec c o; (rest, e) ← run d os; some (out ++ rest, e)

module _ {A : Type 0} where
  abbrev present : List (ℕ × A) → List (ℕ × Option A)
  present = map (λ p. (p.0, some p.1))

  abbrev tokens : List (ℕ × A) → List A
  tokens = map (λ p. p.1)

  present-append : (xs ys : List (ℕ × A)) → present (xs ++ ys) ≡ present xs ++ present ys
  present-append xs ys = map-append _ xs ys

  tokens-append : (xs ys : List (ℕ × A)) → tokens (xs ++ ys) ≡ tokens xs ++ tokens ys
  tokens-append xs ys = map-append _ xs ys

  tokens-label : (r n : ℕ) (ts : List A) → ts ≡ tokens (map (λ x. (r, x)) (take n ts)) ++ drop n ts
  tokens-label r zero ts = refl
  tokens-label r (suc n) [] = refl
  tokens-label r (suc n) (t ∷ ts) = ap (◌∷◌ t) (tokens-label r n ts)

  present-label :
      (r : ℕ) (ts : List A) → map (λ t. (r, t)) (map some ts) ≡ present (map (λ x. (r, x)) ts)
  present-label r [] = refl
  present-label r (t ∷ ts) = ap (◌∷◌ (r, some t)) (present-label r ts)

module _ {E : Type 0} (ev : EventOps E) {A : Type 0} where
  -- The channel and the abstract one stop both, or the same readers got the same tokens, the channel
  -- is left with the tokens `us`, and `all` is what the readers got, in order, and then `us`.
  abbrev pub Delivered :
      MultiReaderChan E A
      → Option (List (ℕ × A) × List A)
      → List A
      → Option (List (ℕ × Option A) × MultiReaderChan E A)
      → Type 0
  Delivered c none all none = Unit {0}
  Delivered c none all (some b) = ⊥
  Delivered c (some a) all none = ⊥
  Delivered c (some (out, us)) all (some (got, d)) =
      (got ≡ map (λ p. (p.0, some p.1)) out)
      × (all ≡ map (λ p. p.1) out ++ us)
      × (d.fsize ≡ c.fsize)
      × IsReady ev d us

module _ {mg : ModuloGroup} (im : IsModulo mg) {E : Type 0} {ev : EventOps E}
    (ie : IsEvent ev) where
  module _ {A : Type 0} where
    exec-Delivered :
        (c : MultiReaderChan E A) (ts : List A) (o : Op A)
        → IsReady ev c ts
        → Delivered ev c (spec (c.fsize - 1) ts o) (ts ++ written (o ∷ [])) (exec mg ev c o)
    unfolding exec spec written
    exec-Delivered c ts (put w us) r =
        let limit = c.fsize - 1 - length ts in
        let fact = write-Ends im ie c ts r us in
        elim (Option-cases
          (entry_comm_exec mg ev (length us) (record c { queue = write_all c.queue 0 us }))) [
            | inl stop ↦
                let gt = subst (λ o. Ends ev c o (length us) limit (ts ++ us)) stop fact in
                rw (stop, lt→leb-false _ _ gt) tt
            | inr (d, go) ↦
                let (le, size, r') =
                  subst (λ o. Ends ev c o (length us) limit (ts ++ us)) go fact in
                rw (go, le→leb _ _ le) (refl, ap (◌++◌ ts) (append-nil us), size, r')
          ]
    exec-Delivered c ts (get r n) ready =
        let fact = (outlet-Renotifies im ie c ts ready n).0 in
        elim (Option-cases (outlet_comm_exec mg ev n c)) [
          | inl stop ↦
              let gt = subst (λ o. Ends ev c o n (length ts) (drop n ts)) stop fact in
              rw (stop, lt→leb-false _ _ gt) tt
          | inr (d, go) ↦
              let (le, size, r') = subst (λ o. Ends ev c o n (length ts) (drop n ts)) go fact in
              rw (go, le→leb _ _ le)
                (
                  ap (map (λ t. (r, t))) (reads-Holds c.queue ts 0 n ready.holds (omega arith))
                      ∙ present-label r (take n ts),
                  append-nil ts ∙ tokens-label r n ts,
                  size,
                  r',
                )
        ]

    run_step :
        (os : List (Op A)) (c : MultiReaderChan E A) (all : List A)
        (x : Option (List (ℕ × Option A) × MultiReaderChan E A))
        (y : Option (List (ℕ × A) × List A))
        → Delivered ev c y all x
        → ((d : MultiReaderChan E A) (us : List A)
            → IsReady ev d us
            → Delivered ev d (spec_run (d.fsize - 1) us os) (us ++ written os) (run mg ev d os))
        → Delivered ev c
            (do (out, us) ← y; (rest, vs) ← spec_run (c.fsize - 1) us os; some (out ++ rest, vs))
            (all ++ written os)
            (do (out, d) ← x; (rest, e) ← run mg ev d os; some (out ++ rest, e))
    run_step os c all none none m ih = tt
    run_step os c all none (some y) m ih = elim m [ ]
    run_step os c all (some x) none m ih = elim m [ ]
    run_step os c all (some (got, d)) (some (out, us)) (same, split, size, r) ih =
        after (run mg ev d os) (spec_run (c.fsize - 1) us os) (
          subst (λ f. Delivered ev d (spec_run (f - 1) us os) (us ++ written os) (run mg ev d os))
            size (ih d us r))
      where
        after :
            (x : Option (List (ℕ × Option A) × MultiReaderChan E A))
            (y : Option (List (ℕ × A) × List A))
            → Delivered ev d y (us ++ written os) x
            → Delivered ev c
                (do (rest, vs) ← y; some (out ++ rest, vs))
                (all ++ written os)
                (do (rest, e) ← x; some (got ++ rest, e))
        after none none m = tt
        after none (some y) m = elim m [ ]
        after (some x) none m = elim m [ ]
        after (some (got', e)) (some (out', vs)) (same', split', size', r') = (
          ap (λ g. g ++ got') same ∙ ap (◌++◌ (present out)) same' ∙ sym (present-append out out'),
          ap (λ a. a ++ written os) split
              ∙ append_assoc (tokens out) us (written os)
              ∙ ap (◌++◌ (tokens out)) split'
              ∙ sym (append_assoc (tokens out) (tokens out') vs)
              ∙ ap (λ a. a ++ vs) (sym (tokens-append out out')),
          size' ∙ size,
          r',
        )

    written-cons :
        (ts : List A) (o : Op A) (os : List (Op A))
        → (ts ++ written (o ∷ [])) ++ written os ≡ ts ++ written (o ∷ os)
    unfolding written
    written-cons ts (put w us) os =
        append_assoc ts (us ++ []) (written os) ∙ ap (λ v. ts ++ (v ++ written os)) (append-nil us)
    written-cons ts (get r n) os = ap (λ v. v ++ written os) (append-nil ts)

    -- From a channel that holds `ts`, its events in step, no order of communications of its readers
    -- and writers tells it from one list of at most `fsize - 1` tokens: both stop at the same
    -- communication, or every reader gets the same tokens from both. Then `ts` and the tokens of all
    -- writers, in order, are the tokens of all readers, in order, and those left in the
    -- channel, so that each token goes to one reader.
    pub run-Delivered :
        (os : List (Op A)) (c : MultiReaderChan E A) (ts : List A)
        → IsReady ev c ts
        → Delivered ev c (spec_run (c.fsize - 1) ts os) (ts ++ written os) (run mg ev c os)
    unfolding run spec_run written
    run-Delivered [] c ts r = (refl, append-nil ts, refl, r)
    run-Delivered (o ∷ os) c ts r =
        subst
          (λ all. Delivered ev c (spec_run (c.fsize - 1) ts (o ∷ os)) all (run mg ev c (o ∷ os)))
          (written-cons ts o os)
          (run_step os c (ts ++ written (o ∷ [])) (exec mg ev c o) (spec (c.fsize - 1) ts o)
            (exec-Delivered c ts o r) (λ d us r'. run-Delivered os d us r'))
