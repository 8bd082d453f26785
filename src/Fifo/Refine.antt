-- ===== src/Fifo/Refine.antt =====
-- The channel against a bounded list of tokens, over every sequence of communications.
use systemoc_syste_mo_c.Common.{
  ℕ, zero, suc, ◌+◌, ◌-◌, ◌≤◌, ◌<◌, ◌≡◌, refl, ap, subst, Option, none, some, List, [], ◌∷◌, ◌++◌,
  map, inl, inr, arith, length, take, drop, get_elem?, leb, lt→leb-false, le→leb, Option-cases,
  if◌then◌else◌, ◌>>=◌,
}
use systemoc_syste_mo_c.Modulo.{ModuloGroup, IsModulo}
use systemoc_syste_mo_c.Event.{EventOps, IsEvent}
use systemoc_syste_mo_c.Fifo.Store
use systemoc_syste_mo_c.Fifo.Store.{QueueWithStorage, Storage}
use systemoc_syste_mo_c.Fifo.Chan.{FifoChan}
use systemoc_syste_mo_c.Fifo.Entry
use systemoc_syste_mo_c.Fifo.Outlet
use systemoc_syste_mo_c.Fifo.Contents.{Holds, read_at-Holds}
use systemoc_syste_mo_c.Fifo.Written.{write_all}
use systemoc_syste_mo_c.Fifo.Exec.{IsReady, Ends, entry-Ends, outlet-Ends}

-- A communication: the writer puts tokens, or the reader reads a number of tokens.
pub data Op (A : Type 0) : Type 0 where
  put : List A → Op A
  get : ℕ → Op A

-- The abstract channel: what a communication reads, and the tokens after it.
unfoldable pub spec : {A : Type 0} → ℕ → List A → Op A → Option (List (Option A) × List A)
spec depth ts (put us) = if leb (length us) (depth - length ts) then some ([], ts ++ us) else none
spec depth ts (get n) = if leb n (length ts) then some (map some (take n ts), drop n ts) else none

unfoldable pub spec_run : {A : Type 0} → ℕ → List A → List (Op A) → Option (List (Option A))
unfolding spec
spec_run depth ts [] = some []
spec_run depth ts (o ∷ os) = do
  (out, us) ← spec depth ts o
  rest ← spec_run depth us os
  some (out ++ rest)

module _ {A : Type 0} where
  -- The tokens from the `j`th on through the reader's port; `none` is a place that is not valid.
  unfoldable pub reads : QueueWithStorage A → ℕ → ℕ → List (Option A)
  reads q j zero = []
  reads q j (suc n) = Store.read_at q j ∷ reads q (j + 1) n

  drop_step :
      (j : ℕ) (ts : List A)
      → j < length ts
      → (x : A) × (get_elem? ts j ≡ some x) × (drop j ts ≡ x ∷ drop (suc j) ts)
  drop_step j [] h = elim h [ ]
  drop_step zero (x ∷ ts) h = (x, refl, refl)
  drop_step (suc j) (x ∷ ts) h = drop_step j ts (omega arith)

  pub reads-Holds :
      (q : QueueWithStorage A) (ts : List A) (j n : ℕ)
      → Holds q ts
      → j + n ≤ length ts
      → reads q j n ≡ map some (take n (drop j ts))
  unfolding reads
  reads-Holds q ts j zero h le = refl
  reads-Holds q ts j (suc n) h le =
      let (x, got, split) = drop_step j ts (omega arith) in
      let e : j + 1 ≡ suc j = omega arith in
      rw (split, read_at-Holds q ts h j (omega arith), got)
        (ap (◌∷◌ (some x)) (rw e (reads-Holds q ts (suc j) n h (omega arith))))

module _ (mg : ModuloGroup) {E : Type 0} (ev : EventOps E) {A : Type 0} where
  unfoldable pub exec : FifoChan E A → Op A → Option (List (Option A) × FifoChan E A)
  exec c (put us) = do
    d ← Entry.comm_exec mg ev (length us) (record c { queue = write_all c.queue 0 us })
    some ([], d)
  exec c (get n) = do d ← Outlet.comm_exec mg ev n c; some (reads c.queue 0 n, d)

  unfoldable pub run : FifoChan E A → List (Op A) → Option (List (Option A))
  unfolding exec
  run c [] = some []
  run c (o ∷ os) = do (out, d) ← exec c o; rest ← run d os; some (out ++ rest)

module _ {mg : ModuloGroup} (im : IsModulo mg) {E : Type 0} {ev : EventOps E}
    (ie : IsEvent ev) where
  module _ {A : Type 0} where
    -- A communication reads what the abstract channel reads and leaves its tokens, or both stop.
    Matches :
        FifoChan E A
        → Option (List (Option A) × FifoChan E A)
        → Option (List (Option A) × List A)
        → Type 0
    Matches c none none = Unit {0}
    Matches c none (some b) = ⊥
    Matches c (some a) none = ⊥
    Matches c (some (out, d)) (some (out', ts)) =
        (out ≡ out') × (d.fsize ≡ c.fsize) × IsReady ev d ts

    exec-Matches :
        (c : FifoChan E A) (ts : List A) (o : Op A)
        → IsReady ev c ts
        → Matches c (exec mg ev c o) (spec (c.fsize - 1) ts o)
    unfolding exec spec Matches
    exec-Matches c ts (put us) r =
        let limit = c.fsize - 1 - length ts in
        let fact = entry-Ends im ie c ts r us in
        elim (Option-cases
          (Entry.comm_exec mg ev (length us) (record c { queue = write_all c.queue 0 us }))) [
            | inl stop ↦
                let gt = subst (λ o. Ends ev c o (length us) limit (ts ++ us)) stop fact in
                rw (stop, lt→leb-false _ _ gt) tt
            | inr (d, go) ↦
                let (le, size, r') =
                  subst (λ o. Ends ev c o (length us) limit (ts ++ us)) go fact in
                rw (go, le→leb _ _ le) (refl, size, r')
          ]
    exec-Matches c ts (get n) r =
        let fact = outlet-Ends im ie c ts r n in
        elim (Option-cases (Outlet.comm_exec mg ev n c)) [
          | inl stop ↦
              let gt = subst (λ o. Ends ev c o n (length ts) (drop n ts)) stop fact in
              rw (stop, lt→leb-false _ _ gt) tt
          | inr (d, go) ↦
              let (le, size, r') = subst (λ o. Ends ev c o n (length ts) (drop n ts)) go fact in
              rw (go, le→leb _ _ le) (reads-Holds c.queue ts 0 n r.holds (omega arith), size, r')
        ]

    run_step :
        (os : List (Op A)) (c : FifoChan E A) (x : Option (List (Option A) × FifoChan E A))
        (y : Option (List (Option A) × List A))
        → Matches c x y
        → ((d : FifoChan E A) (us : List A)
            → IsReady ev d us
            → run mg ev d os ≡ spec_run (d.fsize - 1) us os)
        → ◌≡◌ {A = Option (List (Option A))}
            (do (out, d) ← x; rest ← run mg ev d os; some (out ++ rest))
            (do (out, us) ← y; rest ← spec_run (c.fsize - 1) us os; some (out ++ rest))
    unfolding Matches
    run_step os c none none m ih = refl
    run_step os c none (some y) m ih = elim m [ ]
    run_step os c (some (out, d)) none m ih = elim m [ ]
    run_step os c (some (out, d)) (some (out', us)) m ih = rw (ih d us m.2, m.0, m.1)

    -- From a channel that holds `ts`, its events in step, no sequence of communications
    -- tells it from a list of at most `fsize - 1` tokens: they read the same, or stop both.
    pub run-spec :
        (os : List (Op A)) (c : FifoChan E A) (ts : List A)
        → IsReady ev c ts
        → run mg ev c os ≡ spec_run (c.fsize - 1) ts os
    unfolding run spec_run
    run-spec [] c ts r = refl
    run-spec (o ∷ os) c ts r =
        run_step os c (exec mg ev c o) (spec (c.fsize - 1) ts o) (exec-Matches c ts o r)
          (λ d us r'. run-spec os d us r')
