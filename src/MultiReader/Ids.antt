-- ===== src/MultiReader/Ids.antt =====
-- The ids of tokens, which count all tokens of the channel in `size_t`.
use systemoc_syste_mo_c.Common.{
  ℕ, suc, ◌+◌, ◌-◌, ◌%◌, ◌<◌, ◌≡◌, refl, ◌∙◌, ap, Option, none, some, List, [], ◌∷◌, ◌++◌, map, inl,
  inr, arith, length, length-append, Option-cases, subst, append-nil,
}
use systemoc_syste_mo_c.Modulo.{ModuloGroup, IsModulo}
use systemoc_syste_mo_c.Event.{EventOps, IsEvent}
use systemoc_syste_mo_c.Queue.Rw
use systemoc_syste_mo_c.Queue.Rw.{size_mod}
use systemoc_syste_mo_c.Queue.Two.{used_count-used, used-lt}
use systemoc_syste_mo_c.Fifo.Store
use systemoc_syste_mo_c.Fifo.Store.{QueueWithStorage}
use systemoc_syste_mo_c.Fifo.Written.{write_all}
use systemoc_syste_mo_c.Fifo.Exec.{IsReady}
use systemoc_syste_mo_c.MultiReader.Chan.{
  MultiReaderChan, consume, produce, less_space, latency_expired, more_data, more_space,
  read_consume_event_expired, in_token_id, out_token_id,
}
use systemoc_syste_mo_c.MultiReader.Ports.{
  outlet_comm_exec, outlet_comm_start, outlet_comm_finish, entry_comm_exec, entry_comm_start,
  entry_comm_finish,
}
use systemoc_syste_mo_c.MultiReader.Refine.{
  Op, put, get, exec, run, written, spec_run, Delivered, run-Delivered,
}

module _ {E A : Type 0} where
  -- The id of the next token of what is left, if anything is.
  Counts : ℕ → Option (MultiReaderChan E A) → Type 0
  Counts t none = Unit {0}
  Counts t (some d) = d.token_id ≡ t

  CountsAfter : ℕ → Option (List (ℕ × Option A) × MultiReaderChan E A) → Type 0
  CountsAfter t none = Unit {0}
  CountsAfter t (some (out, d)) = d.token_id ≡ t

module _ (mg : ModuloGroup) {E : Type 0} (ev : EventOps E) {A : Type 0} where
  entry-Counts :
      (n : ℕ) (c : MultiReaderChan E A)
      → Counts ((c.token_id + n) % size_mod) (entry_comm_exec mg ev n c)
  unfolding Counts entry_comm_exec entry_comm_start entry_comm_finish produce less_space
      latency_expired more_data
  entry-Counts n c = elim (Option-cases (Store.wpp mg c.queue n)) [
    | inl stop ↦ rw stop tt
    | inr (p, go) ↦ rw go refl
  ]

  outlet-Counts : (n : ℕ) (c : MultiReaderChan E A) → Counts c.token_id (outlet_comm_exec mg ev n c)
  unfolding Counts outlet_comm_exec outlet_comm_start outlet_comm_finish consume
      read_consume_event_expired more_space
  outlet-Counts n c = elim (Option-cases (Store.rpp mg c.queue n)) [
    | inl stop ↦ rw stop tt
    | inr (p, go) ↦ rw go refl
  ]

  exec-CountsAfter :
      (c : MultiReaderChan E A) (o : Op A)
      → c.token_id < size_mod
      → CountsAfter ((c.token_id + length (written (o ∷ []))) % size_mod) (exec mg ev c o)
  unfolding exec Counts CountsAfter written
  exec-CountsAfter c (put w us) h =
      let m : MultiReaderChan E A = record c { queue = write_all c.queue 0 us } in
      let id = entry-Counts (length us) m in
      elim (Option-cases (entry_comm_exec mg ev (length us) m)) [
        | inl stop ↦ rw stop tt
        | inr (d, go) ↦
            let id' = subst (Counts ((c.token_id + length us) % size_mod)) go id in
            rw (go, append-nil us) id'
      ]
  exec-CountsAfter c (get r n) h =
      let id = outlet-Counts n c in
      elim (Option-cases (outlet_comm_exec mg ev n c)) [
        | inl stop ↦ rw stop tt
        | inr (d, go) ↦ let id' = subst (Counts c.token_id) go id in rw go (omega (arith, id', h))
      ]

  written-length :
      (o : Op A) (os : List (Op A))
      → length (written (o ∷ os)) ≡ length (written (o ∷ [])) + length (written os)
  unfolding written
  written-length (put w us) os = rw (append-nil us) (length-append us (written os))
  written-length (get r n) os = omega arith

  run-CountsAfter :
      (os : List (Op A)) (c : MultiReaderChan E A)
      → c.token_id < size_mod
      → CountsAfter ((c.token_id + length (written os)) % size_mod) (run mg ev c os)
  unfolding run CountsAfter
  run-CountsAfter [] c h = unfold written in omega (arith, h)
  run-CountsAfter (o ∷ os) c h =
      let first = exec-CountsAfter c o h in
      let more = written-length o os in
      elim (Option-cases (exec mg ev c o)) [
        | inl stop ↦ rw stop tt
        | inr ((out, d), go) ↦
            let id =
              subst (CountsAfter ((c.token_id + length (written (o ∷ []))) % size_mod)) go first in
            let next = run-CountsAfter os d (omega (arith, id)) in
            elim (Option-cases (run mg ev d os)) [
              | inl stop ↦ rw (go, stop) tt
              | inr ((rest, e), gone) ↦
                  let id' =
                    subst (CountsAfter ((d.token_id + length (written os)) % size_mod)) gone next in
                  rw (go, gone) (omega (arith, id, id', more))
            ]
      ]

-- The ids after communications in which the writers put `puts` tokens: one more for each token that
-- was put, and for each that a reader got.
abbrev pub Ids :
    ModuloGroup
    → {E A : Type 0} → MultiReaderChan E A
    → ℕ
    → Option (List (ℕ × Option A) × MultiReaderChan E A)
    → Type 0
Ids mg c puts none = Unit {0}
Ids mg c puts (some (got, d)) =
    (out_token_id d ≡ (out_token_id c + puts) % size_mod)
    × (in_token_id mg d ≡ (in_token_id mg c + length got) % size_mod)

module _ {A B : Type 0} (f : A → B) where
  length-map : (xs : List A) → length (map f xs) ≡ length xs
  length-map [] = refl
  length-map (x ∷ xs) = ap suc (length-map xs)

module _ {mg : ModuloGroup} (im : IsModulo mg) {E : Type 0} {ev : EventOps E}
    (ie : IsEvent ev) where
  module _ {A : Type 0} where
    in_token_id-IsReady :
        (c : MultiReaderChan E A) (ts : List A)
        → IsReady ev c ts
        → (in_token_id mg c ≡ (c.token_id + size_mod - length ts) % size_mod)
          × (length ts < size_mod)
    unfolding in_token_id
    in_token_id-IsReady c ts r =
        let used : Rw.used_count mg c.ptr ≡ length ts =
          used_count-used im r.holds.valid ∙ r.holds.count in
        (
          rw used refl,
          omega (arith, r.holds.count, used-lt r.holds.valid, r.holds.valid.fsize_fits),
        )

    Delivered-Ids :
        (c : MultiReaderChan E A) (ts all : List A) (puts : ℕ)
        (x : Option (List (ℕ × Option A) × MultiReaderChan E A))
        (y : Option (List (ℕ × A) × List A))
        → IsReady ev c ts
        → c.token_id < size_mod
        → length all ≡ length ts + puts
        → CountsAfter ((c.token_id + puts) % size_mod) x
        → Delivered ev c y all x
        → Ids mg c puts x
    unfolding CountsAfter out_token_id
    Delivered-Ids c ts all puts none y r h sum id m = tt
    Delivered-Ids c ts all puts (some x) none r h sum id m = elim m [ ]
    Delivered-Ids c ts all puts (some (got, d)) (some (out, us)) r h sum id
          (same, split, size, r') =
        let (start, few) = in_token_id-IsReady c ts r in
        let (end, few') = in_token_id-IsReady d us r' in
        let gots : length got ≡ length out =
          ap length same ∙ length-map (λ p. (p.0, some p.1)) out in
        let total : length all ≡ length out + length us =
          ap length split
          ∙ length-append (map (λ p. p.1) out) us
          ∙ ap (λ n. n + length us) (length-map (λ p. p.1) out) in
        (id, rw (start, end) (omega (arith, id, gots, total, sum, few, few', h)))

    -- From a channel that holds `ts`, its events in step, every order of communications that does not
    -- stop raises `outTokenId` by the number of tokens that the writers put, and `inTokenId` by the number
    -- of tokens that the readers got, both in `size_t`, also where the count has wrapped around.
    pub run-Ids :
        (os : List (Op A)) (c : MultiReaderChan E A) (ts : List A)
        → IsReady ev c ts
        → c.token_id < size_mod
        → Ids mg c (length (written os)) (run mg ev c os)
    run-Ids os c ts r h =
        Delivered-Ids c ts (ts ++ written os) (length (written os)) (run mg ev c os)
          (spec_run (c.fsize - 1) ts os) r h (length-append ts (written os))
          (run-CountsAfter mg ev os c h) (run-Delivered im ie os c ts r)
