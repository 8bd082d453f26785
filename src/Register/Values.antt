-- ===== src/Register/Values.antt =====
-- Which value the readers of a register get.
use systemoc_syste_mo_c.Common.{
  ℕ, ◌≡◌, refl, Option, none, some, List, [], ◌∷◌, ◌++◌, ◌>>=◌, map, replicate, length,
  append_assoc, inl, inr, Option-cases, ◌≤◌, le→leb,
}
use systemoc_syste_mo_c.Fifo.Store.{put, invalidate}
use systemoc_syste_mo_c.Register.Chan.{
  RegisterInit, RegisterChan, new, do_reset, start_of_simulation, get_on_demand,
}
use systemoc_syste_mo_c.Register.Ports.{
  Op, write, read, write_at, read_at, comm_exec, comm_start, comm_finish, exec, run,
}

module _ {A : Type 0} (default : Option A) where
  after : List (Op A) → Option (List A × RegisterChan A) → Option (List A × RegisterChan A)
  after ps x = do (got, d) ← x; (rest, e) ← run default d ps; some (got ++ rest, e)

  after-cons :
      (ps : List (Op A)) (out : List A) (x : Option (List A × RegisterChan A))
      → ◌≡◌ {A = Option (List A × RegisterChan A)}
          (do (rest, e) ← after ps x; some (out ++ rest, e))
          (after ps (do (rest, e) ← x; some (out ++ rest, e)))
  unfolding after
  after-cons ps out none = refl
  after-cons ps out (some (got, d)) = elim (Option-cases (run default d ps)) [
    | inl stop ↦ rw stop refl
    | inr ((rest, e), go) ↦ rw (go, append_assoc out got rest) refl
  ]

  run-append :
      (os ps : List (Op A)) (c : RegisterChan A)
      → run default c (os ++ ps) ≡ after ps (run default c os)
  unfolding run after
  run-append [] ps c = elim (Option-cases (run default c ps)) [
    | inl stop ↦ rw stop refl
    | inr (p, go) ↦ rw go refl
  ]
  run-append (o ∷ os) ps c = elim (Option-cases (exec default c o)) [
    | inl stop ↦ rw stop refl
    | inr ((out, d), go) ↦ rw (go, run-append os ps d) (after-cons ps out (run default d os))
  ]

  -- Readers of a register that holds `t` get it, each of them, and leave it there.
  run-reads :
      (rs : List ℕ) (c : RegisterChan A) (t : A)
      → run default (record c { actual_value = some t }) (map read rs)
        ≡ some (replicate (length rs) t, record c { actual_value = some t })
  unfolding run exec read_at get_on_demand comm_exec comm_start comm_finish
  run-reads [] c t = refl
  run-reads (r ∷ rs) c t = rw (run-reads rs c t) refl

  -- Whatever the writers and readers of a register did before, after a writer put `t` every reader
  -- gets `t`, however many read and however often, and the register still holds it. The whole stops
  -- exactly if what was done before stops.
  pub run-reads_written :
      (os : List (Op A)) (w : ℕ) (t : A) (rs : List ℕ) (c : RegisterChan A)
      → ◌≡◌ {A = Option (List A × RegisterChan A)}
          (run default c (os ++ write w t ∷ map read rs))
          (do
            (got, d) ← run default c os
            some (got ++ replicate (length rs) t, record d { actual_value = some t }))
  unfolding run exec write_at put comm_exec comm_start comm_finish after
  run-reads_written os w t rs c =
      rw (run-append os (write w t ∷ map read rs) c) (elim (Option-cases (run default c os)) [
        | inl stop ↦ rw stop refl
        | inr ((got, d), go) ↦ rw (go, run-reads rs d t) refl
      ])

-- An initial token of a register never gets to a reader: the reset at the start of the simulation
-- takes it away. The first reader gets a default value, where the type has one, and else stops,
-- whether the register was given an initial token or not.
pub new-read_at :
    {A : Type 0} (default : Option A) (i : RegisterInit A)
    → length i.marking ≤ 1
    → (do c ← new i; (t, d) ← read_at default 0 (start_of_simulation c); some t) ≡ default
unfolding new start_of_simulation do_reset invalidate read_at get_on_demand
new-read_at none i h = rw (le→leb (length i.marking) 1 h) refl
new-read_at (some t) i h = rw (le→leb (length i.marking) 1 h) refl
