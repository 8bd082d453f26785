-- ===== src/Register/Ports.antt =====
-- RegisterEntry and RegisterOutlet: the end of a writer and that of a reader.
use systemoc_syste_mo_c.Common.{
  ℕ, Bool, true, false, Option, none, some, List, [], ◌∷◌, ◌++◌, ◌>>=◌, ◌>>◌, check, ◌==◌, leb,
}
use systemoc_syste_mo_c.Fifo.Store.{put}
use systemoc_syste_mo_c.Register.Chan.{RegisterChan, get_on_demand, is_valid}

module _ {A : Type 0} where
  -- `(*port)[n] = t`
  unfoldable pub write_at : ℕ → A → RegisterChan A → Option (RegisterChan A)
  write_at n t c = do check (n == 0); some (record c { actual_value = put t c.actual_value })

  -- The value of `(*port)[n]`, and the register after it.
  unfoldable pub read_at : Option A → ℕ → RegisterChan A → Option (A × RegisterChan A)
  read_at default n c = do
    check (n == 0)
    (t, s) ← get_on_demand default c.actual_value
    some (t, record c { actual_value = s })

  -- `commStart` of both ports does nothing, and `commFinish` asserts that no token is dropped.
  unfoldable pub comm_start : ℕ → RegisterChan A → RegisterChan A
  comm_start n c = c

  unfoldable pub comm_finish : ℕ → Bool → RegisterChan A → Option (RegisterChan A)
  comm_finish n dropped c = elim dropped [ true ↦ none | false ↦ some c ]

  unfoldable pub comm_exec : ℕ → RegisterChan A → Option (RegisterChan A)
  unfolding comm_start comm_finish
  comm_exec n c = comm_finish n false (comm_start n c)

  unfoldable pub num_free : RegisterChan A → ℕ
  num_free c = 1

  unfoldable pub num_available : RegisterChan A → ℕ
  num_available c = 1

  unfoldable pub token_is_valid : ℕ → RegisterChan A → Option Bool
  token_is_valid n c = do check (n == 0); some (is_valid c)

-- `spaceAvailableEvent` and `dataAvailableEvent` of a port whose event `trueEvent` is `e`.
unfoldable pub available_event : {E : Type 0} → E → ℕ → Option E
available_event e n = do check (leb n 1); some e

-- A communication: a writer puts a value, or a reader reads it. Ports are numbers.
pub data Op (A : Type 0) : Type 0 where
  write : ℕ → A → Op A
  read : ℕ → Op A

module _ {A : Type 0} (default : Option A) where
  unfoldable pub exec : RegisterChan A → Op A → Option (List A × RegisterChan A)
  unfolding comm_exec
  exec c (write w t) = do d ← write_at 0 t c; e ← comm_exec 1 d; some ([], e)
  exec c (read r) = do (t, d) ← read_at default 0 c; e ← comm_exec 1 d; some (t ∷ [], e)

  unfoldable pub run : RegisterChan A → List (Op A) → Option (List A × RegisterChan A)
  unfolding exec
  run c [] = some ([], c)
  run c (o ∷ os) = do (out, d) ← exec c o; (rest, e) ← run d os; some (out ++ rest, e)
