-- ===== src/Multiplex/Queues.antt =====
-- The virtual FIFOs as queues of their own: what a multiplex FIFO promises.
use systemoc_syste_mo_c.Common.{
  ℕ, ◌+◌, ◌-◌, ◌≡◌, ap, sym, inl, inr, Bool-cases, ◌∙◌, Option, none, some, List, [], ◌∷◌, ◌++◌,
  arith, length, drop, take, leb, append-nil, ◌==◌, if◌then◌else◌, ◌>>=◌, >>=-eq-some,
}
use mathlib.Core.Path.{fun_ext}
use systemoc_syste_mo_c.Modulo.{ModuloGroup}
use systemoc_syste_mo_c.Event.{EventOps}
use systemoc_syste_mo_c.Fifo.Store.{ring_index}
use systemoc_syste_mo_c.Fifo.Written.{write_all}
use systemoc_syste_mo_c.Multiplex.Chan.{ColorAccessor, MultiplexChan}
use systemoc_syste_mo_c.Multiplex.Ports.{write_place, v_outlet_comm_exec, v_entry_comm_exec}
use systemoc_syste_mo_c.Multiplex.Colors.{color_count, of_color, remove}
use systemoc_syste_mo_c.Multiplex.Recolor.{colored}
use systemoc_syste_mo_c.Multiplex.Exec.{IsAccessor}
use systemoc_syste_mo_c.Multiplex.Reads.{of_color-remove, of_color-append}

-- A communication: the reader of `id` takes `n` tokens, or the writer of `id` puts `us`.
pub data Call (A : Type 0) : Type 0 where
  take_from : (id n : ℕ) → Call A
  put_to : (id : ℕ) (us : List A) → Call A

module _ {A : Type 0} (col : ColorAccessor A) where
  -- One queue for each id.
  unfoldable pub spec : Call A → (ℕ → List A) → ℕ → List A
  spec (take_from id n) qs d = if id == d then drop n (qs d) else qs d
  spec (put_to id us) qs d = if id == d then qs d ++ colored col id us else qs d

  unfoldable pub spec_run : List (Call A) → (ℕ → List A) → ℕ → List A
  spec_run [] qs = qs
  spec_run (k ∷ ks) qs = spec_run ks (spec k qs)

  -- The writer's port writes where the port of a plain FIFO does.
  write_place-ring_index :
      {E : Type 0} (c : MultiplexChan E A) (n : ℕ)
      → write_place col c n ≡ ring_index c.fsize c.windex n
  unfolding write_place ring_index
  write_place-ring_index c n = ground arith

  module _ {E : Type 0} (ev : EventOps E) (mg : ModuloGroup) where
    -- The writer's port writes the tokens before `commExec`.
    unfoldable pub call : Call A → MultiplexChan E A → Option (MultiplexChan E A)
    call (take_from id n) c = v_outlet_comm_exec col ev mg id n c
    call (put_to id us) c =
        v_entry_comm_exec col ev mg id (length us)
          (record c { queue = record (c.queue) { storage = (write_all c.queue 0 us).storage } })

    unfoldable pub run : List (Call A) → MultiplexChan E A → Option (MultiplexChan E A)
    run [] c = some c
    run (k ∷ ks) c = do d ← call k c; run ks d

  of_color-colored :
      (d id : ℕ) (vs : List A)
      → IsAccessor col
      → of_color col d (colored col id vs) ≡ (if id == d then colored col id vs else [])
  unfolding of_color
  of_color-colored d id [] law = elim (Bool-cases (id == d)) [ inl e ↦ rw e | inr e ↦ rw e ]
  of_color-colored d id (t ∷ vs) law =
      let ih = of_color-colored d id vs law in
      elim (Bool-cases (id == d)) [
        | inl e ↦ rw (law t id, e) (ap (λ r. col.put_color t id ∷ r) (ih ∙ rw e))
        | inr e ↦ rw (law t id, e) (ih ∙ rw e)
      ]

  put_color :
      (d id : ℕ) (ts vs : List A)
      → IsAccessor col
      → ts ++ of_color col d (colored col id vs) ≡ (if id == d then ts ++ colored col id vs else ts)
  put_color d id ts vs law =
      ap (λ r. ts ++ r) (of_color-colored d id vs law)
      ∙ elim (Bool-cases (id == d)) [ inl e ↦ rw e | inr e ↦ rw e (append-nil ts) ]

  -- The shared list of tokens, for a ring of `m` places and an area out of order of `w`.
  module _ (m w : ℕ) where
    unfoldable pub list_call : Call A → List A → Option (List A)
    list_call (take_from id n) ts =
        if leb n (color_count col id (take (w + 1) ts)) then some (remove col id n ts) else none
    list_call (put_to id us) ts =
        if leb (length us) (m - 1 - length ts) then some (ts ++ colored col id us) else none

    unfoldable pub list_run : List (Call A) → List A → Option (List A)
    list_run [] ts = some ts
    list_run (k ∷ ks) ts = do us ← list_call k ts; list_run ks us

    -- Each virtual FIFO is a queue of its own.
    pub list_call-spec :
        (k : Call A) (ts us : List A) (d : ℕ)
        → IsAccessor col
        → list_call k ts ≡ some us
        → of_color col d us ≡ spec k (λ e. of_color col e ts) d
    unfolding list_call spec
    list_call-spec (take_from id n) ts us d law h =
        let same : remove col id n ts ≡ us = ground arith in
        ap (of_color col d) (sym same) ∙ of_color-remove col id d n ts
    list_call-spec (put_to id vs) ts us d law h =
        let same : ts ++ colored col id vs ≡ us = ground arith in
        ap (of_color col d) (sym same)
        ∙ of_color-append col d ts (colored col id vs)
        ∙ put_color d id (of_color col d ts) vs law

    pub list_run-spec :
        (ks : List (Call A)) (ts us : List A) (qs : ℕ → List A) (d : ℕ)
        → IsAccessor col
        → ((e : ℕ) → of_color col e ts ≡ qs e)
        → list_run ks ts ≡ some us
        → of_color col d us ≡ spec_run ks qs d
    unfolding list_run spec_run
    list_run-spec [] ts us qs d law h e =
        let same : ts ≡ us = cc in ap (of_color col d) (sym same) ∙ h d
    list_run-spec (k ∷ ks) ts us qs d law h e =
        let (vs, h1, h2) = >>=-eq-some (list_call k ts) _ e in
        list_run-spec ks vs us (spec k qs) d law
          (λ b. list_call-spec k ts vs b law h1 ∙ ap (λ q. spec k q b) (fun_ext h)) h2
