-- ===== src/ResetNet/Fifos.antt =====
-- The FIFOs of a reset network after a reset.
use systemoc_syste_mo_c.Common.{
  ℕ, ◌+◌, ◌-◌, ◌≤◌, ◌<◌, ◌≡◌, refl, ◌∙◌, true, false, Option, none, some, List, [], ◌∷◌, ◌>>=◌,
  length, All, arith, Bool-cases, inl, inr,
}
use systemoc_syste_mo_c.Modulo.{ModuloGroup, IsModulo}
use systemoc_syste_mo_c.Event.{EventOps, IsEvent}
use systemoc_syste_mo_c.EventMap.Order.{Ascending}
use systemoc_syste_mo_c.Queue.Two.{IsValid}
use systemoc_syste_mo_c.Fifo.Chan.{FifoChan}
use systemoc_syste_mo_c.Fifo.Chan
use systemoc_syste_mo_c.Fifo.Exec.{IsReady}
use systemoc_syste_mo_c.Fifo.Reset.{Resets, do_reset-Resets}
use systemoc_syste_mo_c.MultiReader.Chan as Multi
use systemoc_syste_mo_c.MultiReader.Chan.{MultiReaderChan}
use systemoc_syste_mo_c.MultiReader.Exec.{reset-Resets}
use systemoc_syste_mo_c.Node.Base.{World}
use systemoc_syste_mo_c.ResetNet.Chan.{Sim, member, reset_chans}
use systemoc_syste_mo_c.ResetNet.Order.{Distinct, reset_all, reset_chans-reset_all}

-- The class of a channel.
pub data AnyChan (E A : Type 0) : Type 0 where
  fifo : FifoChan E A → AnyChan E A
  multireader_fifo : MultiReaderChan E A → AnyChan E A

module _ (mg : ModuloGroup) {E : Type 0} (ev : EventOps E) {A : Type 0} where
  -- The virtual `doReset`.
  unfoldable pub reset_any : AnyChan E A → Option (AnyChan E A)
  reset_any (fifo c) = do d ← Chan.do_reset mg ev c; some (fifo d)
  reset_any (multireader_fifo c) = do d ← Multi.do_reset mg ev c; some (multireader_fifo d)

module _ {E A : Type 0} where
  -- A channel with its pointers in range, its event maps in order, and room for its initial tokens.
  pub record IsSound (c : FifoChan E A) : Type 0 where
    pub valid : IsValid c.ptr
    pub room : length c.storage ≡ c.fsize
    pub data_order : Ascending 0 c.emm_data
    pub space_order : Ascending 0 c.emm_space
    pub fits : length c.initial_tokens ≤ c.fsize - 1

  abbrev pub IsSoundAny : AnyChan E A → Type 0
  IsSoundAny (fifo c) = IsSound c
  IsSoundAny (multireader_fifo c) = IsSound c

module _ {E : Type 0} (ev : EventOps E) {A : Type 0} where
  -- The channel holds its initial tokens, and its events are those of their number.
  abbrev pub Fresh : AnyChan E A → AnyChan E A → Type 0
  Fresh (fifo c) (fifo d) = (d.fsize ≡ c.fsize) × IsReady ev d c.initial_tokens
  Fresh (multireader_fifo c) (multireader_fifo d) =
      (d.fsize ≡ c.fsize) × IsReady ev d c.initial_tokens
  Fresh (fifo c) (multireader_fifo d) = ⊥
  Fresh (multireader_fifo c) (fifo d) = ⊥

  -- The channels from the `j`th on are fresh where they are connected, and else the same.
  abbrev pub EachFresh : List ℕ → ℕ → List (AnyChan E A) → List (AnyChan E A) → Type 0
  EachFresh net j [] [] = Unit {0}
  EachFresh net j [] (d ∷ ds) = ⊥
  EachFresh net j (c ∷ cs) [] = ⊥
  EachFresh net j (c ∷ cs) (d ∷ ds) =
      ((member j net ≡ true → Fresh c d) × (member j net ≡ false → d ≡ c))
      × EachFresh net (j + 1) cs ds

module _ {mg : ModuloGroup} (im : IsModulo mg) {E : Type 0} {ev : EventOps E}
    (ie : IsEvent ev) where
  module _ {A : Type 0} where
    Resets-Fresh :
        (c : FifoChan E A) (o : Option (FifoChan E A))
        → length c.initial_tokens ≤ c.fsize - 1
        → Resets ev c o
        → (d : FifoChan E A) × (o ≡ some d) × (d.fsize ≡ c.fsize) × IsReady ev d c.initial_tokens
    Resets-Fresh c none fits short = absurd (omega (arith, fits, short))
    Resets-Fresh c (some d) fits (le, size, ready) = (d, refl, size, ready)

    reset_any-Fresh :
        (c : AnyChan E A)
        → IsSoundAny c
        → (d : AnyChan E A) × (reset_any mg ev c ≡ some d) × Fresh ev c d
    unfolding reset_any
    reset_any-Fresh (fifo c) s =
        let (d, go, size, ready) =
          Resets-Fresh c (Chan.do_reset mg ev c) s.fits
            (do_reset-Resets im ie c s.valid s.room s.data_order s.space_order) in
        (fifo d, rw go refl, (size, ready))
    reset_any-Fresh (multireader_fifo c) s =
        let (d, go, size, ready) =
          Resets-Fresh c (Multi.do_reset mg ev c) s.fits
            (reset-Resets im ie c s.valid s.room s.data_order s.space_order) in
        (multireader_fifo d, rw go refl, (size, ready))

    reset_all-EachFresh :
        (net : List ℕ) (j : ℕ) (cs : List (AnyChan E A))
        → All IsSoundAny cs
        → (ds : List (AnyChan E A)) × (reset_all (reset_any mg ev) net j cs ≡ some ds)
          × EachFresh ev net j cs ds
    unfolding reset_all
    reset_all-EachFresh net j [] s = ([], refl, tt)
    reset_all-EachFresh net j (c ∷ cs) s =
        let (ds, rest, each) = reset_all-EachFresh net (j + 1) cs s.1 in
        let (d, go, fresh) = reset_any-Fresh c s.0 in
        elim (Bool-cases (member j net)) [
          | inl there ↦
              (d ∷ ds, rw (there, go, rest) refl, ((λ e. fresh, λ e. cc (e, there)), each))
          | inr out ↦ (c ∷ ds, rw (out, rest) refl, ((λ e. cc (e, out), λ e. refl), each))
        ]

    -- Where the channels of the program have their pointers in range, their event maps in order and
    -- room for their initial tokens, whatever they went through, the loop of a reset over its
    -- channels returns. Every FIFO and multi-reader FIFO that is connected then holds exactly its initial
    -- tokens, with all events in step, and every other one is as it was.
    pub reset_chans-EachFresh :
        {U : Type 0} (world : World (Sim (AnyChan E A) U)) (net : List ℕ) (cs : List (AnyChan E A))
        → Distinct net
        → All (λ i. i < length cs) net
        → All IsSoundAny cs
        → (ds : List (AnyChan E A)) × (reset_chans (reset_any mg ev) world net cs ≡ some ds)
          × EachFresh ev net 0 cs ds
    reset_chans-EachFresh world net cs d h s =
        let (ds, go, each) = reset_all-EachFresh net 0 cs s in
        (ds, reset_chans-reset_all (reset_any mg ev) world net cs d h ∙ go, each)
