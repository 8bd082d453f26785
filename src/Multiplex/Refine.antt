-- ===== src/Multiplex/Refine.antt =====
-- A multiplex FIFO implements the shared list, and so a queue for each virtual FIFO.
use systemoc_syste_mo_c.Common.{
  ℕ, ◌+◌, ◌-◌, ◌≡◌, refl, subst, inl, inr, ◌∙◌, true, false, Option, none, some, List, [], ◌∷◌,
  ◌++◌, length, take, leb, All, All-map, Option-cases, lt→leb-false, le→leb, if◌then◌else◌, ◌>>=◌,
}
use systemoc_syste_mo_c.Modulo.{ModuloGroup, IsModulo}
use systemoc_syste_mo_c.Event.{EventOps, IsEvent}
use systemoc_syste_mo_c.Fifo.Written.{write_all}
use systemoc_syste_mo_c.Fifo.Commit.{write_all-Behind}
use systemoc_syste_mo_c.Multiplex.Chan.{ColorAccessor, MultiplexChan}
use systemoc_syste_mo_c.Multiplex.Colors.{color_count, of_color, remove}
use systemoc_syste_mo_c.Multiplex.Outlets.{Known}
use systemoc_syste_mo_c.Multiplex.Recolor.{colored}
use systemoc_syste_mo_c.Multiplex.Shared.{IsShared}
use systemoc_syste_mo_c.Multiplex.Exec.{IsAccessor, Ends, v_outlet-Ends}
use systemoc_syste_mo_c.Multiplex.Entries.{v_entry-Ends}
use systemoc_syste_mo_c.Multiplex.Queues.{
  Call, take_from, put_to, spec_run, call, run, list_call, list_run, list_run-spec,
}

-- The virtual FIFO of a call.
abbrev pub id_of : {A : Type 0} → Call A → ℕ
id_of (take_from id n) = id
id_of (put_to id us) = id

module _ {E A : Type 0} (ev : EventOps E) (col : ColorAccessor A) where
  -- Both stop, or the channel that is left shares the list that is left.
  abbrev pub Shares : MultiplexChan E A → Option (MultiplexChan E A) → Option (List A) → Type 0
  Shares c none none = Unit
  Shares c none (some us) = ⊥
  Shares c (some d) none = ⊥
  Shares c (some d) (some us) =
      (d.fsize ≡ c.fsize)
      × (d.fifo_out_of_order ≡ c.fifo_out_of_order)
      × IsShared ev col d us
      × ((e : ℕ) → Known e c.v_outlets → Known e d.v_outlets)

  Ends-Shares :
      (c : MultiplexChan E A) (r : Option (MultiplexChan E A)) (n limit : ℕ) (us : List A)
      → Ends ev col c r n limit us
      → Shares c r (if leb n limit then some us else none)
  Ends-Shares c none n limit us h =
      let gt : leb n limit ≡ false = lt→leb-false n limit h in rw gt tt
  Ends-Shares c (some d) n limit us h =
      let le : leb n limit ≡ true = le→leb n limit h.0 in rw le (h.1, h.2, h.3, h.4)

  Shares-trans :
      (c d : MultiplexChan E A) (r : Option (MultiplexChan E A)) (l : Option (List A))
      → d.fsize ≡ c.fsize
      → d.fifo_out_of_order ≡ c.fifo_out_of_order
      → ((e : ℕ) → Known e c.v_outlets → Known e d.v_outlets)
      → Shares d r l
      → Shares c r l
  Shares-trans c d none none f w k h = tt
  Shares-trans c d none (some us) f w k h = h
  Shares-trans c d (some b) none f w k h = h
  Shares-trans c d (some b) (some us) f w k h = (h.0 ∙ f, h.1 ∙ w, h.2, λ e z. h.3 e (k e z))

  module _ (mg : ModuloGroup) (ks : List (Call A)) (c : MultiplexChan E A) where
    -- The rest of a sequence after a call.
    after_call :
        (r : Option (MultiplexChan E A)) (l : Option (List A))
        → Shares c r l
        → All (λ k. Known (id_of k) c.v_outlets) ks
        → ((d : MultiplexChan E A) (us : List A)
            → IsShared ev col d us
            → All (λ k. Known (id_of k) d.v_outlets) ks
            → Shares d (run col ev mg ks d) (list_run col d.fsize d.fifo_out_of_order ks us))
        → Shares c (r >>= run col ev mg ks) (l >>= list_run col c.fsize c.fifo_out_of_order ks)
    after_call none none a z ih = tt
    after_call none (some us) a z ih = absurd a
    after_call (some d) none a z ih = absurd a
    after_call (some d) (some us) (f, w, s, k) z ih =
        let rest = ih d us s (All-map _ ks (λ b h. k (id_of b) h) z) in
        let rest' =
          subst (λ m. Shares d (run col ev mg ks d) (list_run col m d.fifo_out_of_order ks us)) f
            rest in
        let rest'' =
          subst (λ o. Shares d (run col ev mg ks d) (list_run col c.fsize o ks us)) w rest' in
        Shares-trans c d _ _ f w k rest''

module _ {E A : Type 0} {ev : EventOps E} (ie : IsEvent ev) {mg : ModuloGroup} (im : IsModulo mg)
    (col : ColorAccessor A) (law : IsAccessor col) where
  call-Shares :
      (k : Call A) (c : MultiplexChan E A) (ts : List A)
      → IsShared ev col c ts
      → Known (id_of k) c.v_outlets
      → Shares ev col c (call col ev mg k c) (list_call col c.fsize c.fifo_out_of_order k ts)
  unfolding call list_call
  call-Shares (take_from id n) c ts s k =
      Ends-Shares ev col c _ n (color_count col id (take (c.fifo_out_of_order + 1) ts))
        (remove col id n ts) (v_outlet-Ends ie im col c ts s id n k)
  call-Shares (put_to id us) c ts s k =
      Ends-Shares ev col c _ (length us) (c.fsize - 1 - length ts) (ts ++ colored col id us) (
        v_entry-Ends ie im col c ts us (write_all c.queue 0 us).storage id s
          (λ le. write_all-Behind c.queue ts us s.holds le) law k)

  -- Over every sequence of communications of registered readers and writers, from a channel that
  -- shares `ts`: the channel stops at the same one as the list of tokens from which a reader takes
  -- the first tokens of its colour, if the area out of order has enough, and to which a writer adds
  -- tokens of its colour, if they fit; or it ends sharing what the list is then.
  pub run-Shares :
      (ks : List (Call A)) (c : MultiplexChan E A) (ts : List A)
      → IsShared ev col c ts
      → All (λ k. Known (id_of k) c.v_outlets) ks
      → Shares ev col c (run col ev mg ks c) (list_run col c.fsize c.fifo_out_of_order ks ts)
  unfolding run list_run
  run-Shares [] c ts s k = (refl, refl, s, λ e z. z)
  run-Shares (k ∷ ks) c ts s (z, zs) =
      after_call ev col mg ks c (call col ev mg k c)
        (list_call col c.fsize c.fifo_out_of_order k ts) (call-Shares k c ts s z) zs (run-Shares ks)

  -- Each virtual FIFO is a queue of its own: where a sequence of communications of registered
  -- readers and writers, from a channel that shares `ts`, succeeds, the tokens of each colour are
  -- what its own reads and writes make of a queue, whatever those of the others do.
  pub run-Queues :
      (ks : List (Call A)) (c d : MultiplexChan E A) (ts : List A)
      → IsShared ev col c ts
      → All (λ k. Known (id_of k) c.v_outlets) ks
      → run col ev mg ks c ≡ some d
      → (us : List A) × IsShared ev col d us
        × ((e : ℕ) → of_color col e us ≡ spec_run col ks (λ b. of_color col b ts) e)
  run-Queues ks c d ts s z go =
      let fact =
        subst (λ r. Shares ev col c r (list_run col c.fsize c.fifo_out_of_order ks ts)) go
          (run-Shares ks c ts s z) in
      elim (Option-cases (list_run col c.fsize c.fifo_out_of_order ks ts)) [
        | inl stop ↦ absurd (subst (Shares ev col c (some d)) stop fact)
        | inr (us, l) ↦
            let (_, _, h, _) = subst (Shares ev col c (some d)) l fact in
            (
              us,
              h,
              λ e.
                  list_run-spec col c.fsize c.fifo_out_of_order ks ts us (λ b. of_color col b ts) e
                    law (λ b. refl) l,
            )
      ]
