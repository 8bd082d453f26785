-- ===== src/Multiplex/Announce.antt =====
-- The loops that tell the outlets of new tokens.
use systemoc_syste_mo_c.Common.{
  ℕ, zero, suc, ◌+◌, ◌%◌, ◌<◌, ◌≡◌, refl, ap, subst, ◌∙◌, true, Option, some, List, [], ◌∷◌, arith,
  length, All, All-map, ◌==◌,
}
use systemoc_syste_mo_c.Event.{EventOps, IsEvent}
use systemoc_syste_mo_c.Queue.Rw.{size_mod}
use systemoc_syste_mo_c.Fifo.Store.{Storage}
use systemoc_syste_mo_c.Fifo.Segment.{place}
use systemoc_syste_mo_c.Multiplex.Chan.{ColorAccessor, VOutletMap, at_outlet, more_data}
use systemoc_syste_mo_c.Multiplex.Consume.{announce, announce_initial}
use systemoc_syste_mo_c.Multiplex.Colors.{color_count, Run}
use systemoc_syste_mo_c.Multiplex.Index.{ne_index, next_index}
use systemoc_syste_mo_c.Multiplex.Outlets.{
  Known, IsCounted, IsTuned, Updated, at_outlet-Updated, Updated-Known, Updated-IsCounted,
  more_data-IsTuned,
}

module _ {E : Type 0} {ev : EventOps E} (ie : IsEvent ev) where
  module _ {A : Type 0} (col : ColorAccessor A) where
    -- The outlets after they were told of the tokens `ts`.
    pub record Announced (os : VOutletMap E) (w : ℕ → ℕ) (ts : List A) (res : Option (VOutletMap E))
        : Type 0 where
      pub after : VOutletMap E
      pub result : res ≡ some after
      pub counted : IsCounted ev after (λ c. w c + color_count col c ts)
      pub known : (c : ℕ) → Known c os → Known c after

    -- One more token.
    pub next-IsCounted :
        (os : VOutletMap E) (w : ℕ → ℕ) (t : A) (ts : List A) (res : Option (VOutletMap E))
        → (u : Updated (col.get_color t) (more_data ev 1) os res) → Known (col.get_color t) os
        → IsCounted ev os w
        → ((c : ℕ) → w c + color_count col c (t ∷ ts) < size_mod)
        → IsCounted ev u.after (λ c. w c + color_count col c (t ∷ []))
    unfolding color_count
    next-IsCounted os w t ts res u k h lt =
        Updated-IsCounted ie (col.get_color t) (more_data ev 1) os res w
          (λ c. w c + color_count col c (t ∷ [])) u k h
          (λ o i.
            let self : (col.get_color t == col.get_color t) ≡ true = ground arith in
            rw self (
              more_data-IsTuned ie 1 (w (col.get_color t)) o i
                (ground (arith, lt (col.get_color t)))))
          (λ d n. rw n (omega arith))

    announce-done :
        (st : List (Storage A)) (m x y f : ℕ) (os : VOutletMap E)
        → x ≡ y
        → announce col ev (suc f) st m x y os ≡ some os
    unfolding announce
    announce-done st m x y f os e = let same : (x == y) ≡ true = ground arith in rw same

    announce-step :
        (st : List (Storage A)) (m r f i j : ℕ) (t : A) (os os' : VOutletMap E)
        → r < m
        → i < j
        → j < m
        → place st m r i ≡ some t
        → at_outlet (col.get_color t) (more_data ev 1) os ≡ some os'
        → announce col ev (suc f) st m ((r + i) % m) ((r + j) % m) os
          ≡ announce col ev f st m ((r + suc i) % m) ((r + j) % m) os'
    unfolding announce
    announce-step st m r f i j t os os' hr lt fit h u =
        let n = ne_index m r hr i j (omega arith) fit (omega arith) in
        let s = next_index m r i in rw (n, h, u, s)

    pub announce-Announced :
        (st : List (Storage A)) (m r : ℕ) (hr : r < m) (fuel i j : ℕ) (ts : List A)
        (os : VOutletMap E) (w : ℕ → ℕ)
        → length ts < fuel
        → j ≡ i + length ts
        → j < m
        → Run st m r i ts
        → All (λ t. Known (col.get_color t) os) ts
        → IsCounted ev os w
        → ((c : ℕ) → w c + color_count col c ts < size_mod)
        → Announced os w ts (announce col ev fuel st m ((r + i) % m) ((r + j) % m) os)
    unfolding color_count
    announce-Announced st m r hr zero i j ts os w fuel e fit run k h lt = absurd (omega arith)
    announce-Announced st m r hr (suc f) i j [] os w fuel e fit run k h lt =
        let same : (r + i) % m ≡ (r + j) % m = ap (λ n. (r + n) % m) (omega arith) in
        record {
          after = os;
          result = announce-done st m ((r + i) % m) ((r + j) % m) f os same;
          counted = λ c o z.
              let n : w c ≡ w c + 0 = omega arith in subst (λ b. IsTuned ev b o) n (h c o z);
          known = λ c z. z;
        }
    announce-Announced st m r hr (suc f) i j (t ∷ ts) os w fuel e fit run k h lt =
        let u = at_outlet-Updated (col.get_color t) (more_data ev 1) os k.0 in
        let w' = λ (c : ℕ). w c + color_count col c (t ∷ []) in
        let ih =
          announce-Announced st m r hr f (suc i) j ts u.after w' (omega arith) (omega arith) fit
            run.1
            (All-map _ ts (λ b z. Updated-Known (col.get_color t) (col.get_color b) _ os _ u z) k.1)
            (next-IsCounted os w t ts _ u k.0 h lt) (λ c. ground (arith, lt c)) in
        record {
          after = ih.after;
          result =
              announce-step st m r f i j t os u.after hr (omega arith) fit run.0 u.result
              ∙ ih.result;
          counted = λ c o z.
              let n : w' c + color_count col c ts ≡ w c + color_count col c (t ∷ ts) =
                ground arith in
              subst (λ b. IsTuned ev b o) n (ih.counted c o z);
          known = λ c z. ih.known c (Updated-Known (col.get_color t) c (more_data ev 1) os _ u z);
        }

    -- `doReset` tells the outlets of all initial tokens.
    pub announce_initial-Announced :
        (ts : List A) (os : VOutletMap E) (w : ℕ → ℕ)
        → All (λ t. Known (col.get_color t) os) ts
        → IsCounted ev os w
        → ((c : ℕ) → w c + color_count col c ts < size_mod)
        → Announced os w ts (announce_initial col ev ts os)
    unfolding announce_initial color_count
    announce_initial-Announced [] os w k h lt = record {
      after = os;
      result = refl;
      counted =
          λ c o z. let n : w c ≡ w c + 0 = omega arith in subst (λ b. IsTuned ev b o) n (h c o z);
      known = λ c z. z;
    }
    announce_initial-Announced (t ∷ ts) os w k h lt =
        let u = at_outlet-Updated (col.get_color t) (more_data ev 1) os k.0 in
        let w' = λ (c : ℕ). w c + color_count col c (t ∷ []) in
        let ih =
          announce_initial-Announced ts u.after w'
            (All-map _ ts (λ b z. Updated-Known (col.get_color t) (col.get_color b) _ os _ u z) k.1)
            (next-IsCounted os w t ts _ u k.0 h lt) (λ c. ground (arith, lt c)) in
        record {
          after = ih.after;
          result = rw u.result ih.result;
          counted = λ c o z.
              let n : w' c + color_count col c ts ≡ w c + color_count col c (t ∷ ts) =
                ground arith in
              subst (λ b. IsTuned ev b o) n (ih.counted c o z);
          known = λ c z. ih.known c (Updated-Known (col.get_color t) c (more_data ev 1) os _ u z);
        }
