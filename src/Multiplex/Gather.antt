-- ===== src/Multiplex/Gather.antt =====
-- `consume` on the queue: it takes the first `n` tokens of its colour, wherever they stand.
use native.Mathlib.Nat.{mod-eq_of_lt}
use systemoc_syste_mo_c.Common.{
  ℕ, zero, suc, ◌+◌, ◌-◌, ◌%◌, ◌≤◌, ◌<◌, ◌≡◌, refl, ap, sym, subst, ◌∙◌, false, Option, some, List,
  [], ◌∷◌, arith, length, ◌==◌,
}
use systemoc_syste_mo_c.Modulo.{ModuloGroup, IsModulo}
use systemoc_syste_mo_c.Queue.Two.{used-lt}
use systemoc_syste_mo_c.Fifo.Store.{QueueWithStorage, Storage}
use systemoc_syste_mo_c.Fifo.Segment.{place}
use systemoc_syste_mo_c.Fifo.Contents.{Holds, HoldsRest, drop-HoldsRest}
use systemoc_syste_mo_c.Multiplex.Chan.{ColorAccessor}
use systemoc_syste_mo_c.Multiplex.Consume.{gather, find_before_last, find_last, move_kept}
use systemoc_syste_mo_c.Multiplex.Colors.{
  color_count, others, remove, rev_onto, Run, Down, tokens-Run, Run-tokens, Run-rev_onto,
  length-others, length-rev_onto, remove_same, remove-rev_onto,
}
use systemoc_syste_mo_c.Multiplex.Scan.{Found, find_before_last-Stop, find_last-Found}
use systemoc_syste_mo_c.Multiplex.Shift.{Shifted, move_kept-Shifted}

module _ {A : Type 0} (st st' : List (Storage A)) (m r : ℕ) where
  pub Run-same :
      (i : ℕ) (ts : List A)
      → i + length ts ≤ m
      → ((k : ℕ) → i ≤ k → k < m → place st' m r k ≡ place st m r k)
      → Run st m r i ts
      → Run st' m r i ts
  Run-same i [] le h b = tt
  Run-same i (t ∷ ts) le h b = (
    h i (omega arith) (omega arith) ∙ b.0,
    Run-same (suc i) ts (omega arith) (λ k a c. h k (omega arith) c) b.1,
  )

module _ {A : Type 0} (col : ColorAccessor A) {mg : ModuloGroup} (im : IsModulo mg) where
  -- What `gather` leaves in the storage.
  pub record Gathered (from n : ℕ) (q : QueueWithStorage A) (ts : List A)
      (res : Option (List (Storage A))) : Type 0 where
    pub moved : List (Storage A)
    pub result : res ≡ some moved
    pub holds : HoldsRest (record q { storage = moved }) n (remove col from n ts)

  module _ (from n : ℕ) (q : QueueWithStorage A) (ts : List A) (h : Holds q ts) where
    found :
        suc n ≤ color_count col from ts
        → (d : ℕ) × (find_before_last col mg q.storage q.fsize q.rindex q.windex from q.fsize
              (suc n)
              q.rindex
            ≡ some d)
          × Found col q.storage q.fsize q.rindex from
              (suc n)
              ts
              (find_last col mg q.storage q.fsize q.rindex q.windex from q.fsize d)
    unfolding color_count rev_onto
    found le =
        let full = used-lt h.valid in
        let here : q.rindex ≡ (q.rindex + 0) % q.fsize =
          sym (mod-eq_of_lt (omega (arith, h.valid.rindex_in)))
          ∙ ap (λ i. i % q.fsize) (omega arith) in
        let run = tokens-Run q.storage q.fsize q.rindex 0 ts (λ k lt.
          let z : 0 + k ≡ k = omega arith in
          ap (place q.storage q.fsize q.rindex) z ∙ h.tokens k lt) in
        let s =
          find_before_last-Stop col im q.storage q.fsize q.rindex q.windex from h.valid.rindex_in
            h.valid.windex_in q.fsize (suc n) [] ts ts (omega arith) le (omega (arith, h.count))
            (omega (arith, h.count)) (omega arith) refl tt run in
        (
          (q.rindex + length s.q) % q.fsize,
          ap (find_before_last col mg q.storage q.fsize q.rindex q.windex from q.fsize (suc n)) here
              ∙ s.index,
          find_last-Found col im q.storage q.fsize q.rindex q.windex from h.valid.rindex_in
              h.valid.windex_in q.fsize (suc n) s.q s.rest ts (omega (arith, s.count)) s.more
              (omega (arith, h.count, s.size)) (omega (arith, h.count, s.size)) s.size s.whole
              s.back s.run,
        )

    after :
        (f : (Option ℕ)) (w : Found col q.storage q.fsize q.rindex from (suc n) ts f)
        → (sh : (Option (List (Storage A))))
        → (z : Shifted col q.storage q.fsize q.rindex from (length w.q) w.q sh)
        → HoldsRest (record q { storage = z.moved }) (suc n) (remove col from (suc n) ts)
    after f w sh z =
        let full = used-lt h.valid in
        let split = length-others col from w.q in
        let gone : remove col from (suc n) ts ≡ rev_onto (others col from w.q) w.rest =
          ap (remove col from (suc n)) (sym w.whole)
          ∙ remove-rev_onto col from w.q (w.token ∷ w.rest) (suc n) 1 (omega (arith, w.count))
          ∙ ap (rev_onto (others col from w.q))
              (remove_same col from w.token w.rest 0 w.color ∙ unfold remove in refl) in
        let down : length w.q ≡ suc (length w.q) - 1 = omega arith in
        let first : suc (length w.q) - length (others col from w.q) ≡ suc n =
          omega (arith, split, w.count) in
        let run =
          Run-rev_onto z.moved q.fsize q.rindex (others col from w.q) w.rest (suc (length w.q))
            (omega (arith, split))
            (subst (λ k. Down z.moved q.fsize q.rindex k (others col from w.q)) down z.kept)
            (Run-same q.storage z.moved q.fsize q.rindex (suc (length w.q)) w.rest
              (omega (arith, w.size, h.count)) (λ k a c. z.above k (omega arith) c) w.run.1) in
        let run' =
          subst (λ k. Run z.moved q.fsize q.rindex k (rev_onto (others col from w.q) w.rest)) first
            run in
        rw gone (record {
          valid = h.valid;
          room = z.room;
          count = omega (
            arith,
            h.count,
            w.size,
            length-rev_onto (others col from w.q) w.rest,
            split,
            w.count,
          );
          tokens =
              Run-tokens z.moved q.fsize q.rindex (suc n) (rev_onto (others col from w.q) w.rest)
                run';
        })

  gather-steps :
      (from n d e : ℕ) (q : QueueWithStorage A) (st : List (Storage A))
      → find_before_last col mg q.storage q.fsize q.rindex q.windex from q.fsize (suc n) q.rindex
        ≡ some d
      → find_last col mg q.storage q.fsize q.rindex q.windex from q.fsize d ≡ some e
      → move_kept col mg q.fsize q.rindex from q.fsize e e q.storage ≡ some st
      → gather col mg from (suc n) q ≡ some st
  unfolding gather
  gather-steps from n d e q st h1 h2 h3 =
      let positive : (suc n == 0) ≡ false = ground arith in rw (positive, h1, h2) h3

  pub gather-Gathered :
      (from n : ℕ) (q : QueueWithStorage A) (ts : List A)
      → Holds q ts
      → n ≤ color_count col from ts
      → Gathered from n q ts (gather col mg from n q)
  unfolding gather remove
  gather-Gathered from zero q ts h le = record {
    moved = q.storage;
    result = refl;
    holds = drop-HoldsRest q ts 0 h (omega arith);
  }
  gather-Gathered from (suc n) q ts h le =
      let (d, e, w) = found from n q ts h le in
      let full = used-lt h.valid in
      let z =
        move_kept-Shifted col im q.fsize q.rindex from h.valid.rindex_in q.fsize (length w.q) w.q
          q.storage (omega (arith, w.size, h.count)) (omega arith) (omega (arith, w.size, h.count))
          h.room w.back in
      record {
        moved = z.moved;
        result = gather-steps from n d _ q z.moved e w.index z.result;
        holds = after from n q ts h _ w _ z;
      }
