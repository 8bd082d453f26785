-- ===== src/Multiplex/Shift.antt =====
-- `consume` moves the tokens that it keeps up to the place of the last one that it takes.
use systemoc_syste_mo_c.Common.{
  ℕ, zero, suc, ◌+◌, ◌-◌, ◌%◌, ◌≤◌, ◌<◌, ◌≡◌, refl, subst, inl, inr, Bool-cases, ◌∙◌, Option, some,
  List, [], ◌∷◌, arith, length, length-set, set, ◌==◌, if◌then◌else◌,
}
use systemoc_syste_mo_c.Modulo.{ModuloGroup, IsModulo}
use systemoc_syste_mo_c.Fifo.Store.{Storage}
use systemoc_syste_mo_c.Fifo.Segment.{place}
use systemoc_syste_mo_c.Multiplex.Chan.{ColorAccessor}
use systemoc_syste_mo_c.Multiplex.Consume.{move_kept}
use systemoc_syste_mo_c.Multiplex.Colors.{others, Back, Down}
use systemoc_syste_mo_c.Multiplex.Index.{
  sub_index, between_index, at_start, past_start, place-set_self, place-set_ne,
}

-- The storage after the loop: the tokens of `q` that are kept stand down from the place `d`, and the
-- places above it are as they were.
pub record Shifted {A : Type 0} (col : ColorAccessor A) (st : List (Storage A)) (m r from d : ℕ)
    (q : List A) (res : Option (List (Storage A))) : Type 0 where
  pub moved : List (Storage A)
  pub result : res ≡ some moved
  pub room : length moved ≡ m
  pub kept : Down moved m r d (others col from q)
  pub above : (k : ℕ) → d < k → k < m → place moved m r k ≡ place st m r k

module _ {A : Type 0} (st st' : List (Storage A)) (m r : ℕ) where
  Back-same :
      (n : ℕ) (q : List A)
      → length q ≤ n
      → ((k : ℕ) → k < n → place st' m r k ≡ place st m r k)
      → Back st m r q
      → Back st' m r q
  Back-same n [] le h b = tt
  Back-same n (t ∷ q) le h b = (h (length q) (omega arith) ∙ b.0, Back-same n q (omega arith) h b.1)

module _ {A : Type 0} (col : ColorAccessor A) {mg : ModuloGroup} (im : IsModulo mg) (m r from : ℕ)
    (hr : r < m) where
  move_kept-step :
      (f d k : ℕ) (t : A) (st : List (Storage A))
      → k ≤ d
      → suc d < m
      → place st m r k ≡ some t
      → move_kept col mg m r from (suc f) ((r + suc k) % m) ((r + suc d) % m) st ≡ (
          if col.get_color t == from
          then move_kept col mg m r from f ((r + k) % m) ((r + suc d) % m) st
          else move_kept col mg m r from f
              ((r + k) % m)
              ((r + d) % m)
              (set st ((r + suc d) % m) (some t)))
  unfolding move_kept
  move_kept-step f d k t st le lt h =
      let n = past_start m r hr (suc k) (omega arith) (omega arith) in
      let s = sub_index im m r hr k (omega arith) in
      let e = sub_index im m r hr d (omega arith) in
      let inside = between_index im m r hr k d (omega arith) (omega arith) in
      rw (n, s, e, inside, h)

  pub move_kept-Shifted :
      (fuel d : ℕ) (q : List A) (st : List (Storage A))
      → length q < fuel
      → length q ≤ d
      → d < m
      → length st ≡ m
      → Back st m r q
      → Shifted col st m r from d q
          (move_kept col mg m r from fuel ((r + length q) % m) ((r + d) % m) st)
  unfolding move_kept others
  move_kept-Shifted zero d q st fuel le lt room b = absurd (omega arith)
  move_kept-Shifted (suc f) d [] st fuel le lt room b = record {
    moved = st;
    result = rw (at_start m r hr);
    room = room;
    kept = tt;
    above = λ k a c. refl;
  }
  move_kept-Shifted (suc f) zero (t ∷ q) st fuel le lt room b = absurd (omega arith)
  move_kept-Shifted (suc f) (suc d) (t ∷ q) st fuel le lt room b =
      let step = move_kept-step f d (length q) t st (omega arith) lt b.0 in
      elim (Bool-cases (col.get_color t == from)) [
        | inl drop ↦
            let ih = move_kept-Shifted f (suc d) q st (omega arith) (omega arith) lt room b.1 in
            record {
              moved = ih.moved;
              result = step ∙ rw drop ih.result;
              room = ih.room;
              kept = rw drop ih.kept;
              above = ih.above;
            }
        | inr keep ↦
            let st' = set st ((r + suc d) % m) (some t) in
            let room' : length st' ≡ m = length-set st ((r + suc d) % m) (some t) ∙ room in
            let b' =
              Back-same st st' m r (length q) q (omega arith)
                (λ k a.
                  place-set_ne im m r hr st room (suc d) (some t) k lt (omega arith) (omega arith))
                b.1 in
            let ih =
              move_kept-Shifted f d q st' (omega arith) (omega arith) (omega arith) room' b' in
            let down : d ≡ suc d - 1 = omega arith in
            record {
              moved = ih.moved;
              result = step ∙ rw keep ih.result;
              room = ih.room;
              kept = rw keep (
                ih.above (suc d) (omega arith) lt
                    ∙ place-set_self im m r hr st room (suc d) (some t),
                subst (λ k. Down ih.moved m r k (others col from q)) down ih.kept,
              );
              above = λ k a c.
                  ih.above k (omega arith) c
                  ∙ place-set_ne im m r hr st room (suc d) (some t) k lt c (omega arith);
            }
      ]
