-- ===== src/Fifo/Commit.antt =====
-- What the writer has put behind the tokens, once `wpp` commits it.
use native.Mathlib.Decide.{dec_lt}
use native.Mathlib.Nat.{mod-add-mod, add_assoc}
use systemoc_syste_mo_c.Common.{
  ℕ, ◌+◌, ◌-◌, ◌%◌, ◌≤◌, ◌<◌, ◌≡◌, refl, sym, ap, subst, ◌∙◌, none, List, ◌++◌, inl, inr, arith,
  length, length-append, get_or, get_elem?, get_elem?-append_left, get_elem?-append_right, leb,
  leb→le, leb-false→lt, Bool-cases,
}
use systemoc_syste_mo_c.Modulo.{ModuloGroup, IsModulo}
use systemoc_syste_mo_c.Modulo.Chain.{sub_rest}
use systemoc_syste_mo_c.Modulo.Wrap.{gap_advance, mod-cases, step-lt, gap-cases}
use systemoc_syste_mo_c.Queue.Rw
use systemoc_syste_mo_c.Queue.Two.{IsValid, used, used-lt}
use systemoc_syste_mo_c.Fifo.Store
use systemoc_syste_mo_c.Fifo.Store.{QueueWithStorage, invalidate_from, ring_index}
use systemoc_syste_mo_c.Fifo.Written.{
  write_all, ptr-write_all, length-write_all, write_all_kept, write_all_new,
}
use systemoc_syste_mo_c.Fifo.Contents.{Holds, Leaves}
use systemoc_syste_mo_c.Fifo.Segment.{place}

-- The write pointer stands behind the tokens.
pub windex_lem : {q : Rw.QueueRwPtr} → IsValid q → q.windex ≡ (q.rindex + used q) % q.fsize
windex_lem {q} v = omega (
  arith,
  v.rindex_in,
  v.windex_in,
  gap-cases q.fsize q.rindex q.windex v.rindex_in v.windex_in,
  mod-cases q.fsize (q.rindex + used q) (omega (arith, used-lt v, v.rindex_in)),
)

-- The storage `st` holds the tokens `us` behind the tokens `ts` of the queue.
pub record Behind {A : Type 0} (q : QueueWithStorage A) (ts us : List A)
    (st : List (Store.Storage A)) : Type 0 where
  pub room : length st ≡ q.fsize
  pub kept : (k : ℕ) → k < length ts → place st q.fsize q.rindex k ≡ get_elem? ts k
  pub new : (i : ℕ) → i < length us → place st q.fsize q.rindex (length ts + i) ≡ get_elem? us i

module _ {A : Type 0} (q : QueueWithStorage A) (ts us : List A) (h : Holds q ts) where
  module _ (le : length us ≤ q.fsize - 1 - length ts) where
    -- The old tokens are not overwritten,
    kept_place :
        (k : ℕ)
        → k < length ts
        → place (write_all q 0 us).storage q.fsize q.rindex k ≡ get_elem? ts k
    kept_place k lt =
        let m = q.fsize in
        let full = used-lt h.valid in
        let j = m - length ts + k in
        let e : (q.rindex + k) % m ≡ (q.windex + j) % m = omega (
          arith,
          full,
          h.count,
          h.valid.rindex_in,
          h.valid.windex_in,
          gap-cases m q.rindex q.windex h.valid.rindex_in h.valid.windex_in,
          mod-cases m (q.rindex + k) (omega (arith, full, h.count, h.valid.rindex_in)),
          mod-cases m (q.windex + j) (omega (arith, full, h.count, h.valid.windex_in)),
        ) in
        ap (λ i. get_or (write_all q 0 us).storage i none) e
        ∙ write_all_kept q 0 us j h.valid.windex_in (omega (arith, full, h.count))
            (omega (arith, full, h.count)) (inr (omega (arith, full, h.count)))
        ∙ ap (λ i. get_or q.storage i none) (sym e)
        ∙ h.tokens k lt

    -- and the new ones stand behind them.
    new_place :
        (i : ℕ)
        → i < length us
        → place (write_all q 0 us).storage q.fsize q.rindex (length ts + i) ≡ get_elem? us i
    new_place i lt =
        let full = used-lt h.valid in
        let e : (q.rindex + (length ts + i)) % q.fsize ≡ (q.windex + (0 + i)) % q.fsize =
          ap (λ k. k % q.fsize) (sym (add_assoc q.rindex (length ts) i))
          ∙ sym (mod-add-mod (q.rindex + length ts) q.fsize i)
          ∙ ap (λ k. (k + i) % q.fsize)
              (ap (λ u. (q.rindex + u) % q.fsize) (sym h.count) ∙ sym (windex_lem h.valid))
          ∙ ap (λ k. (q.windex + k) % q.fsize) (omega arith) in
        ap (λ i. get_or (write_all q 0 us).storage i none) e
        ∙ write_all_new q 0 us i h.valid.windex_in h.room (omega (arith, full, h.count)) lt

    pub write_all-Behind : Behind q ts us (write_all q 0 us).storage
    write_all-Behind = record {
      room = length-write_all q 0 us ∙ h.room;
      kept = kept_place;
      new = new_place;
    }

module _ {A : Type 0} (q : QueueWithStorage A) (ts us : List A) (st : List (Store.Storage A))
    (h : Holds q ts) (le : length us ≤ q.fsize - 1 - length ts) (b : Behind q ts us st) where
  -- The queue after `wpp` has passed its assertion.
  written : QueueWithStorage A
  written = record {
    ptr = record (q.ptr) { windex = (q.windex + length us) % q.fsize };
    storage = st;
  }

  written_token :
      (k : ℕ) → k < length (ts ++ us) → place st q.fsize q.rindex k ≡ get_elem? (ts ++ us) k
  written_token k lt = elim (dec_lt k (length ts)) [
    | yes old ↦ b.kept k old ∙ sym (get_elem?-append_left ts us k old)
    | no new ↦
        let e : k ≡ length ts + (k - length ts) = omega arith in
        rw e (
          b.new (k - length ts) (omega (arith, length-append ts us))
          ∙ sym (get_elem?-append_right ts us (k - length ts)))
  ]

  written-Holds : Holds written (ts ++ us)
  unfolding written
  written-Holds = record {
    valid = record {
      rindex_in = h.valid.rindex_in;
      windex_in = step-lt q.fsize q.windex (length us) h.valid.windex_in;
      fsize_fits = h.valid.fsize_fits;
    };
    room = b.room;
    count = omega (
      arith,
      gap_advance q.fsize q.rindex q.windex h.valid.rindex_in h.valid.windex_in (length us)
          (omega (arith, h.count, used-lt h.valid)),
      h.count,
      length-append ts us,
    );
    tokens = written_token;
  }

module _ {mg : ModuloGroup} (im : IsModulo mg) {A : Type 0} where
  -- `wpp` on a storage with the tokens `us` behind the others stops exactly if they do not fit, and
  -- otherwise commits them.
  pub wpp-Behind :
      (q : QueueWithStorage A) (ts us : List A) (st : List (Store.Storage A))
      → Holds q ts
      → (length us ≤ q.fsize - 1 - length ts → Behind q ts us st)
      → Leaves q
          (Store.wpp mg (record q { storage = st }) (length us))
          (length us)
          (q.fsize - 1 - length ts)
          (ts ++ us)
  unfolding Store.wpp
  wpp-Behind q ts us st h behind =
      let e : mg.sub q.fsize (mg.sub q.fsize q.rindex q.windex) 1 ≡ q.fsize - 1 - length ts =
        sub_rest im q.fsize q.rindex q.windex h.valid.rindex_in h.valid.windex_in
        ∙ ap (λ u. q.fsize - 1 - u) h.count in
      let e' = im.add_mod q.fsize q.windex (length us) h.valid.windex_in in
      elim (Bool-cases (leb (length us) (q.fsize - 1 - length ts))) [
        | inl le ↦
            let fits = leb→le (length us) (q.fsize - 1 - length ts) le in
            rw (e, le, e')
              (fits, refl, unfold written in written-Holds q ts us st h fits (behind fits))
        | inr gt ↦ rw (e, gt) (leb-false→lt (length us) (q.fsize - 1 - length ts) gt)
      ]

  -- Where the writer's port has put the tokens `us`, `wpp` of their number stops exactly if they do
  -- not fit beside the tokens `ts` of the queue, and otherwise it holds `ts` followed by `us`.
  pub wpp-Holds :
      (q : QueueWithStorage A) (ts us : List A)
      → Holds q ts
      → Leaves q
          (Store.wpp mg (write_all q 0 us) (length us))
          (length us)
          (q.fsize - 1 - length ts)
          (ts ++ us)
  wpp-Holds q ts us h =
      let st = (write_all q 0 us).storage in
      let same : ◌≡◌ {A = QueueWithStorage A} (record q { storage = st }) (write_all q 0 us) =
        λ i. record { ptr = sym (ptr-write_all q 0 us) i; storage = st } in
      subst
        (λ p.
          Leaves q (Store.wpp mg p (length us)) (length us) (q.fsize - 1 - length ts) (ts ++ us))
        same (wpp-Behind q ts us st h (write_all-Behind q ts us h))
