-- ===== src/Fifo/Contents.antt =====
-- The queue with its storage against the list of its tokens, the oldest first.
use Prim.Native.Nat.{min}
use native.Mathlib.Nat.{mod-add-mod, add_assoc}
use systemoc_syste_mo_c.Common.{
  ℕ, ◌+◌, ◌-◌, ◌%◌, ◌≤◌, ◌<◌, ◌≡◌, refl, ap, sym, ◌∙◌, Option, none, some, List, inl, inr, arith,
  length, length-drop, get_or, get_elem?, get_elem?-drop, drop, leb, leb→le, le→leb, leb-false→lt,
  Bool-cases,
}
use systemoc_syste_mo_c.Modulo.{ModuloGroup, IsModulo}
use systemoc_syste_mo_c.Modulo.Chain.{sub-gap}
use systemoc_syste_mo_c.Modulo.Wrap.{gap_retreat, step-lt}
use systemoc_syste_mo_c.Queue.Two.{IsValid, used, used-lt}
use systemoc_syste_mo_c.Fifo.Store
use systemoc_syste_mo_c.Fifo.Store.{QueueWithStorage, invalidate_from, ring_index}
use systemoc_syste_mo_c.Fifo.Segment.{place, rpp_places, length-invalidate_from, ring_index_lem}

module _ {A : Type 0} where
  -- The queue is valid and holds the tokens `ts`, each in a valid place.
  pub record Holds (q : QueueWithStorage A) (ts : List A) : Type 0 where
    pub valid : IsValid q.ptr
    pub room : length q.storage ≡ q.fsize
    pub count : used q.ptr ≡ length ts
    pub tokens : (k : ℕ) → k < length ts → place q.storage q.fsize q.rindex k ≡ get_elem? ts k

  module _ (q : QueueWithStorage A) (ts : List A) (h : Holds q ts) where
    -- The reader's port gives the tokens in order.
    pub read_at-Holds : (k : ℕ) → k < length ts → Store.read_at q k ≡ get_elem? ts k
    unfolding Store.read_at Store.get
    read_at-Holds k lt =
        ap (λ i. get_or q.storage i none)
          (ring_index_lem q.fsize q.rindex k h.valid.rindex_in
            (omega (arith, h.count, used-lt h.valid)))
        ∙ h.tokens k lt

  -- What a call leaves: it stops exactly where `n` is above `limit`, and otherwise ends in a queue of
  -- the same size that holds `ts`.
  abbrev pub Leaves : QueueWithStorage A → Option (QueueWithStorage A) → ℕ → ℕ → List A → Type 0
  Leaves q none n limit ts = limit < n
  Leaves q (some p) n limit ts = (n ≤ limit) × (p.fsize ≡ q.fsize) × Holds p ts

module _ {A : Type 0} where
  place_after :
      (st : List (Store.Storage A)) (m r n k : ℕ)
      → place st m ((r + n) % m) k ≡ place st m r (n + k)
  place_after st m r n k =
      ap (λ i. get_or st i none) (mod-add-mod (r + n) m k ∙ ap (λ i. i % m) (add_assoc r n k))

  -- The queue is valid, and behind its first `n` tokens it holds `ts`.
  pub record HoldsRest (q : QueueWithStorage A) (n : ℕ) (ts : List A) : Type 0 where
    pub valid : IsValid q.ptr
    pub room : length q.storage ≡ q.fsize
    pub count : used q.ptr ≡ n + length ts
    pub tokens : (k : ℕ) → k < length ts → place q.storage q.fsize q.rindex (n + k) ≡ get_elem? ts k

  pub drop-HoldsRest :
      (q : QueueWithStorage A) (ts : List A) (n : ℕ)
      → Holds q ts
      → n ≤ length ts
      → HoldsRest q n (drop n ts)
  drop-HoldsRest q ts n h le = record {
    valid = h.valid;
    room = h.room;
    count = omega (arith, h.count, length-drop n ts);
    tokens =
        λ k lt. h.tokens (n + k) (omega (arith, length-drop n ts)) ∙ sym (get_elem?-drop n k ts);
  }

  -- The queue after `rpp` has passed its assertion.
  taken : QueueWithStorage A → ℕ → QueueWithStorage A
  taken q n = record {
    ptr = record (q.ptr) { rindex = (q.rindex + n) % q.fsize };
    storage =
        let o = min n (q.fsize - q.rindex) in
        invalidate_from 0 (n - o) (invalidate_from q.rindex o q.storage);
  }

  taken-Holds :
      (q : QueueWithStorage A) (ts : List A) (n : ℕ) → HoldsRest q n ts → Holds (taken q n) ts
  unfolding taken
  taken-Holds q ts n h = record {
    valid = record {
      rindex_in = step-lt q.fsize q.rindex n h.valid.rindex_in;
      windex_in = h.valid.windex_in;
      fsize_fits = h.valid.fsize_fits;
    };
    room =
        length-invalidate_from 0 (n - min n (q.fsize - q.rindex))
          (invalidate_from q.rindex (min n (q.fsize - q.rindex)) q.storage)
        ∙ length-invalidate_from q.rindex (min n (q.fsize - q.rindex)) q.storage
        ∙ h.room;
    count = omega (
      arith,
      gap_retreat q.fsize q.rindex q.windex h.valid.rindex_in h.valid.windex_in n
          (omega (arith, h.count)),
      h.count,
    );
    tokens = λ k lt.
        let full = used-lt h.valid in
        place_after _ q.fsize q.rindex n k
        ∙ ground (
          arith,
          rpp_places q.storage q.fsize q.rindex n (n + k) h.valid.rindex_in
              (omega (arith, full, h.count)) (omega (arith, full, h.count)),
          h.tokens k lt,
        );
  }

module _ {mg : ModuloGroup} (im : IsModulo mg) {A : Type 0} where
  -- `rpp(n)` where the first `n` tokens are of no interest.
  pub rpp-rest :
      (q : QueueWithStorage A) (n : ℕ) (ts : List A)
      → HoldsRest q n ts
      → (p : QueueWithStorage A) × (Store.rpp mg q n ≡ some p)
        × (p.fsize ≡ q.fsize)
        × Holds p ts
        × (p.rindex ≡ (q.rindex + n) % q.fsize)
  unfolding Store.rpp
  rpp-rest q n ts h =
      let e : mg.sub q.fsize q.windex q.rindex ≡ n + length ts =
        sub-gap im q.fsize q.rindex q.windex h.valid.rindex_in h.valid.windex_in ∙ h.count in
      let le = le→leb n (n + length ts) (omega arith) in
      let e' = im.add_mod q.fsize q.rindex n h.valid.rindex_in in
      (
        taken q n,
        unfold taken in rw (e, le, e'),
        unfold taken in refl,
        taken-Holds q ts n h,
        unfold taken in refl,
      )

  module _ (q : QueueWithStorage A) (ts : List A) (h : Holds q ts) (n : ℕ) where
    -- `rpp(n)` stops exactly if fewer than `n` tokens are there, and otherwise takes the `n` oldest
    -- ones away, keeping the rest in order.
    pub rpp-Holds : Leaves q (Store.rpp mg q n) n (length ts) (drop n ts)
    unfolding Store.rpp
    rpp-Holds =
        let e : mg.sub q.fsize q.windex q.rindex ≡ length ts =
          sub-gap im q.fsize q.rindex q.windex h.valid.rindex_in h.valid.windex_in ∙ h.count in
        let e' = im.add_mod q.fsize q.rindex n h.valid.rindex_in in
        elim (Bool-cases (leb n (length ts))) [
          | inl le ↦
              rw (e, le, e')
                (
                  leb→le n (length ts) le,
                  refl,
                  unfold taken in
                      taken-Holds q (drop n ts) n
                        (drop-HoldsRest q ts n h (leb→le n (length ts) le)),
                )
          | inr gt ↦ rw (e, gt) (leb-false→lt n (length ts) gt)
        ]
