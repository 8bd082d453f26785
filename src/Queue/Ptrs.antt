-- ===== src/Queue/Ptrs.antt =====
-- The four pointers of `QueueFRVWPtr`: their invariant, the areas between them, and each move of a
-- pointer against the step of the areas.
use systemoc_syste_mo_c.Common.{
  ℕ, ◌+◌, ◌-◌, ◌%◌, ◌≤◌, ◌<◌, ◌≡◌, refl, Option, none, some, inl, inr, arith, leb, leb→le, le→leb,
  Bool-cases,
}
use systemoc_syste_mo_c.Modulo.{ModuloGroup, IsModulo}
use systemoc_syste_mo_c.Modulo.Wrap.{gap, gap-cases, gap_self, gap_advance}
use systemoc_syste_mo_c.Modulo.Chain.{
  Chain, sub-w-r, sub-v-r, sub-w-v, sub-r-f, sub-free, sub-free_base, between-v, between-f,
}
use systemoc_syste_mo_c.Modulo.Moves.{
  gap-write, Chain-write, gap-publish, gap-publish_rest, Chain-publish, gap-read, gap-read_rest,
  Chain-read, gap-release, Chain-release,
}
use systemoc_syste_mo_c.Queue.Frvw
use systemoc_syste_mo_c.Queue.Frvw.{QueueFrvwPtr}
use systemoc_syste_mo_c.Queue.Areas.{Areas, write, publish, read, release, drop, skip, step}

-- The pointers stand in the buffer, in the order findex, rindex, vindex, windex round the ring, and
-- at least one place is left between the last and the first.
abbrev pub IsValid : QueueFrvwPtr → Type 0
IsValid q = Chain q.fsize q.findex q.rindex q.vindex q.windex

abbrev pub view : QueueFrvwPtr → Areas
view q = record {
  depth = q.fsize - 1;
  consuming = gap q.fsize q.findex q.rindex;
  visible = gap q.fsize q.rindex q.vindex;
  pipeline = gap q.fsize q.vindex q.windex;
}

-- The code and the areas stop together, or both go on, the queue valid and seen as the areas.
abbrev pub Agrees : Option QueueFrvwPtr → Option Areas → Type 0
Agrees none none = Unit {0}
Agrees none (some a) = ⊥
Agrees (some q) none = ⊥
Agrees (some q) (some a) = IsValid q × (view q ≡ a)

module _ {mg : ModuloGroup} (im : IsModulo mg) {q : QueueFrvwPtr} (n : ℕ) (c : IsValid q) where
  pub wpp-Agrees : Agrees (Frvw.wpp mg q n) (step (view q) (write n))
  unfolding Frvw.wpp
  wpp-Agrees = ground (
    arith,
    sub-free im c,
    sub-free_base im c,
    im.add_mod q.fsize q.windex n c.w_in,
    gap-write n c,
    Chain-write n c,
  )

  pub vpp-Agrees : Agrees (Frvw.vpp mg q n) (step (view q) (publish n))
  unfolding Frvw.vpp
  vpp-Agrees = ground (
    arith,
    between-v im c,
    sub-w-v im c,
    im.add_mod q.fsize q.vindex n c.v_in,
    gap-publish n c,
    gap-publish_rest n c,
    Chain-publish n c,
  )

  pub rpp-Agrees : Agrees (Frvw.rpp mg q n) (step (view q) (read n))
  unfolding Frvw.rpp
  rpp-Agrees = ground (
    arith,
    sub-v-r im c,
    sub-w-r im c,
    im.add_mod q.fsize q.rindex n c.r_in,
    gap-read n c,
    gap-read_rest n c,
    Chain-read n c,
  )

  pub fpp-Agrees : Agrees (Frvw.fpp mg q n) (step (view q) (release n))
  unfolding Frvw.fpp
  fpp-Agrees = ground (
    arith,
    between-f im c,
    sub-r-f im c,
    im.add_mod q.fsize q.findex n c.f_in,
    gap-release n c,
    Chain-release n c,
  )

  pub drop_r_invisible-Agrees : Agrees (Frvw.drop_r_invisible mg q n) (step (view q) (drop n))
  unfolding Frvw.drop_r_invisible
  drop_r_invisible-Agrees = elim (Bool-cases (leb n (gap q.fsize q.vindex q.windex))) [
    | inl fits ↦
        let h = leb→le _ _ fits in
        let c1 = Chain-publish n c h in
        let e1 = gap-publish n c h in
        let c2 = Chain-read n c1 (omega (arith, e1)) in
        ground (
          arith,
          h,
          between-v im c,
          sub-w-v im c,
          im.add_mod q.fsize q.vindex n c.v_in,
          e1,
          gap-publish_rest n c h,
          sub-w-r im c1,
          im.add_mod q.fsize q.rindex n c.r_in,
          gap-read n c1,
          gap-read_rest n c1,
          between-f im c2,
          sub-r-f im c2,
          im.add_mod q.fsize q.findex n c.f_in,
          gap-release n c2,
          Chain-release n c2,
        )
    | inr short ↦ ground (arith, between-v im c, sub-w-v im c)
  ]

  -- The queue that `dropRVisible(n)` leaves.
  abbrev skipped : QueueFrvwPtr
  skipped = record {
    rvw_ptr = record {
      rw_ptr = record (q.rw_ptr) { rindex = (q.rindex + n) % q.fsize };
      vindex = q.vindex;
    };
    findex = (q.findex + n) % q.fsize;
  }

  -- `dropRVisible` goes through up to the tokens of the pipeline.
  drop_r_visible-skipped :
      n ≤ gap q.fsize q.rindex q.vindex + gap q.fsize q.vindex q.windex
      → Frvw.drop_r_visible mg q n ≡ some skipped
  unfolding Frvw.drop_r_visible
  drop_r_visible-skipped h =
      let m = n - gap q.fsize q.rindex q.vindex in
      let c1 = Chain-publish m c (omega (arith, h)) in
      let e1 = gap-publish m c (omega (arith, h)) in
      let c2 = Chain-read n c1 (omega (arith, e1)) in
      ground (
        arith,
        h,
        sub-w-r im c,
        im.add_mod q.fsize q.rindex n c.r_in,
        between-f im c2,
        sub-r-f im c2,
        gap-read n c1,
        im.add_mod q.fsize q.findex n c.f_in,
      )

  pub drop_r_visible-Agrees :
      n ≤ gap q.fsize q.rindex q.vindex
      → Agrees (Frvw.drop_r_visible mg q n) (step (view q) (skip n))
  drop_r_visible-Agrees h =
      let c2 = Chain-read n c h in
      let e2 = gap-read n c h in
      let c3 = Chain-release n c2 (omega (arith, e2)) in
      let e3 = gap-release n c2 (omega (arith, e2)) in
      let e4 = gap-read_rest n c h in
      rw (drop_r_visible-skipped (omega (arith, h)), le→leb n (gap q.fsize q.rindex q.vindex) h)
        (
          c3,
          let e5 : gap q.fsize ((q.findex + n) % q.fsize) ((q.rindex + n) % q.fsize)
                  ≡ gap q.fsize q.findex q.rindex =
                omega (arith, e2, e3) in
              rw (e5, e4) refl,
        )

  -- On a valid queue, `dropRVisible` of more tokens than are visible, though of no more than are written
  -- and not yet read, does not stop at any assertion, and leaves a queue that is not valid: its read
  -- pointer is beyond the end of the visible tokens.
  pub drop_r_visible-beyond :
      gap q.fsize q.rindex q.vindex < n
      → n ≤ gap q.fsize q.rindex q.vindex + gap q.fsize q.vindex q.windex
      → (p : QueueFrvwPtr) × (Frvw.drop_r_visible mg q n ≡ some p) × ¬ IsValid p
  drop_r_visible-beyond more h = (
    skipped,
    drop_r_visible-skipped h,
    λ (cp : Chain q.fsize ((q.findex + n) % q.fsize) ((q.rindex + n) % q.fsize) q.vindex q.windex).
        let ahead =
          gap_advance q.fsize q.rindex q.rindex c.r_in c.r_in n
            (omega (arith, c.fits, h, gap_self q.fsize q.rindex c.r_in)) in
        omega (
          arith,
          ahead,
          more,
          h,
          cp.fits,
          gap_self q.fsize q.rindex c.r_in,
          gap-cases q.fsize q.rindex ((q.rindex + n) % q.fsize) c.r_in cp.r_in,
          gap-cases q.fsize q.rindex q.vindex c.r_in c.v_in,
          gap-cases q.fsize ((q.rindex + n) % q.fsize) q.vindex cp.r_in c.v_in,
        ),
  )
