-- ===== src/Node/Release.antt =====
-- The release times of a periodic actor without jitter.
use systemoc_syste_mo_c.Common.{
  ℕ, zero, suc, ltb, ltb-false→le, true, ◌+◌, ◌*◌, ◌≤◌, ◌<◌, ◌≡◌, refl, ap, ◌⊎◌, inl, inr, some,
  leb, leb→le, leb-false→lt, Bool-cases, arith,
}
use systemoc_syste_mo_c.Node.Periodic.{PeriodicActor, int_end, update_release_time}

-- The release time is that of the period that is counted.
abbrev pub IsAligned : PeriodicActor → Type 0
IsAligned a = a.next_release_time ≡ a.period_counter * a.period + a.offset

-- What `updateReleaseTime` should find at `now`.
abbrev pub IsUpdated : ℕ → PeriodicActor → PeriodicActor → Type 0
IsUpdated now a b =
    IsAligned b
    × (b.period ≡ a.period)
    × (b.offset ≡ a.offset)
    × (now < b.next_release_time)
    × ((b ≡ a) ⊎ (b.next_release_time ≤ now + a.period))

-- Without jitter, and as long as SystemC's arithmetic of times is exact, up to the period after `now`.
abbrev pub IsExact : (ℕ → ℕ → ℕ → ℕ) → ℕ → PeriodicActor → Type 0
IsExact release now a =
    (k : ℕ) → k * a.period ≤ now + a.period → release k a.period a.offset ≡ k * a.period + a.offset

mul_mono : (w m h : ℕ) → w ≤ m → w * h ≤ m * h
mul_mono w m h p = grind arith

module _ (release : ℕ → ℕ → ℕ → ℕ) (now : ℕ) where
  abbrev next_period : PeriodicActor → PeriodicActor
  next_period a = record a {
    period_counter = suc a.period_counter;
    next_release_time = release (suc a.period_counter) a.period a.offset;
  }

  updated :
      (fuel : ℕ) (a : PeriodicActor)
      → 0 < a.period
      → IsAligned a
      → IsExact release now a
      → now + a.period < int_end * a.period
      → now < a.next_release_time + fuel
      → (b : PeriodicActor) × (update_release_time release fuel now a ≡ some b) × IsUpdated now a b
  unfolding update_release_time
  updated zero a pos al exact room enough = elim (Bool-cases (leb a.next_release_time now)) [
    | inl e ↦ let le = leb→le a.next_release_time now e in absurd (omega arith)
    | inr e ↦ rw e (a, refl, (al, refl, refl, leb-false→lt a.next_release_time now e, inl refl))
  ]
  updated (suc fuel) a pos al exact room enough = elim (Bool-cases (leb a.next_release_time now)) [
    | inl e ↦
        let le = leb→le a.next_release_time now e in
        let k = suc a.period_counter in
        let step : suc a.period_counter * a.period ≡ a.period_counter * a.period + a.period =
          grind arith in
        let later : release k a.period a.offset ≡ k * a.period + a.offset =
          exact k (omega (arith, step, le, al)) in
        let counts : ltb k int_end ≡ true = elim (Bool-cases (ltb k int_end)) [
          | inl fits ↦ fits
          | inr over ↦
              let large = mul_mono int_end k a.period (ltb-false→le k int_end over) in
              absurd (omega (arith, large, room, step, le, al))
        ] in
        let (b, eb, (ab, pb, ob, lt, close)) =
          updated fuel (next_period a) pos later exact room
            (omega (arith, later, step, al, enough, pos)) in
        let near : b.next_release_time ≤ now + a.period = elim close [
          | inl same ↦
              let t = ap (λ (x : PeriodicActor). x.next_release_time) same in
              omega (arith, t, later, step, le, al)
          | inr k ↦ k
        ] in
        rw (e, counts) (b, eb, (ab, pb, ob, lt, inr near))
    | inr e ↦ rw e (a, refl, (al, refl, refl, leb-false→lt a.next_release_time now e, inl refl))
  ]

  -- For an actor with a period that is not 0 and with the release time of the period that is counted,
  -- without jitter and where SystemC's arithmetic of times is exact for the periods up to the one after
  -- `now`, and where the counter of these periods fits in its type, `updateReleaseTime` ends after
  -- `now + 1` rounds at most. The release time is then after `now`, of the period that is counted, and
  -- either as before or at most one period after `now`.
  pub update_release_time-IsUpdated :
      (a : PeriodicActor)
      → 0 < a.period
      → IsAligned a
      → IsExact release now a
      → now + a.period < int_end * a.period
      → (b : PeriodicActor) × (update_release_time release (suc now) now a ≡ some b)
        × IsUpdated now a b
  update_release_time-IsUpdated a pos al exact room =
      updated (suc now) a pos al exact room (omega arith)
