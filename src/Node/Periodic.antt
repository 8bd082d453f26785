-- ===== src/Node/Periodic.antt =====
-- cpp/smoc_periodic_actor.cpp: actors that fire at release times. A time is a number of units of the
-- time resolution. The arithmetic of `sc_time`, which goes through `double`, is that of SystemC:
-- `release k period offset` stands for the value of `k * period + offset + calculateMobility()`, with
-- the random draw of that round.
use systemoc_syste_mo_c.Common.{
  ℕ, zero, suc, ◌^◌, Bool, true, false, not, ◌&&◌, ◌||◌, Option, none, some, leb, ltb,
  if◌then◌else◌, ◌>>=◌,
}
use systemoc_syste_mo_c.Node.Base.{NodeBase, World, notify_activation, can_fire}

pub record PeriodicActor : Type 0 where
  pub node : NodeBase
  -- An `int` that is not negative.
  pub period_counter : ℕ
  pub period : ℕ
  pub offset : ℕ
  pub next_release_time : ℕ
  pub reexecute : Bool
  pub periodic_actor_active : Bool

-- `smoc_periodic_actor::smoc_periodic_actor`
abbrev pub new_actor : NodeBase → (period offset : ℕ) → PeriodicActor
new_actor n per off = record {
  node = n;
  period_counter = 0;
  period = per;
  offset = off;
  next_release_time = off;
  reexecute = false;
  periodic_actor_active = true;
}

-- The numbers that an `int` of 32 bits holds are those below it.
abbrev pub int_end : ℕ
int_end = 2 ^ 31

-- `updateReleaseTime`; the fuel bounds the rounds of its loop. A counter that is too large for its
-- type stops it, since the source has no behaviour then.
unfoldable pub update_release_time :
    (release : ℕ → ℕ → ℕ → ℕ) (fuel now : ℕ) → PeriodicActor → Option PeriodicActor
update_release_time release zero now a = if leb a.next_release_time now then none else some a
update_release_time release (suc fuel) now a =
    let k : ℕ = suc a.period_counter in
    let b : PeriodicActor = record a {
      period_counter = k;
      next_release_time = release k a.period a.offset;
    } in
    let rest = update_release_time release fuel now b in
    let next = if ltb k int_end then rest else none in
    if leb a.next_release_time now then next else some a

-- `getNextReleaseTime`
unfoldable pub get_next_release_time : ℕ → PeriodicActor → ℕ
get_next_release_time now a =
    if a.reexecute || not a.periodic_actor_active then now else a.next_release_time

module _ {W : Type 0} (world : World W) (now : W → ℕ) where
  unfoldable pub can_fire_periodic : PeriodicActor → W → Option (PeriodicActor × Bool)
  can_fire_periodic a w = do
    (n, active) ← can_fire world a.node w
    let b : PeriodicActor = record a { node = n }
    some (
        if active && ltb (now w) (get_next_release_time (now w) b) && n.use_activation_callback
        then (record b { node = notify_activation true n }, false)
        else (b, active))

  -- `smoc_periodic_actor::schedule`; `run` is `smoc_actor::schedule`, whose action may set the flags
  -- of the actor.
  unfoldable pub schedule_periodic :
      (run : PeriodicActor → W → Option (PeriodicActor × W)) (release : ℕ → ℕ → ℕ → ℕ) (fuel : ℕ)
      → PeriodicActor
      → W
      → Option (PeriodicActor × W)
  schedule_periodic run release fuel a w = do
    (b, w1) ← run (record a { reexecute = false; periodic_actor_active = true }) w
    c ←
        (if not b.reexecute && b.periodic_actor_active
          then update_release_time release fuel (now w1) b
          else some b)
    some (c, w1)
