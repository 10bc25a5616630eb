-- ===== src/Simulation/Bursts.antt =====
-- When a burst emits (normal_attack.go, `collectDueBurstEmissions`).
use server_crawl_stars.Base.{
  ℕ, zero, suc, ◌-◌, ◌++◌, List, Option, some, String, true, false, ◌+◌, ◌*◌, ◌/◌, ◌≤◌, ◌≡◌, ◌⊎◌,
  none, [], if◌then◌else◌, leb,
}
use server_crawl_stars.Base.Dict.{lookup}
use server_crawl_stars.Simulation.State.{BurstState, State, ProjectileEmission, scheduled}
use server_crawl_stars.Simulation.Attacks.{is_due, collect_one, new_projectile_emission, to_list}

abbrev pub up_to : ℕ → ℕ → ℕ
up_to limit n = if leb limit n then limit else n

-- A burst with one interval between its emissions.
abbrev pub IsRegular : BurstState → Type 0
IsRegular b =
    (b.attack.projectile.emission_offsets_ticks ≡ [])
    × (b.next_ordinal ≡ 1)
    × (1 ≤ b.attack.projectile.count)
    × (1 ≤ b.attack.projectile.interval_ticks)

-- The burst once it has come to an ordinal.
abbrev at_ordinal : ℕ → BurstState → BurstState
at_ordinal k b = record b { next_ordinal = k }

-- How many of the later projectiles are out a number of ticks after the activation.
abbrev pub sent : ℕ → BurstState → ℕ
sent n b = up_to (b.attack.projectile.count - 1) (n / b.attack.projectile.interval_ticks)

-- The next tick: the whole interval is over and the next projectile is due, or none is.
abbrev Next : ℕ → BurstState → Type 0
Next n b =
    ((is_due (b.activation_tick + suc n) (at_ordinal (suc (sent n b)) b) ≡ true)
      × (sent (suc n) b ≡ suc (sent n b))
      × (suc n ≡ suc (sent n b) * b.attack.projectile.interval_ticks))
    ⊎ ((is_due (b.activation_tick + suc n) (at_ordinal (suc (sent n b)) b) ≡ false)
        × (sent (suc n) b ≡ sent n b))

-- The ticks after an activation, as `collectDueBurstEmissions` treats the burst of one owner: what is
-- emitted, in order, and the state that is left.
abbrev collect_next :
    ℕ
    → String
    → Option BurstState
    → List ProjectileEmission × State
    → List ProjectileEmission × State
collect_next tick id none r = r
collect_next tick id (some b) r = let turn = collect_one tick id b r.1 in (r.0 ++ turn.0, turn.1)

unfoldable pub collected : ℕ → String → ℕ → State → List ProjectileEmission × State
collected zero id from s = ([], s)
collected (suc n) id from s =
    let r = collected n id from s in collect_next (from + suc n) id (lookup id r.1.burst_states) r

-- The emissions of the later projectiles of a burst, each at its whole interval.
abbrev pub volley : ℕ → String → BurstState → State → List ProjectileEmission
volley zero id b s = []
volley (suc m) id b s =
    volley m id b s
    ++ to_list (
        new_projectile_emission id b.direction b.attack scheduled (suc m)
          (b.activation_tick + suc m * b.attack.projectile.interval_ticks) s)

-- The first `m` later projectiles are out, and of the state only the bursts have changed.
abbrev pub Fired : ℕ → String → BurstState → State → List ProjectileEmission × State → Type 0
Fired m id b s (emissions, after) =
    (emissions ≡ volley m id b s)
    × (lookup id after.burst_states ≡ some (record b { next_ordinal = suc m }))
    × (after ≡ record s { burst_states = after.burst_states })
