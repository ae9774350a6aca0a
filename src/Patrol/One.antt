-- ===== src/Patrol/One.antt =====
-- One ghost on patrol: where it may be between its update and its plan, and after its plan.
use pacbot.Prelude.{ℕ, zero, suc, ◌≡◌, ◌≢◌, ◌⊎◌, inl, inr, refl, Bool, true, arith}
use pacbot.Bits.{get_bit}
use pacbot.Maze.{init_walls}
use pacbot.Location.{LocationState, ghost_spawn_loc, up}
use pacbot.State.{GhostState, new_ghost_state}
use pacbot.Grid.{in_bounds, wall_in, ghost_spawn_at}
use pacbot.Ghost.{reset, respawn, update, frighten, reverse_ghost}
use pacbot.Plan.{can_enter}
use pacbot.Patrol.{legal, ahead, legal-leave}

abbrev pub IsGone : LocationState → Type 0
IsGone l = (l.row ≡ 32) × (l.col ≡ 32)

abbrev pub Fits : Bool → LocationState → Type 0
Fits sp l = IsGone l ⊎ (legal sp l.row l.col l.dir ≡ true)

pub record IsPlaced (g : GhostState) : Type 0 where
  pub here : Fits g.spawning g.loc
  pub next : IsGone g.loc → Fits g.spawning g.next_loc

-- The planned location is the next cell in the ghost's direction.
abbrev pub IsStep : LocationState → LocationState → Type 0
IsStep l n = (n.row ≡ (ahead l.row l.col l.dir).row) × (n.col ≡ (ahead l.row l.col l.dir).col)

pub record IsPlanned (g : GhostState) : Type 0 where
  pub next : Fits g.spawning g.next_loc
  pub here :
      IsGone g.loc
      ⊎ ((legal g.spawning g.loc.row g.loc.col g.loc.dir ≡ true) × IsStep g.loc g.next_loc)

module _ {g : GhostState} (h : IsPlanned g) where
  pub frighten-IsPlanned : (n : ℕ) → IsPlanned (frighten n g)
  unfolding frighten
  frighten-IsPlanned n = ground arith

  pub reverse_ghost-IsPlanned : IsPlanned (reverse_ghost g)
  unfolding reverse_ghost
  reverse_ghost-IsPlanned = ground arith

module _ {g : GhostState} (h : IsPlaced g) where
  pub frighten-IsPlaced : (n : ℕ) → IsPlaced (frighten n g)
  unfolding frighten
  frighten-IsPlaced n = ground arith

  pub reverse_ghost-IsPlaced : IsPlaced (reverse_ghost g)
  unfolding reverse_ghost
  reverse_ghost-IsPlaced = ground arith

spawn-Fits : (c : ℕ) → Fits true (ghost_spawn_loc c)
unfolding legal can_enter ghost_spawn_at wall_in in_bounds get_bit init_walls
spawn-Fits zero = inr refl
spawn-Fits (suc zero) = inr refl
spawn-Fits (suc (suc zero)) = inr refl
spawn-Fits (suc (suc (suc zero))) = inr refl
spawn-Fits (suc (suc (suc (suc c)))) = inl (refl, refl)

-- The spawn point with the direction up, as after a respawn.
spawn_up-Fits :
    (c : ℕ)
    → c ≢ 0
    → Fits true (record { row = (ghost_spawn_loc c).row; col = (ghost_spawn_loc c).col; dir = up })
unfolding legal can_enter ghost_spawn_at wall_in in_bounds get_bit init_walls
spawn_up-Fits zero h = absurd (h refl)
spawn_up-Fits (suc zero) h = inr refl
spawn_up-Fits (suc (suc zero)) h = inr refl
spawn_up-Fits (suc (suc (suc zero))) h = inr refl
spawn_up-Fits (suc (suc (suc (suc c)))) h = inl (refl, refl)

module _ (active : ℕ) {g : GhostState} where
  pub reset-IsPlanned : IsPlanned g → IsPlanned (reset active g)
  unfolding reset
  reset-IsPlanned h = ground (arith, spawn-Fits g.color)

  pub reset-IsPlaced : IsPlaced g → IsPlaced (reset active g)
  unfolding reset
  reset-IsPlaced h = ground (arith, spawn-Fits g.color)

  pub respawn-IsPlanned : IsPlanned g → IsPlanned (respawn active g)
  unfolding respawn
  respawn-IsPlanned h = ground (arith, spawn_up-Fits 1 (omega arith), spawn_up-Fits g.color)

  pub respawn-IsPlaced : IsPlaced g → IsPlaced (respawn active g)
  unfolding respawn
  respawn-IsPlaced h = ground (arith, spawn_up-Fits 1 (omega arith), spawn_up-Fits g.color)

pub new_ghost-IsPlanned : (active c : ℕ) → IsPlanned (new_ghost_state active c)
unfolding new_ghost_state
new_ghost-IsPlanned active c = ground (arith, spawn-Fits c)

-- A ghost leaves the house as it moves off the spawn point of red; any other keeps its flag.
pub update-IsPlaced : {g : GhostState} → IsPlanned g → IsPlaced (update g)
unfolding update
update-IsPlaced {g} h = ground (arith, legal-leave g.loc.dir g.next_loc.dir)
