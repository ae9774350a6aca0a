-- ===== src/Plan.antt =====
-- server/game/ghost_helpers.go: plan, the choice of a ghost's next move. `draw n` is the result of
-- `rng.Intn(n)`, which lies below n.
pub mod Choice
pub mod Nearest
pub mod Rounds
mod Tests
use pacbot.Prelude.{
  ℕ, ◌+◌, List, [], ◌∷◌, Bool, not, ◌&&◌, ◌||◌, ◌==◌, ltb, if◌then◌else◌, Option, none, some, map,
}
use pacbot.Maze.{scatter, chase, red, ghost_house_exit_row, ghost_house_exit_col}
use pacbot.Location.{
  LocationState, up, left, down, right, ghost_spawn_loc, collides_with, is_empty, get_reversed_dir,
  get_neighbor_coords, update_dir, advance_from,
}
use pacbot.State.{GhostState, GameState}
use pacbot.Modes.{get_last_unpaused_mode}
use pacbot.Grid.{wall_in, ghost_spawn_at, dist_sq}
use pacbot.Ghost.{is_trapped, dec_trapped_steps}
use pacbot.Target.{get_chase_target}

abbrev pub all_dirs : List ℕ
all_dirs = up ∷ left ∷ down ∷ right ∷ []

-- Where the ghost wants to go; `next` is its planned location.
unfoldable pub choose_target : GameState → GhostState → LocationState → ℕ × ℕ
choose_target s g next =
    let home = ghost_spawn_loc red in
    let mode = get_last_unpaused_mode s in
    if g.spawning && not (collides_with g.loc home) && not (collides_with next home)
    then (home.row, home.col)
    else if mode == chase
    then get_chase_target s g.color
    else if mode == scatter
    then (g.scatter_target.row, g.scatter_target.col)
    else (0, 0)

-- May a ghost stand on the cell: no wall, or part of the way out of the house while it spawns.
unfoldable pub can_enter : List ℕ → Bool → ℕ → ℕ → Bool
can_enter walls spawning row col =
    not (wall_in walls row col)
    || spawning
      && (ghost_spawn_at row col || row == ghost_house_exit_row && col == ghost_house_exit_col)

-- `moveValid[dir]`.
unfoldable pub move_valid : List ℕ → Bool → LocationState → ℕ → Bool
move_valid walls spawning next dir =
    let (row, col) = get_neighbor_coords next dir in
    can_enter walls spawning row col && not (dir == get_reversed_dir next)

-- `moveDistSq[dir]`.
unfoldable pub move_dist_sq : LocationState → ℕ × ℕ → ℕ → ℕ
move_dist_sq next (target_row, target_col) dir =
    let (row, col) = get_neighbor_coords next dir in dist_sq row col target_row target_col

-- The directions that pass a test: `numValidMoves`, the random choice and the best choice, each a
-- loop over the directions.
module _ (valid : ℕ → Bool) where
  unfoldable pub count_valid : List ℕ → ℕ → ℕ
  count_valid [] n = n
  count_valid (d ∷ ds) n = count_valid ds (if valid d then n + 1 else n)

  -- `none` means that the loop ends without a choice.
  unfoldable pub pick_random : ℕ → List ℕ → ℕ → Option ℕ
  pick_random wanted [] count = none
  pick_random wanted (d ∷ ds) count =
      let rest = pick_random wanted ds (if valid d then count + 1 else count) in
      if valid d && count == wanted then some d else rest

  unfoldable pub pick_best : (ℕ → ℕ) → List ℕ → ℕ → ℕ → ℕ
  pick_best dist [] best_dir best_dist = best_dir
  pick_best dist (d ∷ ds) best_dir best_dist =
      let better = valid d && ltb (dist d) best_dist in
      pick_best dist ds (if better then d else best_dir) (if better then dist d else best_dist)

unfoldable pub best_move : (ℕ → Bool) → (ℕ → ℕ) → ℕ
best_move valid dist = pick_best valid dist all_dirs up 0xffffffff

-- The direction of the planned location, by its valid moves. A frightened ghost whose loop ended
-- without a choice would go on to the best direction.
unfoldable pub choose_dir : (ℕ → Bool) → (ℕ → ℕ) → ℕ → (ℕ → ℕ) → Option ℕ
choose_dir valid dist fright_steps draw =
    let n = count_valid valid all_dirs 0 in
    let best = best_move valid dist in
    if n == 0
    then none
    else if ltb 1 fright_steps
    then elim (pick_random valid (draw n) all_dirs 0) [ none ↦ some best | some d ↦ some d ]
    else some best

-- A ghost with nowhere to go keeps its direction.
abbrev pub turn : LocationState → Option ℕ → LocationState
turn next none = next
turn next (some d) = record next { dir = d }

unfoldable pub plan : GameState → (ℕ → ℕ) → GhostState → GhostState
plan s draw g =
    let next = advance_from g.next_loc g.loc in
    let target = choose_target s g next in
    if is_empty g.loc
    then g
    else if is_trapped g
    then dec_trapped_steps (record g { next_loc = update_dir next (get_reversed_dir next) })
    else record g {
      next_loc = turn next (
          choose_dir (move_valid s.walls g.spawning next) (move_dist_sq next target) g.fright_steps
            draw);
    }

-- `planAllGhosts`. A plan reads the state and the current locations of the ghosts, and writes the
-- planned location and trapped steps of its own ghost alone, so the goroutines are one map. The
-- draws are given by color.
unfoldable pub plan_all_ghosts : (ℕ → ℕ → ℕ) → GameState → GameState
plan_all_ghosts draw s = record s { ghosts = map (λ g. plan s (draw g.color) g) s.ghosts }
