-- ===== src/Grid.antt =====
-- server/game/game_helpers.go: what stands on a cell of the maze. Coordinates are int8.
use pacbot.Prelude.{ℕ, ◌+◌, ◌*◌, List, Bool, true, false, not, ◌&&◌, if◌then◌else◌, get_or}
use pacbot.Word.{lt8, ge8, sub8, mag8}
use pacbot.Bits.{get_bit}
use pacbot.Maze.{maze_rows, maze_cols}
use pacbot.State.{GameState}

unfoldable pub in_bounds : ℕ → ℕ → Bool
in_bounds row col = (ge8 row 0 && lt8 row maze_rows) && (ge8 col 0 && lt8 col maze_cols)

-- `pelletAt` and `wallAt`, over the bit maps that they read.
unfoldable pub pellet_in : List ℕ → ℕ → ℕ → Bool
unfolding in_bounds
pellet_in pellets row col =
    if not (in_bounds row col) then false else get_bit (get_or pellets row 0) col

abbrev pub pellet_at : GameState → ℕ → ℕ → Bool
pellet_at s row col = pellet_in s.pellets row col

unfoldable pub wall_in : List ℕ → ℕ → ℕ → Bool
unfolding in_bounds
wall_in walls row col = if not (in_bounds row col) then true else get_bit (get_or walls row 0) col

abbrev pub wall_at : GameState → ℕ → ℕ → Bool
wall_at s row col = wall_in s.walls row col

unfoldable pub ghost_spawn_at : ℕ → ℕ → Bool
unfolding in_bounds
ghost_spawn_at row col =
    if not (in_bounds row col)
    then false
    else (ge8 row 13 && not (lt8 14 row)) && (ge8 col 11 && not (lt8 15 col))

-- The differences wrap as int8 before they become ints, and a square forgets the sign.
unfoldable pub dist_sq : ℕ → ℕ → ℕ → ℕ → ℕ
dist_sq row1 col1 row2 col2 =
    let dx = mag8 (sub8 row2 row1) in let dy = mag8 (sub8 col2 col1) in dx * dx + dy * dy
