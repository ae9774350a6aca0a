-- ===== src/Pacman.antt =====
-- server/game/game_helpers.go: the moves of Pacman. Each runs to its end under the Pacman mutex, so
-- it is one step.
use pacbot.Prelude.{
  ℕ, List, [], ◌∷◌, ◌&&◌, ◌||◌, ◌==◌, ltb, if◌then◌else◌, Option, none, some, length,
}
use pacbot.Word.{lt8}
use pacbot.Location.{up, left, down, right, get_neighbor_coords, update_dir, update_coords}
use pacbot.State.{GameState}
use pacbot.Modes.{is_paused}
use pacbot.Grid.{wall_at}
use pacbot.Collect.{collect_pellet}
use pacbot.Collide.{check_collisions}
use pacbot.Path.{Pos, pos, Route, found, nil_path, panics, hangs, find_likely_path}

-- The body of `movePacmanDir`, without the deferred check.
unfoldable pub turn_and_step : ℕ → GameState → GameState
turn_and_step dir s =
    if is_paused s || s.pause_on_update
    then s
    else let (row, col) = get_neighbor_coords s.pacman_loc dir in
      let t = record s { pacman_loc = update_dir s.pacman_loc dir } in
      if wall_at t row col
      then t
      else collect_pellet row col (record t { pacman_loc = update_coords t.pacman_loc (row, col) })

unfoldable pub move_pacman_dir : ℕ → GameState → GameState
move_pacman_dir dir s = check_collisions (turn_and_step dir s)

-- The direction from one cell of a route to the next.
unfoldable pub heading : Pos → Pos → ℕ
heading prev next =
    if lt8 next.r prev.r
    then up
    else if lt8 next.c prev.c
    then left
    else if lt8 prev.r next.r
    then down
    else right

unfoldable pub walk : Pos → List Pos → GameState → GameState
walk prev [] s = s
walk prev (next ∷ path) s =
    let t = check_collisions (move_pacman_dir (heading prev next) s) in
    walk next path (collect_pellet t.pacman_loc.row t.pacman_loc.col t)

unfoldable pub jump : ℕ → ℕ → GameState → GameState
jump row col s =
    check_collisions
      (collect_pellet row col (record s { pacman_loc = update_coords s.pacman_loc (row, col) }))

-- `none` stands for a panic or a loop without end in the search for the route.
unfoldable pub follow : ℕ → ℕ → GameState → Route → Option GameState
follow row col s (found path) = some (
    if ltb 11 (length path)
    then jump row col s
    else walk (pos s.pacman_loc.row s.pacman_loc.col) path s)
follow row col s nil_path = some s
follow row col s panics = none
follow row col s hangs = none

unfoldable pub move_pacman_absolute : ℕ → ℕ → GameState → Option GameState
move_pacman_absolute row col s =
    if is_paused s || s.pause_on_update
    then some s
    else if wall_at s row col
    then some s
    else if s.pacman_loc.row == row && s.pacman_loc.col == col
    then some s
    else follow row col s (find_likely_path s row col)
