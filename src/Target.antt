-- ===== src/Target.antt =====
-- server/game/game_helpers.go: the chase targets of the ghosts, as int8 coordinates.
use pacbot.Prelude.{ℕ, ◌==◌, ltb, if◌then◌else◌}
use pacbot.Word.{sub8, mul8}
use pacbot.Maze.{red, pink, cyan, orange}
use pacbot.Location.{empty_loc, get_ahead_coords}
use pacbot.State.{GameState, ghost_at}
use pacbot.Grid.{dist_sq}

unfoldable pub get_chase_target_red : GameState → ℕ × ℕ
get_chase_target_red s = (s.pacman_loc.row, s.pacman_loc.col)

unfoldable pub get_chase_target_pink : GameState → ℕ × ℕ
unfolding get_ahead_coords
get_chase_target_pink s = get_ahead_coords s.pacman_loc 4

unfoldable pub get_chase_target_cyan : GameState → ℕ × ℕ
unfolding get_ahead_coords
get_chase_target_cyan s =
    let (pivot_row, pivot_col) = get_ahead_coords s.pacman_loc 2 in
    let r = (ghost_at s red).loc in (sub8 (mul8 2 pivot_row) r.row, sub8 (mul8 2 pivot_col) r.col)

unfoldable pub get_chase_target_orange : GameState → ℕ × ℕ
unfolding dist_sq
get_chase_target_orange s =
    let p = s.pacman_loc in
    let o = ghost_at s orange in
    if ltb (dist_sq o.loc.row o.loc.col p.row p.col) 64
    then (o.scatter_target.row, o.scatter_target.col)
    else (p.row, p.col)

unfoldable pub get_chase_target : GameState → ℕ → ℕ × ℕ
get_chase_target s color =
    if color == red
    then get_chase_target_red s
    else if color == pink
    then get_chase_target_pink s
    else if color == cyan
    then get_chase_target_cyan s
    else if color == orange
    then get_chase_target_orange s
    else (empty_loc.row, empty_loc.col)
