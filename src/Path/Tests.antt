-- ===== src/Path/Tests.antt =====
-- The search of a route on small inputs.
use pacbot.Prelude.{◌≡◌, refl, [], ◌∷◌, some, arith}
use pacbot.Maze.{init_walls}
use pacbot.Bits.{get_bit}
use pacbot.State.{GameState, new_game_state}
use pacbot.Grid.{wall_in, in_bounds}
use pacbot.Path.{
  pos, Parents, search_loop, search_fuel, find_likely_path, found, visit, get_adjacent, parent_of,
  parent_or_zero, trace_path, backtrack, finish_path,
}
use pacbot.Path.Ends.{search_loop-some}
use pacbot.Path.Routes.{Outcome, find_likely_path_lem}

abbrev fresh : GameState
fresh = new_game_state 4

search_loop-some_example :
    (m : Parents) × (search_loop search_fuel fresh
        (pos 23 20)
        (pos 23 13 ∷ [])
        ((pos 23 13, pos 255 255) ∷ [])
      ≡ some m)
search_loop-some_example =
    search_loop-some fresh (pos 23 13) (pos 23 20) (omega arith) (omega arith)

find_likely_path_lem_example :
    Outcome fresh
      (pos fresh.pacman_loc.row fresh.pacman_loc.col)
      (pos 23 20)
      (find_likely_path fresh 23 20)
unfolding new_game_state wall_in in_bounds get_bit init_walls
find_likely_path_lem_example =
    find_likely_path_lem fresh 23 20 (omega arith) (omega arith) refl refl

two_steps : find_likely_path fresh 23 15 ≡ found (pos 23 14 ∷ pos 23 15 ∷ [])
unfolding new_game_state wall_in in_bounds get_bit init_walls find_likely_path search_loop visit
    get_adjacent parent_of parent_or_zero trace_path backtrack finish_path
two_steps = refl
