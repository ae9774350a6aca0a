-- ===== src/Collect.antt =====
-- server/game/game_helpers.go: collectPellet, in its source order.
pub mod Effects
use pacbot.Prelude.{ℕ, Bool, false, not, ◌&&◌, ◌||◌, ◌==◌, if◌then◌else◌, get_or, set}
use pacbot.Bits.{modify_bit}
use pacbot.Maze.{
  chase, mode_durations, fruit_duration, fruit_points, fruit_threshold1, fruit_threshold2,
  anger_threshold1, anger_threshold2, pellet_points, super_pellet_points,
}
use pacbot.Location.{collides_with}
use pacbot.State.{GameState}
use pacbot.Modes.{set_mode, set_mode_steps}
use pacbot.Counters.{
  increment_score, increment_level, decrement_num_pellets, fruit_exists, set_fruit_steps, speed_up,
}
use pacbot.Grid.{pellet_at}
use pacbot.Herd.{frighten_all_ghosts}
use pacbot.Board.{level_reset}

unfoldable pub collect_fruit : GameState → GameState
unfolding fruit_exists collides_with set_fruit_steps increment_score
collect_fruit s =
    if fruit_exists s && collides_with s.pacman_loc s.fruit_loc
    then increment_score fruit_points (set_fruit_steps 0 s)
    else s

unfoldable pub is_super_pellet : ℕ → ℕ → Bool
is_super_pellet row col = (row == 3 || row == 23) && (col == 1 || col == 26)

unfoldable pub clear_pellet : ℕ → ℕ → GameState → GameState
unfolding modify_bit decrement_num_pellets
clear_pellet row col s =
    decrement_num_pellets
      (record s { pellets = set s.pellets row (modify_bit 32 (get_or s.pellets row 0) col false) })

unfoldable pub score_pellet : Bool → GameState → GameState
score_pellet super s =
    if super
    then increment_score super_pellet_points (frighten_all_ghosts s)
    else increment_score pellet_points s

unfoldable pub spawn_fruit : GameState → GameState
unfolding fruit_exists set_fruit_steps
spawn_fruit s =
    if s.num_pellets == fruit_threshold1 && not (fruit_exists s)
    then set_fruit_steps fruit_duration s
    else if s.num_pellets == fruit_threshold2 && not (fruit_exists s)
    then set_fruit_steps fruit_duration s
    else s

unfoldable pub anger : GameState → GameState
unfolding speed_up set_mode set_mode_steps
anger s = set_mode_steps (mode_durations chase) (set_mode chase (speed_up s))

unfoldable pub pellet_events : GameState → GameState
pellet_events s =
    if s.num_pellets == anger_threshold1
    then anger s
    else if s.num_pellets == anger_threshold2
    then anger s
    else if s.num_pellets == 0
    then increment_level (level_reset s)
    else s

unfoldable pub collect_pellet : ℕ → ℕ → GameState → GameState
collect_pellet row col s =
    let s1 = collect_fruit s in
    if not (pellet_at s1 row col)
    then s1
    else pellet_events
        (spawn_fruit (score_pellet (is_super_pellet row col) (clear_pellet row col s1)))
