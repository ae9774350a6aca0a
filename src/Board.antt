-- ===== src/Board.antt =====
-- server/game/game_helpers.go: the resets after a death and a cleared level, and the respawn of
-- Pacman.
pub mod Resets
use pacbot.Prelude.{true, ◌&&◌, ltb, if◌then◌else◌}
use pacbot.Maze.{init_mode, mode_durations, level_duration, anger_threshold1}
use pacbot.Location.{empty_loc, pacman_spawn_loc, copy_from, is_empty}
use pacbot.State.{GameState}
use pacbot.Modes.{set_mode, set_mode_steps, set_pause_on_update}
use pacbot.Counters.{decrement_lives, set_fruit_steps, set_level_steps, reset_pellets}
use pacbot.Herd.{reset_all_ghosts}

unfoldable pub put_pacman : GameState → GameState
unfolding copy_from
put_pacman s = record s { pacman_loc = copy_from s.pacman_loc empty_loc }

-- Back to the initial mode, for its full duration.
unfoldable pub restart_mode : GameState → GameState
unfolding set_mode set_mode_steps
restart_mode s = set_mode_steps (mode_durations init_mode) (set_mode init_mode s)

unfoldable pub death_reset : GameState → GameState
death_reset s =
    let s1 = decrement_lives (put_pacman (set_pause_on_update true s)) in
    let s2 = if ltb anger_threshold1 s1.num_pellets then restart_mode s1 else s1 in
    reset_all_ghosts (set_fruit_steps 0 s2)

unfoldable pub level_reset : GameState → GameState
level_reset s =
    let s1 = restart_mode (put_pacman (set_pause_on_update true s)) in
    reset_pellets (reset_all_ghosts (set_fruit_steps 0 (set_level_steps level_duration s1)))

unfoldable pub try_respawn_pacman : GameState → GameState
unfolding is_empty copy_from
try_respawn_pacman s =
    if is_empty s.pacman_loc && ltb 0 s.curr_lives
    then record s { pacman_loc = copy_from s.pacman_loc pacman_spawn_loc }
    else s
