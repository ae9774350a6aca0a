-- ===== src/Steps.antt =====
-- server/game/game_state.go: handleStepEvents, and game_helpers.go: updateReady.
pub mod Modes
use pacbot.Prelude.{ℕ, ◌%◌, Bool, ◌==◌, leb, if◌then◌else◌, Option, none, some}
use pacbot.Maze.{scatter, chase, paused, mode_durations, level_penalty_duration, anger_threshold1}
use pacbot.State.{GameState}
use pacbot.Modes.{
  set_mode, set_mode_steps, get_last_unpaused_mode, set_last_unpaused_mode, decrement_mode_steps,
}
use pacbot.Counters.{speed_up, set_level_steps, decrement_level_steps, decrement_fruit_steps}
use pacbot.Herd.{reverse_all_ghosts}

-- `currTicks % updatePeriod`; `none` is the panic of the remainder by 0.
unfoldable pub update_ready : GameState → Option Bool
update_ready s = if s.update_period == 0 then none else some (s.curr_ticks % s.update_period == 0)

unfoldable pub switch_mode : GameState → GameState
unfolding set_mode set_mode_steps get_last_unpaused_mode set_last_unpaused_mode
switch_mode s =
    if s.mode == chase
    then set_mode_steps (mode_durations scatter) (set_mode scatter s)
    else if s.mode == scatter
    then set_mode_steps (mode_durations chase) (set_mode chase s)
    else if s.mode == paused
    then (if get_last_unpaused_mode s == chase
        then set_mode_steps (mode_durations scatter) (set_last_unpaused_mode scatter s)
        else if get_last_unpaused_mode s == scatter
        then set_mode_steps (mode_durations chase) (set_last_unpaused_mode chase s)
        else s)
    else s

unfoldable pub mode_event : GameState → GameState
mode_event s = if s.mode_steps == 0 then reverse_all_ghosts (switch_mode s) else s

unfoldable pub level_event : ℕ → GameState → GameState
unfolding speed_up set_level_steps
level_event level_steps s =
    if level_steps == 0 then set_level_steps level_penalty_duration (speed_up s) else s

unfoldable pub count_down : GameState → GameState
unfolding decrement_mode_steps decrement_level_steps decrement_fruit_steps
count_down s =
    let t = if leb anger_threshold1 s.num_pellets then decrement_mode_steps s else s in
    decrement_fruit_steps (decrement_level_steps t)

unfoldable pub handle_step_events : GameState → GameState
handle_step_events s = count_down (level_event s.level_steps (mode_event s))
