-- ===== src/Modes.antt =====
-- server/game/game_modes.go: the mode, pausing and the mode steps.
pub mod Pausing
use pacbot.Prelude.{ℕ, ◌-◌, Bool, not, ◌||◌, ◌==◌, if◌then◌else◌}
use pacbot.Maze.{paused}
use pacbot.State.{GameState}

unfoldable pub set_mode : ℕ → GameState → GameState
set_mode m s = record s { mode = m }

unfoldable pub get_last_unpaused_mode : GameState → ℕ
get_last_unpaused_mode s = if s.mode == paused then s.last_unpaused_mode else s.mode

unfoldable pub set_last_unpaused_mode : ℕ → GameState → GameState
set_last_unpaused_mode m s = record s { last_unpaused_mode = m }

unfoldable pub is_paused : GameState → Bool
is_paused s = s.mode == paused

unfoldable pub pause : GameState → GameState
unfolding is_paused set_last_unpaused_mode set_mode
pause s = if is_paused s then s else set_mode paused (set_last_unpaused_mode s.mode s)

unfoldable pub play : GameState → GameState
unfolding is_paused set_mode get_last_unpaused_mode
play s =
    if not (is_paused s) || s.curr_lives == 0 || s.curr_ticks == 0xffff
    then s
    else set_mode (get_last_unpaused_mode s) s

unfoldable pub set_pause_on_update : Bool → GameState → GameState
set_pause_on_update flag s = record s { pause_on_update = flag }

unfoldable pub set_mode_steps : ℕ → GameState → GameState
set_mode_steps steps s = record s { mode_steps = steps }

unfoldable pub decrement_mode_steps : GameState → GameState
decrement_mode_steps s = if s.mode_steps == 0 then s else record s { mode_steps = s.mode_steps - 1 }
