-- ===== src/Counters.antt =====
-- server/game/game_state.go: ticks, update period, score, level, lives, pellet count, fruit steps
-- and level steps.
pub mod Levels
use pacbot.Prelude.{ℕ, ◌+◌, ◌-◌, ◌*◌, Bool, ◌==◌, ltb, if◌then◌else◌, min, max}
use pacbot.Word.{u8, u16}
use pacbot.Maze.{init_update_period, init_pellets, init_pellet_count}
use pacbot.State.{GameState}
use pacbot.Modes.{pause}

unfoldable pub next_tick : GameState → GameState
unfolding pause
next_tick s =
    if s.curr_ticks == 0xffff
    then s
    else let t = if s.curr_ticks == 0xfffe then pause s else s in
      record t { curr_ticks = u16 (t.curr_ticks + 1) }

unfoldable pub set_update_period : ℕ → GameState → GameState
set_update_period p s = record s { update_period = p }

-- `uint8(max(1, int(period)-2))`: the truncated `-` meets the `max`.
unfoldable pub speed_up : GameState → GameState
unfolding set_update_period
speed_up s = set_update_period (u8 (max 1 (s.update_period - 2))) s

unfoldable pub increment_score : ℕ → GameState → GameState
increment_score change s = record s { curr_score = u16 (min (s.curr_score + change) 65535) }

-- `int(initUpdatePeriod) - 2*(int(level)-1)` is `init + 2 - 2*level`; below 1 the `max` decides.
unfoldable pub set_level : ℕ → GameState → GameState
unfolding set_update_period
set_level level s =
    set_update_period (u8 (max 1 (init_update_period + 2 - 2 * level)))
      (record s { curr_level = level })

unfoldable pub increment_level : GameState → GameState
unfolding set_update_period
increment_level s =
    if s.curr_level == 255
    then s
    else set_update_period (u8 (max 1 (init_update_period - 2 * s.curr_level)))
        (record s { curr_level = u8 (s.curr_level + 1) })

unfoldable pub set_lives : ℕ → GameState → GameState
set_lives lives s = record s { curr_lives = lives }

unfoldable pub decrement_lives : GameState → GameState
decrement_lives s = if s.curr_lives == 0 then s else record s { curr_lives = s.curr_lives - 1 }

unfoldable pub decrement_num_pellets : GameState → GameState
decrement_num_pellets s =
    if s.num_pellets == 0 then s else record s { num_pellets = s.num_pellets - 1 }

unfoldable pub reset_pellets : GameState → GameState
reset_pellets s = record s { pellets = init_pellets; num_pellets = init_pellet_count }

unfoldable pub fruit_exists : GameState → Bool
fruit_exists s = ltb 0 s.fruit_steps

unfoldable pub set_fruit_steps : ℕ → GameState → GameState
set_fruit_steps steps s = record s { fruit_steps = steps }

unfoldable pub decrement_fruit_steps : GameState → GameState
decrement_fruit_steps s =
    if s.fruit_steps == 0 then s else record s { fruit_steps = s.fruit_steps - 1 }

unfoldable pub set_level_steps : ℕ → GameState → GameState
set_level_steps steps s = record s { level_steps = steps }

unfoldable pub decrement_level_steps : GameState → GameState
decrement_level_steps s =
    if s.level_steps == 0 then s else record s { level_steps = s.level_steps - 1 }
