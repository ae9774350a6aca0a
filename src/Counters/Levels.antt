-- ===== src/Counters/Levels.antt =====
-- Levels, score and ticks.
use pacbot.Prelude.{ℕ, ◌+◌, ◌<◌, ◌≤◌, ◌≡◌, min, true, arith}
use pacbot.State.{GameState}
use pacbot.Modes.{is_paused}
use pacbot.Counters.{set_level, increment_level, next_tick, increment_score}

-- Below the last level, incrementing the level does what setting the next level does, though the
-- two compute the update period by different formulas.
pub increment_level-set_level :
    (s : GameState)
    → 1 ≤ s.curr_level
    → s.curr_level < 255
    → increment_level s ≡ set_level (s.curr_level + 1) s
unfolding increment_level set_level
increment_level-set_level s l h = ground arith

-- Incrementing the score adds the change, up to the largest uint16, and never lowers the score.
pub increment_score_lem :
    (n : ℕ) (s : GameState)
    → s.curr_score ≤ 65535
    → ((increment_score n s).curr_score ≡ min (s.curr_score + n) 65535)
      × (s.curr_score ≤ (increment_score n s).curr_score)
unfolding increment_score
increment_score_lem n s h = omega arith

-- The tick counter never wraps: it grows by one up to the last tick, at which the game is paused,
-- and stays there.
pub next_tick_lem :
    (s : GameState)
    → s.curr_ticks ≤ 65535
    → ((next_tick s).curr_ticks ≡ min (s.curr_ticks + 1) 65535)
      × (s.curr_ticks ≡ 65534 → is_paused (next_tick s) ≡ true)
      × (s.curr_ticks ≡ 65535 → next_tick s ≡ s)
unfolding next_tick
next_tick_lem s h = ground arith
