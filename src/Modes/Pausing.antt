-- ===== src/Modes/Pausing.antt =====
-- Pausing and playing.
use pacbot.Prelude.{◌≡◌, ◌≢◌, false, arith}
use pacbot.Maze.{paused}
use pacbot.State.{GameState}
use pacbot.Modes.{pause, play, is_paused}

-- A running game with lives and ticks left that is paused and then played is in its old mode, and
-- everything but the remembered mode is as before.
pub play-pause :
    (s : GameState)
    → s.mode ≢ paused
    → s.curr_lives ≢ 0
    → s.curr_ticks ≢ 0xffff
    → play (pause s) ≡ record s { last_unpaused_mode = s.mode }
unfolding play pause
play-pause s m l t = ground arith

-- Playing starts a game exactly when it has a life left and is not at the last tick, provided that
-- the remembered mode is a running one.
pub play-starts :
    (s : GameState)
    → s.mode ≡ paused
    → s.last_unpaused_mode ≢ paused
    → (is_paused (play s) ≡ false → (s.curr_lives ≢ 0) × (s.curr_ticks ≢ 0xffff))
      × ((s.curr_lives ≢ 0) × (s.curr_ticks ≢ 0xffff) → is_paused (play s) ≡ false)
unfolding play
play-starts s m l = ground arith
