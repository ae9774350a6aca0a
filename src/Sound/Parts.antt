-- ===== src/Sound/Parts.antt =====
-- Each operation keeps the ranges of `Sound`.
use pacbot.Prelude.{ℕ, List, ◌≡◌, ap, false, Bool, arith}
use pacbot.State.{GameState}
use pacbot.Maze.{init_walls}
use pacbot.Bits.{get_bit}
use pacbot.Grid.{wall_in}
use pacbot.Modes.{pause, play, set_pause_on_update}
use pacbot.Counters.{
  next_tick, increment_score, increment_level, decrement_lives, set_fruit_steps, set_level_steps,
  reset_pellets,
}
use pacbot.Herd.{
  frighten_all_ghosts, reverse_all_ghosts, reset_all_ghosts, score_combo, update_all_ghosts,
}
use pacbot.Board.{put_pacman, restart_mode, try_respawn_pacman}
use pacbot.Collect.{collect_fruit, clear_pellet, spawn_fruit, anger}
use pacbot.Plan.{plan_all_ghosts}
use pacbot.Steps.{switch_mode, level_event, count_down}
use pacbot.Engine.{Draws, pause_if_due}
use pacbot.Sound.{IsSound}

pub spawn_clear : (walls : List ℕ) → walls ≡ init_walls → wall_in walls 23 13 ≡ false
unfolding wall_in get_bit init_walls
spawn_clear walls e = ap (λ w. wall_in w 23 13) e

module _ {s : GameState} (h : IsSound s) where
  pub pause-IsSound : IsSound (pause s)
  unfolding pause
  pause-IsSound = ground arith

  pub play-IsSound : IsSound (play s)
  unfolding play
  play-IsSound = ground arith

  pub next_tick-IsSound : IsSound (next_tick s)
  unfolding next_tick
  next_tick-IsSound = ground arith

  pub increment_level-IsSound : IsSound (increment_level s)
  unfolding increment_level
  increment_level-IsSound = ground arith

  pub decrement_lives-IsSound : IsSound (decrement_lives s)
  unfolding decrement_lives
  decrement_lives-IsSound = ground arith

  pub frighten_all_ghosts-IsSound : IsSound (frighten_all_ghosts s)
  unfolding frighten_all_ghosts
  frighten_all_ghosts-IsSound = ground arith

  pub reverse_all_ghosts-IsSound : IsSound (reverse_all_ghosts s)
  unfolding reverse_all_ghosts
  reverse_all_ghosts-IsSound = ground arith

  pub reset_all_ghosts-IsSound : IsSound (reset_all_ghosts s)
  unfolding reset_all_ghosts
  reset_all_ghosts-IsSound = ground arith

  pub score_combo-IsSound : IsSound (score_combo s)
  unfolding score_combo
  score_combo-IsSound = ground arith

  pub update_all_ghosts-IsSound : IsSound (update_all_ghosts s)
  unfolding update_all_ghosts
  update_all_ghosts-IsSound = ground arith

  pub collect_fruit-IsSound : IsSound (collect_fruit s)
  unfolding collect_fruit
  collect_fruit-IsSound = ground arith

  pub spawn_fruit-IsSound : IsSound (spawn_fruit s)
  unfolding spawn_fruit
  spawn_fruit-IsSound = ground arith

  pub anger-IsSound : IsSound (anger s)
  unfolding anger
  anger-IsSound = ground arith

  pub switch_mode-IsSound : IsSound (switch_mode s)
  unfolding switch_mode
  switch_mode-IsSound = ground arith

  pub count_down-IsSound : IsSound (count_down s)
  unfolding count_down
  count_down-IsSound = ground arith

  pub pause_if_due-IsSound : IsSound (pause_if_due s)
  unfolding pause_if_due set_pause_on_update pause
  pause_if_due-IsSound = ground arith

  pub put_pacman-IsSound : IsSound (put_pacman s)
  unfolding put_pacman
  put_pacman-IsSound = ground arith

  pub restart_mode-IsSound : IsSound (restart_mode s)
  unfolding restart_mode
  restart_mode-IsSound = ground arith

  pub reset_pellets-IsSound : IsSound (reset_pellets s)
  unfolding reset_pellets
  reset_pellets-IsSound = ground arith

  pub clear_pellet-IsSound : (r c : ℕ) → IsSound (clear_pellet r c s)
  unfolding clear_pellet
  clear_pellet-IsSound r c = ground arith

  pub level_event-IsSound : (n : ℕ) → IsSound (level_event n s)
  unfolding level_event
  level_event-IsSound n = ground arith

  pub increment_score-IsSound : (n : ℕ) → IsSound (increment_score n s)
  unfolding increment_score
  increment_score-IsSound n = ground arith

  pub set_fruit_steps-IsSound : IsSound (set_fruit_steps 0 s)
  unfolding set_fruit_steps
  set_fruit_steps-IsSound = ground arith

  pub set_level_steps-IsSound : IsSound (set_level_steps 960 s)
  unfolding set_level_steps
  set_level_steps-IsSound = ground arith

  pub set_pause_on_update-IsSound : (b : Bool) → IsSound (set_pause_on_update b s)
  unfolding set_pause_on_update
  set_pause_on_update-IsSound b = ground arith

  pub plan_all_ghosts-IsSound : (draws : Draws) → IsSound (plan_all_ghosts draws s)
  unfolding plan_all_ghosts
  plan_all_ghosts-IsSound draws = ground arith

  pub try_respawn_pacman-IsSound : IsSound (try_respawn_pacman s)
  unfolding try_respawn_pacman
  try_respawn_pacman-IsSound = ground (arith, spawn_clear s.walls h.same_walls)
