-- ===== src/Patrol/Game.antt =====
-- All ghosts of a game on patrol, as long as Pacman has a life left: kept by every operation.
use pacbot.Prelude.{ℕ, ◌<◌, ◌≡◌, List, [], ◌∷◌, All, Bool, arith, Bool-cases, inl, inr, refl}
use pacbot.Bits.{get_bit}
use pacbot.Maze.{init_walls}
use pacbot.State.{GhostState, GameState}
use pacbot.Modes.{pause, play, set_pause_on_update}
use pacbot.Counters.{
  next_tick, increment_score, increment_level, decrement_lives, set_fruit_steps, set_level_steps,
  reset_pellets,
}
use pacbot.Ghost.{reset, respawn, frighten, reverse_ghost}
use pacbot.Herd.{score_combo, respawn_loop}
use pacbot.Board.{put_pacman, restart_mode, try_respawn_pacman}
use pacbot.Collect.{collect_fruit, clear_pellet, spawn_fruit, anger}
use pacbot.Steps.{switch_mode, level_event, count_down}
use pacbot.Engine.{pause_if_due}
use pacbot.Patrol.One.{
  IsPlaced, IsPlanned, frighten-IsPlaced, frighten-IsPlanned, reverse_ghost-IsPlaced,
  reverse_ghost-IsPlanned, reset-IsPlaced, reset-IsPlanned, respawn-IsPlaced, respawn-IsPlanned,
}

pub record Patrolled (Q : GhostState → Type 0) (s : GameState) : Type 0 where
  pub same_walls : s.walls ≡ init_walls
  pub all_ghosts : 0 < s.curr_lives → All Q s.ghosts

-- What the operations on all ghosts do to each.
pub record Keeps (Q : GhostState → Type 0) : Type 0 where
  pub by_fright : (n : ℕ) (g : GhostState) → Q g → Q (frighten n g)
  pub by_reverse : (g : GhostState) → Q g → Q (reverse_ghost g)
  pub by_reset : (active : ℕ) (g : GhostState) → Q g → Q (reset active g)
  pub by_respawn : (active : ℕ) (g : GhostState) → Q g → Q (respawn active g)

pub IsPlaced-Keeps : Keeps IsPlaced
IsPlaced-Keeps = record {
  by_fright = λ n g h. frighten-IsPlaced h n;
  by_reverse = λ g h. reverse_ghost-IsPlaced h;
  by_reset = λ active g h. reset-IsPlaced active h;
  by_respawn = λ active g h. respawn-IsPlaced active h;
}

pub IsPlanned-Keeps : Keeps IsPlanned
IsPlanned-Keeps = record {
  by_fright = λ n g h. frighten-IsPlanned h n;
  by_reverse = λ g h. reverse_ghost-IsPlanned h;
  by_reset = λ active g h. reset-IsPlanned active h;
  by_respawn = λ active g h. respawn-IsPlanned active h;
}

module _ {Q : GhostState → Type 0} {s : GameState} (h : Patrolled Q s) where
  pub pause-Patrolled : Patrolled Q (pause s)
  unfolding pause
  pause-Patrolled = ground arith

  pub play-Patrolled : Patrolled Q (play s)
  unfolding play
  play-Patrolled = ground arith

  pub next_tick-Patrolled : Patrolled Q (next_tick s)
  unfolding next_tick
  next_tick-Patrolled = ground arith

  pub increment_level-Patrolled : Patrolled Q (increment_level s)
  unfolding increment_level
  increment_level-Patrolled = ground arith

  pub decrement_lives-Patrolled : Patrolled Q (decrement_lives s)
  unfolding decrement_lives
  decrement_lives-Patrolled = ground arith

  pub collect_fruit-Patrolled : Patrolled Q (collect_fruit s)
  unfolding collect_fruit
  collect_fruit-Patrolled = ground arith

  pub spawn_fruit-Patrolled : Patrolled Q (spawn_fruit s)
  unfolding spawn_fruit
  spawn_fruit-Patrolled = ground arith

  pub anger-Patrolled : Patrolled Q (anger s)
  unfolding anger
  anger-Patrolled = ground arith

  pub switch_mode-Patrolled : Patrolled Q (switch_mode s)
  unfolding switch_mode
  switch_mode-Patrolled = ground arith

  pub count_down-Patrolled : Patrolled Q (count_down s)
  unfolding count_down
  count_down-Patrolled = ground arith

  pub put_pacman-Patrolled : Patrolled Q (put_pacman s)
  unfolding put_pacman
  put_pacman-Patrolled = ground arith

  pub restart_mode-Patrolled : Patrolled Q (restart_mode s)
  unfolding restart_mode
  restart_mode-Patrolled = ground arith

  pub reset_pellets-Patrolled : Patrolled Q (reset_pellets s)
  unfolding reset_pellets
  reset_pellets-Patrolled = ground arith

  pub try_respawn_pacman-Patrolled : Patrolled Q (try_respawn_pacman s)
  unfolding try_respawn_pacman
  try_respawn_pacman-Patrolled = ground arith

  pub pause_if_due-Patrolled : Patrolled Q (pause_if_due s)
  unfolding pause_if_due set_pause_on_update pause
  pause_if_due-Patrolled = ground arith

  pub level_event-Patrolled : (n : ℕ) → Patrolled Q (level_event n s)
  unfolding level_event
  level_event-Patrolled n = ground arith

  pub clear_pellet-Patrolled : (r c : ℕ) → Patrolled Q (clear_pellet r c s)
  unfolding clear_pellet
  clear_pellet-Patrolled r c = ground arith

  pub increment_score-Patrolled : (n : ℕ) → Patrolled Q (increment_score n s)
  unfolding increment_score
  increment_score-Patrolled n = ground arith

  pub set_fruit_steps-Patrolled : Patrolled Q (set_fruit_steps 0 s)
  unfolding set_fruit_steps
  set_fruit_steps-Patrolled = ground arith

  pub set_level_steps-Patrolled : Patrolled Q (set_level_steps 960 s)
  unfolding set_level_steps
  set_level_steps-Patrolled = ground arith

  pub set_pause_on_update-Patrolled : (b : Bool) → Patrolled Q (set_pause_on_update b s)
  unfolding set_pause_on_update
  set_pause_on_update-Patrolled b = ground arith

-- The respawn loop leaves lives, walls and the number of active ghosts alone.
pub respawn_loop_frame :
    (flag : ℕ) (gs : List GhostState) (s : GameState)
    → ((respawn_loop flag gs s).1.curr_lives ≡ s.curr_lives)
      × ((respawn_loop flag gs s).1.walls ≡ s.walls)
unfolding respawn_loop score_combo
respawn_loop_frame flag [] s = (refl, refl)
respawn_loop_frame flag (g ∷ gs) s = elim (Bool-cases (get_bit flag g.color)) [
  | inl eat ↦ rw eat (respawn_loop_frame flag gs (score_combo s))
  | inr skip ↦ rw skip (respawn_loop_frame flag gs s)
]
