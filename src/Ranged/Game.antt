-- ===== src/Ranged/Game.antt =====
-- The operations of a game keep the ranges of its ghosts.
use pacbot.Prelude.{ℕ, Bool, arith, zero, suc, ◌≤◌, Bool-cases, inl, inr, leb}
use pacbot.Maze.{ghost_trapped_steps}
use pacbot.Location.{ghost_spawn_loc}
use pacbot.State.{GhostState, GameState}
use pacbot.Modes.{pause, play, set_pause_on_update}
use pacbot.Counters.{
  next_tick, increment_score, increment_level, decrement_lives, set_fruit_steps, set_level_steps,
  reset_pellets,
}
use pacbot.Ghost.{reset, respawn, frighten, reverse_ghost, update}
use pacbot.Herd.{stare}
use pacbot.Board.{put_pacman, restart_mode, try_respawn_pacman}
use pacbot.Collect.{collect_fruit, clear_pellet, spawn_fruit, anger}
use pacbot.Steps.{switch_mode, level_event, count_down}
use pacbot.Engine.{pause_if_due}
use pacbot.Ranged.{IsTimed, IsRanged}

module _ {s : GameState} (h : IsRanged s) where
  pub pause-IsRanged : IsRanged (pause s)
  unfolding pause
  pause-IsRanged = ground arith

  pub play-IsRanged : IsRanged (play s)
  unfolding play
  play-IsRanged = ground arith

  pub next_tick-IsRanged : IsRanged (next_tick s)
  unfolding next_tick
  next_tick-IsRanged = ground arith

  pub increment_level-IsRanged : IsRanged (increment_level s)
  unfolding increment_level
  increment_level-IsRanged = ground arith

  pub decrement_lives-IsRanged : IsRanged (decrement_lives s)
  unfolding decrement_lives
  decrement_lives-IsRanged = ground arith

  pub collect_fruit-IsRanged : IsRanged (collect_fruit s)
  unfolding collect_fruit
  collect_fruit-IsRanged = ground arith

  pub spawn_fruit-IsRanged : IsRanged (spawn_fruit s)
  unfolding spawn_fruit
  spawn_fruit-IsRanged = ground arith

  pub anger-IsRanged : IsRanged (anger s)
  unfolding anger
  anger-IsRanged = ground arith

  pub switch_mode-IsRanged : IsRanged (switch_mode s)
  unfolding switch_mode
  switch_mode-IsRanged = ground arith

  pub count_down-IsRanged : IsRanged (count_down s)
  unfolding count_down
  count_down-IsRanged = ground arith

  pub put_pacman-IsRanged : IsRanged (put_pacman s)
  unfolding put_pacman
  put_pacman-IsRanged = ground arith

  pub restart_mode-IsRanged : IsRanged (restart_mode s)
  unfolding restart_mode
  restart_mode-IsRanged = ground arith

  pub reset_pellets-IsRanged : IsRanged (reset_pellets s)
  unfolding reset_pellets
  reset_pellets-IsRanged = ground arith

  pub try_respawn_pacman-IsRanged : IsRanged (try_respawn_pacman s)
  unfolding try_respawn_pacman
  try_respawn_pacman-IsRanged = ground arith

  pub pause_if_due-IsRanged : IsRanged (pause_if_due s)
  unfolding pause_if_due set_pause_on_update pause
  pause_if_due-IsRanged = ground arith

  pub level_event-IsRanged : (n : ℕ) → IsRanged (level_event n s)
  unfolding level_event
  level_event-IsRanged n = ground arith

  pub clear_pellet-IsRanged : (r c : ℕ) → IsRanged (clear_pellet r c s)
  unfolding clear_pellet
  clear_pellet-IsRanged r c = ground arith

  pub increment_score-IsRanged : (n : ℕ) → IsRanged (increment_score n s)
  unfolding increment_score
  increment_score-IsRanged n = ground arith

  pub set_fruit_steps-IsRanged : (n : ℕ) → IsRanged (set_fruit_steps n s)
  unfolding set_fruit_steps
  set_fruit_steps-IsRanged n = ground arith

  pub set_level_steps-IsRanged : (n : ℕ) → IsRanged (set_level_steps n s)
  unfolding set_level_steps
  set_level_steps-IsRanged n = ground arith

  pub set_pause_on_update-IsRanged : (b : Bool) → IsRanged (set_pause_on_update b s)
  unfolding set_pause_on_update
  set_pause_on_update-IsRanged b = ground arith

pub trapped-le : (c : ℕ) → ghost_trapped_steps c ≤ 32
trapped-le zero = omega arith
trapped-le (suc zero) = omega arith
trapped-le (suc (suc zero)) = omega arith
trapped-le (suc (suc (suc zero))) = omega arith
trapped-le (suc (suc (suc (suc c)))) = omega arith

pub spawn_dir-le : (c : ℕ) → (ghost_spawn_loc c).dir ≤ 4
spawn_dir-le zero = omega arith
spawn_dir-le (suc zero) = omega arith
spawn_dir-le (suc (suc zero)) = omega arith
spawn_dir-le (suc (suc (suc zero))) = omega arith
spawn_dir-le (suc (suc (suc (suc c)))) = omega arith

module _ (g : GhostState) (h : IsTimed g) where
  pub frighten-IsTimed : IsTimed (frighten 40 g)
  unfolding frighten
  frighten-IsTimed = ground arith

  pub reverse_ghost-IsTimed : IsTimed (reverse_ghost g)
  unfolding reverse_ghost
  reverse_ghost-IsTimed = ground arith

  pub reset-IsTimed : (active : ℕ) → IsTimed (reset active g)
  unfolding reset
  reset-IsTimed active = elim (Bool-cases (leb active g.color)) [
    | inl off ↦ rw off h
    | inr on ↦ rw on (record {
      fright = omega arith;
      trapped = trapped-le g.color;
      here = omega arith;
      next = spawn_dir-le g.color;
    })
  ]

  pub respawn-IsTimed : (active : ℕ) → IsTimed (respawn active g)
  unfolding respawn
  respawn-IsTimed active = elim (Bool-cases (leb active g.color)) [
    | inl off ↦ rw off h
    | inr on ↦
        rw on (record {
          fright = h.fright;
          trapped = h.trapped;
          here = omega arith;
          next = omega arith;
        })
  ]

  pub stare-IsTimed : IsTimed (stare g)
  unfolding stare
  stare-IsTimed = ground arith

  pub update-IsTimed : IsTimed (update g)
  unfolding update
  update-IsTimed = ground arith
