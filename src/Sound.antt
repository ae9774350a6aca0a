-- ===== src/Sound.antt =====
-- The ranges of the counters of a game, and where Pacman stands: an invariant of the whole server.
pub mod Parts
pub mod Server
use pacbot.Prelude.{ℕ, ◌≤◌, ◌≡◌, ◌⊎◌, false}
use pacbot.Maze.{init_walls}
use pacbot.Grid.{wall_in}
use pacbot.State.{GameState}

pub record IsSound (s : GameState) : Type 0 where
  pub ticks_le : s.curr_ticks ≤ 65535
  pub period_pos : 1 ≤ s.update_period
  pub period_le : s.update_period ≤ 12
  pub mode_le : s.mode ≤ 2
  pub last_mode_pos : 1 ≤ s.last_unpaused_mode
  pub last_mode_le : s.last_unpaused_mode ≤ 2
  pub mode_steps_le : s.mode_steps ≤ 180
  pub level_steps_le : s.level_steps ≤ 960
  pub score_le : s.curr_score ≤ 65535
  pub level_pos : 1 ≤ s.curr_level
  pub level_le : s.curr_level ≤ 255
  pub lives_le : s.curr_lives ≤ 3
  pub fruit_le : s.fruit_steps ≤ 30
  pub num_pellets_le : s.num_pellets ≤ 244
  pub same_walls : s.walls ≡ init_walls
  pub pacman_dir : s.pacman_loc.dir ≤ 4
  pub pacman_clear :
      ((s.pacman_loc.row ≡ 32) × (s.pacman_loc.col ≡ 32))
      ⊎ (wall_in s.walls s.pacman_loc.row s.pacman_loc.col ≡ false)
