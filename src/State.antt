-- ===== src/State.antt =====
-- server/game/game_state.go and ghost_state.go: the data of a game, and a new game. Mutexes, the
-- wait group and the pointer from a ghost to its game are left out; the random numbers are
-- arguments of the functions that draw them (see Plan).
use pacbot.Prelude.{ℕ, List, [], ◌∷◌, Bool, true, false, leb, if◌then◌else◌, get_or}
use pacbot.Maze.{
  init_update_period, level_duration, paused, init_mode, mode_durations, init_level, init_lives,
  init_pellet_count, init_pellets, init_walls, ghost_trapped_steps, red, pink, cyan, orange,
}
use pacbot.Location.{
  LocationState, empty_loc, pacman_spawn_loc, fruit_spawn_loc, ghost_spawn_loc,
  ghost_scatter_target,
}

pub record GhostState : Type 0 where
  pub loc : LocationState
  pub next_loc : LocationState
  pub scatter_target : LocationState
  pub color : ℕ
  pub trapped_steps : ℕ  -- uint8
  pub fright_steps : ℕ  -- uint8
  pub spawning : Bool
  pub eaten : Bool

pub record GameState : Type 0 where
  pub curr_ticks : ℕ  -- uint16
  pub update_period : ℕ  -- uint8
  pub last_unpaused_mode : ℕ  -- uint8
  pub mode : ℕ  -- uint8
  pub pause_on_update : Bool
  pub mode_steps : ℕ  -- uint8
  pub level_steps : ℕ  -- uint16
  pub curr_score : ℕ  -- uint16
  pub curr_level : ℕ  -- uint8
  pub curr_lives : ℕ  -- uint8
  pub pacman_loc : LocationState
  pub fruit_loc : LocationState
  pub fruit_steps : ℕ  -- uint8
  pub ghosts : List GhostState
  pub ghost_combo : ℕ  -- uint8
  pub pellets : List ℕ  -- uint32 each
  pub num_pellets : ℕ  -- uint16
  pub walls : List ℕ  -- uint32 each
  -- The package variable numActiveGhosts, which nothing writes while a game runs.
  pub num_active_ghosts : ℕ

-- `newGhostState`; a color at or past the number of active ghosts is hidden.
unfoldable pub new_ghost_state : ℕ → ℕ → GhostState
new_ghost_state active c = record {
  loc = empty_loc;
  next_loc = if leb active c then empty_loc else ghost_spawn_loc c;
  scatter_target = ghost_scatter_target c;
  color = c;
  trapped_steps = ghost_trapped_steps c;
  fright_steps = 0;
  spawning = true;
  eaten = false;
}

unfoldable pub new_game_state : ℕ → GameState
unfolding new_ghost_state
new_game_state active = record {
  curr_ticks = 0;
  update_period = init_update_period;
  last_unpaused_mode = init_mode;
  mode = paused;
  pause_on_update = false;
  mode_steps = mode_durations init_mode;
  level_steps = level_duration;
  curr_score = 0;
  curr_level = init_level;
  curr_lives = init_lives;
  pacman_loc = pacman_spawn_loc;
  fruit_loc = fruit_spawn_loc;
  fruit_steps = 0;
  ghosts =
      new_ghost_state active red
      ∷ new_ghost_state active pink
      ∷ new_ghost_state active cyan
      ∷ new_ghost_state active orange
      ∷ [];
  ghost_combo = 0;
  pellets = init_pellets;
  num_pellets = init_pellet_count;
  walls = init_walls;
  num_active_ghosts = active;
}

-- `gs.ghosts[color]`. The fallback stands for the panic of an index out of range.
abbrev pub ghost_at : GameState → ℕ → GhostState
ghost_at s c = get_or s.ghosts c (new_ghost_state 0 c)
