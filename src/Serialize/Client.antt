-- ===== src/Serialize/Client.antt =====
-- A client's view of the bytes: what it reads back from a serialised state.
use pacbot.Prelude.{
  ℕ, ◌+◌, ◌*◌, ◌/◌, ◌%◌, List, [], ◌∷◌, Bool, if◌then◌else◌, ◌==◌, Option, none, some, leb,
}
use pacbot.Maze.{mode_durations, red, pink, cyan, orange}
use pacbot.Location.{LocationState, new_location}
use pacbot.State.{GhostState, GameState, ghost_at}
use pacbot.Modes.{get_last_unpaused_mode}
use pacbot.Serialize.Encode.{shown_fruit}

pub record GhostView : Type 0 where
  pub loc : LocationState
  pub fright_steps : ℕ
  pub spawning : Bool
  pub trapped_steps : ℕ
  pub eaten : Bool

pub record View : Type 0 where
  pub curr_ticks : ℕ
  pub update_period : ℕ
  pub mode : ℕ
  pub mode_steps : ℕ
  pub mode_duration : ℕ
  pub level_steps : ℕ
  pub curr_score : ℕ
  pub curr_level : ℕ
  pub curr_lives : ℕ
  pub ghost_combo : ℕ
  pub red_ghost : GhostView
  pub pink_ghost : GhostView
  pub cyan_ghost : GhostView
  pub orange_ghost : GhostView
  pub pacman_loc : LocationState
  pub fruit_loc : LocationState
  pub fruit_steps : ℕ
  pub pellets : List ℕ

abbrev pub ghost_view : GhostState → GhostView
ghost_view g = record {
  loc = g.loc;
  fright_steps = g.fright_steps;
  spawning = g.spawning;
  trapped_steps = g.trapped_steps;
  eaten = g.eaten;
}

-- What a client is meant to see of a state.
abbrev pub view : GameState → View
view s = record {
  curr_ticks = s.curr_ticks;
  update_period = s.update_period;
  mode = s.mode;
  mode_steps = s.mode_steps;
  mode_duration = mode_durations (get_last_unpaused_mode s);
  level_steps = s.level_steps;
  curr_score = s.curr_score;
  curr_level = s.curr_level;
  curr_lives = s.curr_lives;
  ghost_combo = s.ghost_combo;
  red_ghost = ghost_view (ghost_at s red);
  pink_ghost = ghost_view (ghost_at s pink);
  cyan_ghost = ghost_view (ghost_at s cyan);
  orange_ghost = ghost_view (ghost_at s orange);
  pacman_loc = s.pacman_loc;
  fruit_loc = shown_fruit s;
  fruit_steps = s.fruit_steps;
  pellets = s.pellets;
}

-- The direction with the given deltas, in units of the two high bits of a byte.
unfoldable pub dir_of : ℕ → ℕ → ℕ
dir_of dr dc =
    if dr == 3 then 0 else if dc == 3 then 1 else if dr == 1 then 2 else if dc == 1 then 3 else 4

unfoldable pub read_location : ℕ → ℕ → LocationState
read_location a b = new_location (a % 64) (b % 64) (dir_of (a / 64) (b / 64))

unfoldable pub read_word : ℕ → ℕ → ℕ
read_word a b = a * 256 + b

unfoldable pub read_ghost : ℕ → ℕ → ℕ → ℕ → GhostView
read_ghost a b f t = record {
  loc = read_location a b;
  fright_steps = f % 128;
  spawning = leb 128 f;
  trapped_steps = t % 128;
  eaten = leb 128 t;
}

unfoldable pub read_rows : List ℕ → List ℕ
read_rows (a ∷ b ∷ c ∷ d ∷ rest) = (a * 16777216 + b * 65536 + c * 256 + d) ∷ read_rows rest
read_rows _ = []

unfoldable pub decode : List ℕ → Option View
decode
      (t1 ∷ t0 ∷ per ∷ mo ∷ ms ∷ dur ∷ l1 ∷ l0 ∷ s1 ∷ s0 ∷ lev ∷ liv ∷ cmb ∷ ra ∷ rb ∷ rf ∷ rt ∷ pa
        ∷ pb ∷ pf ∷ pt ∷ ca ∷ cb ∷ cf ∷ ct ∷ oa ∷ ob ∷ of ∷ ot ∷ ma ∷ mb ∷ fa ∷ fb ∷ fs ∷ fd
        ∷ rows) =
    some (record {
      curr_ticks = read_word t1 t0;
      update_period = per;
      mode = mo;
      mode_steps = ms;
      mode_duration = dur;
      level_steps = read_word l1 l0;
      curr_score = read_word s1 s0;
      curr_level = lev;
      curr_lives = liv;
      ghost_combo = cmb;
      red_ghost = read_ghost ra rb rf rt;
      pink_ghost = read_ghost pa pb pf pt;
      cyan_ghost = read_ghost ca cb cf ct;
      orange_ghost = read_ghost oa ob of ot;
      pacman_loc = read_location ma mb;
      fruit_loc = read_location fa fb;
      fruit_steps = fs;
      pellets = read_rows rows;
    })
decode _ = none
