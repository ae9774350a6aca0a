-- ===== src/Serialize/Decode.antt =====
-- Lemmas on reading back what a client is sent.
use pacbot.Prelude.{
  all_below, all_below_lem, ℕ, ◌+◌, ◌*◌, ◌/◌, ◌%◌, ◌^◌, ◌≤◌, ◌<◌, ◌≡◌, refl, ap₂, List, [], ◌∷◌,
  Bool, true, false, ◌==◌, ==_iff, All, some, arith,
}
use pacbot.Maze.{mode_durations, red, pink, cyan, orange}
use pacbot.Location.{LocationState, d_row, d_col}
use pacbot.State.{GhostState, GameState, ghost_at}
use pacbot.Modes.{get_last_unpaused_mode}
use pacbot.Counters.{fruit_exists}
use pacbot.Serialize.{get_byte, coord_byte, flagged, flag_bit}
use pacbot.Serialize.Encode.{rows_bytes, shown_fruit, encode}
use pacbot.Serialize.Client.{
  ghost_view, view, dir_of, read_location, read_word, read_ghost, read_rows, decode,
}

-- Ranges in which nothing is lost.
pub record IsShown (l : LocationState) : Type 0 where
  pub row_small : l.row < 64
  pub col_small : l.col < 64
  pub dir_small : l.dir ≤ 4

pub record GhostShown (g : GhostState) : Type 0 where
  pub place : IsShown g.loc
  pub fright : g.fright_steps < 128
  pub trapped : g.trapped_steps < 128

coord_table : ℕ → ℕ → ℕ → Bool
coord_table d u x = coord_byte d x == u * 64 + x

coords :
    (all_below 64 (coord_table 255 3) ≡ true)
    × (all_below 64 (coord_table 0 0) ≡ true)
    × (all_below 64 (coord_table 1 1) ≡ true)
unfolding all_below coord_table coord_byte
coords = (refl, refl, refl)

coord_byte_lem :
    (x : ℕ)
    → x < 64
    → (coord_byte 255 x ≡ 192 + x) × (coord_byte 0 x ≡ 0 + x) × (coord_byte 1 x ≡ 64 + x)
unfolding coord_table
coord_byte_lem x h = (
  (==_iff _ _).0 (all_below_lem 64 (coord_table 255 3) x coords.0 h),
  (==_iff _ _).0 (all_below_lem 64 (coord_table 0 0) x coords.1 h),
  (==_iff _ _).0 (all_below_lem 64 (coord_table 1 1) x coords.2 h),
)

flag_table : Bool → ℕ → Bool
flag_table b x = flagged x b == x + flag_bit b

flags : (all_below 128 (flag_table true) ≡ true) × (all_below 128 (flag_table false) ≡ true)
unfolding all_below flag_table flagged
flags = (refl, refl)

flagged_lem : (b : Bool) (x : ℕ) → x < 128 → flagged x b ≡ x + flag_bit b
unfolding flag_table
flagged_lem true x h = (==_iff _ _).0 (all_below_lem 128 (flag_table true) x flags.0 h)
flagged_lem false x h = (==_iff _ _).0 (all_below_lem 128 (flag_table false) x flags.1 h)

read_location_lem :
    (l : LocationState)
    → IsShown l
    → read_location (coord_byte (d_row l.dir) l.row) (coord_byte (d_col l.dir) l.col) ≡ l
unfolding read_location dir_of
read_location_lem l h =
    ground (arith, coord_byte_lem l.row h.row_small, coord_byte_lem l.col h.col_small)

read_ghost_lem :
    (g : GhostState)
    → GhostShown g
    → read_ghost
        (coord_byte (d_row g.loc.dir) g.loc.row)
        (coord_byte (d_col g.loc.dir) g.loc.col)
        (get_byte (flagged g.fright_steps g.spawning) 0)
        (get_byte (flagged g.trapped_steps g.eaten) 0)
      ≡ ghost_view g
unfolding read_ghost get_byte
read_ghost_lem g h = ground (
  arith,
  read_location_lem g.loc h.place,
  flagged_lem g.spawning g.fright_steps h.fright,
  flagged_lem g.eaten g.trapped_steps h.trapped,
)

read_rows_lem : (rows : List ℕ) → All (λ n. n < 2 ^ 32) rows → read_rows (rows_bytes rows) ≡ rows
unfolding read_rows rows_bytes get_byte
read_rows_lem [] h = refl
read_rows_lem (row ∷ rows) h =
    let e : row / 16777216 % 256 * 16777216
          + row / 65536 % 256 * 65536
          + row / 256 % 256 * 256
          + row / 1 % 256
        ≡ row =
      omega arith in
    ap₂ ◌∷◌ e (read_rows_lem rows h.1)

-- The ranges of all that is serialised.
pub record IsSent (s : GameState) : Type 0 where
  pub ticks : s.curr_ticks < 65536
  pub period : s.update_period < 256
  pub mode_low : s.mode ≤ 2
  pub last_low : s.last_unpaused_mode ≤ 2
  pub steps : s.mode_steps < 256
  pub level_steps_low : s.level_steps < 65536
  pub score : s.curr_score < 65536
  pub level : s.curr_level < 256
  pub lives : s.curr_lives < 256
  pub combo : s.ghost_combo < 256
  pub reds : GhostShown (ghost_at s red)
  pub pinks : GhostShown (ghost_at s pink)
  pub cyans : GhostShown (ghost_at s cyan)
  pub oranges : GhostShown (ghost_at s orange)
  pub pacman : IsShown s.pacman_loc
  pub fruit : IsShown s.fruit_loc
  pub fruit_steps_low : s.fruit_steps < 256
  pub words : All (λ n. n < 2 ^ 32) s.pellets

byte_lem : (n : ℕ) → n < 256 → get_byte n 0 ≡ n
unfolding get_byte
byte_lem n h = omega arith

word_lem : (n : ℕ) → n < 65536 → read_word (get_byte n 1) (get_byte n 0) ≡ n
unfolding get_byte read_word
word_lem n h = omega arith

shown_fruit-IsShown : (s : GameState) → IsShown s.fruit_loc → IsShown (shown_fruit s)
unfolding fruit_exists
shown_fruit-IsShown s h = ground arith

mode_durations-lt : (m : ℕ) → m ≤ 2 → mode_durations m < 256
mode_durations-lt m h = ground arith

get_last_unpaused_mode-le :
    (s : GameState) → s.mode ≤ 2 → s.last_unpaused_mode ≤ 2 → get_last_unpaused_mode s ≤ 2
unfolding get_last_unpaused_mode
get_last_unpaused_mode-le s h k = ground arith

-- A client reads back from the bytes of a state in range every field that it is meant to see.
pub decode-encode : (s : GameState) → IsSent s → decode (encode s) ≡ some (view s)
unfolding decode encode
decode-encode s h = λ i. some (record {
  curr_ticks = word_lem s.curr_ticks h.ticks i;
  update_period = byte_lem s.update_period h.period i;
  mode = byte_lem s.mode (omega arith) i;
  mode_steps = byte_lem s.mode_steps h.steps i;
  mode_duration =
      byte_lem (mode_durations (get_last_unpaused_mode s))
        (mode_durations-lt (get_last_unpaused_mode s)
          (get_last_unpaused_mode-le s h.mode_low h.last_low))
        i;
  level_steps = word_lem s.level_steps h.level_steps_low i;
  curr_score = word_lem s.curr_score h.score i;
  curr_level = byte_lem s.curr_level h.level i;
  curr_lives = byte_lem s.curr_lives h.lives i;
  ghost_combo = byte_lem s.ghost_combo h.combo i;
  red_ghost = read_ghost_lem (ghost_at s red) h.reds i;
  pink_ghost = read_ghost_lem (ghost_at s pink) h.pinks i;
  cyan_ghost = read_ghost_lem (ghost_at s cyan) h.cyans i;
  orange_ghost = read_ghost_lem (ghost_at s orange) h.oranges i;
  pacman_loc = read_location_lem s.pacman_loc h.pacman i;
  fruit_loc = read_location_lem (shown_fruit s) (shown_fruit-IsShown s h.fruit) i;
  fruit_steps = byte_lem s.fruit_steps h.fruit_steps_low i;
  pellets = read_rows_lem s.pellets h.words i;
})
