-- ===== src/Serialize.antt =====
-- server/game/serialize.go: the state of a game as big-endian bytes in an output buffer. A writer
-- takes the buffer with the start index, and returns the buffer with the next index. A write out of
-- range, which would panic, changes nothing.
pub mod Encode
pub mod Client
pub mod Decode
use Prim.Native.Nat.{bit_or}
use pacbot.Prelude.{ℕ, zero, suc, ◌+◌, ◌*◌, ◌/◌, ◌%◌, ◌^◌, List, [], ◌∷◌, Bool, if◌then◌else◌, set}
use pacbot.Word.{mul8}
use pacbot.Maze.{red, pink, cyan, orange, mode_durations, fruit_duration}
use pacbot.Location.{LocationState, d_row, d_col, empty_loc}
use pacbot.State.{GameState, ghost_at}
use pacbot.Modes.{get_last_unpaused_mode}
use pacbot.Counters.{fruit_exists}

abbrev pub Cursor : Type 0
Cursor = List ℕ × ℕ

unfoldable pub get_byte : ℕ → ℕ → ℕ
get_byte num i = num / 2 ^ (8 * i) % 256

abbrev pub put_byte : ℕ → Cursor → Cursor
put_byte b (buf, i) = (set buf i b, i + 1)

unfoldable pub ser_uint8 : ℕ → Cursor → Cursor
ser_uint8 num c = put_byte (get_byte num 0) c

-- The loop over the byte indexes below `n`, the highest first.
unfoldable pub ser_bytes : ℕ → ℕ → Cursor → Cursor
ser_bytes zero num c = c
ser_bytes (suc n) num c = ser_bytes n num (put_byte (get_byte num n) c)

unfoldable pub ser_uint16 : ℕ → Cursor → Cursor
ser_uint16 num c = ser_bytes 2 num c

unfoldable pub ser_uint32 : ℕ → Cursor → Cursor
ser_uint32 num c = ser_bytes 4 num c

-- `byte((dRow[loc.dir] << 6) | loc.row)`, on int8.
unfoldable pub coord_byte : ℕ → ℕ → ℕ
coord_byte delta coord = bit_or (mul8 delta 64) coord

unfoldable pub ser_location : LocationState → Cursor → Cursor
ser_location loc c =
    put_byte (coord_byte (d_col loc.dir) loc.col) (put_byte (coord_byte (d_row loc.dir) loc.row) c)

unfoldable pub ser_curr_ticks : GameState → Cursor → Cursor
ser_curr_ticks s c = ser_uint16 s.curr_ticks c

unfoldable pub ser_update_period : GameState → Cursor → Cursor
ser_update_period s c = ser_uint8 s.update_period c

unfoldable pub ser_game_mode : GameState → Cursor → Cursor
ser_game_mode s c = ser_uint8 s.mode c

unfoldable pub ser_mode_steps : GameState → Cursor → Cursor
ser_mode_steps s c =
    ser_uint8 (mode_durations (get_last_unpaused_mode s)) (ser_uint8 s.mode_steps c)

unfoldable pub ser_level_steps : GameState → Cursor → Cursor
ser_level_steps s c = ser_uint16 s.level_steps c

unfoldable pub ser_curr_score : GameState → Cursor → Cursor
ser_curr_score s c = ser_uint16 s.curr_score c

unfoldable pub ser_curr_level : GameState → Cursor → Cursor
ser_curr_level s c = ser_uint8 s.curr_level c

unfoldable pub ser_curr_lives : GameState → Cursor → Cursor
ser_curr_lives s c = ser_uint8 s.curr_lives c

unfoldable pub ser_ghost_combo : GameState → Cursor → Cursor
ser_ghost_combo s c = ser_uint8 s.ghost_combo c

-- The loop over the rows.
unfoldable pub ser_rows : List ℕ → Cursor → Cursor
ser_rows [] c = c
ser_rows (row ∷ rows) c = ser_rows rows (ser_uint32 row c)

unfoldable pub ser_pellets : GameState → Cursor → Cursor
ser_pellets s c = ser_rows s.pellets c

unfoldable pub ser_pacman : GameState → Cursor → Cursor
ser_pacman s c = ser_location s.pacman_loc c

unfoldable pub ser_fruit : GameState → Cursor → Cursor
ser_fruit s c =
    ser_uint8 fruit_duration
      (ser_uint8 s.fruit_steps (ser_location (if fruit_exists s then s.fruit_loc else empty_loc) c))

-- A flag at the highest bit of a byte.
abbrev pub flag_bit : Bool → ℕ
flag_bit b = if b then 128 else 0

unfoldable pub flagged : ℕ → Bool → ℕ
flagged n b = bit_or n (flag_bit b)

unfoldable pub ser_ghost : ℕ → GameState → Cursor → Cursor
ser_ghost color s c =
    let g = ghost_at s color in
    ser_uint8 (flagged g.trapped_steps g.eaten)
      (ser_uint8 (flagged g.fright_steps g.spawning) (ser_location g.loc c))

unfoldable pub ser_ghosts : GameState → Cursor → Cursor
ser_ghosts s c = ser_ghost orange s (ser_ghost cyan s (ser_ghost pink s (ser_ghost red s c)))

unfoldable pub ser_header : GameState → Cursor → Cursor
ser_header s c =
    ser_level_steps s
      (ser_mode_steps s (ser_game_mode s (ser_update_period s (ser_curr_ticks s c))))

unfoldable pub ser_info : GameState → Cursor → Cursor
ser_info s c = ser_ghost_combo s (ser_curr_lives s (ser_curr_level s (ser_curr_score s c)))

unfoldable pub ser_full : GameState → Cursor → Cursor
ser_full s c =
    ser_pellets s (ser_fruit s (ser_pacman s (ser_ghosts s (ser_info s (ser_header s c)))))
