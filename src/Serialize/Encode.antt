-- ===== src/Serialize/Encode.antt =====
-- What serFull writes, as a list of bytes: each writer appends its bytes at the cursor.
use pacbot.Prelude.{
  ℕ, suc, ◌+◌, ◌*◌, ◌≤◌, ◌≡◌, refl, sym, ap, ap₂, ◌∙◌, List, [], ◌∷◌, ◌++◌, if◌then◌else◌, length,
  length-append, take, drop, take-append, drop-append, length-drop, set-append, arith,
}
use mathlib.Core.List.{append_assoc}
use pacbot.Maze.{mode_durations, fruit_duration, red, pink, cyan, orange}
use pacbot.Location.{LocationState, d_row, d_col, empty_loc}
use pacbot.State.{GhostState, GameState, ghost_at}
use pacbot.Modes.{get_last_unpaused_mode}
use pacbot.Counters.{fruit_exists}
use pacbot.Serialize.{
  Cursor, get_byte, put_byte, ser_uint8, ser_bytes, ser_uint16, ser_uint32, coord_byte,
  ser_location, ser_curr_ticks, ser_update_period, ser_game_mode, ser_mode_steps, ser_level_steps,
  ser_curr_score, ser_curr_level, ser_curr_lives, ser_ghost_combo, ser_rows, ser_pellets,
  ser_pacman, ser_fruit, flagged, ser_ghost, ser_ghosts, ser_header, ser_info, ser_full,
}

unfoldable pub write_list : List ℕ → Cursor → Cursor
write_list [] c = c
write_list (b ∷ bs) c = write_list bs (put_byte b c)

write_list-append :
    (xs ys : List ℕ) (c : Cursor) → write_list (xs ++ ys) c ≡ write_list ys (write_list xs c)
unfolding write_list
write_list-append [] ys c = refl
write_list-append (x ∷ xs) ys c = write_list-append xs ys (put_byte x c)

abbrev pub byte : ℕ → List ℕ
byte n = get_byte n 0 ∷ []

abbrev pub word : ℕ → List ℕ
word n = get_byte n 1 ∷ get_byte n 0 ∷ []

abbrev pub quad : ℕ → List ℕ
quad n = get_byte n 3 ∷ get_byte n 2 ∷ get_byte n 1 ∷ get_byte n 0 ∷ []

abbrev pub location : LocationState → List ℕ
location l = coord_byte (d_row l.dir) l.row ∷ coord_byte (d_col l.dir) l.col ∷ []

abbrev pub ghost : GhostState → List ℕ
ghost g =
    location g.loc
    ++ byte (flagged g.fright_steps g.spawning)
    ++ byte (flagged g.trapped_steps g.eaten)

unfoldable pub rows_bytes : List ℕ → List ℕ
rows_bytes [] = []
rows_bytes (row ∷ rows) = quad row ++ rows_bytes rows

abbrev pub shown_fruit : GameState → LocationState
shown_fruit s = if fruit_exists s then s.fruit_loc else empty_loc

-- All but the rows.
abbrev pub front : GameState → List ℕ
front s =
    word s.curr_ticks
    ++ byte s.update_period
    ++ byte s.mode
    ++ byte s.mode_steps
    ++ byte (mode_durations (get_last_unpaused_mode s))
    ++ word s.level_steps
    ++ word s.curr_score
    ++ byte s.curr_level
    ++ byte s.curr_lives
    ++ byte s.ghost_combo
    ++ ghost (ghost_at s red)
    ++ ghost (ghost_at s pink)
    ++ ghost (ghost_at s cyan)
    ++ ghost (ghost_at s orange)
    ++ location s.pacman_loc
    ++ location (shown_fruit s)
    ++ byte s.fruit_steps
    ++ byte fruit_duration

unfoldable pub encode : GameState → List ℕ
encode s = front s ++ rows_bytes s.pellets

ser_rows_lem : (rows : List ℕ) (c : Cursor) → ser_rows rows c ≡ write_list (rows_bytes rows) c
unfolding ser_rows ser_uint32 ser_bytes write_list rows_bytes
ser_rows_lem [] c = refl
ser_rows_lem (row ∷ rows) c = ser_rows_lem rows _

ser_front :
    (s : GameState) (c : Cursor) → ser_full s c ≡ ser_rows s.pellets (write_list (front s) c)
unfolding ser_full ser_header ser_info ser_ghosts ser_ghost ser_pacman ser_fruit ser_pellets
    ser_location ser_curr_ticks ser_update_period ser_game_mode ser_mode_steps ser_level_steps
    ser_curr_score ser_curr_level ser_curr_lives ser_ghost_combo ser_uint8 ser_uint16 ser_bytes
    write_list
ser_front s c = refl

-- The writers append the bytes of `encode`.
pub ser_full-encode : (s : GameState) (c : Cursor) → ser_full s c ≡ write_list (encode s) c
unfolding encode
ser_full-encode s c =
    ser_front s c
    ∙ ser_rows_lem s.pellets (write_list (front s) c)
    ∙ sym (write_list-append (front s) (rows_bytes s.pellets) c)

length-rows_bytes : (rows : List ℕ) → length (rows_bytes rows) ≡ 4 * length rows
unfolding rows_bytes
length-rows_bytes [] = refl
length-rows_bytes (row ∷ rows) = omega (arith, length-rows_bytes rows)

pub length-encode : (s : GameState) → length s.pellets ≡ 31 → length (encode s) ≡ 159
unfolding encode
length-encode s h =
    omega (arith, length-append {0} (front s) (rows_bytes s.pellets), length-rows_bytes s.pellets)

-- Bytes written within the buffer stand there in order; the others stay.
write_list_lem :
    (bs before after : List ℕ)
    → length bs ≤ length after
    → write_list bs (before ++ after, length before)
      ≡ (before ++ (bs ++ drop (length bs) after), length before + length bs)
unfolding write_list
write_list_lem [] before after h = ap (λ n. (before ++ after, n)) (omega arith)
write_list_lem (b ∷ bs) before [] h = absurd (omega arith)
write_list_lem (b ∷ bs) before (a ∷ after) h = rw (set-append before a b after) (
    ap₂ (λ xs n. write_list bs (xs, n)) (sym (append_assoc before (b ∷ []) after)) one
    ∙ write_list_lem bs (before ++ b ∷ []) after (omega arith)
    ∙ ap₂ (λ xs n. (xs, n)) (append_assoc before (b ∷ []) (bs ++ drop (length bs) after)) all)
  where
    one : length before + 1 ≡ length (before ++ b ∷ [])
    one = sym (length-append before (b ∷ []))

    all : length (before ++ b ∷ []) + length bs ≡ length before + suc (length bs)
    all = omega (arith, length-append {0} before (b ∷ []))

-- Serialising a state with 31 rows of pellets at the start of the engine's 256-byte buffer writes
-- exactly the 159 bytes of `encode`, which is what goes to the output channel; the bytes after them
-- and the length of the buffer stay.
pub ser_full_lem :
    (s : GameState) (buf : List ℕ)
    → length s.pellets ≡ 31
    → length buf ≡ 256
    → let (out, n) = ser_full s (buf, 0) in
      (n ≡ 159) × (take n out ≡ encode s) × (drop n out ≡ drop 159 buf) × (length out ≡ 256)
ser_full_lem s buf rows size = rw written (
  len,
  take-append (encode s) (drop (length (encode s)) buf),
  drop-append (encode s) (drop (length (encode s)) buf) ∙ ap (λ n. drop n buf) len,
  omega (
    arith,
    len,
    length-append {0} (encode s) (drop (length (encode s)) buf),
    length-drop {0} (length (encode s)) buf,
  ),
)
  where
    len : length (encode s) ≡ 159
    len = length-encode s rows

    written : ser_full s (buf, 0) ≡ (encode s ++ drop (length (encode s)) buf, length (encode s))
    written =
        ser_full-encode s (buf, 0)
        ∙ write_list_lem (encode s) [] buf (omega (arith, len))
        ∙ ap (λ n. (encode s ++ drop (length (encode s)) buf, n)) (omega arith)
