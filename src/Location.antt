-- ===== src/Location.antt =====
-- server/game/location.go: positions and directions of the agents. The mutex of a location guards
-- single reads and writes and is left out; `getDir` and `getCoords` are the fields.
use pacbot.Prelude.{ℕ, [], ◌∷◌, Bool, false, ◌&&◌, ◌||◌, ◌==◌, if◌then◌else◌, get_or}
use pacbot.Word.{add8, mul8, ge8}

-- The deltas of a direction; -1 is 255. The fallback stands for the panic of an index out of range.
abbrev pub d_row : ℕ → ℕ
d_row dir = get_or (255 ∷ 0 ∷ 1 ∷ 0 ∷ 0 ∷ []) dir 0

abbrev pub d_col : ℕ → ℕ
d_col dir = get_or (0 ∷ 255 ∷ 0 ∷ 1 ∷ 0 ∷ []) dir 0

abbrev pub up : ℕ
up = 0

abbrev pub left : ℕ
left = 1

abbrev pub down : ℕ
down = 2

abbrev pub right : ℕ
right = 3

abbrev pub no_dir : ℕ
no_dir = 4

pub record LocationState : Type 0 where
  pub row : ℕ
  pub col : ℕ
  pub dir : ℕ

abbrev pub new_location : ℕ → ℕ → ℕ → LocationState
new_location r c d = record { row = r; col = c; dir = d }

abbrev pub empty_loc : LocationState
empty_loc = new_location 32 32 no_dir

abbrev pub pacman_spawn_loc : LocationState
pacman_spawn_loc = new_location 23 13 right

abbrev pub fruit_spawn_loc : LocationState
fruit_spawn_loc = new_location 17 13 no_dir

-- `ghostSpawnLocs[color]` and `ghostScatterTargets[color]`.
abbrev pub ghost_spawn_loc : ℕ → LocationState
ghost_spawn_loc c =
    get_or
      (new_location 11 13 left
        ∷ new_location 13 13 down
        ∷ new_location 14 11 up
        ∷ new_location 14 15 up
        ∷ [])
      c empty_loc

abbrev pub ghost_scatter_target : ℕ → LocationState
ghost_scatter_target c =
    get_or
      (new_location 253 25 no_dir
        ∷ new_location 253 2 no_dir
        ∷ new_location 31 27 no_dir
        ∷ new_location 31 0 no_dir
        ∷ [])
      c empty_loc

unfoldable pub collides_with : LocationState → LocationState → Bool
collides_with a b =
    if ge8 a.row 32 || ge8 a.col 32 || ge8 b.row 32 || ge8 b.col 32
    then false
    else a.row == b.row && a.col == b.col

unfoldable pub is_empty : LocationState → Bool
is_empty a = a.row == 32 && a.col == 32

abbrev pub reversed : ℕ → ℕ
reversed d =
    if d == up
    then down
    else if d == left
    then right
    else if d == down
    then up
    else if d == right
    then left
    else d

unfoldable pub get_reversed_dir : LocationState → ℕ
get_reversed_dir a = reversed a.dir

unfoldable pub get_neighbor_coords : LocationState → ℕ → ℕ × ℕ
get_neighbor_coords a dir = (add8 a.row (d_row dir), add8 a.col (d_col dir))

unfoldable pub get_ahead_coords : LocationState → ℕ → ℕ × ℕ
get_ahead_coords a spaces =
    (add8 a.row (mul8 (d_row a.dir) spaces), add8 a.col (mul8 (d_col a.dir) spaces))

unfoldable pub update_dir : LocationState → ℕ → LocationState
update_dir a d = record a { dir = d }

unfoldable pub update_coords : LocationState → ℕ × ℕ → LocationState
update_coords a (r, c) = record a { row = r; col = c }

unfoldable pub copy_from : LocationState → LocationState → LocationState
unfolding update_coords update_dir
copy_from a b = update_dir (update_coords a (b.row, b.col)) b.dir

unfoldable pub advance_from : LocationState → LocationState → LocationState
unfolding update_coords update_dir get_ahead_coords
advance_from a b = update_dir (update_coords a (get_ahead_coords b 1)) b.dir
