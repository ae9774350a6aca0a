-- ===== src/Maze.antt =====
-- server/game/variables.go: the constants of the game and the two bit maps of the maze. In a row of
-- a map, column 0 is the lowest bit.
use pacbot.Prelude.{ℕ, List, [], ◌∷◌, get_or}

abbrev pub maze_rows : ℕ
maze_rows = 31

abbrev pub maze_cols : ℕ
maze_cols = 28

abbrev pub init_update_period : ℕ
init_update_period = 12

abbrev pub level_duration : ℕ
level_duration = 960

abbrev pub level_penalty_duration : ℕ
level_penalty_duration = 240

-- The game modes of game_modes.go.
abbrev pub paused : ℕ
paused = 0

abbrev pub scatter : ℕ
scatter = 1

abbrev pub chase : ℕ
chase = 2

abbrev pub init_mode : ℕ
init_mode = scatter

-- `modeDurations[mode]`. The fallback stands for the panic of an index out of range.
abbrev pub mode_durations : ℕ → ℕ
mode_durations m = get_or (255 ∷ 60 ∷ 180 ∷ []) m 0

abbrev pub init_level : ℕ
init_level = 1

abbrev pub init_lives : ℕ
init_lives = 3

abbrev pub ghost_house_exit_row : ℕ
ghost_house_exit_row = 12

abbrev pub ghost_house_exit_col : ℕ
ghost_house_exit_col = 13

abbrev pub fruit_duration : ℕ
fruit_duration = 30

abbrev pub fruit_points : ℕ
fruit_points = 100

-- The ghost colors of ghost_state.go.
abbrev pub red : ℕ
red = 0

abbrev pub pink : ℕ
pink = 1

abbrev pub cyan : ℕ
cyan = 2

abbrev pub orange : ℕ
orange = 3

abbrev pub num_colors : ℕ
num_colors = 4

-- `ghostTrappedSteps[color]`.
abbrev pub ghost_trapped_steps : ℕ → ℕ
ghost_trapped_steps c = get_or (0 ∷ 5 ∷ 16 ∷ 32 ∷ []) c 0

abbrev pub ghost_fright_steps : ℕ
ghost_fright_steps = 40

abbrev pub init_pellet_count : ℕ
init_pellet_count = 244

abbrev pub fruit_threshold1 : ℕ
fruit_threshold1 = 174

abbrev pub fruit_threshold2 : ℕ
fruit_threshold2 = 74

abbrev pub anger_threshold1 : ℕ
anger_threshold1 = 20

abbrev pub anger_threshold2 : ℕ
anger_threshold2 = 10

abbrev pub pellet_points : ℕ
pellet_points = 10

abbrev pub super_pellet_points : ℕ
super_pellet_points = 50

abbrev pub combo_multiplier : ℕ
combo_multiplier = 200

unfoldable pub init_pellets : List ℕ
init_pellets =
    0b0000_0000000000000000000000000000 ∷ 0b0000_0111111111111001111111111110
    ∷ 0b0000_0100001000001001000001000010 ∷ 0b0000_0100001000001001000001000010
    ∷ 0b0000_0100001000001001000001000010 ∷ 0b0000_0111111111111111111111111110
    ∷ 0b0000_0100001001000000001001000010 ∷ 0b0000_0100001001000000001001000010
    ∷ 0b0000_0111111001111001111001111110 ∷ 0b0000_0000001000000000000001000000
    ∷ 0b0000_0000001000000000000001000000 ∷ 0b0000_0000001000000000000001000000
    ∷ 0b0000_0000001000000000000001000000 ∷ 0b0000_0000001000000000000001000000
    ∷ 0b0000_0000001000000000000001000000 ∷ 0b0000_0000001000000000000001000000
    ∷ 0b0000_0000001000000000000001000000 ∷ 0b0000_0000001000000000000001000000
    ∷ 0b0000_0000001000000000000001000000 ∷ 0b0000_0000001000000000000001000000
    ∷ 0b0000_0111111111111001111111111110 ∷ 0b0000_0100001000001001000001000010
    ∷ 0b0000_0100001000001001000001000010 ∷ 0b0000_0111001111111001111111001110
    ∷ 0b0000_0001001001000000001001001000 ∷ 0b0000_0001001001000000001001001000
    ∷ 0b0000_0111111001111001111001111110 ∷ 0b0000_0100000000001001000000000010
    ∷ 0b0000_0100000000001001000000000010 ∷ 0b0000_0111111111111111111111111110
    ∷ 0b0000_0000000000000000000000000000 ∷ []

unfoldable pub init_walls : List ℕ
init_walls =
    0b0000_1111111111111111111111111111 ∷ 0b0000_1000000000000110000000000001
    ∷ 0b0000_1011110111110110111110111101 ∷ 0b0000_1011110111110110111110111101
    ∷ 0b0000_1011110111110110111110111101 ∷ 0b0000_1000000000000000000000000001
    ∷ 0b0000_1011110110111111110110111101 ∷ 0b0000_1011110110111111110110111101
    ∷ 0b0000_1000000110000110000110000001 ∷ 0b0000_1111110111110110111110111111
    ∷ 0b0000_1111110111110110111110111111 ∷ 0b0000_1111110110000000000110111111
    ∷ 0b0000_1111110110111111110110111111 ∷ 0b0000_1111110110111111110110111111
    ∷ 0b0000_1111110000111111110000111111 ∷ 0b0000_1111110110111111110110111111
    ∷ 0b0000_1111110110111111110110111111 ∷ 0b0000_1111110110000000000110111111
    ∷ 0b0000_1111110110111111110110111111 ∷ 0b0000_1111110110111111110110111111
    ∷ 0b0000_1000000000000110000000000001 ∷ 0b0000_1011110111110110111110111101
    ∷ 0b0000_1011110111110110111110111101 ∷ 0b0000_1000110000000000000000110001
    ∷ 0b0000_1110110110111111110110110111 ∷ 0b0000_1110110110111111110110110111
    ∷ 0b0000_1000000110000110000110000001 ∷ 0b0000_1011111111110110111111111101
    ∷ 0b0000_1011111111110110111111111101 ∷ 0b0000_1000000000000000000000000001
    ∷ 0b0000_1111111111111111111111111111 ∷ []
