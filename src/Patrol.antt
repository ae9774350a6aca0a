-- ===== src/Patrol.antt =====
-- Where a ghost may be, and facts about the maze that keep it there: tables over all cells and
-- directions, checked by evaluation.
pub mod One
pub mod Plans
pub mod Game
pub mod Server
use pacbot.Prelude.{
  all_below, all_below_lem, ℕ, zero, suc, ◌≤◌, ◌<◌, ◌≡◌, ◌≢◌, ◌⊎◌, refl, Bool, true, false, not,
  ◌&&◌, ◌||◌, ◌==◌, ltb, arith,
}
use pacbot.Word.{add8}
use pacbot.Bits.{get_bit}
use pacbot.Maze.{init_walls}
use pacbot.Location.{
  LocationState, new_location, d_row, d_col, reversed, get_reversed_dir, get_neighbor_coords,
}
use pacbot.Grid.{in_bounds, wall_in, ghost_spawn_at}
use pacbot.Plan.{can_enter, move_valid}

-- A ghost on such a cell with such a direction stands in the open, and so does it one step on.
unfoldable pub legal : Bool → ℕ → ℕ → ℕ → Bool
legal spawning row col dir =
    (ltb row 31 && ltb col 28 && ltb dir 4)
    && can_enter init_walls spawning row col
    && can_enter init_walls spawning (add8 row (d_row dir)) (add8 col (d_col dir))

abbrev pub ahead : ℕ → ℕ → ℕ → LocationState
ahead row col dir = new_location (add8 row (d_row dir)) (add8 col (d_col dir)) dir

abbrev implies : Bool → Bool → Bool
implies a b = elim a [ true ↦ b | false ↦ true ]

-- A property of a cell and a direction, at all of them.
everywhere : (ℕ → ℕ → ℕ → Bool) → Bool
unfolding all_below
everywhere p = all_below 31 (λ r. all_below 28 (λ c. all_below 4 (p r c)))

everywhere_lem :
    (p : ℕ → ℕ → ℕ → Bool) (r c d : ℕ)
    → everywhere p ≡ true
    → r < 31
    → c < 28
    → d < 4
    → p r c d ≡ true
unfolding everywhere
everywhere_lem p r c d h hr hc hd =
    all_below_lem 4 (p r c) d
      (all_below_lem 28 (λ c. all_below 4 (p r c)) c
        (all_below_lem 31 (λ r. all_below 28 (λ c. all_below 4 (p r c))) r h hr) hc)
      hd

-- Some move from the next cell is valid.
abbrev pub goes_on : Bool → ℕ → ℕ → ℕ → Bool
goes_on sp r c d = let ok = move_valid init_walls sp (ahead r c d) in ok 0 || ok 1 || ok 2 || ok 3

abbrev no_dead_end : Bool → ℕ → ℕ → ℕ → Bool
no_dead_end sp r c d =
    implies (legal sp r c d)
      (goes_on sp r c d && legal sp (ahead r c d).row (ahead r c d).col (reversed d))

no_dead_ends_spawning : everywhere (no_dead_end true) ≡ true
unfolding everywhere legal move_valid can_enter ghost_spawn_at get_neighbor_coords get_reversed_dir
    in_bounds wall_in get_bit init_walls
no_dead_ends_spawning = refl

no_dead_ends : everywhere (no_dead_end false) ≡ true
unfolding everywhere legal move_valid can_enter ghost_spawn_at get_neighbor_coords get_reversed_dir
    in_bounds wall_in get_bit init_walls
no_dead_ends = refl

pub legal-bounds : (sp : Bool) (r c d : ℕ) → legal sp r c d ≡ true → (r < 31) × (c < 28) × (d < 4)
unfolding legal
legal-bounds sp r c d h = ground arith

implies_lem : (a b : Bool) → implies a b ≡ true → a ≡ true → b ≡ true
implies_lem a b h k = ground arith

and_parts : (a b : Bool) → (a && b) ≡ true → (a ≡ true) × (b ≡ true)
and_parts a b h = ground arith

-- From a legal cell a ghost can go on without turning back, and can turn back.
pub legal-next :
    (sp : Bool) (r c d : ℕ)
    → legal sp r c d ≡ true
    → (goes_on sp r c d ≡ true) × (legal sp (ahead r c d).row (ahead r c d).col (reversed d) ≡ true)
legal-next sp r c d h = and_parts _ _ (implies_lem _ _ (table sp) h)
  where
    inside : (r < 31) × (c < 28) × (d < 4)
    inside = legal-bounds sp r c d h

    table : (b : Bool) → no_dead_end b r c d ≡ true
    table true =
        everywhere_lem (no_dead_end true) r c d no_dead_ends_spawning inside.0 inside.1 inside.2
    table false = everywhere_lem (no_dead_end false) r c d no_dead_ends inside.0 inside.1 inside.2

can_enter-bounds :
    (sp : Bool) (r c : ℕ)
    → r < 256
    → c < 256
    → can_enter init_walls sp r c ≡ true
    → (r < 31) × (c < 28)
unfolding can_enter ghost_spawn_at wall_in in_bounds
can_enter-bounds sp r c hr hc h = ground arith

pub legal-turn :
    (sp : Bool) (r c d e : ℕ)
    → legal sp r c d ≡ true
    → e ≤ 3
    → move_valid init_walls sp (ahead r c d) e ≡ true
    → legal sp (ahead r c d).row (ahead r c d).col e ≡ true
unfolding legal move_valid get_neighbor_coords
legal-turn sp r c d e h he v =
    ground (arith, can_enter-bounds sp (add8 r (d_row d)) (add8 c (d_col d)))

abbrev leaves : ℕ → ℕ → Bool
leaves d e = implies (legal true 11 13 d && not (d == 2)) (
    implies (legal true (ahead 11 13 d).row (ahead 11 13 d).col e)
      (legal false (ahead 11 13 d).row (ahead 11 13 d).col e))

no_way_back : all_below 4 (λ d. all_below 4 (leaves d)) ≡ true
unfolding all_below legal can_enter ghost_spawn_at in_bounds wall_in get_bit init_walls
no_way_back = refl

-- A ghost that stops spawning as it leaves the spawn point of red does not face the house.
pub legal-leave :
    (d e : ℕ)
    → legal true 11 13 d ≡ true
    → d ≢ 2
    → legal true (ahead 11 13 d).row (ahead 11 13 d).col e ≡ true
    → legal false (ahead 11 13 d).row (ahead 11 13 d).col e ≡ true
legal-leave d e h hd k =
    implies_lem _ _ (implies_lem (legal true 11 13 d && not (d == 2)) _ row (ground arith)) k
  where
    inside : (d < 4) × (e < 4)
    inside = (
      (legal-bounds true 11 13 d h).2,
      (legal-bounds true (ahead 11 13 d).row (ahead 11 13 d).col e k).2,
    )

    row : leaves d e ≡ true
    row =
        all_below_lem 4 (leaves d) e
          (all_below_lem 4 (λ d. all_below 4 (leaves d)) d no_way_back inside.0) inside.1
