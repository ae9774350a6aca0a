-- ===== src/Commands/Results.antt =====
-- Which commands fail, and what a paused game makes of them.
use pacbot.Prelude.{ℕ, ◌≡◌, ◌⊎◌, inl, inr, refl, List, [], ◌∷◌, true, Option, none, some, arith}
use mathlib.Core.Option
use pacbot.State.{GameState}
use pacbot.Modes.{is_paused}
use pacbot.Collide.{check_collisions}
use pacbot.Path.{Route, found, nil_path, panics, hangs, find_likely_path}
use pacbot.Pacman.{turn_and_step, move_pacman_dir, follow, move_pacman_absolute}
use pacbot.Commands.{absolute_position, interpret_command}

-- The search for a route to the cell panics or does not end.
abbrev pub RouteFails : ℕ → ℕ → GameState → Type 0
RouteFails row col s = (find_likely_path s row col ≡ panics) ⊎ (find_likely_path s row col ≡ hangs)

follow-none :
    (row col : ℕ) (s : GameState) (r : Route)
    → follow row col s r ≡ none
    → (r ≡ panics) ⊎ (r ≡ hangs)
unfolding follow
follow-none row col s (found path) h = cc
follow-none row col s nil_path h = cc
follow-none row col s panics h = inl refl
follow-none row col s hangs h = inr refl

move_pacman_absolute-none :
    (row col : ℕ) (s : GameState) → move_pacman_absolute row col s ≡ none → RouteFails row col s
unfolding move_pacman_absolute
move_pacman_absolute-none row col s h =
    ground (arith, follow-none row col s (find_likely_path s row col))

-- What a message must be for its command to fail: empty, or a position whose route cannot be found.
abbrev pub FailsBy : List ℕ → GameState → Type 0
FailsBy bytes s =
    (bytes ≡ [])
    ⊎ ((row : ℕ) × (col : ℕ) × (bytes ≡ (b'x' ∷ row ∷ col ∷ [])) × RouteFails row col s)

map-none {ℓ κ} :
    {A : Type ℓ} {B : Type κ} (f : A → B) (o : Option A) → Option.map f o ≡ none → o ≡ none
map-none f none h = refl
map-none f (some a) h = cc

absolute_position-none :
    (bytes : List ℕ) (s : GameState)
    → absolute_position (b'x' ∷ bytes) s ≡ none
    → FailsBy (b'x' ∷ bytes) s
unfolding absolute_position
absolute_position-none [] s h = cc
absolute_position-none (row ∷ []) s h = cc
absolute_position-none (row ∷ col ∷ []) s h =
    inr (row, col, refl, move_pacman_absolute-none row col s (map-none _ _ h))
absolute_position-none (row ∷ col ∷ d ∷ ds) s h = cc

-- The interpreter of commands panics or hangs only on an empty message, and on a position for
-- which the search of a route panics or hangs.
pub interpret_command-none :
    (bytes : List ℕ) (s : GameState) → interpret_command bytes s ≡ none → FailsBy bytes s
unfolding interpret_command
interpret_command-none [] s h = inl refl
interpret_command-none (c ∷ rest) s h = ground (arith, absolute_position-none rest s)

-- While the game is paused, or about to be, a move only checks for collisions.
pub move_pacman_dir-stopped :
    (d : ℕ) (s : GameState)
    → (is_paused s ≡ true) ⊎ (s.pause_on_update ≡ true)
    → move_pacman_dir d s ≡ check_collisions s
unfolding move_pacman_dir turn_and_step
move_pacman_dir-stopped d s h = ground arith
