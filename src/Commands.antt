-- ===== src/Commands.antt =====
-- server/game/commands.go: interpretCommand. A byte is a number; the logging of commands is left
-- out (it too reads the first byte).
pub mod Results
use pacbot.Prelude.{
  ℕ, List, [], ◌∷◌, Bool, true, false, ◌==◌, if◌then◌else◌, Option, none, some, ◌||◌,
}
use mathlib.Core.Option
use pacbot.Location.{up, left, down, right}
use pacbot.State.{GameState}
use pacbot.Modes.{pause, play}
use pacbot.Counters.{decrement_lives}
use pacbot.Pacman.{move_pacman_dir, move_pacman_absolute}

-- The handler of 'x', from its check of the length on.
unfoldable pub absolute_position : List ℕ → GameState → Option (GameState × Bool)
absolute_position (c ∷ row ∷ col ∷ []) s =
    Option.map (λ t. (t, false)) (move_pacman_absolute row col s)
absolute_position _ s = some (s, false)

-- The result's flag asks for a restart; `none` stands for a panic or a loop without end.
unfoldable pub interpret_command : List ℕ → GameState → Option (GameState × Bool)
interpret_command [] s = none
interpret_command (c ∷ rest) s =
    if c == b'p'
    then some (pause s, false)
    else if c == b'P'
    then some (play s, false)
    else if c == b'r' || c == b'R'
    then some (s, true)
    else if c == b'w'
    then some (move_pacman_dir up s, false)
    else if c == b'a'
    then some (move_pacman_dir left s, false)
    else if c == b's'
    then some (move_pacman_dir down s, false)
    else if c == b'd'
    then some (move_pacman_dir right s, false)
    else if c == b'x'
    then absolute_position (c ∷ rest) s
    else if c == b'k'
    then some (decrement_lives s, false)
    else some (s, false)
