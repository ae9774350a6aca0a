-- ===== src/Pellets.antt =====
-- The pellet count of a game is the number of bits set in its pellet map.
pub mod Rows
pub mod Game
pub mod Server
use pacbot.Prelude.{ℕ, zero, suc, ◌+◌, ◌/◌, ◌%◌, ◌^◌, ◌<◌, ◌≡◌, List, [], ◌∷◌, All, length}
use pacbot.State.{GameState}

-- The number of bits set among the lowest `w`.
unfoldable pub pop : ℕ → ℕ → ℕ
pop zero n = 0
pop (suc w) n = n % 2 + pop w (n / 2)

unfoldable pub total : List ℕ → ℕ
total [] = 0
total (row ∷ rows) = pop 32 row + total rows

abbrev pub IsWord : ℕ → Type 0
IsWord n = n < 2 ^ 32

pub record Counted (s : GameState) : Type 0 where
  pub rows : length s.pellets ≡ 31
  pub words : All IsWord s.pellets
  pub count : s.num_pellets ≡ total s.pellets
