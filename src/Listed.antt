-- ===== src/Listed.antt =====
-- The ghosts of a game are its four colors, and a ghost that is not active stays off the board.
pub mod Game
pub mod Server
use pacbot.Prelude.{ℕ, ◌<◌, ◌≤◌, ◌≡◌, All}
use pacbot.Location.{LocationState}
use pacbot.State.{GhostState, GameState}

abbrev pub IsOff : LocationState → Type 0
IsOff l = (l.row ≡ 32) × (l.col ≡ 32)

abbrev pub IsListed : ℕ → GhostState → Type 0
IsListed active g = (g.color < 4) × (active ≤ g.color → IsOff g.loc × IsOff g.next_loc)

pub record IsHerd (s : GameState) : Type 0 where
  pub listed : All (IsListed s.num_active_ghosts) s.ghosts
