-- ===== src/Ranged.antt =====
-- Ranges of what is serialised of the ghosts and the fruit.
pub mod Game
pub mod Herd
pub mod Server
pub mod Sent
use pacbot.Prelude.{ℕ, ◌<◌, ◌≤◌, ◌≡◌, All}
use pacbot.Location.{fruit_spawn_loc}
use pacbot.State.{GhostState, GameState}

pub record IsTimed (g : GhostState) : Type 0 where
  pub fright : g.fright_steps ≤ 40
  pub trapped : g.trapped_steps ≤ 32
  pub here : g.loc.dir ≤ 4
  pub next : g.next_loc.dir ≤ 4

pub record IsRanged (s : GameState) : Type 0 where
  pub combo : s.ghost_combo < 256
  pub fruit : s.fruit_loc ≡ fruit_spawn_loc
  pub timed : All IsTimed s.ghosts
