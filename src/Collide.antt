-- ===== src/Collide.antt =====
-- server/game/game_helpers.go: checkCollisions.
pub mod Safe
pub mod Game
pub mod Server
use pacbot.Prelude.{ℕ, ◌+◌, List, [], ◌∷◌, true, not, ◌&&◌, ◌==◌, if◌then◌else◌}
use pacbot.Prelude.{Option, none, some}
use pacbot.Bits.{modify_bit}
use pacbot.Location.{LocationState, collides_with}
use pacbot.State.{GhostState, GameState}
use pacbot.Ghost.{is_frightened}
use pacbot.Herd.{respawn_ghosts}
use pacbot.Board.{death_reset}

-- The loop over the ghosts, with its flag and its count; `none` is the return after a death.
unfoldable pub scan : LocationState → ℕ → ℕ → List GhostState → Option (ℕ × ℕ)
scan p flag num [] = some (flag, num)
scan p flag num (g ∷ gs) =
    let hit = collides_with p g.loc && not g.eaten in
    let eats = hit && is_frightened g in
    let rest =
      scan p (if eats then modify_bit 8 flag g.color true else flag) (if eats then num + 1 else num)
        gs in
    if hit && not (is_frightened g) then none else rest

unfoldable pub check_collisions : GameState → GameState
check_collisions s = elim (scan s.pacman_loc 0 0 s.ghosts) [
  | none ↦ death_reset s
  | some (flag, num) ↦ if num == 0 then s else respawn_ghosts flag s
]
