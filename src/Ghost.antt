-- ===== src/Ghost.antt =====
-- server/game/ghost_state.go and ghost_helpers.go: the operations of one ghost but for its
-- planning. `active` is numActiveGhosts.
use pacbot.Prelude.{ℕ, Bool, true, false, not, ◌&&◌, ◌==◌, leb, ltb, if◌then◌else◌}
use pacbot.Word.{sub8}
use pacbot.Maze.{red, pink, ghost_trapped_steps}
use pacbot.Location.{
  up, down, empty_loc, ghost_spawn_loc, collides_with, copy_from, update_coords, update_dir,
}
use pacbot.State.{GhostState}

unfoldable pub set_fright_steps : ℕ → GhostState → GhostState
set_fright_steps steps g = record g { fright_steps = steps }

-- `frightSteps--` on uint8.
unfoldable pub dec_fright_steps : GhostState → GhostState
dec_fright_steps g = record g { fright_steps = sub8 g.fright_steps 1 }

unfoldable pub is_frightened : GhostState → Bool
is_frightened g = ltb 0 g.fright_steps

unfoldable pub set_trapped_steps : ℕ → GhostState → GhostState
set_trapped_steps steps g = record g { trapped_steps = steps }

unfoldable pub dec_trapped_steps : GhostState → GhostState
dec_trapped_steps g = record g { trapped_steps = sub8 g.trapped_steps 1 }

unfoldable pub is_trapped : GhostState → Bool
is_trapped g = ltb 0 g.trapped_steps

unfoldable pub set_spawning : Bool → GhostState → GhostState
set_spawning b g = record g { spawning = b }

unfoldable pub set_eaten : Bool → GhostState → GhostState
set_eaten b g = record g { eaten = b }

unfoldable pub reset : ℕ → GhostState → GhostState
unfolding set_spawning set_trapped_steps set_fright_steps copy_from
reset active g =
    if leb active g.color
    then g
    else let h =
        set_fright_steps 0
          (set_trapped_steps (ghost_trapped_steps g.color) (set_spawning true g)) in
      record h {
        loc = copy_from h.loc empty_loc;
        next_loc = copy_from h.next_loc (ghost_spawn_loc h.color);
      }

unfoldable pub respawn : ℕ → GhostState → GhostState
unfolding set_spawning set_eaten copy_from update_coords update_dir
respawn active g =
    if leb active g.color
    then g
    else let h = set_eaten true (set_spawning true g) in
      let spawn = if h.color == red then ghost_spawn_loc pink else ghost_spawn_loc h.color in
      record h {
        loc = copy_from h.loc empty_loc;
        next_loc = update_dir (update_coords h.next_loc (spawn.row, spawn.col)) up;
      }

unfoldable pub leave_house : GhostState → GhostState
unfolding collides_with set_spawning
leave_house g =
    if collides_with g.loc (ghost_spawn_loc red) && not (g.loc.dir == down)
    then set_spawning false g
    else g

unfoldable pub revive : GhostState → GhostState
unfolding set_eaten set_fright_steps
revive g = if g.eaten then set_fright_steps 0 (set_eaten false g) else g

unfoldable pub calm : GhostState → GhostState
unfolding is_frightened dec_fright_steps
calm g = if is_frightened g then dec_fright_steps g else g

-- `update`: its three conditional steps, then the move to the planned location.
unfoldable pub update : GhostState → GhostState
unfolding leave_house revive calm copy_from
update g = let h = calm (revive (leave_house g)) in record h { loc = copy_from h.loc h.next_loc }

unfoldable pub frighten : ℕ → GhostState → GhostState
unfolding set_fright_steps set_trapped_steps is_trapped
frighten steps g =
    let h = set_fright_steps steps g in if is_trapped h then h else set_trapped_steps 1 h

unfoldable pub reverse_ghost : GhostState → GhostState
unfolding set_trapped_steps is_trapped
reverse_ghost g = if is_trapped g then g else set_trapped_steps 1 g
