-- ===== src/Herd.antt =====
-- server/game/game_helpers.go: the operations on all ghosts at once. The goroutines of resets and
-- updates each touch their own ghost, so they are one map over the ghosts.
use pacbot.Prelude.{ℕ, ◌+◌, ◌*◌, ◌^◌, List, [], ◌∷◌, not, ◌==◌, if◌then◌else◌, map}
use pacbot.Word.{u8, u16}
use pacbot.Bits.{get_bit}
use pacbot.Maze.{orange, ghost_fright_steps, combo_multiplier}
use pacbot.Location.{left, no_dir, update_dir}
use pacbot.State.{GhostState, GameState}
use pacbot.Counters.{increment_score}
use pacbot.Ghost.{reset, respawn, update, frighten, reverse_ghost}

unfoldable pub frighten_all_ghosts : GameState → GameState
frighten_all_ghosts s = record s {
  ghost_combo = 0;
  ghosts = map (frighten ghost_fright_steps) s.ghosts;
}

unfoldable pub reverse_all_ghosts : GameState → GameState
reverse_all_ghosts s = record s { ghosts = map reverse_ghost s.ghosts }

-- With no lives left the ghosts look at the player.
unfoldable pub stare : GhostState → GhostState
unfolding update_dir
stare g =
    if not (g.color == orange)
    then record g { next_loc = update_dir g.next_loc no_dir }
    else record g { next_loc = update_dir g.next_loc left }

unfoldable pub reset_all_ghosts : GameState → GameState
reset_all_ghosts s =
    let gs = map (reset s.num_active_ghosts) s.ghosts in
    record s { ghost_combo = 0; ghosts = if s.curr_lives == 0 then map stare gs else gs }

-- `comboMultiplier << uint16(ghostCombo)` on uint16, and `ghostCombo++` on uint8.
unfoldable pub score_combo : GameState → GameState
unfolding increment_score
score_combo s =
    let t = increment_score (u16 (combo_multiplier * 2 ^ s.ghost_combo)) s in
    record t { ghost_combo = u8 (t.ghost_combo + 1) }

-- The loop over the ghosts: the ghosts as it leaves them, and the state with score and combo.
unfoldable pub respawn_loop : ℕ → List GhostState → GameState → List GhostState × GameState
respawn_loop flag [] s = ([], s)
respawn_loop flag (g ∷ gs) s =
    let eat = get_bit flag g.color in
    let rest = respawn_loop flag gs (if eat then score_combo s else s) in
    ((if eat then respawn s.num_active_ghosts g else g) ∷ rest.0, rest.1)

unfoldable pub respawn_ghosts : ℕ → GameState → GameState
respawn_ghosts flag s = let (gs, t) = respawn_loop flag s.ghosts s in record t { ghosts = gs }

unfoldable pub update_all_ghosts : GameState → GameState
update_all_ghosts s = record s { ghosts = map update s.ghosts }
