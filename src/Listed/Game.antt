-- ===== src/Listed/Game.antt =====
-- The operations of a game keep its herd.
use pacbot.Prelude.{
  ℕ, ◌≡◌, ◌<◌, refl, List, [], ◌∷◌, map, All, All-map, Bool, arith, ap, ap₂, ◌∙◌, if◌then◌else◌,
  true, false,
}
use pacbot.Bits.{get_bit}
use pacbot.Location.{is_empty}
use pacbot.State.{GhostState, GameState, new_ghost_state, new_game_state}
use pacbot.Modes.{pause, play, set_pause_on_update}
use pacbot.Counters.{
  next_tick, increment_score, increment_level, decrement_lives, set_fruit_steps, set_level_steps,
  reset_pellets,
}
use pacbot.Ghost.{reset, respawn, frighten, reverse_ghost, update, dec_trapped_steps}
use pacbot.Herd.{
  stare, score_combo, respawn_loop, respawn_ghosts, frighten_all_ghosts, reverse_all_ghosts,
  reset_all_ghosts, update_all_ghosts,
}
use pacbot.Board.{put_pacman, restart_mode, try_respawn_pacman}
use pacbot.Collect.{collect_fruit, clear_pellet, spawn_fruit, anger}
use pacbot.Plan.{plan, plan_all_ghosts}
use pacbot.Steps.{switch_mode, level_event, count_down}
use pacbot.Engine.{pause_if_due, Draws}
use pacbot.Listed.{IsListed, IsHerd}

module _ {s : GameState} (h : IsHerd s) where
  pub pause-IsHerd : IsHerd (pause s)
  unfolding pause
  pause-IsHerd = ground arith

  pub play-IsHerd : IsHerd (play s)
  unfolding play
  play-IsHerd = ground arith

  pub next_tick-IsHerd : IsHerd (next_tick s)
  unfolding next_tick
  next_tick-IsHerd = ground arith

  pub increment_level-IsHerd : IsHerd (increment_level s)
  unfolding increment_level
  increment_level-IsHerd = ground arith

  pub decrement_lives-IsHerd : IsHerd (decrement_lives s)
  unfolding decrement_lives
  decrement_lives-IsHerd = ground arith

  pub collect_fruit-IsHerd : IsHerd (collect_fruit s)
  unfolding collect_fruit
  collect_fruit-IsHerd = ground arith

  pub spawn_fruit-IsHerd : IsHerd (spawn_fruit s)
  unfolding spawn_fruit
  spawn_fruit-IsHerd = ground arith

  pub anger-IsHerd : IsHerd (anger s)
  unfolding anger
  anger-IsHerd = ground arith

  pub switch_mode-IsHerd : IsHerd (switch_mode s)
  unfolding switch_mode
  switch_mode-IsHerd = ground arith

  pub count_down-IsHerd : IsHerd (count_down s)
  unfolding count_down
  count_down-IsHerd = ground arith

  pub put_pacman-IsHerd : IsHerd (put_pacman s)
  unfolding put_pacman
  put_pacman-IsHerd = ground arith

  pub restart_mode-IsHerd : IsHerd (restart_mode s)
  unfolding restart_mode
  restart_mode-IsHerd = ground arith

  pub reset_pellets-IsHerd : IsHerd (reset_pellets s)
  unfolding reset_pellets
  reset_pellets-IsHerd = ground arith

  pub try_respawn_pacman-IsHerd : IsHerd (try_respawn_pacman s)
  unfolding try_respawn_pacman
  try_respawn_pacman-IsHerd = ground arith

  pub pause_if_due-IsHerd : IsHerd (pause_if_due s)
  unfolding pause_if_due set_pause_on_update pause
  pause_if_due-IsHerd = ground arith

  pub level_event-IsHerd : (n : ℕ) → IsHerd (level_event n s)
  unfolding level_event
  level_event-IsHerd n = ground arith

  pub clear_pellet-IsHerd : (r c : ℕ) → IsHerd (clear_pellet r c s)
  unfolding clear_pellet
  clear_pellet-IsHerd r c = ground arith

  pub increment_score-IsHerd : (n : ℕ) → IsHerd (increment_score n s)
  unfolding increment_score
  increment_score-IsHerd n = ground arith

  pub set_fruit_steps-IsHerd : (n : ℕ) → IsHerd (set_fruit_steps n s)
  unfolding set_fruit_steps
  set_fruit_steps-IsHerd n = ground arith

  pub set_level_steps-IsHerd : (n : ℕ) → IsHerd (set_level_steps n s)
  unfolding set_level_steps
  set_level_steps-IsHerd n = ground arith

  pub set_pause_on_update-IsHerd : (b : Bool) → IsHerd (set_pause_on_update b s)
  unfolding set_pause_on_update
  set_pause_on_update-IsHerd b = ground arith

module _ (active : ℕ) (g : GhostState) (h : IsListed active g) where
  frighten-IsListed : (n : ℕ) → IsListed active (frighten n g)
  unfolding frighten
  frighten-IsListed n = ground arith

  reverse_ghost-IsListed : IsListed active (reverse_ghost g)
  unfolding reverse_ghost
  reverse_ghost-IsListed = ground arith

  pub reset-IsListed : IsListed active (reset active g)
  unfolding reset
  reset-IsListed = ground arith

  respawn-IsListed : IsListed active (respawn active g)
  unfolding respawn
  respawn-IsListed = ground arith

  stare-IsListed : IsListed active (stare g)
  unfolding stare
  stare-IsListed = ground arith

  update-IsListed : IsListed active (update g)
  unfolding update
  update-IsListed = ground arith

  plan-IsListed : (s : GameState) (draw : ℕ → ℕ) → IsListed active (plan s draw g)
  unfolding plan is_empty dec_trapped_steps
  plan-IsListed s draw = ground arith

new_ghost-IsListed : (active c : ℕ) → c < 4 → IsListed active (new_ghost_state active c)
unfolding new_ghost_state
new_ghost-IsListed active c h = ground arith

mapped :
    (f : GhostState → GhostState) (s : GameState)
    → ((g : GhostState) → IsListed s.num_active_ghosts g → IsListed s.num_active_ghosts (f g))
    → IsHerd s
    → All (IsListed s.num_active_ghosts) (map f s.ghosts)
mapped f s keep h =
    All-map (IsListed s.num_active_ghosts) (IsListed s.num_active_ghosts) f keep s.ghosts h.listed

pub frighten_all_ghosts-IsHerd : (s : GameState) → IsHerd s → IsHerd (frighten_all_ghosts s)
unfolding frighten_all_ghosts
frighten_all_ghosts-IsHerd s h = record {
  listed = mapped (frighten 40) s (λ g l. frighten-IsListed _ g l 40) h;
}

pub reverse_all_ghosts-IsHerd : (s : GameState) → IsHerd s → IsHerd (reverse_all_ghosts s)
unfolding reverse_all_ghosts
reverse_all_ghosts-IsHerd s h = record {
  listed = mapped reverse_ghost s (reverse_ghost-IsListed _) h;
}

pub update_all_ghosts-IsHerd : (s : GameState) → IsHerd s → IsHerd (update_all_ghosts s)
unfolding update_all_ghosts
update_all_ghosts-IsHerd s h = record { listed = mapped update s (update-IsListed _) h }

pub plan_all_ghosts-IsHerd :
    (draws : Draws) (s : GameState) → IsHerd s → IsHerd (plan_all_ghosts draws s)
unfolding plan_all_ghosts
plan_all_ghosts-IsHerd draws s h = record {
  listed =
      mapped (λ g. plan s (draws g.color) g) s (λ g l. plan-IsListed _ g l s (draws g.color)) h;
}

pub reset_all_ghosts-IsHerd : (s : GameState) → IsHerd s → IsHerd (reset_all_ghosts s)
unfolding reset_all_ghosts
reset_all_ghosts-IsHerd s h = record { listed = ground (arith, once, twice) }
  where
    once : All (IsListed s.num_active_ghosts) (map (reset s.num_active_ghosts) s.ghosts)
    once = mapped (reset s.num_active_ghosts) s (reset-IsListed _) h

    twice :
        All (IsListed s.num_active_ghosts) (map stare (map (reset s.num_active_ghosts) s.ghosts))
    twice =
        All-map (IsListed s.num_active_ghosts) (IsListed s.num_active_ghosts) stare
          (stare-IsListed s.num_active_ghosts) _ once

combo-kept :
    (b : Bool) (s : GameState)
    → ((if b then score_combo s else s).num_active_ghosts ≡ s.num_active_ghosts)
      × ((if b then score_combo s else s).pacman_loc ≡ s.pacman_loc)
unfolding score_combo increment_score
combo-kept true s = (refl, refl)
combo-kept false s = (refl, refl)

-- The loop of respawnGhosts respawns the flagged ghosts, and leaves Pacman alone.
pub respawn_loop_lem :
    (flag active : ℕ) (gs : List GhostState) (s : GameState)
    → s.num_active_ghosts ≡ active
    → ((respawn_loop flag gs s).0
        ≡ map (λ g. if get_bit flag g.color then respawn active g else g) gs)
      × ((respawn_loop flag gs s).1.num_active_ghosts ≡ active)
      × ((respawn_loop flag gs s).1.pacman_loc ≡ s.pacman_loc)
unfolding respawn_loop
respawn_loop_lem flag active [] s h = (refl, h, refl)
respawn_loop_lem flag active (g ∷ gs) s h =
    let (same_active, same_pacman) = combo-kept (get_bit flag g.color) s in
    let (same_ghosts, rest_active, rest_pacman) =
      respawn_loop_lem flag active gs (if get_bit flag g.color then score_combo s else s)
        (same_active ∙ h) in
    (
      ap₂ (λ x xs. x ∷ xs) (ap (λ n. if get_bit flag g.color then respawn n g else g) h)
          same_ghosts,
      rest_active,
      rest_pacman ∙ same_pacman,
    )

chosen-IsListed :
    (active : ℕ) (b : Bool) (g : GhostState)
    → IsListed active g
    → IsListed active (if b then respawn active g else g)
chosen-IsListed active true g h = respawn-IsListed active g h
chosen-IsListed active false g h = h

pub respawn_ghosts-IsHerd : (flag : ℕ) (s : GameState) → IsHerd s → IsHerd (respawn_ghosts flag s)
unfolding respawn_ghosts
respawn_ghosts-IsHerd flag s h =
    let (same_ghosts, same_active, same_pacman) =
      respawn_loop_lem flag s.num_active_ghosts s.ghosts s refl in
    record {
      listed =
          rw (same_ghosts, same_active)
            (mapped (λ g. if get_bit flag g.color then respawn s.num_active_ghosts g else g) s
              (λ g l. chosen-IsListed _ (get_bit flag g.color) g l) h);
    }

pub new_game_state-IsHerd : (active : ℕ) → IsHerd (new_game_state active)
unfolding new_game_state
new_game_state-IsHerd active = record {
  listed = (
    new_ghost-IsListed active 0 (omega arith),
    (
      new_ghost-IsListed active 1 (omega arith),
      (new_ghost-IsListed active 2 (omega arith), (new_ghost-IsListed active 3 (omega arith), tt)),
    ),
  );
}
