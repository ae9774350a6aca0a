-- ===== src/Collide/Game.antt =====
-- Every operation but a move of Pacman keeps his cell clear.
use pacbot.Prelude.{ℕ, refl, List, [], ◌∷◌, map, All, All-map, Bool, arith, if◌then◌else◌}
use pacbot.Bits.{get_bit}
use pacbot.Location.{LocationState, collides_with, copy_from}
use pacbot.State.{GhostState, GameState}
use pacbot.Modes.{pause, play, set_pause_on_update}
use pacbot.Counters.{
  next_tick, increment_score, increment_level, decrement_lives, set_fruit_steps, set_level_steps,
  reset_pellets,
}
use pacbot.Ghost.{reset, respawn, frighten, reverse_ghost, dec_trapped_steps}
use pacbot.Herd.{stare, respawn_ghosts, frighten_all_ghosts, reverse_all_ghosts, reset_all_ghosts}
use pacbot.Board.{put_pacman, restart_mode}
use pacbot.Collect.{collect_fruit, clear_pellet, spawn_fruit, anger}
use pacbot.Plan.{plan, plan_all_ghosts}
use pacbot.Steps.{switch_mode, level_event, count_down}
use pacbot.Engine.{pause_if_due, Draws}
use pacbot.Listed.{IsListed, IsHerd}
use pacbot.Listed.Game.{
  frighten_all_ghosts-IsHerd, reverse_all_ghosts-IsHerd, reset_all_ghosts-IsHerd, reset-IsListed,
  respawn_ghosts-IsHerd, plan_all_ghosts-IsHerd, respawn_loop_lem,
}
use pacbot.Collide.Safe.{IsClear, Misses, All-Misses}

unfoldable pub ClearAt : LocationState → List GhostState → Type 0
ClearAt p gs = All (Misses p) gs

pub record IsSafe (s : GameState) : Type 0 where
  pub listed : All (IsListed s.num_active_ghosts) s.ghosts
  pub clear : ClearAt s.pacman_loc s.ghosts

pub safe : {s : GameState} → IsHerd s → IsClear s → IsSafe s
unfolding ClearAt
safe h k = record { listed = h.listed; clear = k }

pub IsSafe-IsHerd : {s : GameState} → IsSafe s → IsHerd s
IsSafe-IsHerd h = record { listed = h.listed }

module _ {s : GameState} (h : IsSafe s) where
  pub pause-IsSafe : IsSafe (pause s)
  unfolding pause
  pause-IsSafe = ground arith

  pub play-IsSafe : IsSafe (play s)
  unfolding play
  play-IsSafe = ground arith

  pub next_tick-IsSafe : IsSafe (next_tick s)
  unfolding next_tick
  next_tick-IsSafe = ground arith

  pub increment_level-IsSafe : IsSafe (increment_level s)
  unfolding increment_level
  increment_level-IsSafe = ground arith

  pub decrement_lives-IsSafe : IsSafe (decrement_lives s)
  unfolding decrement_lives
  decrement_lives-IsSafe = ground arith

  pub collect_fruit-IsSafe : IsSafe (collect_fruit s)
  unfolding collect_fruit
  collect_fruit-IsSafe = ground arith

  pub spawn_fruit-IsSafe : IsSafe (spawn_fruit s)
  unfolding spawn_fruit
  spawn_fruit-IsSafe = ground arith

  pub anger-IsSafe : IsSafe (anger s)
  unfolding anger
  anger-IsSafe = ground arith

  pub switch_mode-IsSafe : IsSafe (switch_mode s)
  unfolding switch_mode
  switch_mode-IsSafe = ground arith

  pub count_down-IsSafe : IsSafe (count_down s)
  unfolding count_down
  count_down-IsSafe = ground arith

  pub restart_mode-IsSafe : IsSafe (restart_mode s)
  unfolding restart_mode
  restart_mode-IsSafe = ground arith

  pub reset_pellets-IsSafe : IsSafe (reset_pellets s)
  unfolding reset_pellets
  reset_pellets-IsSafe = ground arith

  pub pause_if_due-IsSafe : IsSafe (pause_if_due s)
  unfolding pause_if_due set_pause_on_update pause
  pause_if_due-IsSafe = ground arith

  pub level_event-IsSafe : (n : ℕ) → IsSafe (level_event n s)
  unfolding level_event
  level_event-IsSafe n = ground arith

  pub clear_pellet-IsSafe : (r c : ℕ) → IsSafe (clear_pellet r c s)
  unfolding clear_pellet
  clear_pellet-IsSafe r c = ground arith

  pub increment_score-IsSafe : (n : ℕ) → IsSafe (increment_score n s)
  unfolding increment_score
  increment_score-IsSafe n = ground arith

  pub set_fruit_steps-IsSafe : (n : ℕ) → IsSafe (set_fruit_steps n s)
  unfolding set_fruit_steps
  set_fruit_steps-IsSafe n = ground arith

  pub set_level_steps-IsSafe : (n : ℕ) → IsSafe (set_level_steps n s)
  unfolding set_level_steps
  set_level_steps-IsSafe n = ground arith

  pub set_pause_on_update-IsSafe : (b : Bool) → IsSafe (set_pause_on_update b s)
  unfolding set_pause_on_update
  set_pause_on_update-IsSafe b = ground arith

  pub put_pacman-IsSafe : IsSafe (put_pacman s)
  unfolding put_pacman copy_from ClearAt
  put_pacman-IsSafe = record { listed = h.listed; clear = All-Misses _ s.ghosts refl }

-- Operations on the ghosts: none brings one to Pacman's cell.
module _ (p : LocationState) (active : ℕ) (g : GhostState) (l : IsListed active g)
    (m : Misses p g) where
  frighten-Misses : (n : ℕ) → Misses p (frighten n g)
  unfolding frighten
  frighten-Misses n = ground arith

  reverse_ghost-Misses : Misses p (reverse_ghost g)
  unfolding reverse_ghost
  reverse_ghost-Misses = ground arith

  reset-Misses : Misses p (reset active g)
  unfolding reset collides_with
  reset-Misses = ground arith

  stare-Misses : Misses p (stare g)
  unfolding stare
  stare-Misses = ground arith

  plan-Misses : (s : GameState) (draw : ℕ → ℕ) → Misses p (plan s draw g)
  unfolding plan dec_trapped_steps
  plan-Misses s draw = ground arith

  respawn-Misses : (b : Bool) → Misses p (if b then respawn active g else g)
  unfolding respawn collides_with
  respawn-Misses b = ground arith

mapped :
    (p : LocationState) (active : ℕ) (f : GhostState → GhostState)
    → ((g : GhostState) → IsListed active g → Misses p g → Misses p (f g))
    → (gs : List GhostState) → All (IsListed active) gs
    → ClearAt p gs
    → ClearAt p (map f gs)
unfolding ClearAt
mapped p active f keep [] l m = tt
mapped p active f keep (g ∷ gs) l m = (keep g l.0 m.0, mapped p active f keep gs l.1 m.1)

pub frighten_all_ghosts-IsSafe : (s : GameState) → IsSafe s → IsSafe (frighten_all_ghosts s)
unfolding frighten_all_ghosts
frighten_all_ghosts-IsSafe s h = record {
  listed = (frighten_all_ghosts-IsHerd s (IsSafe-IsHerd h)).listed;
  clear =
      mapped s.pacman_loc s.num_active_ghosts (frighten 40)
        (λ g l m. frighten-Misses s.pacman_loc s.num_active_ghosts g l m 40) s.ghosts h.listed
        h.clear;
}

pub reverse_all_ghosts-IsSafe : (s : GameState) → IsSafe s → IsSafe (reverse_all_ghosts s)
unfolding reverse_all_ghosts
reverse_all_ghosts-IsSafe s h = record {
  listed = (reverse_all_ghosts-IsHerd s (IsSafe-IsHerd h)).listed;
  clear =
      mapped s.pacman_loc s.num_active_ghosts reverse_ghost
        (reverse_ghost-Misses s.pacman_loc s.num_active_ghosts) s.ghosts h.listed h.clear;
}

pub plan_all_ghosts-IsSafe :
    (draws : Draws) (s : GameState) → IsSafe s → IsSafe (plan_all_ghosts draws s)
unfolding plan_all_ghosts
plan_all_ghosts-IsSafe draws s h = record {
  listed = (plan_all_ghosts-IsHerd draws s (IsSafe-IsHerd h)).listed;
  clear =
      mapped s.pacman_loc s.num_active_ghosts (λ g. plan s (draws g.color) g)
        (λ g l m. plan-Misses s.pacman_loc s.num_active_ghosts g l m s (draws g.color)) s.ghosts
        h.listed h.clear;
}

pub respawn_ghosts-IsSafe : (flag : ℕ) (s : GameState) → IsSafe s → IsSafe (respawn_ghosts flag s)
unfolding respawn_ghosts
respawn_ghosts-IsSafe flag s h =
    let (same_ghosts, same_active, same_pacman) =
      respawn_loop_lem flag s.num_active_ghosts s.ghosts s refl in
    record {
      listed = (respawn_ghosts-IsHerd flag s (IsSafe-IsHerd h)).listed;
      clear =
          rw (same_ghosts, same_pacman)
            (mapped s.pacman_loc s.num_active_ghosts
              (λ g. if get_bit flag g.color then respawn s.num_active_ghosts g else g)
              (λ g l m.
                respawn-Misses s.pacman_loc s.num_active_ghosts g l m (get_bit flag g.color))
              s.ghosts h.listed h.clear);
    }

mapped-IsListed :
    (s : GameState)
    → All (IsListed s.num_active_ghosts) s.ghosts
    → All (IsListed s.num_active_ghosts) (map (reset s.num_active_ghosts) s.ghosts)
mapped-IsListed s h =
    All-map (IsListed s.num_active_ghosts) (IsListed s.num_active_ghosts)
      (reset s.num_active_ghosts) (reset-IsListed s.num_active_ghosts) s.ghosts h

pub reset_all_ghosts-IsSafe : (s : GameState) → IsSafe s → IsSafe (reset_all_ghosts s)
unfolding reset_all_ghosts
reset_all_ghosts-IsSafe s h = record {
  listed = (reset_all_ghosts-IsHerd s (IsSafe-IsHerd h)).listed;
  clear = ground (arith, once, twice);
}
  where
    once : ClearAt s.pacman_loc (map (reset s.num_active_ghosts) s.ghosts)
    once =
        mapped s.pacman_loc s.num_active_ghosts (reset s.num_active_ghosts)
          (reset-Misses s.pacman_loc s.num_active_ghosts) s.ghosts h.listed h.clear

    twice : ClearAt s.pacman_loc (map stare (map (reset s.num_active_ghosts) s.ghosts))
    twice =
        mapped s.pacman_loc s.num_active_ghosts stare
          (stare-Misses s.pacman_loc s.num_active_ghosts) _ (mapped-IsListed s h.listed) once
