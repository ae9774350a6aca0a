-- ===== src/Collide/Server.antt =====
-- No ghost that is not eaten stands on Pacman's cell, in a running server.
use pacbot.Prelude.{ℕ, zero, suc, ◌<◌, refl, arith}
use pacbot.Location.{collides_with}
use pacbot.State.{GameState, new_game_state, new_ghost_state}
use pacbot.Herd.{update_all_ghosts}
use pacbot.Ghost.{update}
use pacbot.Collide.{check_collisions}
use pacbot.Engine.{Draws, Engine, update_step, restart}
use pacbot.Engine.Reach.{Reach, Stable, Reach-keeps}
use pacbot.Closure.{Closed, collect_pellet-keeps, check_collisions-keeps, handle_step_events-keeps}
use pacbot.Listed.{IsHerd}
use pacbot.Listed.Game.{
  update_all_ghosts-IsHerd, try_respawn_pacman-IsHerd, pause_if_due-IsHerd, new_game_state-IsHerd,
}
use pacbot.Listed.Server.{IsHerd-Closed, IsHerd-Stable}
use pacbot.Collide.Safe.{Misses, check_collisions-IsClear}
use pacbot.Collide.Game.{
  IsSafe, ClearAt, safe, IsSafe-IsHerd, pause-IsSafe, play-IsSafe, next_tick-IsSafe,
  increment_level-IsSafe, decrement_lives-IsSafe, collect_fruit-IsSafe, spawn_fruit-IsSafe,
  anger-IsSafe, switch_mode-IsSafe, count_down-IsSafe, put_pacman-IsSafe, restart_mode-IsSafe,
  reset_pellets-IsSafe, pause_if_due-IsSafe, level_event-IsSafe, clear_pellet-IsSafe,
  increment_score-IsSafe, set_fruit_steps-IsSafe, set_level_steps-IsSafe,
  set_pause_on_update-IsSafe, frighten_all_ghosts-IsSafe, reverse_all_ghosts-IsSafe,
  reset_all_ghosts-IsSafe, respawn_ghosts-IsSafe, plan_all_ghosts-IsSafe,
}

IsSafe-Closed : Closed IsSafe
IsSafe-Closed = record {
  flag_pause = λ b s h. set_pause_on_update-IsSafe h b;
  take_pacman = λ s h. put_pacman-IsSafe h;
  lose_life = λ s h. decrement_lives-IsSafe h;
  first_mode = λ s h. restart_mode-IsSafe h;
  no_fruit = λ s h. set_fruit_steps-IsSafe h 0;
  new_level_steps = λ s h. set_level_steps-IsSafe h 960;
  reset_ghosts = reset_all_ghosts-IsSafe;
  new_pellets = λ s h. reset_pellets-IsSafe h;
  frightened = frighten_all_ghosts-IsSafe;
  reversed_all = reverse_all_ghosts-IsSafe;
  scored = λ n s h. increment_score-IsSafe h n;
  fruit_eaten = λ s h. collect_fruit-IsSafe h;
  pellet_eaten = λ r c s there h. clear_pellet-IsSafe h r c;
  fruit_spawned = λ s h. spawn_fruit-IsSafe h;
  angered = λ s h. anger-IsSafe h;
  next_level = λ s h. increment_level-IsSafe h;
  respawned = λ flag num s e h. respawn_ghosts-IsSafe flag s h;
  switched = λ s h. switch_mode-IsSafe h;
  penalised = λ n s h. level_event-IsSafe h n;
  counted = λ s h. count_down-IsSafe h;
  paused_late = λ s h. pause_if_due-IsSafe h;
}

-- A check for collisions makes the cell clear, whatever it was before.
check_collisions-IsSafe : (s : GameState) → IsHerd s → IsSafe (check_collisions s)
check_collisions-IsSafe s h =
    safe (check_collisions-keeps IsHerd-Closed s h) (check_collisions-IsClear s h)

update_step-IsSafe : (draws : Draws) (s : GameState) → IsSafe s → IsSafe (update_step draws s)
unfolding update_step
update_step-IsSafe draws s h = plan_all_ghosts-IsSafe draws _ (
    handle_step_events-keeps IsSafe-Closed _ (
      check_collisions-IsSafe _ (
        pause_if_due-IsHerd
          (try_respawn_pacman-IsHerd (update_all_ghosts-IsHerd s (IsSafe-IsHerd h))))))

new_game_state-IsSafe : (active : ℕ) → IsSafe (new_game_state active)
unfolding new_game_state new_ghost_state ClearAt collides_with
new_game_state-IsSafe active = record {
  listed = (new_game_state-IsHerd active).listed;
  clear = (refl, (refl, (refl, (refl, tt))));
}

updated_ghost-Misses :
    (active c : ℕ)
    → c < 4
    → Misses (new_game_state active).pacman_loc (update (new_ghost_state active c))
unfolding new_game_state new_ghost_state update collides_with
updated_ghost-Misses active zero h = ground arith
updated_ghost-Misses active (suc zero) h = ground arith
updated_ghost-Misses active (suc (suc zero)) h = ground arith
updated_ghost-Misses active (suc (suc (suc zero))) h = ground arith
updated_ghost-Misses active (suc (suc (suc (suc c)))) h = absurd (omega arith)

-- Ghosts that have just left for their spawn points are not on Pacman's.
updated-IsSafe : (active : ℕ) → IsSafe (update_all_ghosts (new_game_state active))
unfolding update_all_ghosts new_game_state ClearAt
updated-IsSafe active = record {
  listed = (update_all_ghosts-IsHerd _ (new_game_state-IsHerd active)).listed;
  clear = (
    updated_ghost-Misses active 0 (omega arith),
    (
      updated_ghost-Misses active 1 (omega arith),
      (
        updated_ghost-Misses active 2 (omega arith),
        (updated_ghost-Misses active 3 (omega arith), tt),
      ),
    ),
  );
}

restart-IsSafe : (draws : Draws) (active : ℕ) → IsSafe (restart draws active)
unfolding restart
restart-IsSafe draws active =
    plan_all_ghosts-IsSafe draws _
      (handle_step_events-keeps IsSafe-Closed _ (updated-IsSafe active))

IsSafe-Stable : Stable IsSafe IsHerd
IsSafe-Stable = record {
  rests = λ s h. IsSafe-IsHerd h;
  aim = IsHerd-Stable.aim;
  place = IsHerd-Stable.place;
  collect = IsHerd-Stable.collect;
  collect_at_rest = collect_pellet-keeps IsSafe-Closed;
  collide = check_collisions-IsSafe;
  paused = λ s h. pause-IsSafe h;
  played = λ s h. play-IsSafe h;
  killed = λ s h. decrement_lives-IsSafe h;
  ticked = λ s h. next_tick-IsSafe h;
  updated = update_step-IsSafe;
  restarted = restart-IsSafe;
  fresh = new_game_state-IsSafe;
}

-- In every state that the server reaches, whatever the commands and the random numbers, no ghost
-- stands on Pacman's cell unless it is eaten, every ghost has one of the four colors, and those that
-- are not active stay off the board.
pub Reach-IsSafe : {active : ℕ} {e : Engine} → Reach active e → IsSafe e.state
Reach-IsSafe = Reach-keeps IsSafe-Stable
