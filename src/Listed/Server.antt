-- ===== src/Listed/Server.antt =====
-- The herd of a running server, and what stands on Pacman's cell.
use pacbot.Prelude.{ℕ}
use pacbot.State.{GameState}
use pacbot.Engine.{Draws, Engine, update_step, restart}
use pacbot.Engine.Reach.{Reach, Stable, Reach-keeps}
use pacbot.Closure.{
  Closed, collect_pellet-keeps, check_collisions-keeps, handle_step_events-keeps, between-keeps,
}
use pacbot.Listed.{IsHerd}
use pacbot.Listed.Game.{
  pause-IsHerd, play-IsHerd, next_tick-IsHerd, increment_level-IsHerd, decrement_lives-IsHerd,
  collect_fruit-IsHerd, spawn_fruit-IsHerd, anger-IsHerd, switch_mode-IsHerd, count_down-IsHerd,
  put_pacman-IsHerd, restart_mode-IsHerd, reset_pellets-IsHerd, try_respawn_pacman-IsHerd,
  pause_if_due-IsHerd, level_event-IsHerd, clear_pellet-IsHerd, increment_score-IsHerd,
  set_fruit_steps-IsHerd, set_level_steps-IsHerd, set_pause_on_update-IsHerd,
  frighten_all_ghosts-IsHerd, reverse_all_ghosts-IsHerd, reset_all_ghosts-IsHerd,
  respawn_ghosts-IsHerd, update_all_ghosts-IsHerd, plan_all_ghosts-IsHerd, new_game_state-IsHerd,
}

pub IsHerd-Closed : Closed IsHerd
IsHerd-Closed = record {
  flag_pause = λ b s h. set_pause_on_update-IsHerd h b;
  take_pacman = λ s h. put_pacman-IsHerd h;
  lose_life = λ s h. decrement_lives-IsHerd h;
  first_mode = λ s h. restart_mode-IsHerd h;
  no_fruit = λ s h. set_fruit_steps-IsHerd h 0;
  new_level_steps = λ s h. set_level_steps-IsHerd h 960;
  reset_ghosts = reset_all_ghosts-IsHerd;
  new_pellets = λ s h. reset_pellets-IsHerd h;
  frightened = frighten_all_ghosts-IsHerd;
  reversed_all = reverse_all_ghosts-IsHerd;
  scored = λ n s h. increment_score-IsHerd h n;
  fruit_eaten = λ s h. collect_fruit-IsHerd h;
  pellet_eaten = λ r c s there h. clear_pellet-IsHerd h r c;
  fruit_spawned = λ s h. spawn_fruit-IsHerd h;
  angered = λ s h. anger-IsHerd h;
  next_level = λ s h. increment_level-IsHerd h;
  respawned = λ flag num s e h. respawn_ghosts-IsHerd flag s h;
  switched = λ s h. switch_mode-IsHerd h;
  penalised = λ n s h. level_event-IsHerd h n;
  counted = λ s h. count_down-IsHerd h;
  paused_late = λ s h. pause_if_due-IsHerd h;
}

update_step-IsHerd : (draws : Draws) (s : GameState) → IsHerd s → IsHerd (update_step draws s)
unfolding update_step
update_step-IsHerd draws s h = plan_all_ghosts-IsHerd draws _ (
    between-keeps IsHerd-Closed (λ s h. try_respawn_pacman-IsHerd h) _
      (update_all_ghosts-IsHerd s h))

restart-IsHerd : (draws : Draws) (active : ℕ) → IsHerd (restart draws active)
unfolding restart
restart-IsHerd draws active = plan_all_ghosts-IsHerd draws _ (
    handle_step_events-keeps IsHerd-Closed _
      (update_all_ghosts-IsHerd _ (new_game_state-IsHerd active)))

pub IsHerd-Stable : Stable IsHerd IsHerd
IsHerd-Stable = record {
  aim = λ d s l h. record { listed = h.listed };
  place = λ r c s clear h. record { listed = h.listed };
  rests = λ s h. h;
  collect = collect_pellet-keeps IsHerd-Closed;
  collect_at_rest = collect_pellet-keeps IsHerd-Closed;
  collide = check_collisions-keeps IsHerd-Closed;
  paused = λ s h. pause-IsHerd h;
  played = λ s h. play-IsHerd h;
  killed = λ s h. decrement_lives-IsHerd h;
  ticked = λ s h. next_tick-IsHerd h;
  updated = update_step-IsHerd;
  restarted = restart-IsHerd;
  fresh = new_game_state-IsHerd;
}

pub Reach-IsHerd : {active : ℕ} {e : Engine} → Reach active e → IsHerd e.state
Reach-IsHerd = Reach-keeps IsHerd-Stable
