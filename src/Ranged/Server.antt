-- ===== src/Ranged/Server.antt =====
-- The ranges of the ghosts of a running server.
use pacbot.Prelude.{ℕ}
use pacbot.State.{GameState}
use pacbot.Engine.{Draws, Engine, update_step, restart}
use pacbot.Engine.Reach.{Reach, Stable, Reach-keeps}
use pacbot.Closure.{
  Closed, collect_pellet-keeps, check_collisions-keeps, handle_step_events-keeps, between-keeps,
}
use pacbot.Ranged.{IsRanged}
use pacbot.Ranged.Game.{
  pause-IsRanged, play-IsRanged, next_tick-IsRanged, increment_level-IsRanged,
  decrement_lives-IsRanged, collect_fruit-IsRanged, spawn_fruit-IsRanged, anger-IsRanged,
  switch_mode-IsRanged, count_down-IsRanged, put_pacman-IsRanged, restart_mode-IsRanged,
  reset_pellets-IsRanged, try_respawn_pacman-IsRanged, pause_if_due-IsRanged, level_event-IsRanged,
  clear_pellet-IsRanged, increment_score-IsRanged, set_fruit_steps-IsRanged,
  set_level_steps-IsRanged, set_pause_on_update-IsRanged,
}
use pacbot.Ranged.Herd.{
  frighten_all_ghosts-IsRanged, reverse_all_ghosts-IsRanged, reset_all_ghosts-IsRanged,
  respawn_ghosts-IsRanged, update_all_ghosts-IsRanged, plan_all_ghosts-IsRanged,
  new_game_state-IsRanged,
}

IsRanged-Closed : Closed IsRanged
IsRanged-Closed = record {
  flag_pause = λ b s h. set_pause_on_update-IsRanged h b;
  take_pacman = λ s h. put_pacman-IsRanged h;
  lose_life = λ s h. decrement_lives-IsRanged h;
  first_mode = λ s h. restart_mode-IsRanged h;
  no_fruit = λ s h. set_fruit_steps-IsRanged h 0;
  new_level_steps = λ s h. set_level_steps-IsRanged h 960;
  reset_ghosts = reset_all_ghosts-IsRanged;
  new_pellets = λ s h. reset_pellets-IsRanged h;
  frightened = frighten_all_ghosts-IsRanged;
  reversed_all = reverse_all_ghosts-IsRanged;
  scored = λ n s h. increment_score-IsRanged h n;
  fruit_eaten = λ s h. collect_fruit-IsRanged h;
  pellet_eaten = λ r c s there h. clear_pellet-IsRanged h r c;
  fruit_spawned = λ s h. spawn_fruit-IsRanged h;
  angered = λ s h. anger-IsRanged h;
  next_level = λ s h. increment_level-IsRanged h;
  respawned = λ flag num s e h. respawn_ghosts-IsRanged flag s h;
  switched = λ s h. switch_mode-IsRanged h;
  penalised = λ n s h. level_event-IsRanged h n;
  counted = λ s h. count_down-IsRanged h;
  paused_late = λ s h. pause_if_due-IsRanged h;
}

update_step-IsRanged : (draws : Draws) (s : GameState) → IsRanged s → IsRanged (update_step draws s)
unfolding update_step
update_step-IsRanged draws s h = plan_all_ghosts-IsRanged draws _ (
    between-keeps IsRanged-Closed (λ s h. try_respawn_pacman-IsRanged h) _
      (update_all_ghosts-IsRanged s h))

restart-IsRanged : (draws : Draws) (active : ℕ) → IsRanged (restart draws active)
unfolding restart
restart-IsRanged draws active = plan_all_ghosts-IsRanged draws _ (
    handle_step_events-keeps IsRanged-Closed _
      (update_all_ghosts-IsRanged _ (new_game_state-IsRanged active)))

pub IsRanged-Stable : Stable IsRanged IsRanged
IsRanged-Stable = record {
  aim = λ d s l h. record { combo = h.combo; fruit = h.fruit; timed = h.timed };
  place = λ r c s clear h. record { combo = h.combo; fruit = h.fruit; timed = h.timed };
  rests = λ s h. h;
  collect = collect_pellet-keeps IsRanged-Closed;
  collect_at_rest = collect_pellet-keeps IsRanged-Closed;
  collide = check_collisions-keeps IsRanged-Closed;
  paused = λ s h. pause-IsRanged h;
  played = λ s h. play-IsRanged h;
  killed = λ s h. decrement_lives-IsRanged h;
  ticked = λ s h. next_tick-IsRanged h;
  updated = update_step-IsRanged;
  restarted = restart-IsRanged;
  fresh = new_game_state-IsRanged;
}

pub Reach-IsRanged : {active : ℕ} {e : Engine} → Reach active e → IsRanged e.state
Reach-IsRanged = Reach-keeps IsRanged-Stable
