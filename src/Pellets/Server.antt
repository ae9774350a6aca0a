-- ===== src/Pellets/Server.antt =====
-- The pellet count of a running server.
use pacbot.Prelude.{ℕ, refl, List, [], ◌∷◌, arith, Bool-cases, inl, inr}
use pacbot.Bits.{get_bit}
use pacbot.Maze.{init_pellets}
use pacbot.State.{GameState, GhostState, new_game_state}
use pacbot.Herd.{score_combo, respawn_loop, respawn_ghosts}
use pacbot.Engine.{Draws, Engine, update_step, restart}
use pacbot.Engine.Reach.{Reach, Stable, Reach-keeps}
use pacbot.Closure.{
  Closed, collect_pellet-keeps, check_collisions-keeps, handle_step_events-keeps, between-keeps,
}
use pacbot.Pellets.{pop, total, Counted}
use pacbot.Pellets.Game.{
  pause-Counted, play-Counted, next_tick-Counted, increment_level-Counted, decrement_lives-Counted,
  collect_fruit-Counted, spawn_fruit-Counted, anger-Counted, switch_mode-Counted,
  count_down-Counted, put_pacman-Counted, restart_mode-Counted, try_respawn_pacman-Counted,
  frighten_all_ghosts-Counted, reverse_all_ghosts-Counted, reset_all_ghosts-Counted,
  score_combo-Counted, update_all_ghosts-Counted, pause_if_due-Counted, level_event-Counted,
  increment_score-Counted, set_fruit_steps-Counted, set_level_steps-Counted,
  set_pause_on_update-Counted, plan_all_ghosts-Counted, clear_pellet-Counted, reset_pellets-Counted,
}

respawn_loop-Counted :
    (flag : ℕ) (gs : List GhostState) (s : GameState)
    → Counted s
    → Counted (respawn_loop flag gs s).1
unfolding respawn_loop
respawn_loop-Counted flag [] s h = h
respawn_loop-Counted flag (g ∷ gs) s h = elim (Bool-cases (get_bit flag g.color)) [
  | inl eat ↦ rw eat (respawn_loop-Counted flag gs (score_combo s) (score_combo-Counted h))
  | inr skip ↦ rw skip (respawn_loop-Counted flag gs s h)
]

respawn_ghosts-Counted : (flag : ℕ) (s : GameState) → Counted s → Counted (respawn_ghosts flag s)
unfolding respawn_ghosts
respawn_ghosts-Counted flag s h =
    let k = respawn_loop-Counted flag s.ghosts s h in
    record { rows = k.rows; words = k.words; count = k.count }

Counted-Closed : Closed Counted
Counted-Closed = record {
  flag_pause = λ b s h. set_pause_on_update-Counted h b;
  take_pacman = λ s h. put_pacman-Counted h;
  lose_life = λ s h. decrement_lives-Counted h;
  first_mode = λ s h. restart_mode-Counted h;
  no_fruit = λ s h. set_fruit_steps-Counted h 0;
  new_level_steps = λ s h. set_level_steps-Counted h 960;
  reset_ghosts = λ s h. reset_all_ghosts-Counted h;
  new_pellets = λ s h. reset_pellets-Counted h;
  frightened = λ s h. frighten_all_ghosts-Counted h;
  reversed_all = λ s h. reverse_all_ghosts-Counted h;
  scored = λ n s h. increment_score-Counted h n;
  fruit_eaten = λ s h. collect_fruit-Counted h;
  pellet_eaten = λ r c s there h. clear_pellet-Counted h r c there;
  fruit_spawned = λ s h. spawn_fruit-Counted h;
  angered = λ s h. anger-Counted h;
  next_level = λ s h. increment_level-Counted h;
  respawned = λ flag num s e h. respawn_ghosts-Counted flag s h;
  switched = λ s h. switch_mode-Counted h;
  penalised = λ n s h. level_event-Counted h n;
  counted = λ s h. count_down-Counted h;
  paused_late = λ s h. pause_if_due-Counted h;
}

update_step-Counted : (draws : Draws) (s : GameState) → Counted s → Counted (update_step draws s)
unfolding update_step
update_step-Counted draws s h =
    plan_all_ghosts-Counted
      (between-keeps Counted-Closed (λ s h. try_respawn_pacman-Counted h) _
        (update_all_ghosts-Counted h))
      draws

new_game_state-Counted : (active : ℕ) → Counted (new_game_state active)
unfolding new_game_state total pop init_pellets
new_game_state-Counted active = record { rows = refl; words = omega arith; count = refl }

restart-Counted : (draws : Draws) (active : ℕ) → Counted (restart draws active)
unfolding restart
restart-Counted draws active =
    plan_all_ghosts-Counted
      (handle_step_events-keeps Counted-Closed _
        (update_all_ghosts-Counted (new_game_state-Counted active)))
      draws

pub Counted-Stable : Stable Counted Counted
Counted-Stable = record {
  aim = λ d s l h. record { rows = h.rows; words = h.words; count = h.count };
  place = λ r c s clear h. record { rows = h.rows; words = h.words; count = h.count };
  rests = λ s h. h;
  collect = collect_pellet-keeps Counted-Closed;
  collect_at_rest = collect_pellet-keeps Counted-Closed;
  collide = check_collisions-keeps Counted-Closed;
  paused = λ s h. pause-Counted h;
  played = λ s h. play-Counted h;
  killed = λ s h. decrement_lives-Counted h;
  ticked = λ s h. next_tick-Counted h;
  updated = update_step-Counted;
  restarted = restart-Counted;
  fresh = new_game_state-Counted;
}

-- In every state that the server reaches, the pellet count equals the number of bits set in the
-- rows of the pellet map, each a 32-bit word.
pub Reach-Counted : {active : ℕ} {e : Engine} → Reach active e → Counted e.state
Reach-Counted = Reach-keeps Counted-Stable
