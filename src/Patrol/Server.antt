-- ===== src/Patrol/Server.antt =====
-- The ghosts of a running server are on patrol.
use pacbot.Prelude.{ℕ, List, [], ◌∷◌, map, All, All-map, arith, Bool-cases, inl, inr, refl, ◌∙◌}
use pacbot.Bits.{get_bit}
use pacbot.State.{GhostState, GameState, new_game_state}
use pacbot.Ghost.{reset, update, frighten, reverse_ghost}
use pacbot.Herd.{
  frighten_all_ghosts, reverse_all_ghosts, reset_all_ghosts, score_combo, respawn_loop,
  respawn_ghosts, update_all_ghosts,
}
use pacbot.Plan.{plan, plan_all_ghosts}
use pacbot.Engine.{Draws, Engine, update_step, restart}
use pacbot.Engine.Reach.{Reach, Stable, Reach-keeps}
use pacbot.Closure.{
  Closed, collect_pellet-keeps, check_collisions-keeps, handle_step_events-keeps, between-keeps,
}
use pacbot.Patrol.One.{IsPlaced, IsPlanned, new_ghost-IsPlanned, update-IsPlaced}
use pacbot.Patrol.Plans.{plan-IsPlanned}
use pacbot.Patrol.Game.{
  IsPlaced-Keeps, IsPlanned-Keeps, pause-Patrolled, play-Patrolled, next_tick-Patrolled,
  increment_level-Patrolled, decrement_lives-Patrolled, collect_fruit-Patrolled,
  spawn_fruit-Patrolled, anger-Patrolled, switch_mode-Patrolled, count_down-Patrolled,
  put_pacman-Patrolled, restart_mode-Patrolled, reset_pellets-Patrolled,
  try_respawn_pacman-Patrolled, pause_if_due-Patrolled, level_event-Patrolled,
  clear_pellet-Patrolled, increment_score-Patrolled, set_fruit_steps-Patrolled,
  set_level_steps-Patrolled, set_pause_on_update-Patrolled, respawn_loop_frame, Patrolled, Keeps,
}

module _ {Q : GhostState → Type 0} (k : Keeps Q) where
  respawn_loop-All :
      (flag : ℕ) (gs : List GhostState) (s : GameState)
      → All Q gs
      → All Q (respawn_loop flag gs s).0
  unfolding respawn_loop
  respawn_loop-All flag [] s h = tt
  respawn_loop-All flag (g ∷ gs) s h = elim (Bool-cases (get_bit flag g.color)) [
    | inl eat ↦
        rw eat
          (k.by_respawn s.num_active_ghosts g h.0, respawn_loop-All flag gs (score_combo s) h.1)
    | inr skip ↦ rw skip (h.0, respawn_loop-All flag gs s h.1)
  ]

  respawn_ghosts-Patrolled :
      (flag : ℕ) (s : GameState) → Patrolled Q s → Patrolled Q (respawn_ghosts flag s)
  unfolding respawn_ghosts
  respawn_ghosts-Patrolled flag s h =
      let frame = respawn_loop_frame flag s.ghosts s in
      record {
        same_walls = frame.1 ∙ h.same_walls;
        all_ghosts = λ alive. respawn_loop-All flag s.ghosts s (h.all_ghosts (rw frame.0 at alive));
      }

  map-Patrolled :
      (f : GhostState → GhostState) (s : GameState)
      → ((g : GhostState) → Q g → Q (f g))
      → Patrolled Q s
      → Patrolled Q (record s { ghosts = map f s.ghosts })
  map-Patrolled f s keep h = record {
    same_walls = h.same_walls;
    all_ghosts = λ alive. All-map Q Q f keep s.ghosts (h.all_ghosts alive);
  }

  frighten_all-Patrolled : (s : GameState) → Patrolled Q s → Patrolled Q (frighten_all_ghosts s)
  unfolding frighten_all_ghosts
  frighten_all-Patrolled s h = record {
    same_walls = h.same_walls;
    all_ghosts = (map-Patrolled (frighten 40) s (k.by_fright 40) h).all_ghosts;
  }

  reverse_all-Patrolled : (s : GameState) → Patrolled Q s → Patrolled Q (reverse_all_ghosts s)
  unfolding reverse_all_ghosts
  reverse_all-Patrolled s h = map-Patrolled reverse_ghost s k.by_reverse h

  reset_all-Patrolled : (s : GameState) → Patrolled Q s → Patrolled Q (reset_all_ghosts s)
  unfolding reset_all_ghosts
  reset_all-Patrolled s h = record {
    same_walls = h.same_walls;
    all_ghosts = λ alive. ground (
      arith,
      (map-Patrolled (reset s.num_active_ghosts) s (k.by_reset s.num_active_ghosts) h).all_ghosts
          alive,
    );
  }

  Patrolled-Closed : Closed (Patrolled Q)
  Patrolled-Closed = record {
    flag_pause = λ b s h. set_pause_on_update-Patrolled h b;
    take_pacman = λ s h. put_pacman-Patrolled h;
    lose_life = λ s h. decrement_lives-Patrolled h;
    first_mode = λ s h. restart_mode-Patrolled h;
    no_fruit = λ s h. set_fruit_steps-Patrolled h;
    new_level_steps = λ s h. set_level_steps-Patrolled h;
    reset_ghosts = reset_all-Patrolled;
    new_pellets = λ s h. reset_pellets-Patrolled h;
    frightened = frighten_all-Patrolled;
    reversed_all = reverse_all-Patrolled;
    scored = λ n s h. increment_score-Patrolled h n;
    fruit_eaten = λ s h. collect_fruit-Patrolled h;
    pellet_eaten = λ r c s there h. clear_pellet-Patrolled h r c;
    fruit_spawned = λ s h. spawn_fruit-Patrolled h;
    angered = λ s h. anger-Patrolled h;
    next_level = λ s h. increment_level-Patrolled h;
    respawned = λ flag num s e h. respawn_ghosts-Patrolled flag s h;
    switched = λ s h. switch_mode-Patrolled h;
    penalised = λ n s h. level_event-Patrolled h n;
    counted = λ s h. count_down-Patrolled h;
    paused_late = λ s h. pause_if_due-Patrolled h;
  }

update_all-Patrolled :
    (s : GameState) → Patrolled IsPlanned s → Patrolled IsPlaced (update_all_ghosts s)
unfolding update_all_ghosts
update_all-Patrolled s h = record {
  same_walls = h.same_walls;
  all_ghosts = λ alive.
      All-map IsPlanned IsPlaced update (λ g p. update-IsPlaced p) s.ghosts (h.all_ghosts alive);
}

plan_all-Patrolled :
    (draws : Draws) (s : GameState)
    → Patrolled IsPlaced s
    → Patrolled IsPlanned (plan_all_ghosts draws s)
unfolding plan_all_ghosts
plan_all-Patrolled draws s h = record {
  same_walls = h.same_walls;
  all_ghosts = λ alive.
      All-map IsPlaced IsPlanned (λ g. plan s (draws g.color) g)
        (λ g p. plan-IsPlanned s (draws g.color) g h.same_walls p) s.ghosts (h.all_ghosts alive);
}

new_game-Patrolled : (active : ℕ) → Patrolled IsPlanned (new_game_state active)
new_game-Patrolled active = record {
  same_walls = unfold new_game_state in refl;
  all_ghosts =
      unfold new_game_state in
      λ alive. (
        new_ghost-IsPlanned active 0,
        (
          new_ghost-IsPlanned active 1,
          (new_ghost-IsPlanned active 2, (new_ghost-IsPlanned active 3, tt)),
        ),
      );
}

update_step-Patrolled :
    (draws : Draws) (s : GameState)
    → Patrolled IsPlanned s
    → Patrolled IsPlanned (update_step draws s)
unfolding update_step
update_step-Patrolled draws s h = plan_all-Patrolled draws _ (
    between-keeps (Patrolled-Closed IsPlaced-Keeps) (λ s h. try_respawn_pacman-Patrolled h) _
      (update_all-Patrolled s h))

restart-Patrolled : (draws : Draws) (active : ℕ) → Patrolled IsPlanned (restart draws active)
unfolding restart
restart-Patrolled draws active = plan_all-Patrolled draws _ (
    handle_step_events-keeps (Patrolled-Closed IsPlaced-Keeps) _
      (update_all-Patrolled _ (new_game-Patrolled active)))

pub Patrolled-Stable : Stable (Patrolled IsPlanned) (Patrolled IsPlanned)
Patrolled-Stable = record {
  aim = λ d s l h. record { same_walls = h.same_walls; all_ghosts = h.all_ghosts };
  place = λ r c s clear h. record { same_walls = h.same_walls; all_ghosts = h.all_ghosts };
  rests = λ s h. h;
  collect = collect_pellet-keeps (Patrolled-Closed IsPlanned-Keeps);
  collect_at_rest = collect_pellet-keeps (Patrolled-Closed IsPlanned-Keeps);
  collide = check_collisions-keeps (Patrolled-Closed IsPlanned-Keeps);
  paused = λ s h. pause-Patrolled h;
  played = λ s h. play-Patrolled h;
  killed = λ s h. decrement_lives-Patrolled h;
  ticked = λ s h. next_tick-Patrolled h;
  updated = update_step-Patrolled;
  restarted = restart-Patrolled;
  fresh = new_game-Patrolled;
}

-- In every state that the server reaches the walls are the initial ones and, while Pacman has a life
-- left, every ghost is planned: its location is off the board, or a cell and a direction that are
-- legal with the planned location one step ahead; and its planned location is off the board or
-- legal. Legal means that neither the cell nor the one ahead is a wall, but for the cells of the
-- ghost house and its exit while the ghost spawns.
pub Reach-Patrolled : {active : ℕ} {e : Engine} → Reach active e → Patrolled IsPlanned e.state
Reach-Patrolled = Reach-keeps Patrolled-Stable
