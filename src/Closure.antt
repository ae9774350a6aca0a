-- ===== src/Closure.antt =====
-- How a predicate of game states passes from the small operations to the composed ones: what each
-- invariant has to show, once, and what follows for collectPellet, checkCollisions,
-- handleStepEvents and the update of the engine's loop.
use pacbot.Prelude.{
  ℕ, ◌≡◌, Bool, true, false, some, arith, ltb, if◌then◌else◌, Bool-cases, Option-cases, inl, inr,
}
use pacbot.Maze.{anger_threshold1}
use pacbot.State.{GameState}
use pacbot.Modes.{set_pause_on_update}
use pacbot.Counters.{
  increment_score, increment_level, decrement_lives, set_fruit_steps, set_level_steps,
  reset_pellets,
}
use pacbot.Grid.{pellet_at}
use pacbot.Herd.{frighten_all_ghosts, reverse_all_ghosts, reset_all_ghosts, respawn_ghosts}
use pacbot.Board.{put_pacman, restart_mode, death_reset, level_reset, try_respawn_pacman}
use pacbot.Collect.{
  collect_fruit, clear_pellet, score_pellet, spawn_fruit, anger, pellet_events, collect_pellet,
  is_super_pellet,
}
use pacbot.Collide.{scan, check_collisions}
use pacbot.Steps.{mode_event, switch_mode, level_event, count_down, handle_step_events}
use pacbot.Engine.{pause_if_due}

pub record Closed (P : GameState → Type 0) : Type 0 where
  pub flag_pause : (b : Bool) (s : GameState) → P s → P (set_pause_on_update b s)
  pub take_pacman : (s : GameState) → P s → P (put_pacman s)
  pub lose_life : (s : GameState) → P s → P (decrement_lives s)
  pub first_mode : (s : GameState) → P s → P (restart_mode s)
  pub no_fruit : (s : GameState) → P s → P (set_fruit_steps 0 s)
  pub new_level_steps : (s : GameState) → P s → P (set_level_steps 960 s)
  pub reset_ghosts : (s : GameState) → P s → P (reset_all_ghosts s)
  pub new_pellets : (s : GameState) → P s → P (reset_pellets s)
  pub frightened : (s : GameState) → P s → P (frighten_all_ghosts s)
  pub reversed_all : (s : GameState) → P s → P (reverse_all_ghosts s)
  pub scored : (n : ℕ) (s : GameState) → P s → P (increment_score n s)
  pub fruit_eaten : (s : GameState) → P s → P (collect_fruit s)
  pub pellet_eaten :
      (r c : ℕ) (s : GameState) → pellet_at s r c ≡ true → P s → P (clear_pellet r c s)
  pub fruit_spawned : (s : GameState) → P s → P (spawn_fruit s)
  pub angered : (s : GameState) → P s → P (anger s)
  pub next_level : (s : GameState) → P s → P (increment_level s)
  pub respawned :
      (flag num : ℕ) (s : GameState)
      → scan s.pacman_loc 0 0 s.ghosts ≡ some (flag, num)
      → P s
      → P (respawn_ghosts flag s)
  pub switched : (s : GameState) → P s → P (switch_mode s)
  pub penalised : (n : ℕ) (s : GameState) → P s → P (level_event n s)
  pub counted : (s : GameState) → P s → P (count_down s)
  pub paused_late : (s : GameState) → P s → P (pause_if_due s)

module _ {P : GameState → Type 0} (cl : Closed P) where
  pub death_reset-keeps : (s : GameState) → P s → P (death_reset s)
  unfolding death_reset
  death_reset-keeps s p = cl.reset_ghosts _ (cl.no_fruit _ second)
    where
      dead : GameState
      dead = decrement_lives (put_pacman (set_pause_on_update true s))

      put : P dead
      put = cl.lose_life _ (cl.take_pacman _ (cl.flag_pause true s p))

      second : P (if ltb anger_threshold1 dead.num_pellets then restart_mode dead else dead)
      second = elim (Bool-cases (ltb anger_threshold1 dead.num_pellets)) [
        | inl many ↦ rw many (cl.first_mode _ put)
        | inr few ↦ rw few put
      ]

  level_reset-keeps : (s : GameState) → P s → P (level_reset s)
  unfolding level_reset
  level_reset-keeps s p = cl.new_pellets _ (
      cl.reset_ghosts _ (
        cl.no_fruit _
          (cl.new_level_steps _ (cl.first_mode _ (cl.take_pacman _ (cl.flag_pause true s p))))))

  score_pellet-keeps : (b : Bool) (s : GameState) → P s → P (score_pellet b s)
  unfolding score_pellet
  score_pellet-keeps true s p = cl.scored 50 _ (cl.frightened s p)
  score_pellet-keeps false s p = cl.scored 10 s p

  pellet_events-keeps : (s : GameState) → P s → P (pellet_events s)
  unfolding pellet_events
  pellet_events-keeps s p =
      ground (arith, cl.angered s p, cl.next_level (level_reset s) (level_reset-keeps s p))

  pub collect_pellet-keeps : (r c : ℕ) (s : GameState) → P s → P (collect_pellet r c s)
  unfolding collect_pellet
  collect_pellet-keeps r c s p = elim (Bool-cases (pellet_at (collect_fruit s) r c)) [
    | inl there ↦ rw there (
        pellet_events-keeps _ (
          cl.fruit_spawned _
            (score_pellet-keeps (is_super_pellet r c) _ (cl.pellet_eaten r c _ there fed))))
    | inr bare ↦ rw bare fed
  ]
    where
      fed : P (collect_fruit s)
      fed = cl.fruit_eaten s p

  pub check_collisions-keeps : (s : GameState) → P s → P (check_collisions s)
  unfolding check_collisions
  check_collisions-keeps s p = elim (Option-cases (scan s.pacman_loc 0 0 s.ghosts)) [
    | inl dead ↦ rw (dead, check_collisions) (death_reset-keeps s p)
    | inr ((flag, num), e) ↦ rw (e, check_collisions) (ground (arith, cl.respawned flag num s e p))
  ]

  mode_event-keeps : (s : GameState) → P s → P (mode_event s)
  unfolding mode_event
  mode_event-keeps s p = ground (arith, cl.reversed_all (switch_mode s) (cl.switched s p))

  pub handle_step_events-keeps : (s : GameState) → P s → P (handle_step_events s)
  unfolding handle_step_events
  handle_step_events-keeps s p = cl.counted _ (cl.penalised s.level_steps _ (mode_event-keeps s p))

  -- The update of the loop, between the moves of the ghosts and their plans.
  pub between-keeps :
      ((s : GameState) → P s → P (try_respawn_pacman s))
      → (s : GameState) → P s
      → P (handle_step_events (check_collisions (pause_if_due (try_respawn_pacman s))))
  between-keeps back s p =
      handle_step_events-keeps _ (check_collisions-keeps _ (cl.paused_late _ (back s p)))
