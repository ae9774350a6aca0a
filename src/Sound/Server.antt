-- ===== src/Sound/Server.antt =====
-- The ranges of `Sound` hold whenever the server runs.
use pacbot.Prelude.{ℕ, List, [], ◌∷◌, ◌≤◌, ◌≡◌, refl, inl, inr, false, arith, Bool-cases}
use pacbot.Location.{update_dir, update_coords}
use pacbot.State.{GameState, GhostState, new_game_state}
use pacbot.Maze.{init_walls}
use pacbot.Bits.{get_bit}
use pacbot.Grid.{wall_at}
use pacbot.Herd.{respawn_loop, respawn_ghosts}
use pacbot.Engine.{Draws, Engine, update_step, restart}
use pacbot.Engine.Reach.{Reach, Stable, Reach-keeps}
use pacbot.Closure.{
  Closed, collect_pellet-keeps, check_collisions-keeps, handle_step_events-keeps, between-keeps,
}
use pacbot.Sound.{IsSound}
use pacbot.Ranged.{IsRanged}
use pacbot.Ranged.Server.{Reach-IsRanged}
use pacbot.Sound.Parts.{
  spawn_clear, pause-IsSound, play-IsSound, next_tick-IsSound, increment_level-IsSound,
  decrement_lives-IsSound, frighten_all_ghosts-IsSound, reverse_all_ghosts-IsSound,
  reset_all_ghosts-IsSound, score_combo-IsSound, update_all_ghosts-IsSound, collect_fruit-IsSound,
  spawn_fruit-IsSound, anger-IsSound, switch_mode-IsSound, count_down-IsSound, pause_if_due-IsSound,
  put_pacman-IsSound, restart_mode-IsSound, reset_pellets-IsSound, clear_pellet-IsSound,
  level_event-IsSound, increment_score-IsSound, set_fruit_steps-IsSound, set_level_steps-IsSound,
  set_pause_on_update-IsSound, plan_all_ghosts-IsSound, try_respawn_pacman-IsSound,
}

respawn_loop-IsSound :
    (flag : ℕ) (gs : List GhostState) {s : GameState}
    → IsSound s
    → IsSound (respawn_loop flag gs s).1
unfolding respawn_loop
respawn_loop-IsSound flag [] h = h
respawn_loop-IsSound flag (g ∷ gs) {s} h = elim (Bool-cases (get_bit flag g.color)) [
  | inl eat ↦ rw eat (respawn_loop-IsSound flag gs (score_combo-IsSound h))
  | inr skip ↦ rw skip (respawn_loop-IsSound flag gs h)
]

put_ghosts-IsSound :
    {s : GameState} (gs : List GhostState) → IsSound s → IsSound (record s { ghosts = gs })
put_ghosts-IsSound gs h = ground arith

respawn_ghosts-IsSound : (flag : ℕ) {s : GameState} → IsSound s → IsSound (respawn_ghosts flag s)
unfolding respawn_ghosts
respawn_ghosts-IsSound flag {s} h =
    put_ghosts-IsSound (respawn_loop flag s.ghosts s).0 (respawn_loop-IsSound flag s.ghosts h)

IsSound-Closed : Closed IsSound
IsSound-Closed = record {
  flag_pause = λ b s h. set_pause_on_update-IsSound h b;
  take_pacman = λ s h. put_pacman-IsSound h;
  lose_life = λ s h. decrement_lives-IsSound h;
  first_mode = λ s h. restart_mode-IsSound h;
  no_fruit = λ s h. set_fruit_steps-IsSound h;
  new_level_steps = λ s h. set_level_steps-IsSound h;
  reset_ghosts = λ s h. reset_all_ghosts-IsSound h;
  new_pellets = λ s h. reset_pellets-IsSound h;
  frightened = λ s h. frighten_all_ghosts-IsSound h;
  reversed_all = λ s h. reverse_all_ghosts-IsSound h;
  scored = λ n s h. increment_score-IsSound h n;
  fruit_eaten = λ s h. collect_fruit-IsSound h;
  pellet_eaten = λ r c s there h. clear_pellet-IsSound h r c;
  fruit_spawned = λ s h. spawn_fruit-IsSound h;
  angered = λ s h. anger-IsSound h;
  next_level = λ s h. increment_level-IsSound h;
  respawned = λ flag num s e h. respawn_ghosts-IsSound flag h;
  switched = λ s h. switch_mode-IsSound h;
  penalised = λ n s h. level_event-IsSound h n;
  counted = λ s h. count_down-IsSound h;
  paused_late = λ s h. pause_if_due-IsSound h;
}

update_step-IsSound : (draws : Draws) (s : GameState) → IsSound s → IsSound (update_step draws s)
unfolding update_step
update_step-IsSound draws s h =
    plan_all_ghosts-IsSound
      (between-keeps IsSound-Closed (λ s h. try_respawn_pacman-IsSound h) _
        (update_all_ghosts-IsSound h))
      draws

new_game_state-IsSound : (active : ℕ) → IsSound (new_game_state active)
unfolding new_game_state
new_game_state-IsSound active = ground (arith, spawn_clear init_walls refl)

restart-IsSound : (draws : Draws) (active : ℕ) → IsSound (restart draws active)
unfolding restart
restart-IsSound draws active =
    plan_all_ghosts-IsSound
      (handle_step_events-keeps IsSound-Closed _
        (update_all_ghosts-IsSound (new_game_state-IsSound active)))
      draws

aim-IsSound :
    (d : ℕ) (s : GameState)
    → d ≤ 3
    → IsSound s
    → IsSound (record s { pacman_loc = update_dir s.pacman_loc d })
unfolding update_dir
aim-IsSound d s l h = ground arith

place-IsSound :
    (r c : ℕ) (s : GameState)
    → wall_at s r c ≡ false
    → IsSound s
    → IsSound (record s { pacman_loc = update_coords s.pacman_loc (r, c) })
unfolding update_coords
place-IsSound r c s clear h = ground arith

pub IsSound-Stable : Stable IsSound IsSound
IsSound-Stable = record {
  aim = aim-IsSound;
  place = place-IsSound;
  rests = λ s h. h;
  collect = collect_pellet-keeps IsSound-Closed;
  collect_at_rest = collect_pellet-keeps IsSound-Closed;
  collide = check_collisions-keeps IsSound-Closed;
  paused = λ s h. pause-IsSound h;
  played = λ s h. play-IsSound h;
  killed = λ s h. decrement_lives-IsSound h;
  ticked = λ s h. next_tick-IsSound h;
  updated = update_step-IsSound;
  restarted = restart-IsSound;
  fresh = new_game_state-IsSound;
}

-- In every state that the server reaches: the update period is from 1 to 12, the mode and the mode that a
-- pause remembers are valid, the mode steps are at most 180 and those of the level at most 960, the level
-- is from 1 to 255, there are at most 3 lives, 30 fruit steps and 244 pellets, the walls are the initial
-- ones, and Pacman faces a direction and is off the board or on a cell without a wall; the score and
-- the ticks fit uint16 and the combo uint8, the fruit stays where it was, and every ghost has at most 40
-- frightened and 32 trapped steps and faces a direction here and where it goes.
pub Reach-IsSound : {active : ℕ} {e : Engine} → Reach active e → IsSound e.state × IsRanged e.state
Reach-IsSound r = (Reach-keeps IsSound-Stable r, Reach-IsRanged r)
