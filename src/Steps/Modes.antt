-- ===== src/Steps/Modes.antt =====
-- When handleStepEvents switches the mode.
use pacbot.Prelude.{ℕ, ◌-◌, ◌≤◌, ◌≡◌, map, leb, ◌==◌, if◌then◌else◌, arith}
use pacbot.Maze.{mode_durations}
use pacbot.State.{GameState}
use pacbot.Modes.{
  is_paused, get_last_unpaused_mode, set_mode, set_mode_steps, set_last_unpaused_mode,
  decrement_mode_steps,
}
use pacbot.Counters.{
  speed_up, set_update_period, set_level_steps, decrement_level_steps, decrement_fruit_steps,
}
use pacbot.Herd.{reverse_all_ghosts}
use pacbot.Ghost.{reverse_ghost}
use pacbot.Steps.{switch_mode, mode_event, level_event, count_down, handle_step_events}

-- The mode that follows: scatter (1) and chase (2) take turns.
abbrev pub mode_after : GameState → ℕ
mode_after s = if s.mode_steps == 0 then 3 - get_last_unpaused_mode s else get_last_unpaused_mode s

abbrev pub steps_after : GameState → ℕ
steps_after s = if s.mode_steps == 0 then mode_durations (mode_after s) else s.mode_steps

mode_event_lem :
    (s : GameState)
    → s.mode ≤ 2
    → 1 ≤ s.last_unpaused_mode
    → s.last_unpaused_mode ≤ 2
    → (get_last_unpaused_mode (mode_event s) ≡ mode_after s)
      × (is_paused (mode_event s) ≡ is_paused s)
      × ((mode_event s).mode_steps ≡ steps_after s)
      × ((mode_event s).num_pellets ≡ s.num_pellets)
      × ((mode_event s).ghosts
          ≡ (if s.mode_steps == 0 then map reverse_ghost s.ghosts else s.ghosts))
unfolding mode_event switch_mode set_mode set_mode_steps get_last_unpaused_mode
    set_last_unpaused_mode is_paused reverse_all_ghosts
mode_event_lem s h l u = ground arith

count_lem :
    (n : ℕ) (s : GameState)
    → let t = count_down (level_event n s) in
      (get_last_unpaused_mode t ≡ get_last_unpaused_mode s)
      × (is_paused t ≡ is_paused s)
      × (t.mode_steps ≡ (if leb 20 s.num_pellets then s.mode_steps - 1 else s.mode_steps))
      × (t.ghosts ≡ s.ghosts)
unfolding level_event speed_up set_update_period set_level_steps count_down decrement_mode_steps
    decrement_level_steps decrement_fruit_steps get_last_unpaused_mode is_paused
count_lem n s = ground arith

-- A step event switches between scatter and chase exactly when the mode steps have run out, also of
-- a paused game, for the full duration of the new mode; it then turns every ghost around. The steps
-- count down as long as at least 20 pellets are left, and the game stays paused or running.
pub handle_step_events_lem :
    (s : GameState)
    → s.mode ≤ 2
    → 1 ≤ s.last_unpaused_mode
    → s.last_unpaused_mode ≤ 2
    → let t = handle_step_events s in
      (get_last_unpaused_mode t ≡ mode_after s)
      × (is_paused t ≡ is_paused s)
      × (t.mode_steps ≡ (if leb 20 s.num_pellets then steps_after s - 1 else steps_after s))
      × (t.ghosts ≡ (if s.mode_steps == 0 then map reverse_ghost s.ghosts else s.ghosts))
unfolding handle_step_events
handle_step_events_lem s h l u =
    ground (arith, mode_event_lem s h l u, count_lem s.level_steps (mode_event s))
