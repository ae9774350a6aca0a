-- ===== src/Board/Resets.antt =====
-- What a death and a cleared level do to the board.
use pacbot.Prelude.{List, ℕ, ◌-◌, ◌≡◌, map, ltb, ◌==◌, true, if◌then◌else◌, arith}
use pacbot.State.{GhostState, GameState}
use pacbot.Modes.{set_pause_on_update, set_mode, set_mode_steps}
use pacbot.Counters.{decrement_lives, set_fruit_steps}
use pacbot.Ghost.{reset}
use pacbot.Herd.{stare, reset_all_ghosts}
use pacbot.Location.{copy_from, empty_loc}
use pacbot.Board.{put_pacman, restart_mode, death_reset}

-- The ghosts after a reset; with no life left they look at the player.
abbrev pub ghosts_after : ℕ → GameState → List GhostState
ghosts_after lives s =
    let gs = map (reset s.num_active_ghosts) s.ghosts in if lives == 0 then map stare gs else gs

-- A death costs a life if there is one, takes Pacman and the fruit off the board, asks for a pause,
-- resets the combo and the ghosts, and, with more than 20 pellets left, begins a scatter mode of
-- full length. All else stays: score, level and pellets, the level steps, the update period, the ticks,
-- the mode to go back to, the fruit's place, the walls and the number of active ghosts.
pub death_reset_lem :
    (s : GameState)
    → let t = death_reset s in
      (t.curr_lives ≡ s.curr_lives - 1)
      × (t.pacman_loc ≡ empty_loc)
      × (t.fruit_steps ≡ 0)
      × (t.pause_on_update ≡ true)
      × (t.ghost_combo ≡ 0)
      × (t.mode ≡ (if ltb 20 s.num_pellets then 1 else s.mode))
      × (t.mode_steps ≡ (if ltb 20 s.num_pellets then 60 else s.mode_steps))
      × (t.ghosts ≡ ghosts_after (s.curr_lives - 1) s)
      × (t.curr_score ≡ s.curr_score)
      × (t.curr_level ≡ s.curr_level)
      × (t.pellets ≡ s.pellets)
      × (t.num_pellets ≡ s.num_pellets)
      × (t.level_steps ≡ s.level_steps)
      × (t.update_period ≡ s.update_period)
      × (t.curr_ticks ≡ s.curr_ticks)
      × (t.last_unpaused_mode ≡ s.last_unpaused_mode)
      × (t.fruit_loc ≡ s.fruit_loc)
      × (t.walls ≡ s.walls)
      × (t.num_active_ghosts ≡ s.num_active_ghosts)
unfolding death_reset reset_all_ghosts set_fruit_steps decrement_lives put_pacman restart_mode
    set_pause_on_update set_mode set_mode_steps copy_from
death_reset_lem s = ground arith
