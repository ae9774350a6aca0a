-- ===== src/Tests.antt =====
-- Runs of the model on small inputs, and the theorems at concrete inputs.
use pacbot.Prelude.{
  map, leb, if◌then◌else◌, ◌-◌, ◌==◌, ℕ, ◌≤◌, ◌<◌, ◌≡◌, ◌≢◌, ◌⊎◌, refl, inl, inr, List, [], ◌∷◌,
  true, false, Option, none, some, arith, length, take, drop, replicate,
}
use pacbot.Bits.{get_bit, modify_bit}
use pacbot.Maze.{init_walls, init_pellets}
use pacbot.Location.{
  LocationState, new_location, collides_with, is_empty, get_neighbor_coords, get_ahead_coords,
  get_reversed_dir, update_dir, update_coords, advance_from, copy_from,
}
use pacbot.State.{GhostState, GameState, new_ghost_state, new_game_state}
use pacbot.Modes.{
  get_last_unpaused_mode, is_paused, pause, play, set_pause_on_update, decrement_mode_steps,
}
use pacbot.Counters.{
  next_tick, increment_score, increment_level, decrement_lives, fruit_exists, decrement_num_pellets,
  decrement_fruit_steps, decrement_level_steps,
}
use pacbot.Grid.{in_bounds, wall_in, pellet_in, ghost_spawn_at, dist_sq}
use pacbot.Ghost.{is_frightened, is_trapped, dec_trapped_steps, update, leave_house, revive, calm}
use pacbot.Herd.{update_all_ghosts}
use pacbot.Board.{try_respawn_pacman}
use pacbot.Collect.{
  collect_fruit, is_super_pellet, clear_pellet, score_pellet, spawn_fruit, pellet_events,
  collect_pellet,
}
use pacbot.Collide.{scan, check_collisions}
use pacbot.Path.{
  Route, hangs, visit, search_loop, find_likely_path, parent_of, get_adjacent, backtrack,
  parent_or_zero, trace_path,
}
use pacbot.Pacman.{turn_and_step, move_pacman_dir}
use pacbot.Commands.{interpret_command}
use pacbot.Target.{get_chase_target}
use pacbot.Plan.{
  count_valid, pick_random, pick_best, best_move, choose_target, can_enter, move_valid,
  move_dist_sq, choose_dir, plan, plan_all_ghosts,
}
use pacbot.Steps.{update_ready, mode_event, level_event, count_down, handle_step_events}
use pacbot.Serialize.{
  get_byte, ser_uint8, ser_bytes, ser_uint16, ser_uint32, coord_byte, ser_location, ser_curr_ticks,
  ser_update_period, ser_game_mode, ser_mode_steps, ser_level_steps, ser_curr_score, ser_curr_level,
  ser_curr_lives, ser_ghost_combo, ser_rows, ser_pellets, ser_pacman, ser_fruit, flagged, ser_ghost,
  ser_ghosts, ser_header, ser_info, ser_full,
}
use pacbot.Engine.{
  Engine, Message, new_engine, pause_if_due, update_step, after_command, handle_message, read_loop,
  tick, update_if, update_if_ready, send_and_read, iteration,
}
use pacbot.Engine.Reach.{Reach, start, next}
use pacbot.Sound.{IsSound}
use pacbot.Ranged.{IsRanged}
use pacbot.Engine.Reads.{iteration-decode}
use pacbot.Counters.Levels.{next_tick_lem}
use pacbot.Sound.Server.{Reach-IsSound}
use pacbot.Patrol.Game.{Patrolled}
use pacbot.Patrol.One.{IsPlanned}
use pacbot.Patrol.Server.{Reach-Patrolled}
use pacbot.Pellets.{Counted}
use pacbot.Pellets.Server.{Reach-Counted}
use pacbot.Collide.Game.{IsSafe}
use pacbot.Collide.Server.{Reach-IsSafe}
use pacbot.Engine.Frames.{iteration-frame}
use pacbot.Ghost.{reverse_ghost}
use pacbot.Board.{death_reset}
use pacbot.Location.{empty_loc}
use pacbot.Board.Resets.{ghosts_after, death_reset_lem}
use pacbot.Steps.Modes.{mode_after, steps_after, handle_step_events_lem}
use pacbot.Modes.Pausing.{play-pause, play-starts}
use pacbot.Commands.Results.{interpret_command-none}
use pacbot.Collect.Effects.{collect_pellet_lem}
use pacbot.Serialize.Encode.{encode, ser_full_lem}
use pacbot.Serialize.Client.{view, decode}
use pacbot.Serialize.Decode.{IsSent, decode-encode}
use pacbot.Plan.Choice.{AtDirs}
use pacbot.Plan.Nearest.{rank, plan-nearest, plan-random}

-- All that a run of the loop calls.
everything : Unit {0}
unfolding get_bit modify_bit init_walls init_pellets collides_with is_empty get_neighbor_coords
    get_ahead_coords get_reversed_dir update_dir update_coords advance_from copy_from
    new_ghost_state new_game_state get_last_unpaused_mode is_paused pause play set_pause_on_update
    decrement_mode_steps next_tick increment_score increment_level decrement_lives fruit_exists
    decrement_num_pellets decrement_fruit_steps decrement_level_steps in_bounds wall_in pellet_in
    ghost_spawn_at dist_sq is_frightened is_trapped dec_trapped_steps update leave_house revive calm
    update_all_ghosts try_respawn_pacman collect_fruit is_super_pellet clear_pellet score_pellet
    spawn_fruit pellet_events collect_pellet scan check_collisions turn_and_step move_pacman_dir
    interpret_command get_chase_target count_valid pick_random pick_best best_move choose_target
    can_enter move_valid move_dist_sq choose_dir plan plan_all_ghosts update_ready mode_event
    level_event count_down handle_step_events get_byte ser_uint8 ser_bytes ser_uint16 ser_uint32
    coord_byte ser_location ser_curr_ticks ser_update_period ser_game_mode ser_mode_steps
    ser_level_steps ser_curr_score ser_curr_level ser_curr_lives ser_ghost_combo ser_rows
    ser_pellets ser_pacman ser_fruit flagged ser_ghost ser_ghosts ser_header ser_info ser_full
    new_engine pause_if_due update_step after_command handle_message read_loop tick update_if
    update_if_ready send_and_read iteration
everything = tt

abbrev first_draws : ℕ → ℕ → ℕ
first_draws color n = 0

abbrev key : ℕ → Message
key b = record { bytes = b ∷ []; draws = first_draws }

abbrev opening : List Message
opening = key b'P' ∷ key b'd' ∷ key b'd' ∷ []

-- Play, then two steps to the right.
opened : Option (List ℕ × Engine)
opened = iteration first_draws opening (new_engine 4)

abbrev engine_of : Option (List ℕ × Engine) → Engine
engine_of none = new_engine 4
engine_of (some (out, e)) = e

abbrev bytes_of : Option (List ℕ × Engine) → List ℕ
bytes_of none = []
bytes_of (some (out, e)) = out

opened_lem : opened ≡ some (bytes_of opened, engine_of opened)
unfolding everything opened
opened_lem = refl

opened-Reach : Reach 4 (engine_of opened)
unfolding opened
opened-Reach = next first_draws opening start opened_lem

opened_score : (engine_of opened).state.curr_score ≡ 10
unfolding everything opened
opened_score = refl

Reach-IsSound_example : IsSound (engine_of opened).state × IsRanged (engine_of opened).state
Reach-IsSound_example = Reach-IsSound opened-Reach

Reach-Patrolled_example : Patrolled IsPlanned (engine_of opened).state
Reach-Patrolled_example = Reach-Patrolled opened-Reach

Reach-Counted_example : Counted (engine_of opened).state
Reach-Counted_example = Reach-Counted opened-Reach

Reach-IsSafe_example : IsSafe (engine_of opened).state
Reach-IsSafe_example = Reach-IsSafe opened-Reach

iteration-frame_example :
    (e1 : Engine) × (e' : Engine) × (update_if_ready first_draws (engine_of opened) ≡ some e1)
    × (iteration first_draws opening (engine_of opened) ≡ some (encode e1.state, e'))
    × (length (encode e1.state) ≡ 159)
iteration-frame_example = iteration-frame first_draws opening opened-Reach (
  (b'P', [], refl, omega arith),
  ((b'd', [], refl, omega arith), ((b'd', [], refl, omega arith), tt)),
)

-- The first update of a new game.
first_update : Option Engine
first_update = update_if_ready first_draws (new_engine 4)

abbrev or_new : Option Engine → Engine
or_new none = new_engine 4
or_new (some e) = e

first_update_lem : first_update ≡ some (or_new first_update)
unfolding everything first_update
first_update_lem = refl

first_update-lives : (or_new first_update).state.curr_lives ≡ 3
unfolding everything first_update
first_update-lives = refl

first_update-row : (or_new first_update).state.pacman_loc.row ≡ 23
unfolding everything first_update
first_update-row = refl

first_update-col : (or_new first_update).state.pacman_loc.col ≡ 13
unfolding everything first_update
first_update-col = refl

iteration-decode_example :
    (out : List ℕ) × (e' : Engine) × (iteration first_draws (key b'P' ∷ []) (new_engine 4)
      ≡ some (out, e'))
    × (decode out ≡ some (view (or_new first_update).state))
unfolding first_update
iteration-decode_example =
    iteration-decode first_draws (key b'P' ∷ []) (or_new first_update) start
      ((b'P', [], refl, omega arith), tt) first_update_lem (omega (arith, first_update-lives))
      (omega (arith, first_update-row), omega (arith, first_update-col))

abbrev fresh : GameState
fresh = new_game_state 4

-- A game in scatter mode.
abbrev running : GameState
running = record fresh { mode = 1 }

handle_step_events_lem_example :
    let t = handle_step_events fresh in
    (get_last_unpaused_mode t ≡ mode_after fresh)
    × (is_paused t ≡ is_paused fresh)
    × (t.mode_steps
        ≡ (if leb 20 fresh.num_pellets then steps_after fresh - 1 else steps_after fresh))
    × (t.ghosts ≡ (if fresh.mode_steps == 0 then map reverse_ghost fresh.ghosts else fresh.ghosts))
unfolding new_game_state
handle_step_events_lem_example =
    handle_step_events_lem fresh (omega arith) (omega arith) (omega arith)

death_reset_lem_example :
    let t = death_reset fresh in
    (t.curr_lives ≡ 2)
    × (t.pacman_loc ≡ empty_loc)
    × (t.fruit_steps ≡ 0)
    × (t.pause_on_update ≡ true)
    × (t.ghost_combo ≡ 0)
    × (t.mode ≡ 1)
    × (t.mode_steps ≡ 60)
    × (t.ghosts ≡ ghosts_after 2 fresh)
    × (t.curr_score ≡ 0)
    × (t.curr_level ≡ 1)
    × (t.pellets ≡ init_pellets)
    × (t.num_pellets ≡ 244)
    × (t.level_steps ≡ 960)
    × (t.update_period ≡ 12)
    × (t.curr_ticks ≡ 0)
    × (t.last_unpaused_mode ≡ fresh.last_unpaused_mode)
    × (t.fruit_loc ≡ fresh.fruit_loc)
    × (t.walls ≡ init_walls)
    × (t.num_active_ghosts ≡ 4)
unfolding new_game_state
death_reset_lem_example = death_reset_lem fresh

play-pause_example : play (pause running) ≡ record running { last_unpaused_mode = 1 }
unfolding new_game_state
play-pause_example = play-pause running (omega arith) (omega arith) (omega arith)

play-starts_example :
    (is_paused (play fresh) ≡ false → (fresh.curr_lives ≢ 0) × (fresh.curr_ticks ≢ 0xffff))
    × ((fresh.curr_lives ≢ 0) × (fresh.curr_ticks ≢ 0xffff) → is_paused (play fresh) ≡ false)
unfolding new_game_state
play-starts_example = play-starts fresh refl (omega arith)

next_tick_lem_example :
    ((next_tick running).curr_ticks ≡ 1)
    × (running.curr_ticks ≡ 65534 → is_paused (next_tick running) ≡ true)
    × (running.curr_ticks ≡ 65535 → next_tick running ≡ running)
unfolding new_game_state
next_tick_lem_example = next_tick_lem running (omega arith)

interpret_command-none_example :
    ◌≡◌ {A = List ℕ} [] []
    ⊎ ((row : ℕ) × (col : ℕ) × (◌≡◌ {A = List ℕ} [] (b'x' ∷ row ∷ col ∷ []))
        × ((find_likely_path fresh row col ≡ Route.panics)
            ⊎ (find_likely_path fresh row col ≡ Route.hangs)))
unfolding interpret_command
interpret_command-none_example = interpret_command-none [] fresh refl

collect_pellet_lem_example :
    ((collect_pellet 23 12 fresh).curr_score ≡ 10)
    × ((collect_pellet 23 12 fresh).num_pellets ≡ 243)
unfolding everything
collect_pellet_lem_example = collect_pellet_lem 23 12 fresh (omega arith)

abbrev blank : List ℕ
blank = replicate 256 0

ser_full_lem_example :
    let (out, n) = ser_full fresh (blank, 0) in
    (n ≡ 159) × (take n out ≡ encode fresh) × (drop n out ≡ drop 159 blank) × (length out ≡ 256)
unfolding new_game_state init_pellets
ser_full_lem_example = ser_full_lem fresh blank refl refl

fresh-IsSent : IsSent fresh
unfolding new_game_state new_ghost_state init_pellets
fresh-IsSent = omega arith

decode-encode_example : decode (encode fresh) ≡ some (view fresh)
decode-encode_example = decode-encode fresh fresh-IsSent

-- A ghost at the spawn point of red, facing left, in a running game.
abbrev roamer : GhostState
roamer = record {
  loc = new_location 11 13 1;
  next_loc = new_location 11 13 1;
  scatter_target = new_location 253 25 4;
  color = 0;
  trapped_steps = 0;
  fright_steps = 0;
  spawning = true;
  eaten = false;
}

abbrev roamer_next : LocationState
roamer_next = advance_from roamer.next_loc roamer.loc

plan-nearest_example :
    let d = (plan running (λ n. 0) roamer).next_loc.dir in
    (plan running (λ n. 0) roamer ≡ record roamer { next_loc = record roamer_next { dir = d } })
    × (move_valid running.walls true roamer_next d ≡ true)
    × AtDirs (λ e.
      move_valid running.walls true roamer_next e ≡ true
      → move_dist_sq roamer_next (choose_target running roamer roamer_next) d
        ≤ move_dist_sq roamer_next (choose_target running roamer roamer_next) e)
unfolding everything
plan-nearest_example = plan-nearest running (λ n. 0) roamer refl refl (omega arith) (inr (inl refl))

abbrev scared : GhostState
scared = record roamer { fright_steps = 20 }

plan-random_example :
    (rank (λ d. move_valid running.walls true roamer_next d) 1
      < count_valid (λ d. move_valid running.walls true roamer_next d) (0 ∷ 1 ∷ 2 ∷ 3 ∷ []) 0)
    × ((plan running (λ n. n - 1) scared).next_loc ≡ record roamer_next { dir = 1 })
unfolding everything
plan-random_example =
    plan-random running (λ n. n - 1) scared 1 refl refl (omega arith) (omega arith) refl refl

-- With Pacman off the board the search does not end: the route from there to a cell hangs.
off_board : find_likely_path (record fresh { pacman_loc = new_location 32 32 4 }) 23 13 ≡ hangs
unfolding everything find_likely_path search_loop visit get_adjacent parent_of trace_path backtrack
    parent_or_zero
off_board = refl
