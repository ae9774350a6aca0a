-- ===== src/Engine.antt =====
-- server/game/game_engine.go: one iteration of the loop of RunLoop as a function. The clock, the
-- quit signal and the channels are the environment: an iteration takes the messages that wait in
-- the input channel, each with the random numbers of a restart that it may ask for, and returns the
-- bytes that go to the output channel. `none` stands for a panic or a hang of a command.
pub mod Reach
pub mod Frames
pub mod Reads
use pacbot.Prelude.{
  ℕ, List, take, replicate, [], ◌∷◌, Bool, true, false, not, ◌&&◌, if◌then◌else◌, Option, none,
  some,
}
use pacbot.State.{GameState, new_game_state}
use pacbot.Modes.{is_paused, pause, set_pause_on_update}
use pacbot.Counters.{next_tick}
use pacbot.Herd.{update_all_ghosts}
use pacbot.Board.{try_respawn_pacman}
use pacbot.Collide.{check_collisions}
use pacbot.Commands.{interpret_command}
use pacbot.Plan.{plan_all_ghosts}
use pacbot.Steps.{update_ready, handle_step_events}
use pacbot.Serialize.{ser_full}

-- The random numbers of one round of plans, by color.
abbrev pub Draws : Type 0
Draws = ℕ → ℕ → ℕ

pub record Message : Type 0 where
  pub bytes : List ℕ
  pub draws : Draws

pub record Engine : Type 0 where
  pub state : GameState
  pub just_ticked : Bool
  pub output_buf : List ℕ

unfoldable pub new_engine : ℕ → Engine
new_engine active = record {
  state = new_game_state active;
  just_ticked = true;
  output_buf = replicate 256 0;
}

-- "If we should pause upon updating, do so".
unfoldable pub pause_if_due : GameState → GameState
pause_if_due s = if s.pause_on_update then set_pause_on_update false (pause s) else s

-- Steps 1 and 2.
unfoldable pub update_step : Draws → GameState → GameState
update_step draws s = plan_all_ghosts draws (
    handle_step_events (check_collisions (pause_if_due (try_respawn_pacman (update_all_ghosts s)))))

-- A new game after a restart.
unfoldable pub restart : Draws → ℕ → GameState
restart draws active =
    plan_all_ghosts draws (handle_step_events (update_all_ghosts (new_game_state active)))

unfoldable pub after_command : Message → Engine → Option (GameState × Bool) → Option Engine
after_command m e none = none
after_command m e (some (s, rst)) = some (
    if rst
    then record e { state = restart m.draws s.num_active_ghosts; just_ticked = true }
    else record e { state = s })

unfoldable pub handle_message : Message → Engine → Option Engine
handle_message m e = after_command m e (interpret_command m.bytes e.state)

-- Step 5: every message that waits.
unfoldable pub read_loop : List Message → Engine → Option Engine
read_loop [] e = some e
read_loop (m ∷ ms) e = elim (handle_message m e) [ none ↦ none | some e' ↦ read_loop ms e' ]

-- Step 6.
unfoldable pub tick : Engine → Engine
tick e =
    if not (is_paused e.state)
    then record e { just_ticked = true; state = next_tick e.state }
    else record e { just_ticked = false }

unfoldable pub update_if : Bool → Draws → Engine → Engine
update_if ready draws e = if ready then record e { state = update_step draws e.state } else e

unfoldable pub update_if_ready : Draws → Engine → Option Engine
update_if_ready draws e =
    if not e.just_ticked
    then some e
    else elim (update_ready e.state) [ none ↦ none | some ready ↦ some (update_if ready draws e) ]

-- Steps 3 to 6.
unfoldable pub send_and_read : List Message → Engine → Option (List ℕ × Engine)
send_and_read ms e =
    let (buf, ser_len) = ser_full e.state (e.output_buf, 0) in
    elim (read_loop ms (record e { output_buf = buf })) [
      | none ↦ none
      | some e2 ↦ some (take ser_len buf, tick e2)
    ]

unfoldable pub iteration : Draws → List Message → Engine → Option (List ℕ × Engine)
iteration draws ms e = elim (update_if_ready draws e) [
  | none ↦ none
  | some e1 ↦ send_and_read ms e1
]
