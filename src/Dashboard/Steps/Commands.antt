-- ===== src/Dashboard/Steps/Commands.antt =====
-- dashboard/server/main.go: the commands of the webapp and consistency.
use Prim.Native.String.{String}
use mathlib.Core.Path.{subst}
use pacbot.Prelude.{
  ℕ, ◌<◌, ◌≡◌, refl, ◌∙◌, List, [], ◌∷◌, Bool, not, ◌&&◌, ◌==◌, Option, some, length, length-set,
  arith, Bool-cases, inl, inr, ltb,
}
use pacbot.Dashboard.{
  Server, PidState, Phase, logging, setup_done, cmd_set_motors, cmd_status, cmd_calibrate,
  cmd_set_sensor_offsets, cmd_ping,
}
use pacbot.Dashboard.Wire.{if_some-keeps}
use pacbot.Dashboard.Control.{
  Floats, Msg, Items, ℤ, pos, negsuc, note_state, note_drive, note_speed, forward, start_log,
  stop_log, set_motor, send_list, set_interval, set_drive_mode, cardinal_move, keep_gains, send_pid,
  set_pid, command, handle_ws_command, as_items, as_text, count,
}
use pacbot.Dashboard.Steps.{IsConsistent}
use pacbot.Dashboard.Steps.Robot.{
  broadcast_state-IsConsistent, with_robot, SameSlots-IsLinked, Ensures,
}
use pacbot.Dashboard.Steps.Consistent.{after_send, sent-IsConsistent}

pub note_state-IsConsistent :
    (state : Phase) (s : Server) → IsConsistent s → IsConsistent (note_state state s)
unfolding note_state
note_state-IsConsistent state s h =
    with_robot s _ h (SameSlots-IsLinked s.robot _ h.linked (refl, refl, refl, refl))

pub note_drive-IsConsistent :
    (mode : ℕ) (s : Server) → IsConsistent s → IsConsistent (note_drive mode s)
unfolding note_drive
note_drive-IsConsistent mode s h =
    with_robot s _ h (SameSlots-IsLinked s.robot _ h.linked (refl, refl, refl, refl))

pub note_speed-IsConsistent :
    (fl : Floats)
    → ((x : fl.F64) → fl.to_byte x < 256)
    → (dir spd : fl.F64) (s : Server) → IsConsistent s
    → IsConsistent (note_speed (fl.to_byte dir) (fl.to_byte spd) s)
unfolding note_speed
note_speed-IsConsistent fl is_byte dir spd s h =
    elim (Bool-cases (not (fl.to_byte dir == 0) && not (fl.to_byte spd == 0))) [
      | inr rests ↦ rw rests h
      | inl moving ↦ rw moving (record {
        linked = h.linked;
        three = h.three;
        speed_pos = ground arith;
        speed_le = omega (arith, is_byte spd);
        queues = h.queues;
      })
    ]

pub keep_gains-Ensures :
    (fl : Floats) (i : ℤ) (g : PidState) (t : Server)
    → IsConsistent t
    → Ensures (keep_gains fl i g t)
unfolding keep_gains
keep_gains-Ensures fl (negsuc i) g t k = tt
keep_gains-Ensures fl (pos i) g t k = elim (Bool-cases (ltb i (length t.pid_gains))) [
  | inr out ↦ rw out k
  | inl inside ↦ rw inside (record {
    linked = k.linked;
    three = length-set t.pid_gains i g ∙ k.three;
    speed_pos = k.speed_pos;
    speed_le = k.speed_le;
    queues = k.queues;
  })
]

module _ (fl : Floats) (is_byte : (x : fl.F64) → fl.to_byte x < 256) (written : Bool) where
  forward-IsConsistent :
      (bytes : List ℕ) (s : Server) → IsConsistent s → IsConsistent (forward fl written bytes s)
  unfolding forward
  forward-IsConsistent bytes s h = after_send written bytes s _ h λ t k. k

  start_log-IsConsistent : (s : Server) → IsConsistent s → IsConsistent (start_log fl written s)
  unfolding start_log
  start_log-IsConsistent s h =
      after_send written _ s _ h
        λ t k. broadcast_state-IsConsistent _ (note_state-IsConsistent logging t k)

  stop_log-IsConsistent : (s : Server) → IsConsistent s → IsConsistent (stop_log fl written s)
  unfolding stop_log
  stop_log-IsConsistent s h =
      after_send written _ s _ h
        λ t k. broadcast_state-IsConsistent _ (note_state-IsConsistent setup_done t k)

  set_motor-IsConsistent :
      (msg : Msg fl) (s : Server) → IsConsistent s → IsConsistent (set_motor fl written msg s)
  unfolding set_motor
  set_motor-IsConsistent msg s h = if_some-keeps IsConsistent _ h λ idx _.
      if_some-keeps IsConsistent _ h
        λ spd _. if_some-keeps IsConsistent _ h λ index _. forward-IsConsistent _ s h

  send_list-IsConsistent :
      (cmd n : ℕ) (items : Option (Items fl)) (s : Server)
      → IsConsistent s
      → IsConsistent (send_list fl written cmd n items s)
  unfolding send_list
  send_list-IsConsistent cmd n items s h = if_some-keeps IsConsistent _ h λ xs _.
      elim (Bool-cases (count fl xs == n)) [
        | inr other ↦ rw other h
        | inl all ↦ rw all (if_some-keeps IsConsistent _ h λ bytes _. forward-IsConsistent _ s h)
      ]

  set_interval-IsConsistent :
      (msg : Msg fl) (s : Server) → IsConsistent s → IsConsistent (set_interval fl written msg s)
  unfolding set_interval
  set_interval-IsConsistent msg s h = if_some-keeps IsConsistent _ h λ ms _.
      elim (Bool-cases (fl.lt_ten ms)) [
        | inl short ↦ rw short h
        | inr long ↦ rw long (forward-IsConsistent _ s h)
      ]

  set_drive_mode-IsConsistent :
      (msg : Msg fl) (s : Server) → IsConsistent s → IsConsistent (set_drive_mode fl written msg s)
  unfolding set_drive_mode
  set_drive_mode-IsConsistent msg s h = if_some-keeps IsConsistent _ h λ mode _.
      after_send written _ s _ h
        λ t k. broadcast_state-IsConsistent _ (note_drive-IsConsistent (fl.to_byte mode) t k)

  cardinal_move-IsConsistent :
      (msg : Msg fl) (s : Server) → IsConsistent s → IsConsistent (cardinal_move fl written msg s)
  unfolding cardinal_move
  cardinal_move-IsConsistent msg s h = if_some-keeps IsConsistent _ h λ dir _.
      if_some-keeps IsConsistent _ h
        λ spd _. after_send written _ s _ h λ t k. note_speed-IsConsistent fl is_byte dir spd t k

  set_pid-Ensures :
      (msg : Msg fl) (s : Server) → IsConsistent s → Ensures (set_pid fl written msg s)
  unfolding set_pid send_pid
  set_pid-Ensures msg s h = if_some-keeps Ensures _ h λ loop_id _. if_some-keeps Ensures _ h λ kp _.
      if_some-keeps Ensures _ h λ ki _. if_some-keeps Ensures _ h λ kd _.
        if_some-keeps Ensures _ h λ t works.
          keep_gains-Ensures fl (fl.to_int loop_id) _ t (sent-IsConsistent written _ s t h works)

  command-Ensures :
      (type : String) (msg : Msg fl) (s : Server)
      → IsConsistent s
      → Ensures (command fl written type msg s)
  unfolding command
  command-Ensures type msg s h = ground (
    arith,
    start_log-IsConsistent s h,
    stop_log-IsConsistent s h,
    set_motor-IsConsistent msg s h,
    send_list-IsConsistent cmd_set_motors 4 (as_items fl (msg "speeds")) s h,
    set_interval-IsConsistent msg s h,
    forward-IsConsistent (cmd_status ∷ []) s h,
    set_drive_mode-IsConsistent msg s h,
    cardinal_move-IsConsistent msg s h,
    forward-IsConsistent (cmd_calibrate ∷ []) s h,
    set_pid-Ensures msg s h,
    send_list-IsConsistent cmd_set_sensor_offsets 8 (as_items fl (msg "offsets")) s h,
    forward-IsConsistent (cmd_ping ∷ []) s h,
    h,
  )

  pub handle_ws_command-IsConsistent :
      (msg : Msg fl) (s t : Server)
      → IsConsistent s
      → handle_ws_command fl written msg s ≡ some t
      → IsConsistent t
  unfolding handle_ws_command
  handle_ws_command-IsConsistent msg s t h e =
      subst Ensures e (command-Ensures (as_text fl (msg "type")) msg s h)
