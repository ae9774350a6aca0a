-- ===== src/Dashboard/Offline.antt =====
-- dashboard/server/main.go: the sends and the commands without a robot.
use pacbot.Prelude.{
  ℕ, ◌+◌, ◌≡◌, ◌<◌, ◌==◌, refl, List, [], ◌∷◌, Bool, false, Option, none, some, arith, Bool-cases,
  inl, inr,
}
use pacbot.Dashboard.{
  Server, PidState, cmd_set_motors, cmd_status, cmd_calibrate, cmd_set_sensor_offsets, cmd_ping,
}
use pacbot.Dashboard.Wire.{if_some, if_some-keeps}
use pacbot.Dashboard.Clients.{broadcast}
use pacbot.Dashboard.Link.{send_to_robot, resend_loop, resend_pid_gains}
use pacbot.Dashboard.Control.{
  Floats, Msg, Items, forward, start_log, stop_log, set_motor, put_all, send_list, set_interval,
  count, set_drive_mode, cardinal_move, send_pid, set_pid, command, handle_ws_command, as_items,
}
use pacbot.Dashboard.Ipc.{
  direction, announce, move_externally, handle_external_direction, handle_ipc_line,
}
use pacbot.Dashboard.Steps.{Reach}
use pacbot.Dashboard.Steps.Run.{Reach-IsConsistent}

send_to_robot-offline :
    (written : Bool) (bytes : List ℕ) (s : Server)
    → s.robot.addr ≡ none
    → send_to_robot written bytes s ≡ none
unfolding send_to_robot
send_to_robot-offline written bytes s off = rw off refl

module _ (fl : Floats) (written : Bool) (s : Server) (off : s.robot.addr ≡ none) where
  after_no_send {ℓ} :
      {B : Type ℓ} (bytes : List ℕ) (b : B) (f : Server → B)
      → if_some (send_to_robot written bytes s) b f ≡ b
  unfolding if_some
  after_no_send bytes b f = rw (send_to_robot-offline written bytes s off) refl

  send_list-offline :
      (cmd n : ℕ) (items : Option (Items fl)) → send_list fl written cmd n items s ≡ s
  unfolding send_list forward
  send_list-offline cmd n items =
      if_some-keeps (λ t. t ≡ s) items refl
        λ xs _. elim (Bool-cases (count fl xs == n)) [
          | inr other ↦ rw other refl
          | inl all ↦ rw all (
              if_some-keeps (λ t. t ≡ s) (put_all fl xs) refl
                λ bytes _. after_no_send (cmd ∷ bytes) s _)
        ]

  set_motor-offline : (msg : Msg fl) → set_motor fl written msg s ≡ s
  unfolding set_motor forward
  set_motor-offline msg =
      if_some-keeps (λ t. t ≡ s) _ refl
        λ idx _.
          if_some-keeps (λ t. t ≡ s) _ refl
            λ spd _. if_some-keeps (λ t. t ≡ s) _ refl λ index _. after_no_send _ s _

  set_interval-offline : (msg : Msg fl) → set_interval fl written msg s ≡ s
  unfolding set_interval forward
  set_interval-offline msg =
      if_some-keeps (λ t. t ≡ s) _ refl
        λ ms _. elim (Bool-cases (fl.lt_ten ms)) [
          | inl short ↦ rw short refl
          | inr long ↦ rw long (after_no_send _ s _)
        ]

  set_drive_mode-offline : (msg : Msg fl) → set_drive_mode fl written msg s ≡ s
  unfolding set_drive_mode
  set_drive_mode-offline msg = if_some-keeps (λ t. t ≡ s) _ refl λ mode _. after_no_send _ s _

  cardinal_move-offline : (msg : Msg fl) → cardinal_move fl written msg s ≡ s
  unfolding cardinal_move
  cardinal_move-offline msg =
      if_some-keeps (λ t. t ≡ s) _ refl
        λ dir _. if_some-keeps (λ t. t ≡ s) _ refl λ spd _. after_no_send _ s _

  set_pid-offline : (msg : Msg fl) → set_pid fl written msg s ≡ some s
  unfolding set_pid send_pid
  set_pid-offline msg =
      if_some-keeps (λ t. t ≡ some s) _ refl
        λ loop_id _.
          if_some-keeps (λ t. t ≡ some s) _ refl
            λ kp _.
              if_some-keeps (λ t. t ≡ some s) _ refl
                λ ki _. if_some-keeps (λ t. t ≡ some s) _ refl λ kd _. after_no_send _ (some s) _

  logs-offline :
      (start_log fl written s ≡ s)
      × (stop_log fl written s ≡ s)
      × ((bytes : List ℕ) → forward fl written bytes s ≡ s)
  unfolding start_log stop_log forward
  logs-offline = (after_no_send _ s _, after_no_send _ s _, λ bytes. after_no_send bytes s _)

  handle_ws_command-offline : (msg : Msg fl) → handle_ws_command fl written msg s ≡ some s
  unfolding handle_ws_command command
  handle_ws_command-offline msg =
      let (starts, stops, forwards) = logs-offline in
      ground (
        arith,
        starts,
        stops,
        forwards (cmd_status ∷ []),
        forwards (cmd_calibrate ∷ []),
        forwards (cmd_ping ∷ []),
        set_motor-offline msg,
        send_list-offline cmd_set_motors 4 (as_items fl (msg "speeds")),
        send_list-offline cmd_set_sensor_offsets 8 (as_items fl (msg "offsets")),
        set_interval-offline msg,
        set_drive_mode-offline msg,
        cardinal_move-offline msg,
        set_pid-offline msg,
      )

resend_loop-offline :
    (written : ℕ → Bool) (i : ℕ) (gains : List PidState) (s : Server)
    → s.robot.addr ≡ none
    → resend_loop written i gains s ≡ s
unfolding resend_loop
resend_loop-offline written i [] s off = refl
resend_loop-offline written i (g ∷ gs) s off = elim (Bool-cases g.is_set) [
  | inr unset ↦ rw unset (resend_loop-offline written (i + 1) gs s off)
  | inl set ↦ rw (set, send_to_robot-offline (written i) _ s off) refl
]

abbrev pub SameLink : Server → Server → Type 0
SameLink s t = (t.sent ≡ s.sent) × (t.robot ≡ s.robot)

handle_ipc_line-offline :
    (written : Bool) (line : List ℕ) (s : Server)
    → s.robot.addr ≡ none
    → SameLink s (handle_ipc_line written line s)
unfolding handle_ipc_line handle_external_direction move_externally announce broadcast if_some
handle_ipc_line-offline written [] s off = (refl, refl)
handle_ipc_line-offline written (c ∷ _ ∷ _) s off = (refl, refl)
handle_ipc_line-offline written (c ∷ []) s off =
    if_some-keeps (λ (p : Server × Bool). SameLink s p.0) (direction c) (refl, refl)
      λ d _. rw (send_to_robot-offline written _ s off) (refl, refl)

-- In every state that the server reaches and in which no robot is connected: a command of the webapp
-- changes nothing and does not panic, the gains are not sent again, and a line of the IPC socket
-- neither sends a datagram nor changes the robot's record. The one assumption on the language's
-- floats is that a byte is below 256.
pub offline_lem :
    (fl : Floats)
    → ((x : fl.F64) → fl.to_byte x < 256)
    → (s : Server) → Reach fl s
    → s.robot.connected ≡ false
    → ((written : Bool) (msg : Msg fl) → handle_ws_command fl written msg s ≡ some s)
      × ((written : ℕ → Bool) → resend_pid_gains written s ≡ s)
      × ((written : Bool) (line : List ℕ) → SameLink s (handle_ipc_line written line s))
unfolding resend_pid_gains
offline_lem fl is_byte s r disconnected =
    let off = (Reach-IsConsistent fl is_byte s r).linked.no_addr disconnected in
    (
      λ written. handle_ws_command-offline fl written s off,
      λ written. resend_loop-offline written 0 s.pid_gains s off,
      λ written line. handle_ipc_line-offline written line s off,
    )
