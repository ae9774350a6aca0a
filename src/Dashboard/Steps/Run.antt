-- ===== src/Dashboard/Steps/Run.antt =====
-- dashboard/server/main.go: the events of the server and consistency.
use mathlib.Core.Path.{subst}
use pacbot.Prelude.{
  ℕ, ◌+◌, ◌<◌, ◌≡◌, refl, sym, List, [], ◌∷◌, Bool, false, ◌&&◌, ◌==◌, All, All-map, Option, none,
  arith, Bool-cases, Option-cases, inl, inr, ltb, get_or, ◌-◌, replicate, zero, suc,
}
use pacbot.Dashboard.{Server, WsClient, PidState, new_server, disconnected, drive_manual, minus_one}
use pacbot.Dashboard.Clients.{connect, without, disconnect, write_next, take_message}
use pacbot.Dashboard.Wire.{if_some-keeps}
use pacbot.Dashboard.Link.{send_to_robot, pid_payload, resend_loop, resend_pid_gains}
use pacbot.Dashboard.Control.{Floats}
use pacbot.Dashboard.Ipc.{
  direction, announce, move_externally, handle_external_direction, handle_ipc_line,
}
use pacbot.Dashboard.Watch.{watch, timeout}
use pacbot.Dashboard.Steps.{
  Step, datagram, handled, timed_out, announced, sent_to, noted_state, noted_drive, noted_speed,
  noted_gains, told, resending, commanded, directed, watched, connected_to, disconnected_from,
  written_to, Reach, start, next, IsLinked, Fits, IsConsistent,
}
use pacbot.Dashboard.Steps.Robot.{
  broadcast-IsConsistent, broadcast_state-IsConsistent, with_robot, Ensures,
}
use pacbot.Dashboard.Steps.Messages.{handle_udp-IsConsistent}
use pacbot.Dashboard.Steps.Consistent.{sent-IsConsistent}
use pacbot.Dashboard.Steps.Commands.{
  note_state-IsConsistent, note_drive-IsConsistent, note_speed-IsConsistent, keep_gains-Ensures,
  handle_ws_command-IsConsistent,
}

resend_loop-IsConsistent :
    (written : ℕ → Bool) (i : ℕ) (gains : List PidState) (s : Server)
    → IsConsistent s
    → IsConsistent (resend_loop written i gains s)
unfolding resend_loop
resend_loop-IsConsistent written i [] s h = h
resend_loop-IsConsistent written i (g ∷ gs) s h = elim (Bool-cases g.is_set) [
  | inr unset ↦ rw unset (resend_loop-IsConsistent written (i + 1) gs s h)
  | inl set ↦ elim (Option-cases (send_to_robot (written i) (pid_payload i g.kp g.ki g.kd) s)) [
    | inl fails ↦ rw (set, fails) h
    | inr (t, works) ↦
        rw (set, works)
          (resend_loop-IsConsistent written (i + 1) gs t
            (sent-IsConsistent (written i) _ s t h works))
  ]
]

announce-IsConsistent :
    (ui_dir : Option _) (speed : ℕ) (forwarded : Bool) (s : Server)
    → IsConsistent s
    → IsConsistent (announce ui_dir speed forwarded s)
unfolding announce
announce-IsConsistent ui_dir speed forwarded s h =
    broadcast-IsConsistent _ _ (broadcast-IsConsistent _ s h)

move_externally-IsConsistent :
    (written : Bool) (dir_code : ℕ) (ui_dir : Option _) (s : Server)
    → IsConsistent s
    → IsConsistent (move_externally written dir_code ui_dir s).0
unfolding move_externally
move_externally-IsConsistent written dir_code ui_dir s h =
    announce-IsConsistent ui_dir _ _ _
      (if_some-keeps IsConsistent _ h λ t works. sent-IsConsistent written _ s t h works)

handle_ipc_line-IsConsistent :
    (written : Bool) (line : List ℕ) (s : Server)
    → IsConsistent s
    → IsConsistent (handle_ipc_line written line s)
unfolding handle_ipc_line handle_external_direction
handle_ipc_line-IsConsistent written [] s h = h
handle_ipc_line-IsConsistent written (c ∷ _ ∷ _) s h = h
handle_ipc_line-IsConsistent written (c ∷ []) s h =
    if_some-keeps (λ (p : Server × Bool). IsConsistent p.0) (direction c) h
      λ d _. move_externally-IsConsistent written d.0 d.1 s h

watch-IsConsistent : (now : ℕ) (s : Server) → IsConsistent s → IsConsistent (watch now s)
unfolding watch
watch-IsConsistent now s h =
    elim (Bool-cases (s.robot.connected && ltb timeout (now - s.robot.last_seen))) [
      | inr kept ↦ rw kept h
      | inl lost ↦ rw lost (broadcast_state-IsConsistent _ (with_robot s _ h offline))
    ]
  where
    offline : IsLinked (record s.robot {
      connected = false;
      state = disconnected;
      drive_mode = drive_manual;
      addr = none;
    })
    offline = record {
      has_addr = λ on. ground arith;
      no_addr = λ off. refl;
      eight = h.linked.eight;
      disabled = h.linked.disabled;
    }

with_clients :
    (cs : List WsClient) (s : Server)
    → IsConsistent s
    → All Fits cs
    → IsConsistent (record s { clients = cs })
with_clients cs s h fit = record {
  linked = h.linked;
  three = h.three;
  speed_pos = h.speed_pos;
  speed_le = h.speed_le;
  queues = fit;
}

without-Fits : (id : ℕ) (cs : List WsClient) → All Fits cs → All Fits (without id cs)
unfolding without
without-Fits id [] fit = fit
without-Fits id (c ∷ cs) (here, there) = elim (Bool-cases (c.id == id)) [
  | inl removed ↦ rw removed (without-Fits id cs there)
  | inr kept ↦ rw kept (here, without-Fits id cs there)
]

take_message-Fits : (id : ℕ) (c : WsClient) → Fits c → Fits (take_message id c)
unfolding take_message
take_message-Fits id c fit = ground arith

write_next-IsConsistent : (id : ℕ) (s : Server) → IsConsistent s → IsConsistent (write_next id s)
unfolding write_next
write_next-IsConsistent id s h =
    with_clients _ s h
      (All-map Fits Fits (take_message id) (take_message-Fits id) s.clients h.queues)

get_or-replicate : (n j : ℕ) → j < n → get_or (replicate n minus_one) j 0 ≡ minus_one
get_or-replicate zero j lt = omega arith
get_or-replicate (suc n) zero lt = refl
get_or-replicate (suc n) (suc j) lt = get_or-replicate n j (omega arith)

empty_slots : (j : ℕ) → j < 8 → get_or (replicate 8 minus_one) j 0 ≡ minus_one
empty_slots j lt = get_or-replicate 8 j lt

new_server-IsConsistent : IsConsistent new_server
unfolding new_server
new_server-IsConsistent = record {
  linked = record {
    has_addr = λ on. ground arith;
    no_addr = λ off. refl;
    eight = refl;
    disabled = λ j lt off. ground (arith, empty_slots j lt);
  };
  three = refl;
  speed_pos = omega arith;
  speed_le = omega arith;
  queues = tt;
}

pub Step-IsConsistent :
    (fl : Floats)
    → ((x : fl.F64) → fl.to_byte x < 256)
    → (s t : Server) → IsConsistent s
    → Step fl s t
    → IsConsistent t
unfolding resend_pid_gains connect disconnect
Step-IsConsistent fl is_byte s t h (datagram bytes addr now b e) =
    handle_udp-IsConsistent bytes addr now s t b h e
Step-IsConsistent fl is_byte s t h (handled bytes addr now b {u} e f) =
    subst IsConsistent (sym f)
      (with_robot s u.robot h (handle_udp-IsConsistent bytes addr now s u b h e).linked)
Step-IsConsistent fl is_byte s t h (timed_out now e) =
    subst IsConsistent (sym e) (with_robot s _ h (watch-IsConsistent now s h).linked)
Step-IsConsistent fl is_byte s t h (announced n e) =
    subst IsConsistent (sym e) (broadcast-IsConsistent n s h)
Step-IsConsistent fl is_byte s t h (sent_to written bytes e) =
    sent-IsConsistent written bytes s t h e
Step-IsConsistent fl is_byte s t h (noted_state state e) =
    subst IsConsistent (sym e) (note_state-IsConsistent state s h)
Step-IsConsistent fl is_byte s t h (noted_drive mode e) =
    subst IsConsistent (sym e) (note_drive-IsConsistent (fl.to_byte mode) s h)
Step-IsConsistent fl is_byte s t h (noted_speed dir spd e) =
    subst IsConsistent (sym e) (note_speed-IsConsistent fl is_byte dir spd s h)
Step-IsConsistent fl is_byte s t h (noted_gains i g e) =
    subst Ensures e (keep_gains-Ensures fl i g s h)
Step-IsConsistent fl is_byte s t h (told e) =
    subst IsConsistent (sym e) (broadcast_state-IsConsistent s h)
Step-IsConsistent fl is_byte s t h (resending written e) =
    subst IsConsistent (sym e) (resend_loop-IsConsistent written 0 s.pid_gains s h)
Step-IsConsistent fl is_byte s t h (commanded written msg e) =
    handle_ws_command-IsConsistent fl is_byte written msg s t h e
Step-IsConsistent fl is_byte s t h (directed written line e) =
    subst IsConsistent (sym e) (handle_ipc_line-IsConsistent written line s h)
Step-IsConsistent fl is_byte s t h (watched now e) =
    subst IsConsistent (sym e) (watch-IsConsistent now s h)
Step-IsConsistent fl is_byte s t h (connected_to id e) =
    subst IsConsistent (sym e) (with_clients _ s h (omega arith, h.queues))
Step-IsConsistent fl is_byte s t h (disconnected_from id e) =
    subst IsConsistent (sym e) (with_clients _ s h (without-Fits id s.clients h.queues))
Step-IsConsistent fl is_byte s t h (written_to id e) =
    subst IsConsistent (sym e) (write_next-IsConsistent id s h)

-- In every state that the server reaches, with other events between the parts of a command or of a
-- datagram too: a robot that is connected has an address, and one that is not has none; there are eight
-- sensors, and those of disabled slots read -1; three loops have gains; the last cardinal speed is from 1
-- to 255; no client has more than 64 messages waiting. The assumption on the language's floats is that
-- a byte is below 256.
pub Reach-IsConsistent :
    (fl : Floats) → ((x : fl.F64) → fl.to_byte x < 256) → (s : Server) → Reach fl s → IsConsistent s
Reach-IsConsistent fl is_byte s start = new_server-IsConsistent
Reach-IsConsistent fl is_byte s (next r step) =
    Step-IsConsistent fl is_byte _ s (Reach-IsConsistent fl is_byte _ r) step
