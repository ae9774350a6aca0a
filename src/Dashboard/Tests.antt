-- ===== src/Dashboard/Tests.antt =====
-- The dashboard's server on small inputs.
use pacbot.Prelude.{
  ℕ, ◌+◌, ◌%◌, ◌≡◌, ◌≢◌, ◌<◌, ◌↔◌, ◌⊎◌, refl, List, [], ◌∷◌, Bool, true, false, none, some, arith,
  length, get_or, ltb,
}
use pacbot.Dashboard.{Server, new_server, no_gains, logging, cmd_cardinal_move}
use pacbot.Dashboard.Wire.{uint32_at}
use pacbot.Dashboard.Clients.{broadcast, broadcast_state}
use pacbot.Dashboard.Telemetry.{handle_udp, dispatch, see, is_new_addr, handle_alive}
use pacbot.Dashboard.Telemetry.Panics.{CrashesBy, handle_udp-none_iff}
use pacbot.Dashboard.Telemetry.Sensors.{reading, handle_udp-sensors}
use pacbot.Dashboard.Link.{pid_payload, resend_pid_gains}
use pacbot.Dashboard.Control.{
  Floats, Msg, num, pos, as_num, send_pid, cardinal_move, handle_ws_command,
}
use pacbot.Dashboard.Gains.{
  set_payloads, written_to, resend_pid_gains_lem, pid_payload-uint32_at, send_pid-resend,
}
use pacbot.Dashboard.Ipc.{handle_external_direction, handle_ipc_line}
use pacbot.Dashboard.Watch.{watch, timeout}
use pacbot.Dashboard.Steps.{Reach, start, next, datagram, watched, IsConsistent}
use pacbot.Dashboard.Steps.Run.{Reach-IsConsistent}
use pacbot.Dashboard.Offline.{SameLink, offline_lem}
use pacbot.Dashboard.Directions.{
  letter, handle_external_direction-cardinal_move, handle_external_direction-error,
}
use pacbot.Dashboard.Timeout.{watch-handle_udp}

-- The numbers of JSON as natural numbers.
abbrev naturals : Floats
naturals = record {
  F64 = ℕ;
  to_int = pos;
  to_byte = λ n. n % 256;
  to_int16 = λ n. n % 65536;
  to_uint16 = λ n. n % 65536;
  float32_bits = λ n. n % 4294967296;
  lt_ten = λ n. ltb n 10;
}

below : (n : ℕ) → naturals.to_byte n < 256
below n = omega arith

-- A server with a robot that has gains for its second loop.
abbrev here : Server
here = record new_server {
  robot = record new_server.robot { connected = true; addr = some "10.0.0.5:9000" };
  pid_gains = no_gains ∷ record { is_set = true; kp = 1; ki = 2; kd = 3 } ∷ no_gains ∷ [];
}

handle_udp-none_iff_example :
    (handle_udp (4 ∷ 1 ∷ 255 ∷ 255 ∷ []) "10.0.0.5:9000" 0 here ≡ none)
    ↔ CrashesBy (4 ∷ 1 ∷ 255 ∷ 255 ∷ [])
handle_udp-none_iff_example =
    handle_udp-none_iff (4 ∷ 1 ∷ 255 ∷ 255 ∷ []) "10.0.0.5:9000" 0 here
      (omega arith, (omega arith, (omega arith, (omega arith, tt))))

-- Time 7, two sensors, of which one fits.
abbrev readings : List ℕ
readings = 7 ∷ 0 ∷ 0 ∷ 0 ∷ 2 ∷ 44 ∷ 1 ∷ []

handle_udp-sensors_example :
    (t : Server) × (b : Bool) × (handle_udp (3 ∷ readings) "10.0.0.5:9000" 0 here ≡ some (t, b))
    × ((j : ℕ)
        → j < 8
        → get_or t.robot.sensors j 0
          ≡ reading
              (3 ∷ readings)
              here.robot.sensor_mask
              (get_or readings 4 0)
              j
              (get_or here.robot.sensors j 0))
    × (t.robot.state ≡ logging)
    × (t.robot.sensor_mask ≡ here.robot.sensor_mask)
unfolding new_server
handle_udp-sensors_example = handle_udp-sensors readings "10.0.0.5:9000" 0 here (omega arith) refl

resend_pid_gains_lem_example :
    resend_pid_gains (λ k. true) here
    ≡ record here { sent = written_to "10.0.0.5:9000" (set_payloads 0 here.pid_gains) here.sent }
resend_pid_gains_lem_example =
    resend_pid_gains_lem (λ k. true) here "10.0.0.5:9000" (λ k. refl) refl

pid_payload-uint32_at_example :
    let bytes = pid_payload 1 1 2 3 in
    (length bytes ≡ 14)
    × (get_or bytes 0 0 ≡ 0x1B)
    × (get_or bytes 1 0 ≡ 1)
    × (uint32_at bytes 2 ≡ some 1)
    × (uint32_at bytes 6 ≡ some 2)
    × (uint32_at bytes 10 ≡ some 3)
pid_payload-uint32_at_example =
    pid_payload-uint32_at 1 1 2 3 (omega arith) (omega arith) (omega arith)

send_pid-resend_example :
    (t : Server) × (send_pid naturals true 2 4 5 6 here ≡ some t)
    × (t.sent ≡ ("10.0.0.5:9000", pid_payload 2 4 5 6) ∷ here.sent)
    × (get_or t.pid_gains 2 no_gains ≡ record { is_set = true; kp = 4; ki = 5; kd = 6 })
    × ((j : ℕ) → j ≢ 2 → get_or t.pid_gains j no_gains ≡ get_or here.pid_gains j no_gains)
send_pid-resend_example =
    send_pid-resend naturals 2 2 4 5 6 here "10.0.0.5:9000" refl refl (omega arith) refl refl

-- After a message at time 5 that is too short, and after the watcher's tick six seconds later.
abbrev heard : Server
heard = record new_server {
  robot = record new_server.robot { connected = true; addr = some "10.0.0.5:9000"; last_seen = 5 };
}

heard_lem : handle_udp (1 ∷ []) "10.0.0.5:9000" 5 new_server ≡ some (heard, true)
unfolding handle_udp dispatch see is_new_addr handle_alive new_server
heard_lem = refl

heard-reached : Reach naturals heard
heard-reached = next start (datagram (1 ∷ []) "10.0.0.5:9000" 5 true heard_lem)

abbrev lost : Server
lost = watch 6000000000 heard

lost-reached : Reach naturals lost
lost-reached = next heard-reached (watched 6000000000 refl)

Reach-IsConsistent_example : IsConsistent lost
Reach-IsConsistent_example = Reach-IsConsistent naturals below lost lost-reached

offline_lem_example :
    ((written : Bool) (msg : Msg naturals)
      → handle_ws_command naturals written msg lost ≡ some lost)
    × ((written : ℕ → Bool) → resend_pid_gains written lost ≡ lost)
    × ((written : Bool) (line : List ℕ) → SameLink lost (handle_ipc_line written line lost))
unfolding new_server watch broadcast_state broadcast
offline_lem_example = offline_lem naturals below lost lost-reached refl

-- A cardinal move in direction 1 with speed 1.
abbrev move : Msg naturals
move key = some (num 1)

handle_external_direction-cardinal_move_example :
    (handle_external_direction true (letter 4) (cardinal_move naturals true move here)).0.sent
    ≡ ("10.0.0.5:9000", cmd_cardinal_move ∷ 4 ∷ 1 ∷ [])
      ∷ ("10.0.0.5:9000", cmd_cardinal_move ∷ 1 ∷ 1 ∷ [])
      ∷ here.sent
unfolding as_num
handle_external_direction-cardinal_move_example =
    handle_external_direction-cardinal_move naturals move here "10.0.0.5:9000" 1 1 4 refl refl refl
      (omega arith) (omega arith) (omega arith) (omega arith)

handle_external_direction-error_example :
    ((handle_external_direction true 113 here).1 ≡ false)
    ↔ (((k : ℕ) → k < 5 → ¬ (113 ≡ letter k)) ⊎ ((here.robot.addr ≡ none) ⊎ (true ≡ false)))
handle_external_direction-error_example = handle_external_direction-error true 113 here

watch-handle_udp_example :
    ((watch 6000000000 heard).robot.connected ≡ false) ↔ (5 + timeout < 6000000000)
watch-handle_udp_example =
    watch-handle_udp naturals below 1 [] "10.0.0.5:9000" 5 6000000000 new_server heard true start
      heard_lem
