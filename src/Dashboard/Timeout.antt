-- ===== src/Dashboard/Timeout.antt =====
-- dashboard/server/main.go: the watcher after a message of the robot.
use Prim.Native.String.{String}
use mathlib.Core.Path.{subst}
use pacbot.Prelude.{
  ℕ, ◌+◌, ◌-◌, ◌≡◌, ◌<◌, ◌↔◌, refl, ap, ◌∙◌, List, ◌∷◌, Bool, true, false, ◌&&◌, Option, none, some,
  arith, Bool-cases, Option-cases, inl, inr, ltb, length,
}
use pacbot.Dashboard.{Server, RobotState}
use pacbot.Dashboard.Wire.{bind-keeps, byte_at, uint16_at, uint32_at}
use pacbot.Dashboard.Clients.{broadcast, broadcast_state}
use pacbot.Dashboard.Telemetry.{
  see, handle_alive, handle_device_info, handle_sensor_data, handle_log, handle_pong, dispatch,
  handle_udp, log_text,
}
use pacbot.Dashboard.Telemetry.Sensors.{handle_sensor_data_lem, handle_sensor_data-short}
use pacbot.Dashboard.Control.{Floats}
use pacbot.Dashboard.Watch.{watch, timeout}
use pacbot.Dashboard.Steps.{Reach}
use pacbot.Dashboard.Steps.Run.{Reach-IsConsistent}
use pacbot.Engine.Reach.{some_inj}

-- Connected, and heard last at a time.
abbrev Heard : ℕ → RobotState → Type 0
Heard at r = (r.connected ≡ true) × (r.last_seen ≡ at)

abbrev AllHeard : ℕ → Option Server → Type 0
AllHeard at none = Unit
AllHeard at (some t) = Heard at t.robot

module _ (bytes : List ℕ) (at : ℕ) (s : Server) (h : Heard at s.robot) where
  handle_alive-Heard : AllHeard at (handle_alive bytes s)
  unfolding handle_alive broadcast_state broadcast
  handle_alive-Heard = elim (Bool-cases (ltb (length bytes) 5)) [
    | inl short ↦ rw short h
    | inr long ↦ rw long (bind-keeps (AllHeard at) (uint32_at bytes 1) tt λ t _. h)
  ]

  handle_pong-Heard : AllHeard at (handle_pong bytes s)
  unfolding handle_pong broadcast
  handle_pong-Heard = elim (Bool-cases (ltb (length bytes) 5)) [
    | inl short ↦ rw short h
    | inr long ↦ rw long (bind-keeps (AllHeard at) (uint32_at bytes 1) tt λ t _. h)
  ]

  handle_log-Heard : AllHeard at (handle_log bytes s)
  unfolding handle_log broadcast
  handle_log-Heard = elim (Bool-cases (ltb (length bytes) 4)) [
    | inl short ↦ rw short h
    | inr long ↦ rw long (
        bind-keeps (AllHeard at) (byte_at bytes 1) tt λ severity _.
          bind-keeps (AllHeard at) (uint16_at bytes 2) tt
            λ n _. bind-keeps (AllHeard at) (log_text bytes n) tt λ text _. h)
  ]

  handle_device_info-Heard : AllHeard at (handle_device_info bytes s)
  unfolding handle_device_info broadcast_state broadcast
  handle_device_info-Heard = elim (Bool-cases (ltb (length bytes) 4)) [
    | inl short ↦ rw short h
    | inr long ↦ rw long (
        bind-keeps (AllHeard at) (byte_at bytes 1) tt λ mask _.
          bind-keeps (AllHeard at) (byte_at bytes 2) tt
            λ imu _. bind-keeps (AllHeard at) (byte_at bytes 3) tt λ motors _. h)
  ]

  handle_sensor_data-Heard : length s.robot.sensors ≡ 8 → AllHeard at (handle_sensor_data bytes s)
  unfolding broadcast_state broadcast
  handle_sensor_data-Heard eight = elim (Bool-cases (ltb (length bytes) 6)) [
    | inl short ↦ rw (handle_sensor_data-short bytes s short) h
    | inr long ↦
        let (t, r, works, e, same, after) = handle_sensor_data_lem bytes s (ground arith) eight in
        rw (works, e)
          (
            ap (λ (x : RobotState). x.connected) same ∙ h.0,
            ap (λ (x : RobotState). x.last_seen) same ∙ h.1,
          )
  ]

  dispatch-Heard : (n : ℕ) → length s.robot.sensors ≡ 8 → AllHeard at (dispatch n bytes s)
  unfolding dispatch
  dispatch-Heard n eight = ground (
    arith,
    handle_alive-Heard,
    handle_device_info-Heard,
    handle_sensor_data-Heard eight,
    handle_log-Heard,
    handle_pong-Heard,
    h,
  )

handle_udp-Heard :
    (n : ℕ) (rest : List ℕ) (addr : String) (at : ℕ) (s u : Server) (b : Bool)
    → length s.robot.sensors ≡ 8
    → handle_udp (n ∷ rest) addr at s ≡ some (u, b)
    → Heard at u.robot
unfolding handle_udp see
handle_udp-Heard n rest addr at s u b eight e =
    elim (Option-cases (dispatch n (n ∷ rest) (record s { robot = see addr at s.robot }))) [
      | inl panics ↦ absurd (cc (rw panics at e))
      | inr (t, works) ↦
          subst (λ (x : Server). Heard at x.robot)
            (ap (λ (p : Server × Bool). p.0) (some_inj (rw works at e)))
            (subst (AllHeard at) works (
              dispatch-Heard (n ∷ rest) at (record s { robot = see addr at s.robot }) (refl, refl) n
                eight))
    ]

-- In every state that the server reaches, after a message of the robot that was handled at a time, a
-- tick of the watcher finds the robot lost exactly if more than five seconds have passed since.
-- The one assumption on the language's floats is that a byte is below 256.
pub watch-handle_udp :
    (fl : Floats)
    → ((x : fl.F64) → fl.to_byte x < 256)
    → (n : ℕ) (rest : List ℕ) (addr : String) (at now : ℕ) (s u : Server) (b : Bool) → Reach fl s
    → handle_udp (n ∷ rest) addr at s ≡ some (u, b)
    → ((watch now u).robot.connected ≡ false) ↔ (at + timeout < now)
unfolding watch broadcast_state broadcast
watch-handle_udp fl is_byte n rest addr at now s u b r e =
    let (on, seen) =
      handle_udp-Heard n rest addr at s u b (Reach-IsConsistent fl is_byte s r).linked.eight e in
    elim (Bool-cases (u.robot.connected && ltb timeout (now - u.robot.last_seen))) [
      | inl lost ↦ rw lost (λ _. ground arith, λ _. refl)
      | inr kept ↦ rw kept (λ off. absurd (cc (on, off)), λ late. ground arith)
    ]
