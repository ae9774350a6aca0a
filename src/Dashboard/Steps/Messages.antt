-- ===== src/Dashboard/Steps/Messages.antt =====
-- dashboard/server/main.go: the messages of the robot and consistency.
use Prim.Native.String.{String}
use mathlib.Core.Path.{subst}
use pacbot.Prelude.{
  ℕ, ◌+◌, ◌≡◌, refl, sym, ap, ◌∙◌, List, [], ◌∷◌, Bool, false, some, length, get_or, if◌then◌else◌,
  ◌==◌, leb, ltb, ◌&&◌, not, arith, Bool-cases, Option-cases, inl, inr,
}
use pacbot.Bits.{get_bit}
use pacbot.Dashboard.{RobotState, Server, idle, setup_done, logging}
use pacbot.Dashboard.Wire.{bind-keeps, byte_at, uint16_at, uint32_at}
use pacbot.Dashboard.Telemetry.{
  see, clear_sensors, handle_alive, handle_device_info, handle_sensor_data, handle_log, handle_pong,
  dispatch, handle_udp, log_text,
}
use pacbot.Dashboard.Telemetry.Sensors.{handle_sensor_data_lem, handle_sensor_data-short, reading}
use pacbot.Engine.Reach.{some_inj}
use pacbot.Dashboard.Steps.{IsLinked, IsConsistent}
use pacbot.Dashboard.Steps.Robot.{
  broadcast-IsConsistent, broadcast_state-IsConsistent, with_robot, see-IsLinked, clear_sensors_lem,
  SameSlots-IsLinked, Ensures,
}

module _ (bytes : List ℕ) (s : Server) (h : IsConsistent s) where
  handle_alive-Ensures : Ensures (handle_alive bytes s)
  unfolding handle_alive
  handle_alive-Ensures = elim (Bool-cases (ltb (length bytes) 5)) [
    | inl short ↦ rw short h
    | inr long ↦ rw long (
        bind-keeps Ensures (uint32_at bytes 1) tt λ t _. broadcast_state-IsConsistent _ (
          with_robot s (record s.robot { uptime_ms = t; state = idle }) h
            (SameSlots-IsLinked s.robot _ h.linked (refl, refl, refl, refl))))
  ]

  handle_pong-Ensures : Ensures (handle_pong bytes s)
  unfolding handle_pong
  handle_pong-Ensures = elim (Bool-cases (ltb (length bytes) 5)) [
    | inl short ↦ rw short h
    | inr long ↦
        rw long (bind-keeps Ensures (uint32_at bytes 1) tt λ t _. broadcast-IsConsistent _ s h)
  ]

  handle_log-Ensures : Ensures (handle_log bytes s)
  unfolding handle_log
  handle_log-Ensures = elim (Bool-cases (ltb (length bytes) 4)) [
    | inl short ↦ rw short h
    | inr long ↦ rw long (
        bind-keeps Ensures (byte_at bytes 1) tt λ severity _.
          bind-keeps Ensures (uint16_at bytes 2) tt
            λ n _. bind-keeps Ensures (log_text bytes n) tt λ text _. broadcast-IsConsistent _ s h)
  ]

  handle_device_info-Ensures : Ensures (handle_device_info bytes s)
  unfolding handle_device_info
  handle_device_info-Ensures = elim (Bool-cases (ltb (length bytes) 4)) [
    | inl short ↦ rw short h
    | inr long ↦ rw long (
        bind-keeps Ensures (byte_at bytes 1) tt λ mask _.
          bind-keeps Ensures (byte_at bytes 2) tt λ imu _.
            bind-keeps Ensures (byte_at bytes 3) tt λ motors _.
              broadcast_state-IsConsistent _
                (broadcast-IsConsistent _ _ (with_robot s _ h (new_mask mask imu motors))))
  ]
    where
      new_mask :
          (mask imu motors : ℕ)
          → IsLinked (record s.robot {
            sensor_mask = mask;
            imu_present = not (imu == 0);
            num_motors = motors;
            state = setup_done;
            sensors = clear_sensors mask 8 0 s.robot.sensors;
          })
      new_mask mask imu motors =
          let (len, at) =
            clear_sensors_lem mask 8 0 s.robot.sensors (omega (arith, h.linked.eight)) in
          record {
            has_addr = h.linked.has_addr;
            no_addr = h.linked.no_addr;
            eight = len ∙ h.linked.eight;
            disabled = λ j lt off. ground (arith, at j);
          }

  handle_sensor_data-Ensures : Ensures (handle_sensor_data bytes s)
  handle_sensor_data-Ensures = elim (Bool-cases (ltb (length bytes) 6)) [
    | inl short ↦ rw (handle_sensor_data-short bytes s short) h
    | inr long ↦
        let (t, r, works, e, same, after) =
          handle_sensor_data_lem bytes s (ground arith) h.linked.eight in
        rw works (
          subst IsConsistent (sym e)
            (broadcast_state-IsConsistent _ (with_robot s r h (sensed r same after.0 after.1))))
  ]
    where
      sensed :
          (r : RobotState)
          → (r ≡ record s.robot {
            timestamp_ms = r.timestamp_ms;
            state = logging;
            sensors = r.sensors;
            yaw = r.yaw;
            pitch = r.pitch;
            roll = r.roll;
          })
          → length r.sensors ≡ length s.robot.sensors
          → ((j : ℕ)
              → get_or r.sensors j 0 ≡ (
                  if leb 0 j && ltb j (0 + 8)
                  then reading bytes s.robot.sensor_mask
                      (get_or bytes 5 0)
                      j
                      (get_or s.robot.sensors j 0)
                  else get_or s.robot.sensors j 0))
          → IsLinked r
      sensed r same len at = record {
        has_addr = λ on.
            let (a, ea) = h.linked.has_addr (sym up ∙ on) in
            (a, ap (λ (x : RobotState). x.addr) same ∙ ea);
        no_addr = λ off. ap (λ (x : RobotState). x.addr) same ∙ h.linked.no_addr (sym up ∙ off);
        eight = len ∙ h.linked.eight;
        disabled = λ j lt off. let off' = mask_off j off in ground (arith, at j);
      }
        where
          up : r.connected ≡ s.robot.connected
          up = ap (λ (x : RobotState). x.connected) same

          mask_off :
              (j : ℕ) → get_bit r.sensor_mask j ≡ false → get_bit s.robot.sensor_mask j ≡ false
          mask_off j off = sym (ap (λ (x : RobotState). get_bit x.sensor_mask j) same) ∙ off

  dispatch-Ensures : (n : ℕ) → Ensures (dispatch n bytes s)
  unfolding dispatch
  dispatch-Ensures n = ground (
    arith, handle_alive-Ensures, handle_device_info-Ensures, handle_sensor_data-Ensures,
    handle_log-Ensures, handle_pong-Ensures, h,
  )

abbrev first : Server × Bool → Server
first p = p.0

pub handle_udp-IsConsistent :
    (bytes : List ℕ) (addr : String) (now : ℕ) (s t : Server) (b : Bool)
    → IsConsistent s
    → handle_udp bytes addr now s ≡ some (t, b)
    → IsConsistent t
unfolding handle_udp
handle_udp-IsConsistent [] addr now s t b h e = subst IsConsistent (ap first (some_inj e)) h
handle_udp-IsConsistent (n ∷ rest) addr now s t b h e =
    elim (Option-cases (dispatch n (n ∷ rest) (record s { robot = see addr now s.robot }))) [
      | inl panics ↦ absurd (cc (rw panics at e))
      | inr (u, works) ↦ subst IsConsistent (ap first (some_inj (rw works at e))) (
          subst Ensures works (
            dispatch-Ensures (n ∷ rest) (record s { robot = see addr now s.robot })
              (with_robot s (see addr now s.robot) h (see-IsLinked addr now s.robot h.linked)) n))
    ]
