-- ===== src/Dashboard/Telemetry.antt =====
-- dashboard/server/main.go: handleUDP, the messages of the robot. `none` stands for a panic; the flag
-- of a result says that resendPidGains was started. The handler holds the lock of the robot but for
-- its broadcasts, between which and the rest other events may come (`Dashboard.Steps`).
pub mod Reads
pub mod Panics
pub mod Sensors
use Prim.Native.String.{String}
use text.Mathlib.Text.{◌==◌ as str_eq}
use pacbot.Prelude.{
  ℕ, zero, suc, ◌+◌, List, [], ◌∷◌, Bool, true, false, not, ◌&&◌, ◌||◌, ◌==◌, ltb, leb, ◌%◌,
  if◌then◌else◌, Option, none, some, length, set, replicate,
}
use pacbot.Bits.{get_bit}
use pacbot.Dashboard.{
  RobotState, Server, Severity, named, lvl, raw, device_info, log_notice, pong, idle, setup_done,
  logging, minus_one, msg_alive, msg_device_info, msg_sensor_data, msg_log, msg_pong,
}
use pacbot.Dashboard.Wire.{◌>>=◌, slice, byte_at, uint16, uint32, uint16_at, uint32_at}
use pacbot.Dashboard.Clients.{broadcast, broadcast_state}

-- A first message, or one from another address, starts the resending of the gains.
unfoldable pub is_new_addr : String → RobotState → Bool
is_new_addr addr r = elim r.addr [ none ↦ true | some a ↦ not (str_eq a addr) ]

unfoldable pub see : String → ℕ → RobotState → RobotState
see addr now r = record r {
  addr = (if is_new_addr addr r then some addr else r.addr);
  connected = true;
  last_seen = now;
}

-- MsgDeviceInfo: the enabled slots become 0, the others -1.
unfoldable pub clear_sensors : ℕ → ℕ → ℕ → List ℕ → List ℕ
clear_sensors mask zero i sensors = sensors
clear_sensors mask (suc n) i sensors =
    clear_sensors mask n (i + 1) (set sensors i (if get_bit mask i then 0 else minus_one))

unfoldable pub handle_alive : List ℕ → Server → Option Server
handle_alive bytes s = if ltb (length bytes) 5 then some s else do
  t ← uint32_at bytes 1
  some (broadcast_state (record s { robot = record s.robot { uptime_ms = t; state = idle } }))

unfoldable pub handle_device_info : List ℕ → Server → Option Server
handle_device_info bytes s = if ltb (length bytes) 4 then some s else do
  mask ← byte_at bytes 1
  imu ← byte_at bytes 2
  motors ← byte_at bytes 3
  let r = record s.robot {
    sensor_mask = mask;
    imu_present = not (imu == 0);
    num_motors = motors;
    state = setup_done;
    sensors = clear_sensors mask 8 0 s.robot.sensors;
  }
  some (
      broadcast_state
        (broadcast (device_info mask (not (imu == 0)) motors) (record s { robot = r })))

-- One slot: the sensors, the position and the number of values read after it.
unfoldable pub read_slot : List ℕ → ℕ → ℕ → ℕ → ℕ → ℕ → List ℕ → Option (List ℕ × ℕ × ℕ)
read_slot bytes mask count i pos idx sensors =
    if not (get_bit mask i)
    then some (set sensors i minus_one, pos, idx)
    else if not (ltb idx count && leb (pos + 2) (length bytes))
    then some (sensors, pos, idx)
    else do v ← uint16_at bytes pos; some (set sensors i v, pos + 2, idx + 1)

-- The loop over the slots, `n` of them left from slot `i` on: the sensors and the position after it.
unfoldable pub read_sensors : List ℕ → ℕ → ℕ → ℕ → ℕ → ℕ → ℕ → List ℕ → Option (List ℕ × ℕ)
read_sensors bytes mask count zero i pos idx sensors = some (sensors, pos)
read_sensors bytes mask count (suc n) i pos idx sensors = do
  slot ← read_slot bytes mask count i pos idx sensors
  read_sensors bytes mask count n (i + 1) slot.1 slot.2 slot.0

-- The angles after the sensors, behind a flag.
unfoldable pub read_imu : List ℕ → ℕ → RobotState → Option RobotState
read_imu bytes pos r = if not (ltb pos (length bytes)) then some r else do
  flag ← byte_at bytes pos
  if flag == 0 || not (leb (pos + 1 + 12) (length bytes)) then some r else do
    yaw ← uint32_at bytes (pos + 1)
    pitch ← uint32_at bytes (pos + 5)
    roll ← uint32_at bytes (pos + 9)
    some (record r { yaw = yaw; pitch = pitch; roll = roll })

unfoldable pub handle_sensor_data : List ℕ → Server → Option Server
handle_sensor_data bytes s = if ltb (length bytes) 6 then some s else do
  t ← uint32_at bytes 1
  count ← byte_at bytes 5
  read ← read_sensors bytes s.robot.sensor_mask count 8 0 6 0 s.robot.sensors
  r ← read_imu bytes read.1 (record s.robot { timestamp_ms = t; state = logging; sensors = read.0 })
  some (broadcast_state (record s { robot = r }))

unfoldable pub severity_name : ℕ → Severity
severity_name n =
    if n == 0
    then named "DEBUG"
    else if n == 1
    then named "INFO"
    else if n == 2
    then named "WARN"
    else if n == 3
    then named "ERROR"
    else lvl n

-- `4+textLen` is computed on uint16.
unfoldable pub text_end : ℕ → ℕ
text_end text_len = (4 + text_len) % 65536

-- `text = string(data[4 : 4+textLen])`, if that end lies within the message.
unfoldable pub log_text : List ℕ → ℕ → Option (List ℕ)
log_text bytes text_len =
    if leb (text_end text_len) (length bytes) then slice bytes 4 (text_end text_len) else some []

unfoldable pub handle_log : List ℕ → Server → Option Server
handle_log bytes s = if ltb (length bytes) 4 then some s else do
  severity ← byte_at bytes 1
  text_len ← uint16_at bytes 2
  text ← log_text bytes text_len
  some (broadcast (log_notice (severity_name severity) (raw text)) s)

unfoldable pub handle_pong : List ℕ → Server → Option Server
handle_pong bytes s =
    if ltb (length bytes) 5 then some s else do t ← uint32_at bytes 1; some (broadcast (pong t) s)

-- The switch on the first byte.
unfoldable pub dispatch : ℕ → List ℕ → Server → Option Server
dispatch msg_type bytes s =
    if msg_type == msg_alive
    then handle_alive bytes s
    else if msg_type == msg_device_info
    then handle_device_info bytes s
    else if msg_type == msg_sensor_data
    then handle_sensor_data bytes s
    else if msg_type == msg_log
    then handle_log bytes s
    else if msg_type == msg_pong
    then handle_pong bytes s
    else some s

unfoldable pub handle_udp : List ℕ → String → ℕ → Server → Option (Server × Bool)
handle_udp [] addr now s = some (s, false)
handle_udp (msg_type ∷ rest) addr now s = do
  t ← dispatch msg_type (msg_type ∷ rest) (record s { robot = see addr now s.robot })
  some (t, is_new_addr addr s.robot)
