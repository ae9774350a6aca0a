-- ===== src/Dashboard.antt =====
-- dashboard/server/main.go: the state of the server between the robot and the webapp. A float32 is
-- its bit pattern, an int16 its two's complement bit pattern, an address its text. A message to the
-- webapp is what the code hands to the JSON encoder.
pub mod Wire
pub mod Clients
pub mod Link
pub mod Telemetry
pub mod Control
pub mod Ipc
pub mod Watch
pub mod Gains
pub mod Steps
pub mod Offline
pub mod Directions
pub mod Timeout
mod Tests
use Prim.Native.String.{String}
use pacbot.Prelude.{ℕ, List, [], ◌∷◌, Bool, true, false, Option, none, some, replicate, ◌%◌}

-- Robot to server.
abbrev pub msg_alive : ℕ
msg_alive = 0x01

abbrev pub msg_device_info : ℕ
msg_device_info = 0x02

abbrev pub msg_sensor_data : ℕ
msg_sensor_data = 0x03

abbrev pub msg_log : ℕ
msg_log = 0x04

abbrev pub msg_pong : ℕ
msg_pong = 0x05

-- Server to robot.
abbrev pub cmd_start_log : ℕ
cmd_start_log = 0x11

abbrev pub cmd_set_motor : ℕ
cmd_set_motor = 0x12

abbrev pub cmd_set_interval : ℕ
cmd_set_interval = 0x13

abbrev pub cmd_ping : ℕ
cmd_ping = 0x14

abbrev pub cmd_set_motors : ℕ
cmd_set_motors = 0x15

abbrev pub cmd_status : ℕ
cmd_status = 0x16

abbrev pub cmd_set_drive_mode : ℕ
cmd_set_drive_mode = 0x17

abbrev pub cmd_cardinal_move : ℕ
cmd_cardinal_move = 0x18

abbrev pub cmd_calibrate : ℕ
cmd_calibrate = 0x19

abbrev pub cmd_stop_log : ℕ
cmd_stop_log = 0x1A

abbrev pub cmd_set_pid : ℕ
cmd_set_pid = 0x1B

abbrev pub cmd_set_sensor_offsets : ℕ
cmd_set_sensor_offsets = 0x1C

abbrev pub drive_manual : ℕ
drive_manual = 0

-- The texts of the robot's state.
pub data Phase : Type 0 where
  disconnected idle setup_done logging : Phase

pub record RobotState : Type 0 where
  pub connected : Bool
  pub state : Phase
  pub uptime_ms : ℕ
  pub sensor_mask : ℕ
  pub imu_present : Bool
  pub num_motors : ℕ
  pub timestamp_ms : ℕ
  pub sensors : List ℕ
  pub yaw : ℕ
  pub pitch : ℕ
  pub roll : ℕ
  pub drive_mode : ℕ
  pub addr : Option String
  pub last_seen : ℕ  -- nanoseconds

pub record PidState : Type 0 where
  pub is_set : Bool
  pub kp : ℕ
  pub ki : ℕ
  pub kd : ℕ

-- A known severity by its name, or "LVL" with its number.
pub data Severity : Type 0 where
  named : String → Severity
  lvl : ℕ → Severity

-- The text of a log message: the robot's bytes, or the line on a direction from the IPC socket, with
-- its label, speed, and whether it was forwarded.
pub data LogText : Type 0 where
  raw : List ℕ → LogText
  ipc_line : String → ℕ → Bool → LogText

-- A state notice holds the robot that buildStateJSON reads; the rounding of the angles to two digits
-- is float arithmetic and left out. `no_bytes` is the empty message of an encoder that failed.
pub data Notice : Type 0 where
  state_notice : RobotState → Notice
  no_bytes : Notice
  device_info : ℕ → Bool → ℕ → Notice
  log_notice : Severity → LogText → Notice
  pong : ℕ → Notice
  external_direction : Option String → Notice

-- The channel of a client holds 64 messages.
pub record WsClient : Type 0 where
  pub id : ℕ
  pub send : List Notice

-- `sent` collects the datagrams written to the UDP socket, the latest first; `clients` are those in
-- the map of clients.
pub record Server : Type 0 where
  pub robot : RobotState
  pub clients : List WsClient
  pub pid_gains : List PidState
  pub last_cardinal_speed : ℕ
  pub sent : List (String × List ℕ)

abbrev pub minus_one : ℕ
minus_one = 65535

abbrev pub no_gains : PidState
no_gains = record { is_set = false; kp = 0; ki = 0; kd = 0 }

unfoldable pub new_server : Server
new_server = record {
  robot = record {
    connected = false;
    state = disconnected;
    uptime_ms = 0;
    sensor_mask = 0x0F;
    imu_present = false;
    num_motors = 4;
    timestamp_ms = 0;
    sensors = replicate 8 minus_one;
    yaw = 0;
    pitch = 0;
    roll = 0;
    drive_mode = drive_manual;
    addr = none;
    last_seen = 0;
  };
  clients = [];
  pid_gains = no_gains ∷ no_gains ∷ no_gains ∷ [];
  last_cardinal_speed = 128;
  sent = [];
}
