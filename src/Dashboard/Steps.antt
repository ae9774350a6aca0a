-- ===== src/Dashboard/Steps.antt =====
-- dashboard/server/main.go: the events of the server in any order: a datagram, a command, a line of
-- the IPC socket, a tick of the watcher, a resending of the gains, and the life of the clients. They take
-- the locks more than once, so their parts are events too, and any event may come between them: what
-- handleUDP and the watcher do under the lock of the robot, before their broadcasts; a send; what a
-- command notes after it; a broadcast. A whole datagram, command, line or tick as one event is the
-- case in which nothing comes between.
pub mod Robot
pub mod Messages
pub mod Consistent
pub mod Commands
pub mod Run
use Prim.Native.String.{String}
use pacbot.Prelude.{
  ℕ, List, ◌≤◌, ◌<◌, ◌≡◌, Bool, true, false, Option, none, some, All, length, get_or,
}
use pacbot.Bits.{get_bit}
use pacbot.Dashboard.{RobotState, Server, WsClient, PidState, Phase, Notice, new_server}
use pacbot.Dashboard.Clients.{broadcast, broadcast_state, connect, disconnect, write_next}
use pacbot.Dashboard.Telemetry.{handle_udp}
use pacbot.Dashboard.Link.{send_to_robot, resend_pid_gains}
use pacbot.Dashboard.Control.{
  Floats, Msg, ℤ, note_state, note_drive, note_speed, keep_gains, handle_ws_command,
}
use pacbot.Dashboard.Ipc.{handle_ipc_line}
use pacbot.Dashboard.Watch.{watch}

pub data Step (fl : Floats) (s t : Server) : Type 0 where
  datagram :
      (bytes : List ℕ) (addr : String) (now : ℕ) (b : Bool)
      → handle_udp bytes addr now s ≡ some (t, b)
      → Step fl s t
  handled :
      (bytes : List ℕ) (addr : String) (now : ℕ) (b : Bool) {u : Server}
      → handle_udp bytes addr now s ≡ some (u, b)
      → t ≡ record s { robot = u.robot }
      → Step fl s t
  timed_out : (now : ℕ) → t ≡ record s { robot = (watch now s).robot } → Step fl s t
  sent_to : (written : Bool) (bytes : List ℕ) → send_to_robot written bytes s ≡ some t → Step fl s t
  noted_state : (state : Phase) → t ≡ note_state state s → Step fl s t
  noted_drive : (mode : fl.F64) → t ≡ note_drive (fl.to_byte mode) s → Step fl s t
  noted_speed :
      (dir spd : fl.F64) → t ≡ note_speed (fl.to_byte dir) (fl.to_byte spd) s → Step fl s t
  noted_gains : (i : ℤ) (g : PidState) → keep_gains fl i g s ≡ some t → Step fl s t
  told : t ≡ broadcast_state s → Step fl s t
  announced : (n : Notice) → t ≡ broadcast n s → Step fl s t
  resending : (written : ℕ → Bool) → t ≡ resend_pid_gains written s → Step fl s t
  commanded :
      (written : Bool) (msg : Msg fl) → handle_ws_command fl written msg s ≡ some t → Step fl s t
  directed : (written : Bool) (line : List ℕ) → t ≡ handle_ipc_line written line s → Step fl s t
  watched : (now : ℕ) → t ≡ watch now s → Step fl s t
  connected_to : (id : ℕ) → t ≡ connect id s → Step fl s t
  disconnected_from : (id : ℕ) → t ≡ disconnect id s → Step fl s t
  written_to : (id : ℕ) → t ≡ write_next id s → Step fl s t

pub data Reach (fl : Floats) : Server → Type 0 where
  start : Reach fl new_server
  next : {s t : Server} → Reach fl s → Step fl s t → Reach fl t

pub record IsLinked (r : RobotState) : Type 0 where
  pub has_addr : r.connected ≡ true → (a : String) × (r.addr ≡ some a)
  pub no_addr : r.connected ≡ false → r.addr ≡ none
  pub eight : length r.sensors ≡ 8
  pub disabled : (j : ℕ) → j < 8 → get_bit r.sensor_mask j ≡ false → get_or r.sensors j 0 ≡ 65535

abbrev pub Fits : WsClient → Type 0
Fits c = length c.send ≤ 64

pub record IsConsistent (s : Server) : Type 0 where
  pub linked : IsLinked s.robot
  pub three : length s.pid_gains ≡ 3
  pub speed_pos : 1 ≤ s.last_cardinal_speed
  pub speed_le : s.last_cardinal_speed ≤ 255
  pub queues : All Fits s.clients
