-- ===== src/Dashboard/Control.antt =====
-- dashboard/server/main.go: handleWSCommand, the commands of the webapp. A JSON object is a function
-- from keys to values; a number of JSON is a float64, whose type and conversions are the
-- language's: a parameter. `none` stands for a panic.
use Prim.Native.String.{String}
use text.Mathlib.Text.{◌==◌ as str_eq}
use pacbot.Prelude.{
  ℕ, suc, List, [], ◌∷◌, ◌++◌, Bool, true, not, ◌&&◌, ◌==◌, ltb, leb, if◌then◌else◌, Option, none,
  some, length, set,
}
use pacbot.Dashboard.{
  Server, PidState, Phase, logging, setup_done, cmd_start_log, cmd_stop_log, cmd_set_motor,
  cmd_set_motors, cmd_set_interval, cmd_status, cmd_set_drive_mode, cmd_cardinal_move,
  cmd_calibrate, cmd_set_sensor_offsets, cmd_ping,
}
use pacbot.Dashboard.Wire.{put_uint16, if_some, ◌>>=◌}
use pacbot.Dashboard.Clients.{broadcast_state}
use pacbot.Dashboard.Link.{send_to_robot, pid_payload}

-- `negsuc n` is -(n + 1).
pub data ℤ : Type 0 where
  pos : ℕ → ℤ
  negsuc : ℕ → ℤ

-- The conversions of a float64 that the code makes. `to_byte` and the like give bit patterns.
pub record Floats : Type 1 where
  pub F64 : Type 0
  pub to_int : F64 → ℤ
  pub to_byte : F64 → ℕ
  pub to_int16 : F64 → ℕ
  pub to_uint16 : F64 → ℕ
  pub float32_bits : F64 → ℕ
  pub lt_ten : F64 → Bool

-- What start_log and stop_log, set_drive_mode and cardinal_move do once their datagram is sent, each under
-- a lock of its own: between the send and this, other goroutines may run (`Dashboard.Steps`).
unfoldable pub note_state : Phase → Server → Server
note_state state s = record s { robot = record s.robot { state = state } }

unfoldable pub note_drive : ℕ → Server → Server
note_drive mode s = record s { robot = record s.robot { drive_mode = mode } }

unfoldable pub note_speed : ℕ → ℕ → Server → Server
note_speed dir spd s =
    if not (dir == 0) && not (spd == 0) then record s { last_cardinal_speed = spd } else s

module _ (fl : Floats) where
  open fl use {F64, to_int, to_byte, to_int16, to_uint16, float32_bits, lt_ten}

  -- A value of a decoded JSON object, as far as the code looks into it.
  mutual
    pub data Json : Type 0 where
      num : F64 → Json
      str : String → Json
      arr : Items → Json
      other : Json

    pub data Items : Type 0 where
      nil : Items
      cons : Json → Items → Items

  abbrev pub Msg : Type 0
  Msg = String → Option Json

  -- `v.(float64)` and `v.([]any)`.
  unfoldable pub as_num : Option Json → Option F64
  as_num (some (num x)) = some x
  as_num _ = none

  unfoldable pub as_items : Option Json → Option Items
  as_items (some (arr xs)) = some xs
  as_items _ = none

  -- `cmdType, _ := msg["type"].(string)`.
  unfoldable pub as_text : Option Json → String
  as_text (some (str t)) = t
  as_text _ = ""

  unfoldable pub count : Items → ℕ
  count nil = 0
  count (cons x xs) = suc (count xs)

  -- The int16 values of a list, each put in two bytes; `none` where an element is no number.
  unfoldable pub put_all : Items → Option (List ℕ)
  put_all nil = some []
  put_all (cons (num x) xs) = do rest ← put_all xs; some (put_uint16 (to_int16 x) ++ rest)
  put_all (cons _ xs) = none

  unfoldable pub start_log : Bool → Server → Server
  start_log written s =
      if_some (send_to_robot written (cmd_start_log ∷ []) s) s
        λ t. broadcast_state (note_state logging t)

  unfoldable pub stop_log : Bool → Server → Server
  stop_log written s =
      if_some (send_to_robot written (cmd_stop_log ∷ []) s) s
        λ t. broadcast_state (note_state setup_done t)

  -- A command that only sends.
  unfoldable pub forward : Bool → List ℕ → Server → Server
  forward written bytes s = if_some (send_to_robot written bytes s) s λ t. t

  -- The index, if it is one of a motor.
  unfoldable pub motor_index : ℤ → Option ℕ
  motor_index (pos i) = if leb i 3 then some i else none
  motor_index (negsuc i) = none

  unfoldable pub set_motor : Bool → Msg → Server → Server
  set_motor written msg s = if_some (as_num (msg "index")) s λ idx.
      if_some (as_num (msg "speed")) s λ spd.
        if_some (motor_index (to_int idx)) s
          λ index. forward written (cmd_set_motor ∷ index ∷ put_uint16 (to_int16 spd)) s

  -- The commands that send a list of `n` int16 values: set_motors and set_sensor_offsets.
  unfoldable pub send_list : Bool → ℕ → ℕ → Option Items → Server → Server
  send_list written cmd n items s = if_some items s λ xs.
      if not (count xs == n)
      then s
      else if_some (put_all xs) s λ bytes. forward written (cmd ∷ bytes) s

  unfoldable pub set_interval : Bool → Msg → Server → Server
  set_interval written msg s = if_some (as_num (msg "interval_ms")) s λ ms.
      if lt_ten ms then s else forward written (cmd_set_interval ∷ put_uint16 (to_uint16 ms)) s

  unfoldable pub set_drive_mode : Bool → Msg → Server → Server
  set_drive_mode written msg s = if_some (as_num (msg "mode")) s λ mode.
      if_some (send_to_robot written (cmd_set_drive_mode ∷ to_byte mode ∷ []) s) s
        λ t. broadcast_state (note_drive (to_byte mode) t)

  unfoldable pub cardinal_move : Bool → Msg → Server → Server
  cardinal_move written msg s = if_some (as_num (msg "direction")) s λ dir.
      if_some (as_num (msg "speed")) s λ spd.
        if_some (send_to_robot written (cmd_cardinal_move ∷ to_byte dir ∷ to_byte spd ∷ []) s) s
          λ t. note_speed (to_byte dir) (to_byte spd) t

  -- After the payload is sent: the lookup of the loop's name panics below 0, and the gains are kept
  -- for the three loops.
  unfoldable pub keep_gains : ℤ → PidState → Server → Option Server
  keep_gains (negsuc i) g t = none
  keep_gains (pos i) g t =
      some (if ltb i (length t.pid_gains) then record t { pid_gains = set t.pid_gains i g } else t)

  unfoldable pub send_pid : Bool → F64 → ℕ → ℕ → ℕ → Server → Option Server
  send_pid written loop_id kp ki kd s =
      if_some (send_to_robot written (pid_payload (to_byte loop_id) kp ki kd) s) (some s)
        λ t. keep_gains (to_int loop_id) (record { is_set = true; kp = kp; ki = ki; kd = kd }) t

  unfoldable pub set_pid : Bool → Msg → Server → Option Server
  set_pid written msg s = if_some (as_num (msg "loop")) (some s) λ loop_id.
      if_some (as_num (msg "kp")) (some s) λ kp. if_some (as_num (msg "ki")) (some s) λ ki.
        if_some (as_num (msg "kd")) (some s)
          λ kd. send_pid written loop_id (float32_bits kp) (float32_bits ki) (float32_bits kd) s

  unfoldable pub command : Bool → String → Msg → Server → Option Server
  command written type msg s =
      if str_eq type "start_log"
      then some (start_log written s)
      else if str_eq type "stop_log"
      then some (stop_log written s)
      else if str_eq type "set_motor"
      then some (set_motor written msg s)
      else if str_eq type "set_motors"
      then some (send_list written cmd_set_motors 4 (as_items (msg "speeds")) s)
      else if str_eq type "set_interval"
      then some (set_interval written msg s)
      else if str_eq type "status"
      then some (forward written (cmd_status ∷ []) s)
      else if str_eq type "set_drive_mode"
      then some (set_drive_mode written msg s)
      else if str_eq type "cardinal_move"
      then some (cardinal_move written msg s)
      else if str_eq type "calibrate"
      then some (forward written (cmd_calibrate ∷ []) s)
      else if str_eq type "set_pid"
      then set_pid written msg s
      else if str_eq type "set_sensor_offsets"
      then some (send_list written cmd_set_sensor_offsets 8 (as_items (msg "offsets")) s)
      else if str_eq type "ping"
      then some (forward written (cmd_ping ∷ []) s)
      else some s

  unfoldable pub handle_ws_command : Bool → Msg → Server → Option Server
  handle_ws_command written msg s = command written (as_text (msg "type")) msg s
