-- ===== src/Dashboard/Ipc.antt =====
-- dashboard/server/main.go: the directions that arrive at the local IPC socket. The trimmed
-- lowercase lines of a connection are its input.
use Prim.Native.String.{String}
use pacbot.Prelude.{
  ℕ, List, [], ◌∷◌, ◌%◌, Bool, true, false, ◌==◌, if◌then◌else◌, Option, none, some,
}
use pacbot.Dashboard.{Server, cmd_cardinal_move, named, ipc_line, log_notice, external_direction}
use pacbot.Dashboard.Wire.{if_some}
use pacbot.Dashboard.Clients.{broadcast}
use pacbot.Dashboard.Link.{send_to_robot}

-- The code of a direction and its name in the webapp.
unfoldable pub direction : ℕ → Option (ℕ × Option String)
direction c =
    if c == b'n'
    then some (1, some "forward")
    else if c == b'e'
    then some (2, some "right")
    else if c == b's'
    then some (3, some "backward")
    else if c == b'w'
    then some (4, some "left")
    else if c == b'x'
    then some (0, none)
    else none

abbrev pub label_of : Option String → String
label_of none = "stop"
label_of (some d) = d

abbrev pub is_sent : Option Server → Bool
is_sent none = false
is_sent (some t) = true

-- After the attempt to send: two notices, whatever came of it.
unfoldable pub announce : Option String → ℕ → Bool → Server → Server
announce ui_dir speed forwarded s =
    broadcast (external_direction ui_dir)
      (broadcast (log_notice (named "INFO") (ipc_line (label_of ui_dir) speed forwarded)) s)

unfoldable pub move_externally : Bool → ℕ → Option String → Server → Server × Bool
move_externally written dir_code ui_dir s =
    let speed = if dir_code == 0 then 0 else s.last_cardinal_speed in
    let sent = send_to_robot written (cmd_cardinal_move ∷ dir_code ∷ speed % 256 ∷ []) s in
    (announce ui_dir speed (is_sent sent) (if_some sent s λ t. t), is_sent sent)

-- The flag says that there was no error.
unfoldable pub handle_external_direction : Bool → ℕ → Server → Server × Bool
handle_external_direction written c s =
    if_some (direction c) (s, false) λ d. move_externally written d.0 d.1 s

-- The loop of handleIPCConn: only lines of one byte count.
unfoldable pub handle_ipc_line : Bool → List ℕ → Server → Server
handle_ipc_line written (c ∷ []) s = (handle_external_direction written c s).0
handle_ipc_line written _ s = s

unfoldable pub handle_ipc_conn : List (Bool × List ℕ) → Server → Server
handle_ipc_conn [] s = s
handle_ipc_conn ((written, line) ∷ lines) s = handle_ipc_conn lines (handle_ipc_line written line s)
