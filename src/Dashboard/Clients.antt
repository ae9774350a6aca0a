-- ===== src/Dashboard/Clients.antt =====
-- dashboard/server/main.go: the websocket clients and the broadcasts to them.
use pacbot.Prelude.{
  ℕ, [], ◌∷◌, ◌++◌, ◌/◌, ◌%◌, ◌==◌, ◌&&◌, not, Bool, map, length, ltb, if◌then◌else◌, List,
}
use pacbot.Dashboard.{Server, WsClient, RobotState, Notice, state_notice, no_bytes}

-- `make(chan []byte, 64)`.
abbrev pub client_capacity : ℕ
client_capacity = 64

-- The send that does not wait: a full channel drops the message.
unfoldable pub offer : Notice → WsClient → WsClient
offer n c = if ltb (length c.send) client_capacity then record c { send = c.send ++ n ∷ [] } else c

-- `broadcastJSON`, and the loop of broadcastState.
unfoldable pub broadcast : Notice → Server → Server
broadcast n s = record s { clients = map (offer n) s.clients }

-- The bit pattern of a float32 that is neither infinite nor NaN.
unfoldable pub is_finite : ℕ → Bool
is_finite bits = not (bits / 8388608 % 256 == 255)

-- The JSON encoder refuses infinite and NaN values, and its error is dropped.
unfoldable pub build_state_json : RobotState → Notice
unfolding is_finite
build_state_json r =
    if is_finite r.yaw && is_finite r.pitch && is_finite r.roll then state_notice r else no_bytes

unfoldable pub broadcast_state : Server → Server
broadcast_state s = broadcast (build_state_json s.robot) s

-- handleWS: a new client enters the map and is sent the state.
unfoldable pub connect : ℕ → Server → Server
connect id s = record s {
  clients = record { id = id; send = build_state_json s.robot ∷ [] } ∷ s.clients;
}

-- The deferred removal of handleWS.
unfoldable pub without : ℕ → List WsClient → List WsClient
without id [] = []
without id (c ∷ cs) = if c.id == id then without id cs else c ∷ without id cs

unfoldable pub disconnect : ℕ → Server → Server
disconnect id s = record s { clients = without id s.clients }

-- wsWriter takes the next message of its client.
unfoldable pub take_message : ℕ → WsClient → WsClient
take_message id c =
    if c.id == id then record c { send = elim c.send [ [] ↦ [] | n ∷ ns ↦ ns ] } else c

unfoldable pub write_next : ℕ → Server → Server
write_next id s = record s { clients = map (take_message id) s.clients }
