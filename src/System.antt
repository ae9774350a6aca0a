-- ===== src/System.antt =====
-- The game server as a whole: server/main.go, the loop of the engine (server/game/game_engine.go), the
-- broker, the sessions and the robots (server/webserver), joined by their channels.
pub mod Steps
pub mod Others
pub mod History
pub mod Sessions
pub mod Trust
pub mod Group
mod Tests
use Prim.Native.String.{String}
use pacbot.Prelude.{
  ℕ, ◌+◌, ◌-◌, List, [], ◌∷◌, ◌++◌, length, set, get_or, Bool, true, false, not, ◌&&◌, ◌==◌, ltb,
  if◌then◌else◌, Option, none, some, take,
}
use pacbot.State.{GameState}
use pacbot.Serialize.{ser_full}
use pacbot.Engine.{Draws, Message, Engine, new_engine, update_if_ready, handle_message, tick}
use pacbot.Config.{Configuration, tick_time, active_ghosts}
use pacbot.Dashboard.Wire.{◌>>=◌}
use pacbot.Web.{
  Slice, WebServer, new_web_server, register, close_channel, broadcast, quit_all, take_message,
}
use pacbot.Web.Tcp.{TcpServer, new_tcp_server, forward_tcp, send_turn, is_q}

-- Where RunLoop of the engine is: not begun, at the start of an iteration, in serFull, at the send to the
-- output channel, in read_loop, at the wait for the ticker, or returned.
pub data Place : Type 0 where
  created at_top serialising sending reading waiting stopped : Place

-- Where RunLoop of the broker is.
pub data Loop : Type 0 where
  idle running ended : Loop

-- Where main is, from the loop that reads the terminal: there; after the shutdown of the HTTP server;
-- after the quit of the broker; at the wait; or returned, which ends the program.
pub data Main : Type 0 where
  prompting server_down broker_told joining returned : Main

-- A write of the slice of a message to a socket, and the bytes of it that were read so far, in order.
pub record Write : Type 0 where
  pub slice : Slice
  pub copied : List ℕ

-- `pending` are the bytes that serFull has yet to put in the buffer, at `ser_len` and after; `writing` is
-- the write to each client that is under way, `robots_writing` that of the loop of the robots.
-- `output` and `input` are the channels webBroadcastCh and webResponseCh; `wg_quit` the counter of the
-- wait group; a closed quit channel is `true`. `to_clients` collects what was written to each client,
-- `to_robots` what the loop of the robots wrote to those there were, the latest first.
pub record System : Type 0 where
  pub engine : Engine
  pub place : Place
  pub pending : List ℕ
  pub ser_len : ℕ
  pub active_engines : ℕ
  pub output : List Slice
  pub input : List Message
  pub web : WebServer
  pub tcp : TcpServer
  pub broker : Loop
  pub main : Main
  pub quit_engine : Bool
  pub quit_broker : Bool
  pub wg_quit : ℕ
  pub writing : ℕ → Option Write
  pub robots_writing : Option Write
  pub to_clients : ℕ → List (List ℕ)
  pub to_robots : List (List ℕ)

-- `make(chan []byte, 100)`.
abbrev pub channel_capacity : ℕ
channel_capacity = 100

abbrev pub new_system : Configuration → System
new_system c = record {
  engine = new_engine (active_ghosts c);
  place = created;
  pending = [];
  ser_len = 0;
  active_engines = 0;
  output = [];
  input = [];
  web = new_web_server c.one_client_per_ip c.trusted_client_ips;
  tcp = new_tcp_server;
  broker = idle;
  main = prompting;
  quit_engine = false;
  quit_broker = false;
  wg_quit = 0;
  writing = λ i. none;
  robots_writing = none;
  to_clients = λ i. [];
  to_robots = [];
}

-- The start of main, up to the loop that reads the terminal.
unfoldable pub start_system : Configuration → Option System
start_system c = do t ← tick_time c.game_fps; some (new_system c)

-- GameEngine.quit.
unfoldable pub leave_engine : System → System
leave_engine s = record s { place = stopped; wg_quit = s.wg_quit - 1 }

-- RunLoop of the engine up to its loop; a second engine leaves at once.
unfoldable pub enter_engine : System → System
unfolding leave_engine
enter_engine s =
    let n = s.active_engines + 1 in
    let t = record s { wg_quit = s.wg_quit + 1; active_engines = n } in
    if ltb 1 n then leave_engine t else record t { place = at_top }

-- The bytes that serFull puts in the buffer, one after the other.
unfoldable pub frame_bytes : Engine → List ℕ
frame_bytes e = let (buf, ser_len) = ser_full e.state (e.output_buf, 0) in take ser_len buf

abbrev pub begin_frame : Engine → System → System
begin_frame e s = record s { engine = e; pending = frame_bytes e; ser_len = 0; place = serialising }

-- Steps 1 and 2, up to the start of serFull. `none` is the panic of the update's division.
unfoldable pub update_frame : Draws → System → Option System
update_frame draws s = do e ← update_if_ready draws s.engine; some (begin_frame e s)

-- Step 3, byte by byte: the buffer is the one that the slices in the channels stand for, and nothing
-- keeps a reader out.
unfoldable pub put_first : List ℕ → System → System
put_first [] s = record s { place = sending }
put_first (b ∷ bytes) s = record s {
  engine = record s.engine { output_buf = set s.engine.output_buf s.ser_len b };
  pending = bytes;
  ser_len = s.ser_len + 1;
}

unfoldable pub put_next : System → System
put_next s = put_first s.pending s

-- Step 4, where the channel has room.
unfoldable pub send_frame : System → System
send_frame s = record s { output = s.output ++ record { len = s.ser_len } ∷ []; place = reading }

-- One turn of read_loop, or steps 5 and 6 at its end. `none` is a panic or a hang of a command.
unfoldable pub read_first : List Message → System → Option System
read_first [] s = some (record s { engine = tick s.engine; place = waiting })
read_first (m ∷ ms) s = do e ← handle_message m s.engine; some (record s { engine = e; input = ms })

unfoldable pub read_input : System → Option System
read_input s = read_first s.input s

-- RunLoop of the broker: its start, a turn on a message, and the quit.
unfoldable pub enter_broker : System → System
enter_broker s = record s { broker = running; wg_quit = s.wg_quit + 1 }

unfoldable pub forward : Slice → System → Option System
forward sl s = do w ← broadcast sl s.web; some (record s { web = w; tcp = forward_tcp sl s.tcp })

unfoldable pub broadcast_first : List Slice → System → Option System
broadcast_first [] s = some s
broadcast_first (sl ∷ rest) s = forward sl (record s { output = rest })

unfoldable pub broker_turn : System → Option System
broker_turn s = broadcast_first s.output s

unfoldable pub leave_broker : System → Option System
leave_broker s = do
  w ← quit_all s.web.open_sessions s.web
  some (record s { web = w; broker = ended; wg_quit = s.wg_quit - 1 })

-- WebSocketHandler: its start up to the map of IPs, and its end.
unfoldable pub connect : ℕ → String → System → Option System
connect i ip s = do w ← register i ip s.web; some (record s { web = w; wg_quit = s.wg_quit + 1 })

unfoldable pub disconnect : ℕ → System → System
disconnect i s = record s { web = close_channel i s.web; wg_quit = s.wg_quit - 1 }

-- The next byte of a write, as the buffer holds it at that moment.
unfoldable pub copy_byte : List ℕ → Write → Write
copy_byte buf w =
    if ltb (length w.copied) w.slice.len
    then record w { copied = w.copied ++ get_or buf (length w.copied) 0 ∷ [] }
    else w

unfoldable pub set_writing : ℕ → Option Write → System → System
set_writing i o s = record s { writing = λ j. if j == i then o else s.writing j }

-- A turn of sendLoop takes a message; a slice begins a write, where the connection is open.
unfoldable pub write_next : ℕ → List (Option Slice) → System → System
write_next i (some sl ∷ ms) s =
    if (s.web.sessions i).conn_open
    then set_writing i (some (record { slice = sl; copied = [] })) s
    else s
write_next i (none ∷ ms) s = s
write_next i [] s = s

unfoldable pub send_turn_of : ℕ → System → System
send_turn_of i s =
    let t = write_next i (s.web.sessions i).send s in record t { web = take_message i t.web }

-- The write reads a byte of the shared buffer.
unfoldable pub copy_client : ℕ → Write → System → System
copy_client i w s = set_writing i (some (copy_byte s.engine.output_buf w)) s

-- The write ends; what was read goes to the client, or the write fails.
unfoldable pub end_write : Bool → ℕ → Write → System → System
end_write written i w s =
    let t = set_writing i none s in
    if written
    then record t { to_clients = λ j. if j == i then w.copied ∷ t.to_clients j else t.to_clients j }
    else t

abbrev pub is_empty : List ℕ → Bool
is_empty [] = true
is_empty _ = false

-- `loop` starts readLoop only for a client that may send; its turn on a message, where the channel
-- has room.
unfoldable pub client_turn : ℕ → Message → System → System
client_turn i m s =
    if not (s.web.sessions i).read_en
    then s
    else if is_empty m.bytes
    then s
    else record s { input = s.input ++ m ∷ [] }

-- One turn of tcpSendLoop: it takes a message and begins to write it; the write reads the buffer byte by
-- byte too.
unfoldable pub write_first : List Slice → System → System
write_first [] s = s
write_first (sl ∷ rest) s = record s {
  tcp = send_turn s.tcp;
  robots_writing = some (record { slice = sl; copied = [] });
}

unfoldable pub write_robots : System → System
write_robots s = write_first s.tcp.tcp_send s

unfoldable pub copy_robots : Write → System → System
copy_robots w s = record s { robots_writing = some (copy_byte s.engine.output_buf w) }

unfoldable pub end_robots : Write → System → System
end_robots w s = record s { robots_writing = none; to_robots = w.copied ∷ s.to_robots }

-- main: a line of the terminal, where the channel has room; "q" ends the loop and shuts the HTTP server
-- down.
unfoldable pub read_line : Message → System → System
read_line m s =
    if is_q m.bytes then record s { main = server_down } else record s { input = s.input ++ m ∷ [] }

-- The rest of main: the two calls of Quit, and the return from the wait.
unfoldable pub tell_broker : System → System
tell_broker s = record s { main = broker_told; quit_broker = true }

unfoldable pub tell_engine : System → System
tell_engine s = record s { main = joining; quit_engine = true }

unfoldable pub finish : System → System
finish s = record s { main = returned }

abbrev pub is_returned : Main → Bool
is_returned returned = true
is_returned _ = false
