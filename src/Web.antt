-- ===== src/Web.antt =====
-- server/webserver/web_session.go, web_broker.go, socket_handler.go: the sessions of the web clients.
-- A session is known by the number of its pointer. Each section under a mutex is one operation;
-- `none` stands for a panic, that of a send to a closed channel. A log line is left out.
pub mod Safe
pub mod Each
pub mod Address
pub mod Tcp
mod Tests
use Prim.Native.String.{String}
use text.Mathlib.Text.{◌==◌ as str_eq}
use pacbot.Prelude.{
  ℕ, ◌≡◌, List, [], ◌∷◌, ◌++◌, Bool, true, false, not, ◌&&◌, ◌==◌, ltb, if◌then◌else◌, Option, none,
  some, length,
}
use pacbot.Dashboard.Wire.{◌>>=◌}

-- How far the handler of a session is: in the map of IPs; in the set of open sessions and in its
-- loops; out of that set; out of the map; with its channel closed.
pub data Stage : Type 0 where
  unborn registered listed unlisted forgotten closed : Stage

-- A message is a slice of the engine's output buffer, from its start: all that the server sends are.
pub record Slice : Type 0 where
  pub len : ℕ

-- A message of the channel is `none` for the nil that ends the loop of the sends.
pub record WebSession : Type 0 where
  pub ip : String
  pub stage : Stage
  pub read_en : Bool
  pub conn_open : Bool
  pub send : List (Option Slice)

pub record WebServer : Type 0 where
  pub one_client_per_ip : Bool
  pub trusted : List String
  pub sessions : ℕ → WebSession
  pub open_sessions : List ℕ
  pub ip_sessions : String → Option ℕ

abbrev pub is_closed : Stage → Bool
is_closed closed = true
is_closed _ = false

-- A handler that is in the map of IPs, unless another session has taken its place.
abbrev pub is_active : Stage → Bool
is_active registered = true
is_active listed = true
is_active unlisted = true
is_active _ = false

abbrev pub no_session : WebSession
no_session = record { ip = ""; stage = unborn; read_en = false; conn_open = false; send = [] }

-- The start, with the configuration of ConfigOneClientPerIP and ConfigTrustedClientIPs.
abbrev pub new_web_server : Bool → List String → WebServer
new_web_server one trusted = record {
  one_client_per_ip = one;
  trusted = trusted;
  sessions = λ i. no_session;
  open_sessions = [];
  ip_sessions = λ ip. none;
}

unfoldable pub set_session : ℕ → WebSession → WebServer → WebServer
set_session i ws w = record w { sessions = λ j. if j == i then ws else w.sessions j }

unfoldable pub set_ip : String → Option ℕ → WebServer → WebServer
set_ip ip o w = record w { ip_sessions = λ k. if str_eq k ip then o else w.ip_sessions k }

-- `make(chan []byte, 10)`.
abbrev pub session_capacity : ℕ
session_capacity = 10

-- The send that does not wait.
unfoldable pub offer_message : Option Slice → WebSession → Option WebSession
offer_message msg ws =
    if is_closed ws.stage
    then none
    else some (
        if ltb (length ws.send) session_capacity
        then record ws { send = ws.send ++ msg ∷ [] }
        else ws)

unfoldable pub offer_to : ℕ → Option Slice → WebServer → Option WebServer
offer_to i msg w = do ws ← offer_message msg (w.sessions i); some (set_session i ws w)

-- `quit`: the connection is closed, and the loop of the sends woken.
unfoldable pub quit : ℕ → WebServer → Option WebServer
quit i w = offer_to i none (set_session i (record (w.sessions i) { conn_open = false }) w)

-- The older session of the address, if it has to go.
unfoldable pub kick_if : Bool → Option ℕ → WebServer → Option WebServer
kick_if true (some old) w = quit old w
kick_if true none w = some w
kick_if false o w = some w

unfoldable pub kick : String → WebServer → Option WebServer
kick ip w = kick_if w.one_client_per_ip (w.ip_sessions ip) w

abbrev pub new_web_session : String → WebSession
new_web_session ip = record {
  ip = ip;
  stage = registered;
  read_en = true;
  conn_open = true;
  send = [];
}

-- newWebSession and the part of `register` under the mutex of the map of IPs.
unfoldable pub register : ℕ → String → WebServer → Option WebServer
register i ip w = do u ← kick ip w; some (set_ip ip (some i) (set_session i (new_web_session ip) u))

unfoldable pub is_trusted : String → List String → Bool
is_trusted ip [] = false
is_trusted ip (t ∷ ts) = if str_eq t ip then true else is_trusted ip ts

-- The rest of `register`: whether the client may send, and the set of open sessions.
unfoldable pub enlist : ℕ → WebServer → WebServer
enlist i w =
    let ws = w.sessions i in
    let u = set_session i (record ws { stage = listed; read_en = is_trusted ws.ip w.trusted }) w in
    record u { open_sessions = i ∷ w.open_sessions }

unfoldable pub remove : ℕ → List ℕ → List ℕ
remove i [] = []
remove i (j ∷ js) = if j == i then remove i js else j ∷ remove i js

-- `unregister`, in its three parts.
unfoldable pub unlist : ℕ → WebServer → WebServer
unlist i w =
    let u = set_session i (record (w.sessions i) { stage = unlisted }) w in
    record u { open_sessions = remove i w.open_sessions }

unfoldable pub is_session : ℕ → Option ℕ → Bool
is_session i none = false
is_session i (some j) = j == i

unfoldable pub forget : ℕ → WebServer → WebServer
forget i w =
    let ws = w.sessions i in
    let u = set_session i (record ws { stage = forgotten }) w in
    if is_session i (w.ip_sessions ws.ip) then set_ip ws.ip none u else u

unfoldable pub close_channel : ℕ → WebServer → WebServer
close_channel i w = set_session i (record (w.sessions i) { stage = closed }) w

-- The loop of the broker over the open sessions, and that of its exit.
unfoldable pub offer_all : Option Slice → List ℕ → WebServer → Option WebServer
offer_all msg [] w = some w
offer_all msg (i ∷ is) w = do u ← offer_to i msg w; offer_all msg is u

unfoldable pub broadcast : Slice → WebServer → Option WebServer
broadcast msg w = offer_all (some msg) w.open_sessions w

unfoldable pub quit_all : List ℕ → WebServer → Option WebServer
quit_all [] w = some w
quit_all (i ∷ is) w = do u ← quit i w; quit_all is u

-- One turn of sendLoop: what it takes from the channel.
unfoldable pub take_message : ℕ → WebServer → WebServer
take_message i w =
    let ws = w.sessions i in
    set_session i (record ws { send = elim ws.send [ [] ↦ [] | m ∷ ms ↦ ms ] }) w

-- The events of a session's handler, in any order that its own allows. The deferred `quit` of a loop
-- may come late; it is a step where it does not panic.
pub data HandlerStep (w v : WebServer) : Type 0 where
  registers :
      (i : ℕ) (ip : String)
      → (w.sessions i).stage ≡ unborn
      → register i ip w ≡ some v
      → HandlerStep w v
  enlists : (i : ℕ) → (w.sessions i).stage ≡ registered → v ≡ enlist i w → HandlerStep w v
  unlists : (i : ℕ) → (w.sessions i).stage ≡ listed → v ≡ unlist i w → HandlerStep w v
  forgets : (i : ℕ) → (w.sessions i).stage ≡ unlisted → v ≡ forget i w → HandlerStep w v
  closes : (i : ℕ) → (w.sessions i).stage ≡ forgotten → v ≡ close_channel i w → HandlerStep w v
  quits : (i : ℕ) → quit i w ≡ some v → HandlerStep w v

-- The events of the handlers, of the loops of the sends, of the broker and of its exit.
pub data Step (w v : WebServer) : Type 0 where
  handled : HandlerStep w v → Step w v
  takes : (i : ℕ) → v ≡ take_message i w → Step w v
  broadcasts : (msg : Slice) → broadcast msg w ≡ some v → Step w v
  exits : quit_all w.open_sessions w ≡ some v → Step w v

pub data Reach (one : Bool) (trusted : List String) : WebServer → Type 0 where
  start : Reach one trusted (new_web_server one trusted)
  next : {w v : WebServer} → Reach one trusted w → Step w v → Reach one trusted v
