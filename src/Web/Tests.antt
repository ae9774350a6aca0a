-- ===== src/Web/Tests.antt =====
-- The sessions of two web clients of one address, and the count of two robots.
use Prim.Native.String.{String}
use pacbot.Prelude.{
  ◌++◌, ltb, length, if◌then◌else◌, arith, ℕ, ◌≡◌, refl, [], ◌∷◌, true, false, Option, none, some,
}
use pacbot.Web.{
  WebServer, Slice, Reach, handled, start, next, registers, enlists, new_web_server, register, kick,
  kick_if, set_session, set_ip, broadcast, quit, quit_all, offer_to, offer_message, enlist, unlist,
  forget, is_session, close_channel,
}
use pacbot.Web.Address.{get_ip, get_ip-append}
use pacbot.Web.Tcp
use pacbot.Web.Tcp.{
  TcpServer, new_tcp_server, accept, leave, without_conn, read_turn, eof, forward_tcp, accepted,
  turned,
}
use pacbot.Web.Tcp.Count.{forward_tcp_lem}
use pacbot.Web.Safe.Run.{no_send_to_closed, one_per_ip_lem}

abbrev frame : Slice
frame = record { len = 159 }

abbrev empty_server : WebServer
empty_server = new_web_server true ("10.0.0.2" ∷ [])

abbrev fetched : Option WebServer → WebServer
fetched none = empty_server
fetched (some w) = w

abbrev one_registered : WebServer
one_registered = fetched (register 0 "10.0.0.2" empty_server)

abbrev one_listed : WebServer
one_listed = enlist 0 one_registered

-- The second client of the address.
abbrev two_registered : WebServer
two_registered = fetched (register 1 "10.0.0.2" one_listed)

one_reached : Reach true ("10.0.0.2" ∷ []) one_listed
unfolding register kick kick_if set_session set_ip
one_reached =
    next (next start (handled (registers 0 "10.0.0.2" refl refl))) (handled (enlists 0 refl refl))

two_reached : Reach true ("10.0.0.2" ∷ []) two_registered
unfolding register kick kick_if set_session set_ip enlist quit offer_to offer_message
two_reached = next one_reached (handled (registers 1 "10.0.0.2" refl refl))

-- The first client's connection is closed, and its loop of sends is told to end.
first_kicked :
    ((two_registered.sessions 0).conn_open ≡ false) × ((two_registered.sessions 0).send ≡ none ∷ [])
unfolding register kick kick_if set_session set_ip enlist quit offer_to offer_message
first_kicked = (refl, refl)

no_send_to_closed_example :
    ((msg : Slice) → (v : WebServer) × (broadcast msg two_registered ≡ some v))
    × ((v : WebServer) × (quit_all two_registered.open_sessions two_registered ≡ some v))
    × ((i : ℕ) (ip : String) → (v : WebServer) × (register i ip two_registered ≡ some v))
no_send_to_closed_example = no_send_to_closed true ("10.0.0.2" ∷ []) two_registered two_reached

one_per_ip_lem_example : ◌≡◌ {A = ℕ} 1 1
unfolding register kick kick_if set_session set_ip enlist quit offer_to offer_message
one_per_ip_lem_example =
    one_per_ip_lem ("10.0.0.2" ∷ []) two_registered 1 1 two_reached refl refl refl refl refl

-- A deferred quit that comes after the channel was closed.
late_quit : quit 1 (close_channel 1 (forget 1 (unlist 1 (enlist 1 two_registered)))) ≡ none
unfolding register kick kick_if set_session set_ip enlist quit offer_to offer_message unlist forget
    is_session close_channel
late_quit = refl

get_ip-append_example :
    get_ip ((b':' ∷ b':' ∷ b'1' ∷ []) ++ b':' ∷ b'8' ∷ b'0' ∷ []) ≡ some (b':' ∷ b':' ∷ b'1' ∷ [])
get_ip-append_example =
    get_ip-append (b':' ∷ b':' ∷ b'1' ∷ []) (b'8' ∷ b'0' ∷ []) (refl, (refl, tt))

-- Two robots, of which the first has gone.
abbrev one_robot : TcpServer
one_robot = read_turn 1 eof (accept 2 (accept 1 new_tcp_server))

one_robot-reached : Tcp.Reach 1 one_robot
unfolding accept
one_robot-reached = turned 1 eof (accepted 2 (accepted 1 Tcp.Reach.start refl) refl) refl

forward_tcp_lem_example : (forward_tcp frame one_robot).tcp_send ≡ (
    if ltb 1 (length one_robot.conns) then one_robot.tcp_send ++ frame ∷ [] else one_robot.tcp_send)
unfolding accept read_turn leave without_conn
forward_tcp_lem_example =
    forward_tcp_lem 1 one_robot frame one_robot-reached (omega arith) (omega arith)

not_forwarded : (forward_tcp frame one_robot).tcp_send ≡ []
unfolding accept read_turn leave without_conn forward_tcp
not_forwarded = refl
