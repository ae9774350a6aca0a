-- ===== src/Web/Tcp.antt =====
-- server/webserver/tcp_server.go: the connections of the robots and their count. A connection is known
-- by a number. NumOpenTCPClients is a Go int, a two's complement bit pattern of 64 bits.
pub mod Count
use pacbot.Prelude.{
  ℕ, ◌+◌, ◌-◌, ◌^◌, ◌%◌, ◌≡◌, List, [], ◌∷◌, ◌++◌, Bool, true, false, not, ◌&&◌, ◌==◌, ltb, length,
  if◌then◌else◌,
}
use pacbot.Web.{Slice}

-- `tcp_send` is the channel from the broker, of capacity 2; `read` the messages for the log, the
-- latest first.
pub record TcpServer : Type 0 where
  pub num_open : ℕ
  pub conns : List ℕ
  pub tcp_send : List Slice
  pub read : List (ℕ × List ℕ)

abbrev pub new_tcp_server : TcpServer
new_tcp_server = record { num_open = 0; conns = []; tcp_send = []; read = [] }

abbrev pub is_in : ℕ → List ℕ → Bool
is_in c [] = false
is_in c (d ∷ ds) = if d == c then true else is_in c ds

unfoldable pub without_conn : ℕ → List ℕ → List ℕ
without_conn c [] = []
without_conn c (d ∷ ds) = if d == c then without_conn c ds else d ∷ without_conn c ds

-- tcpAcceptLoop.
unfoldable pub accept : ℕ → TcpServer → TcpServer
accept c t = record t { num_open = (t.num_open + 1) % 2 ^ 64; conns = c ∷ t.conns }

-- The decrement and the removal, which tcpReadLoop has twice.
unfoldable pub leave : ℕ → TcpServer → TcpServer
leave c t = record t {
  num_open = (t.num_open + (2 ^ 64 - 1)) % 2 ^ 64;
  conns = without_conn c t.conns;
}

-- What a read comes to.
pub data ReadResult : Type 0 where
  received : List ℕ → ReadResult
  eof : ReadResult
  timed_out : ReadResult
  forcibly_closed : ReadResult
  other_op_error : ReadResult
  other_error : ReadResult

abbrev pub is_q : List ℕ → Bool
is_q (x ∷ []) = x == b'q'
is_q _ = false

-- One turn of tcpReadLoop; where it returns, the deferred function follows.
unfoldable pub read_turn : ℕ → ReadResult → TcpServer → TcpServer
read_turn c eof t = leave c (leave c t)
read_turn c timed_out t = t
read_turn c forcibly_closed t = leave c t
read_turn c other_op_error t = t
read_turn c other_error t = t
read_turn c (received payload) t =
    let u = record t { read = (c, payload) ∷ t.read } in if is_q payload then leave c u else u

-- `NumOpenTCPClients > 0`, on int.
abbrev pub is_positive : ℕ → Bool
is_positive n = not (n == 0) && ltb n (2 ^ 63)

-- The broker's send to the TCP server, which does not wait.
unfoldable pub forward_tcp : Slice → TcpServer → TcpServer
forward_tcp msg t =
    if is_positive t.num_open
    then (if ltb (length t.tcp_send) 2 then record t { tcp_send = t.tcp_send ++ msg ∷ [] } else t)
    else t

-- One turn of tcpSendLoop takes a message and writes it to the connections.
unfoldable pub send_turn : TcpServer → TcpServer
send_turn t = record t { tcp_send = elim t.tcp_send [ [] ↦ [] | m ∷ ms ↦ ms ] }

abbrev pub eofs_of : ReadResult → ℕ
eofs_of eof = 1
eofs_of _ = 0

-- The states after any events; the index counts the connections that ended by the end of the input.
pub data Reach : ℕ → TcpServer → Type 0 where
  start : Reach 0 new_tcp_server
  accepted :
      {k : ℕ} {t : TcpServer} (c : ℕ) → Reach k t → is_in c t.conns ≡ false → Reach k (accept c t)
  turned :
      {k : ℕ} {t : TcpServer} (c : ℕ) (r : ReadResult)
      → Reach k t
      → is_in c t.conns ≡ true
      → Reach (k + eofs_of r) (read_turn c r t)
  forwarded : {k : ℕ} {t : TcpServer} (msg : Slice) → Reach k t → Reach k (forward_tcp msg t)
  sent : {k : ℕ} {t : TcpServer} → Reach k t → Reach k (send_turn t)
