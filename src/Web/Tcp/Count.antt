-- ===== src/Web/Tcp/Count.antt =====
-- server/webserver/tcp_server.go, web_broker.go: the count of robots and what is forwarded to them.
use mathlib.Core.Path.{subst}
use pacbot.Prelude.{
  ℕ, suc, ◌+◌, ◌^◌, ◌%◌, ◌<◌, ◌==◌, ◌≡◌, refl, sym, ap, ◌∙◌, List, [], ◌∷◌, ◌++◌, true, false, ltb,
  length, if◌then◌else◌, arith, Bool-cases, inl, inr,
}
use pacbot.Web.{Slice}
use pacbot.Web.Tcp.{
  TcpServer, is_in, without_conn, accept, leave, ReadResult, received, eof, timed_out,
  forcibly_closed, other_op_error, other_error, is_q, read_turn, is_positive, forward_tcp,
  send_turn, eofs_of, Reach, start, accepted, turned, forwarded, sent,
}

-- Each connection is there once.
abbrev pub IsDistinct : List ℕ → Type 0
IsDistinct [] = Unit
IsDistinct (c ∷ cs) = (is_in c cs ≡ false) × IsDistinct cs

without_conn-absent : (c : ℕ) (cs : List ℕ) → is_in c cs ≡ false → without_conn c cs ≡ cs
unfolding without_conn
without_conn-absent c [] out = refl
without_conn-absent c (d ∷ ds) out = elim (Bool-cases (d == c)) [
  | inl same ↦ absurd (cc (rw same at out))
  | inr differs ↦ rw differs (ap (d ∷◌) (without_conn-absent c ds (rw differs at out)))
]

is_in-without_conn :
    (c d : ℕ) (cs : List ℕ) → is_in d cs ≡ false → is_in d (without_conn c cs) ≡ false
unfolding without_conn
is_in-without_conn c d [] out = refl
is_in-without_conn c d (x ∷ xs) out = elim (Bool-cases (x == d)) [
  | inl same ↦ absurd (cc (rw same at out))
  | inr differs ↦
      let later = is_in-without_conn c d xs (rw differs at out) in
      elim (Bool-cases (x == c)) [ inl gone ↦ rw gone later | inr kept ↦ rw (kept, differs) later ]
]

pub is_in-gone : (c : ℕ) (cs : List ℕ) → is_in c (without_conn c cs) ≡ false
unfolding without_conn
is_in-gone c [] = refl
is_in-gone c (d ∷ ds) = elim (Bool-cases (d == c)) [
  | inl gone ↦ rw gone (is_in-gone c ds)
  | inr kept ↦ rw (kept, kept) (is_in-gone c ds)
]

pub is_in-other :
    (c d : ℕ) (cs : List ℕ) → (d == c) ≡ false → is_in d (without_conn c cs) ≡ is_in d cs
unfolding without_conn
is_in-other c d [] apart = refl
is_in-other c d (x ∷ xs) apart = elim (Bool-cases (x == c)) [
  | inl gone ↦
      let there : (x == d) ≡ false = ground arith in rw (gone, there) (is_in-other c d xs apart)
  | inr kept ↦ rw kept (ap (λ b. if x == d then true else b) (is_in-other c d xs apart))
]

pub without_conn-IsDistinct : (c : ℕ) (cs : List ℕ) → IsDistinct cs → IsDistinct (without_conn c cs)
unfolding without_conn
without_conn-IsDistinct c [] h = tt
without_conn-IsDistinct c (d ∷ ds) (out, h) = elim (Bool-cases (d == c)) [
  | inl gone ↦ rw gone (without_conn-IsDistinct c ds h)
  | inr kept ↦ rw kept (is_in-without_conn c d ds out, without_conn-IsDistinct c ds h)
]

pub length-without_conn :
    (c : ℕ) (cs : List ℕ)
    → IsDistinct cs
    → is_in c cs ≡ true
    → suc (length (without_conn c cs)) ≡ length cs
unfolding without_conn
length-without_conn c [] h inside = absurd (cc inside)
length-without_conn c (d ∷ ds) (out, h) inside = elim (Bool-cases (d == c)) [
  | inl gone ↦
      let here : d ≡ c = ground arith in
      rw gone (
        ap (λ xs. suc (length xs))
          (without_conn-absent c ds (ap (λ x. is_in x ds) (sym here) ∙ out)))
  | inr kept ↦ rw kept (ap suc (length-without_conn c ds h (rw kept at inside)))
]

-- The count, and what it lacks.
record Counts (k : ℕ) (t : TcpServer) : Type 0 where
  distinct : IsDistinct t.conns
  small : t.num_open < 2 ^ 64
  count : (t.num_open + k) % 2 ^ 64 ≡ length t.conns % 2 ^ 64

accept-Counts :
    (k c : ℕ) (t : TcpServer) → is_in c t.conns ≡ false → Counts k t → Counts k (accept c t)
unfolding accept
accept-Counts k c t out h = record {
  distinct = (out, h.distinct);
  small = omega arith;
  count = omega (arith, h.count);
}

leave-Counts :
    (k c : ℕ) (t : TcpServer) → is_in c t.conns ≡ true → Counts k t → Counts k (leave c t)
unfolding leave
leave-Counts k c t inside h = record {
  distinct = without_conn-IsDistinct c t.conns h.distinct;
  small = omega arith;
  count = omega (arith, h.count, length-without_conn c t.conns h.distinct inside);
}

-- The second decrement takes a connection off that is no longer there.
leave-again :
    (k c : ℕ) (t : TcpServer) → is_in c t.conns ≡ false → Counts k t → Counts (k + 1) (leave c t)
unfolding leave
leave-again k c t out h = record {
  distinct = without_conn-IsDistinct c t.conns h.distinct;
  small = omega arith;
  count = omega (arith, h.count, ap length (without_conn-absent c t.conns out));
}

leave-out : (c : ℕ) (t : TcpServer) → is_in c (leave c t).conns ≡ false
unfolding leave
leave-out c t = is_in-gone c t.conns

no_eof : (k : ℕ) (t : TcpServer) → Counts k t → Counts (k + 0) t
no_eof k t h = let same : k ≡ k + 0 = omega arith in subst (λ n. Counts n t) same h

received-Counts :
    (k c : ℕ) (payload : List ℕ) (t : TcpServer)
    → is_in c t.conns ≡ true
    → Counts k t
    → Counts k (read_turn c (received payload) t)
unfolding read_turn
received-Counts k c payload t inside h =
    let u = record t { read = (c, payload) ∷ t.read } in
    let same : Counts k u = record { distinct = h.distinct; small = h.small; count = h.count } in
    elim (Bool-cases (is_q payload)) [
      | inl quits ↦ rw quits (leave-Counts k c u inside same)
      | inr stays ↦ rw stays same
    ]

read_turn-Counts :
    (k c : ℕ) (r : ReadResult) (t : TcpServer)
    → is_in c t.conns ≡ true
    → Counts k t
    → Counts (k + eofs_of r) (read_turn c r t)
unfolding read_turn
read_turn-Counts k c eof t inside h =
    leave-again k c (leave c t) (leave-out c t) (leave-Counts k c t inside h)
read_turn-Counts k c timed_out t inside h = no_eof k t h
read_turn-Counts k c forcibly_closed t inside h = no_eof k (leave c t) (leave-Counts k c t inside h)
read_turn-Counts k c other_op_error t inside h = no_eof k t h
read_turn-Counts k c other_error t inside h = no_eof k t h
read_turn-Counts k c (received payload) t inside h =
    no_eof k _ (received-Counts k c payload t inside h)

Reach-Counts : (k : ℕ) (t : TcpServer) → Reach k t → Counts k t
unfolding forward_tcp send_turn
Reach-Counts k t start = record { distinct = tt; small = omega arith; count = refl }
Reach-Counts k _ (accepted {t} c r out) = accept-Counts k c t out (Reach-Counts k t r)
Reach-Counts _ _ (turned {k} {t} c result r inside) =
    read_turn-Counts k c result t inside (Reach-Counts k t r)
Reach-Counts k _ (forwarded {t} msg r) =
    let h = Reach-Counts k t r in
    let channel : (xs : List Slice) → Counts k (record t { tcp_send = xs }) =
      λ xs. record { distinct = h.distinct; small = h.small; count = h.count } in
    ground (arith, h, channel (t.tcp_send ++ msg ∷ []))
Reach-Counts k _ (sent {t} r) =
    let h = Reach-Counts k t r in record { distinct = h.distinct; small = h.small; count = h.count }

-- A message of the broker with room in the channel is forwarded to the robots exactly if fewer
-- connections have ended by the end of the input, since the start, than are open: each of those was
-- counted off twice. The numbers are below 2^62.
pub forward_tcp_lem :
    (k : ℕ) (t : TcpServer) (msg : Slice)
    → Reach k t
    → length t.conns + k < 2 ^ 62
    → length t.tcp_send < 2
    → (forward_tcp msg t).tcp_send
      ≡ (if ltb k (length t.conns) then t.tcp_send ++ msg ∷ [] else t.tcp_send)
unfolding forward_tcp
forward_tcp_lem k t msg r few room =
    let h = Reach-Counts k t r in
    elim (Bool-cases (ltb k (length t.conns))) [
      | inl more ↦
          let positive : is_positive t.num_open ≡ true = ground (arith, h.count, h.small) in
          let free : ltb (length t.tcp_send) 2 ≡ true = ground arith in
          rw (more, positive, free) refl
      | inr fewer ↦
          let stopped : is_positive t.num_open ≡ false = ground (arith, h.count, h.small) in
          rw (fewer, stopped) refl
    ]
