-- ===== src/Dashboard/Gains.antt =====
-- dashboard/server/main.go: the gains of the loops, set, kept and sent again.
use Prim.Native.String.{String}
use pacbot.Prelude.{
  ℕ, ◌+◌, ◌*◌, ◌%◌, ◌/◌, ◌^◌, ◌<◌, ◌≡◌, ◌≢◌, refl, ap, get_or-set, List, [], ◌∷◌, Bool, true, some,
  length, set, get_or, if◌then◌else◌, arith, Bool-cases, inl, inr,
}
use pacbot.Dashboard.{Server, PidState, no_gains}
use pacbot.Dashboard.Wire.{if_some, slice, uint32, uint32_at}
use pacbot.Dashboard.Link.{send_to_robot, pid_payload, resend_loop, resend_pid_gains}
use pacbot.Dashboard.Control.{Floats, pos, keep_gains, send_pid}

-- The datagrams of the gains that are set, from index `i` on.
pub set_payloads : ℕ → List PidState → List (List ℕ)
set_payloads i [] = []
set_payloads i (g ∷ gs) =
    if g.is_set
    then pid_payload i g.kp g.ki g.kd ∷ set_payloads (i + 1) gs
    else set_payloads (i + 1) gs

-- Datagrams written one after the other, the latest first.
pub written_to : String → List (List ℕ) → List (String × List ℕ) → List (String × List ℕ)
written_to addr [] sent = sent
written_to addr (b ∷ bs) sent = written_to addr bs ((addr, b) ∷ sent)

send_to_robot-some :
    (b : Bool) (bytes : List ℕ) (s : Server) (addr : String)
    → b ≡ true
    → s.robot.addr ≡ some addr
    → send_to_robot b bytes s ≡ some (record s { sent = (addr, bytes) ∷ s.sent })
unfolding send_to_robot
send_to_robot-some b bytes s addr ok here = ground arith

resend_loop_lem :
    (written : ℕ → Bool) (i : ℕ) (gs : List PidState) (s : Server) (addr : String)
    → ((k : ℕ) → written k ≡ true)
    → s.robot.addr ≡ some addr
    → resend_loop written i gs s ≡ record s { sent = written_to addr (set_payloads i gs) s.sent }
unfolding resend_loop set_payloads written_to
resend_loop_lem written i [] s addr ok here = refl
resend_loop_lem written i (g ∷ gs) s addr ok here = elim (Bool-cases g.is_set) [
  | inr unset ↦ rw unset (resend_loop_lem written (i + 1) gs s addr ok here)
  | inl is ↦ rw (is, resends) (resend_loop_lem written (i + 1) gs _ addr ok here)
]
  where
    resends :
        send_to_robot (written i) (pid_payload i g.kp g.ki g.kd) s
        ≡ some (record s { sent = (addr, pid_payload i g.kp g.ki g.kd) ∷ s.sent })
    resends = send_to_robot-some (written i) _ s addr (ok i) here

-- When a robot is connected and every write succeeds, the gains that are set are sent to it again in
-- the order of their loops, each in one datagram, and nothing else changes.
pub resend_pid_gains_lem :
    (written : ℕ → Bool) (s : Server) (addr : String)
    → ((k : ℕ) → written k ≡ true)
    → s.robot.addr ≡ some addr
    → resend_pid_gains written s
      ≡ record s { sent = written_to addr (set_payloads 0 s.pid_gains) s.sent }
unfolding resend_pid_gains
resend_pid_gains_lem written s addr ok here = resend_loop_lem written 0 s.pid_gains s addr ok here

uint32_lem :
    (n : ℕ)
    → n < 2 ^ 32
    → n % 256 + 256 * (n / 256 % 256) + 65536 * (n / 65536 % 256) + 16777216 * (n / 16777216 % 256)
      ≡ n
uint32_lem n h = omega arith

-- The bytes of a datagram with gains hold the loop, and each gain where the robot reads it: a
-- little-endian uint32 at 2, 6 and 10.
pub pid_payload-uint32_at :
    (i kp ki kd : ℕ)
    → kp < 2 ^ 32
    → ki < 2 ^ 32
    → kd < 2 ^ 32
    → let bytes = pid_payload i kp ki kd in
      (length bytes ≡ 14)
      × (get_or bytes 0 0 ≡ 0x1B)
      × (get_or bytes 1 0 ≡ i)
      × (uint32_at bytes 2 ≡ some kp)
      × (uint32_at bytes 6 ≡ some ki)
      × (uint32_at bytes 10 ≡ some kd)
unfolding pid_payload uint32_at slice uint32
pid_payload-uint32_at i kp ki kd a b c = (
  refl,
  refl,
  refl,
  ap some (uint32_lem kp a),
  ap some (uint32_lem ki b),
  ap some (uint32_lem kd c),
)

-- A set_pid for one of the three loops, where a robot is there and the write succeeds, sends one
-- datagram with the loop and the gains; the gains that are kept for that loop become those that were
-- sent, and those of the other loops stay.
pub send_pid-resend :
    (fl : Floats) (x : fl.F64) (i kp ki kd : ℕ) (s : Server) (addr : String)
    → s.robot.addr ≡ some addr
    → length s.pid_gains ≡ 3
    → i < 3
    → fl.to_int x ≡ pos i
    → fl.to_byte x ≡ i
    → (t : Server) × (send_pid fl true x kp ki kd s ≡ some t)
      × (t.sent ≡ (addr, pid_payload i kp ki kd) ∷ s.sent)
      × (get_or t.pid_gains i no_gains ≡ record { is_set = true; kp = kp; ki = ki; kd = kd })
      × ((j : ℕ) → j ≢ i → get_or t.pid_gains j no_gains ≡ get_or s.pid_gains j no_gains)
unfolding send_pid if_some keep_gains
send_pid-resend fl x i kp ki kd s addr here three lt e b =
    let g : PidState = record { is_set = true; kp = kp; ki = ki; kd = kd } in
    let at = λ (j : ℕ). get_or-set s.pid_gains i j g no_gains (omega arith) in
    (
      record s { sent = (addr, pid_payload i kp ki kd) ∷ s.sent; pid_gains = set s.pid_gains i g },
      ground (arith, send_to_robot-some true (pid_payload i kp ki kd) s addr refl here),
      refl,
      ground (arith, at i),
      λ j ne. ground (arith, at j),
    )
