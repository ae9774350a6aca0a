-- ===== src/Dashboard/Steps/Consistent.antt =====
-- dashboard/server/main.go: consistency under a send to the robot.
use Prim.Native.String.{String}
use mathlib.Core.Path.{subst}
use pacbot.Prelude.{ℕ, ◌≡◌, sym, List, Bool, true, some, arith}
use pacbot.Dashboard.{Server}
use pacbot.Dashboard.Wire.{if_some, if_some-keeps}
use pacbot.Dashboard.Link.{send_to_robot}
use pacbot.Dashboard.Steps.{IsConsistent}

abbrev pub with_sent : List (String × List ℕ) → Server → Server
with_sent sent s = record s { sent = sent }

pub with_sent-IsConsistent :
    (sent : List (String × List ℕ)) (s : Server) → IsConsistent s → IsConsistent (with_sent sent s)
with_sent-IsConsistent sent s h = record {
  linked = h.linked;
  three = h.three;
  speed_pos = h.speed_pos;
  speed_le = h.speed_le;
  queues = h.queues;
}

-- A datagram is sent only while the robot is connected, and changes nothing but what was sent.
pub send_to_robot-some :
    (written : Bool) (bytes : List ℕ) (s t : Server)
    → IsConsistent s
    → send_to_robot written bytes s ≡ some t
    → (s.robot.connected ≡ true) × (t ≡ with_sent t.sent s)
unfolding send_to_robot
send_to_robot-some written bytes s t h e = ground (arith, h.linked.no_addr)

pub sent-IsConsistent :
    (written : Bool) (bytes : List ℕ) (s t : Server)
    → IsConsistent s
    → send_to_robot written bytes s ≡ some t
    → IsConsistent t
sent-IsConsistent written bytes s t h e =
    subst IsConsistent (sym (send_to_robot-some written bytes s t h e).1)
      (with_sent-IsConsistent t.sent s h)

-- The rule for a command: what follows a send need only keep a consistent server so.
pub after_send :
    (written : Bool) (bytes : List ℕ) (s : Server) (f : Server → Server)
    → IsConsistent s
    → ((t : Server) → IsConsistent t → IsConsistent (f t))
    → IsConsistent (if_some (send_to_robot written bytes s) s f)
after_send written bytes s f h keep =
    if_some-keeps IsConsistent (send_to_robot written bytes s) h
      λ t works. keep t (sent-IsConsistent written bytes s t h works)
