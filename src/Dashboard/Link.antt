-- ===== src/Dashboard/Link.antt =====
-- dashboard/server/main.go: the datagrams to the robot, and the gains that are sent again when it
-- comes back. Whether a write to the UDP socket succeeds is the environment's choice, an argument.
use pacbot.Prelude.{
  ℕ, ◌+◌, List, [], ◌∷◌, ◌++◌, Bool, true, false, if◌then◌else◌, Option, none, some,
}
use pacbot.Dashboard.{Server, PidState, cmd_set_pid}
use pacbot.Dashboard.Wire.{put_uint32}

-- `none` is an error: no robot, or a failed write.
unfoldable pub send_to_robot : Bool → List ℕ → Server → Option Server
send_to_robot written bytes s = elim s.robot.addr [
  | none ↦ none
  | some addr ↦ if written then some (record s { sent = (addr, bytes) ∷ s.sent }) else none
]

-- The payload of CmdSetPid.
unfoldable pub pid_payload : ℕ → ℕ → ℕ → ℕ → List ℕ
pid_payload loop_id kp ki kd =
    cmd_set_pid ∷ loop_id ∷ (put_uint32 kp ++ (put_uint32 ki ++ put_uint32 kd))

-- The loop over the gains, from index `i` on; it ends at the first error. A write is given by the
-- index of its loop.
unfoldable pub resend_loop : (ℕ → Bool) → ℕ → List PidState → Server → Server
resend_loop written i [] s = s
resend_loop written i (g ∷ gs) s = elim g.is_set [
  | false ↦ resend_loop written (i + 1) gs s
  | true ↦ elim (send_to_robot (written i) (pid_payload i g.kp g.ki g.kd) s) [
    | none ↦ s
    | some t ↦ resend_loop written (i + 1) gs t
  ]
]

unfoldable pub resend_pid_gains : (ℕ → Bool) → Server → Server
resend_pid_gains written s = resend_loop written 0 s.pid_gains s
