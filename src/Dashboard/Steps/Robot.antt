-- ===== src/Dashboard/Steps/Robot.antt =====
-- dashboard/server/main.go: the robot's record and the broadcasts under consistency.
use Prim.Native.String.{String}
use pacbot.Prelude.{
  ℕ, zero, suc, ◌+◌, ◌≤◌, ◌≡◌, refl, sym, ap, ◌∙◌, List, [], ◌∷◌, Option, none, some, All-map,
  length, length-set, length-append, set, get_or, get_or-set, if◌then◌else◌, ◌==◌, leb, ltb, ◌&&◌,
  arith, Bool-cases, Option-cases, inl, inr,
}
use pacbot.Bits.{get_bit}
use pacbot.Dashboard.{RobotState, Server, WsClient, Notice, minus_one}
use pacbot.Dashboard.Clients.{offer, broadcast, broadcast_state, build_state_json}
use pacbot.Dashboard.Telemetry.{is_new_addr, see, clear_sensors}
use pacbot.Dashboard.Steps.{IsLinked, Fits, IsConsistent}

offer-Fits : (n : Notice) (c : WsClient) → Fits c → Fits (offer n c)
unfolding offer
offer-Fits n c h = ground (arith, length-append c.send (n ∷ []))

pub broadcast-IsConsistent :
    (n : Notice) (s : Server) → IsConsistent s → IsConsistent (broadcast n s)
unfolding broadcast
broadcast-IsConsistent n s h = record {
  linked = h.linked;
  three = h.three;
  speed_pos = h.speed_pos;
  speed_le = h.speed_le;
  queues = All-map Fits Fits (offer n) (offer-Fits n) s.clients h.queues;
}

pub broadcast_state-IsConsistent : (s : Server) → IsConsistent s → IsConsistent (broadcast_state s)
unfolding broadcast_state
broadcast_state-IsConsistent s h = broadcast-IsConsistent (build_state_json s.robot) s h

-- A server with another robot.
pub with_robot :
    (s : Server) (r : RobotState)
    → IsConsistent s
    → IsLinked r
    → IsConsistent (record s { robot = r })
with_robot s r h l = record {
  linked = l;
  three = h.three;
  speed_pos = h.speed_pos;
  speed_le = h.speed_le;
  queues = h.queues;
}

see_addr :
    (addr : String) (now : ℕ) (r : RobotState) → (a : String) × ((see addr now r).addr ≡ some a)
unfolding see is_new_addr
see_addr addr now r = elim (Option-cases r.addr) [
  | inl first ↦ (addr, rw first refl)
  | inr (a, again) ↦ elim (Bool-cases (is_new_addr addr r)) [
    | inl new ↦ (addr, rw new refl)
    | inr old ↦ (a, rw old again)
  ]
]

pub see-IsLinked :
    (addr : String) (now : ℕ) (r : RobotState) → IsLinked r → IsLinked (see addr now r)
unfolding see is_new_addr
see-IsLinked addr now r h = record {
  has_addr = λ e. see_addr addr now r;
  no_addr = λ e. cc;
  eight = h.eight;
  disabled = h.disabled;
}

-- The sensors of a device message: those from slot `i` on are reset.
pub clear_sensors_lem :
    (mask n i : ℕ) (old : List ℕ)
    → i + n ≤ length old
    → (length (clear_sensors mask n i old) ≡ length old)
      × ((j : ℕ)
          → get_or (clear_sensors mask n i old) j 0 ≡ (
              if leb i j && ltb j (i + n)
              then (if get_bit mask j then 0 else minus_one)
              else get_or old j 0))
unfolding clear_sensors
clear_sensors_lem mask zero i old h = (refl, λ j. ground arith)
clear_sensors_lem mask (suc n) i old h =
    let v = if get_bit mask i then 0 else minus_one in
    let (len, at) =
      clear_sensors_lem mask n (i + 1) (set old i v) (omega (arith, length-set old i v)) in
    (
      len ∙ length-set old i v,
      λ j. elim (Bool-cases (i == j)) [
        | inl same ↦
            let here : i ≡ j = ground arith in
            ground (arith, at j, get_or-set old i j v 0, ap (get_bit mask) here)
        | inr differs ↦ ground (arith, at j, get_or-set old i j v 0)
      ],
    )

abbrev pub Ensures : Option Server → Type 0
Ensures none = Unit
Ensures (some t) = IsConsistent t

-- A change of the robot that leaves its link, sensors and mask alone.
abbrev pub SameSlots : RobotState → RobotState → Type 0
SameSlots r r' =
    (r'.connected ≡ r.connected)
    × (r'.addr ≡ r.addr)
    × (r'.sensors ≡ r.sensors)
    × (r'.sensor_mask ≡ r.sensor_mask)

pub SameSlots-IsLinked : (r r' : RobotState) → IsLinked r → SameSlots r r' → IsLinked r'
SameSlots-IsLinked r r' h (same, addr, sensors, mask) = record {
  has_addr = λ on. let (a, ea) = h.has_addr (sym same ∙ on) in (a, addr ∙ ea);
  no_addr = λ off. addr ∙ h.no_addr (sym same ∙ off);
  eight = ap length sensors ∙ h.eight;
  disabled = λ j lt off.
      ap (λ (xs : List ℕ). get_or xs j 0) sensors
      ∙ h.disabled j lt (ap (λ m. get_bit m j) (sym mask) ∙ off);
}
