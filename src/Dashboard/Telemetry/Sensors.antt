-- ===== src/Dashboard/Telemetry/Sensors.antt =====
-- dashboard/server/main.go: the sensor message of handleUDP and the readings.
use Prim.Native.String.{String}
use pacbot.Prelude.{
  ℕ, zero, suc, ◌+◌, ◌-◌, ◌*◌, ◌/◌, ◌≤◌, ◌<◌, ◌≡◌, refl, sym, ap, ◌∙◌, List, ◌∷◌, Bool, true, false,
  ◌&&◌, ◌==◌, ltb, leb, min, if◌then◌else◌, some, length, set, length-set, get_or, get_or-set,
  arith, Bool-cases, inl, inr,
}
use mathlib.Core.Path.{subst}
use pacbot.Bits.{get_bit}
use pacbot.Dashboard.{RobotState, Server, logging, minus_one}
use pacbot.Dashboard.Clients.{broadcast, broadcast_state}
use pacbot.Dashboard.Telemetry.{
  read_sensors, handle_udp, dispatch, handle_sensor_data, see, is_new_addr,
}
use pacbot.Dashboard.Telemetry.Panics.{SameButAngles, read_imu-Works}
use pacbot.Dashboard.Telemetry.Reads.{
  byte_at-some, uint32_at-some, word_at, read_slot-there, read_slot-missing, read_slot-disabled,
}

-- The number of enabled slots below a slot.
pub rank : ℕ → ℕ → ℕ
rank mask zero = 0
rank mask (suc i) = rank mask i + (if get_bit mask i then 1 else 0)

-- The number of values that a message can give: by its count, and by its length.
abbrev pub available : List ℕ → ℕ → ℕ
available bytes count = min count ((length bytes - 6) / 2)

-- The reading of slot `j` after the message, `old` being the one before.
abbrev pub reading : List ℕ → ℕ → ℕ → ℕ → ℕ → ℕ
reading bytes mask count j old =
    if get_bit mask j
    then (if ltb (rank mask j) (available bytes count)
        then word_at bytes (6 + 2 * rank mask j)
        else old)
    else minus_one

-- The sensors after the slots from `i` on, `n` of them.
abbrev After : List ℕ → ℕ → ℕ → ℕ → ℕ → List ℕ → List ℕ → Type 0
After bytes mask count n i old new =
    (length new ≡ length old)
    × ((j : ℕ)
        → get_or new j 0 ≡ (
            if leb i j && ltb j (i + n)
            then reading bytes mask count j (get_or old j 0)
            else get_or old j 0))

-- The values read so far, before slot `i`.
abbrev so_far : List ℕ → ℕ → ℕ → ℕ → ℕ
so_far bytes mask count i = min (rank mask i) (available bytes count)

After-set :
    (bytes : List ℕ) (mask count n i v : ℕ) (old new : List ℕ)
    → i < length old
    → v ≡ reading bytes mask count i (get_or old i 0)
    → After bytes mask count n (i + 1) (set old i v) new
    → After bytes mask count (suc n) i old new
After-set bytes mask count n i v old new h e (len, at) =
    (len ∙ length-set old i v, λ j. ground (arith, at j, get_or-set old i j v 0))

After-skip :
    (bytes : List ℕ) (mask count n i : ℕ) (old new : List ℕ)
    → get_or old i 0 ≡ reading bytes mask count i (get_or old i 0)
    → After bytes mask count n (i + 1) old new
    → After bytes mask count (suc n) i old new
After-skip bytes mask count n i old new e (len, at) = (
  len,
  λ j. elim (Bool-cases (i == j)) [
    | inl same ↦
        let here : i ≡ j = ground arith in
        ground (arith, at j, ap (λ k. get_or old k 0) here, e, here)
    | inr differs ↦ ground (arith, at j)
  ],
)

rank-next : (mask i : ℕ) → rank mask (i + 1) ≡ rank mask i + (if get_bit mask i then 1 else 0)
unfolding rank
rank-next mask i = let e : i + 1 ≡ suc i = omega arith in rw e refl

read_sensors-After :
    (bytes : List ℕ) (mask count n i p idx : ℕ) (sensors : List ℕ)
    → 6 ≤ length bytes
    → i + n ≤ length sensors
    → idx ≡ so_far bytes mask count i
    → p ≡ 6 + 2 * idx
    → (new : List ℕ) × (q : ℕ) × (read_sensors bytes mask count n i p idx sensors ≡ some (new, q))
      × After bytes mask count n i sensors new
unfolding read_sensors
read_sensors-After bytes mask count zero i p idx sensors long room e ep =
    (sensors, p, refl, (refl, λ j. ground arith))
read_sensors-After bytes mask count (suc n) i p idx sensors long room e ep =
    elim (Bool-cases (get_bit mask i)) [
      | inr off ↦
          let (new, q, works, after) =
            read_sensors-After bytes mask count n (i + 1) p idx (set sensors i 65535) long
              (omega (arith, length-set sensors i 65535)) (ground (arith, rank-next mask i)) ep in
          (
            new,
            q,
            rw (read_slot-disabled bytes mask count i p idx sensors off) works,
            After-set bytes mask count n i 65535 sensors new (omega arith) (ground arith) after,
          )
      | inl enabled ↦ elim (Bool-cases (ltb (rank mask i) (available bytes count))) [
        | inl there ↦
            let (new, q, works, after) =
              read_sensors-After bytes mask count n (i + 1) (p + 2) (idx + 1)
                (set sensors i (word_at bytes p)) long
                (omega (arith, length-set sensors i (word_at bytes p)))
                (ground (arith, rank-next mask i)) (omega arith) in
            (
              new,
              q,
              rw
                  (read_slot-there bytes mask count i p idx sensors enabled (ground arith)
                    (ground arith))
                  works,
              After-set bytes mask count n i (word_at bytes p) sensors new (omega arith)
                  (let here : p ≡ 6 + 2 * rank mask i = ground arith in
                    ground (arith, ap (word_at bytes) here))
                  after,
            )
        | inr gone ↦
            let (new, q, works, after) =
              read_sensors-After bytes mask count n (i + 1) p idx sensors long (omega arith)
                (ground (arith, rank-next mask i)) ep in
            (
              new,
              q,
              rw (read_slot-missing bytes mask count i p idx sensors enabled (ground arith)) works,
              After-skip bytes mask count n i sensors new (ground arith) after,
            )
      ]
    ]

abbrev sensors_of : RobotState → List ℕ
sensors_of r = r.sensors

so_far-start : (bytes : List ℕ) (mask count : ℕ) → 0 ≡ so_far bytes mask count 0
unfolding rank
so_far-start bytes mask count = omega arith

frame :
    (r r' : RobotState) (stamp : ℕ) (new : List ℕ)
    → SameButAngles (record r { timestamp_ms = stamp; state = logging; sensors = new }) r'
    → r' ≡ record r {
      timestamp_ms = r'.timestamp_ms;
      state = logging;
      sensors = r'.sensors;
      yaw = r'.yaw;
      pitch = r'.pitch;
      roll = r'.roll;
    }
frame r r' stamp new same = ground arith

pub handle_sensor_data-short :
    (bytes : List ℕ) (s : Server)
    → ltb (length bytes) 6 ≡ true
    → handle_sensor_data bytes s ≡ some s
unfolding handle_sensor_data
handle_sensor_data-short bytes s short = rw short refl

pub handle_sensor_data_lem :
    (bytes : List ℕ) (s : Server)
    → 6 ≤ length bytes
    → length s.robot.sensors ≡ 8
    → (t : Server) × (r : RobotState) × (handle_sensor_data bytes s ≡ some t)
      × (t ≡ broadcast_state (record s { robot = r }))
      × (r ≡ record s.robot {
        timestamp_ms = r.timestamp_ms;
        state = logging;
        sensors = r.sensors;
        yaw = r.yaw;
        pitch = r.pitch;
        roll = r.roll;
      })
      × After bytes s.robot.sensor_mask (get_or bytes 5 0) 8 0 s.robot.sensors r.sensors
unfolding handle_sensor_data
handle_sensor_data_lem bytes s long eight =
    let r : RobotState = s.robot in
    let (stamp, e_stamp) = uint32_at-some bytes 1 (omega arith) in
    let (new, q, e_read, after) =
      read_sensors-After bytes r.sensor_mask (get_or bytes 5 0) 8 0 6 0 r.sensors (omega arith)
        (omega arith) (so_far-start bytes r.sensor_mask (get_or bytes 5 0)) refl in
    let (imu, e_imu, same) =
      read_imu-Works bytes q (record r { timestamp_ms = stamp; state = logging; sensors = new }) in
    (
      broadcast_state (record s { robot = imu }),
      imu,
      rw (long_enough, e_stamp, byte_at-some bytes 5 (omega arith), e_read, e_imu) refl,
      refl,
      frame r imu stamp new same,
      subst (After bytes r.sensor_mask (get_or bytes 5 0) 8 0 r.sensors) (sym (ap sensors_of same))
          after,
    )
  where
    long_enough : ltb (length bytes) 6 ≡ false
    long_enough = ground arith

-- A message of sensor data of at least six bytes is handled: the reading of each enabled slot is the
-- next value of the message, an int16 in two bytes, as long as the count and the length of the
-- message last, and stays from then on; that of a disabled slot is -1. The robot is logging, with
-- the same slots enabled.
pub handle_udp-sensors :
    (rest : List ℕ) (addr : String) (now : ℕ) (s : Server)
    → 5 ≤ length rest
    → length s.robot.sensors ≡ 8
    → (t : Server) × (b : Bool) × (handle_udp (3 ∷ rest) addr now s ≡ some (t, b))
      × ((j : ℕ)
          → j < 8
          → get_or t.robot.sensors j 0
            ≡ reading
                (3 ∷ rest)
                s.robot.sensor_mask
                (get_or rest 4 0)
                j
                (get_or s.robot.sensors j 0))
      × (t.robot.state ≡ logging)
      × (t.robot.sensor_mask ≡ s.robot.sensor_mask)
unfolding handle_udp dispatch see broadcast_state broadcast
handle_udp-sensors rest addr now s long eight =
    let (t, r, works, e, same, after) =
      handle_sensor_data_lem (3 ∷ rest) (record s { robot = see addr now s.robot }) (omega arith)
        eight in
    (
      t,
      is_new_addr addr s.robot,
      rw works refl,
      λ j h. ground (arith, ap (λ (x : Server). get_or x.robot.sensors j 0) e, after.1 j),
      ap (λ (x : Server). x.robot.state) e ∙ ap (λ (x : RobotState). x.state) same,
      ap (λ (x : Server). x.robot.sensor_mask) e ∙ ap (λ (x : RobotState). x.sensor_mask) same,
    )
