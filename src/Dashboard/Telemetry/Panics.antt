-- ===== src/Dashboard/Telemetry/Panics.antt =====
-- dashboard/server/main.go: handleUDP and its panics.
use Prim.Native.String.{String}
use pacbot.Prelude.{
  ℕ, zero, suc, ◌+◌, ◌≤◌, ◌<◌, ◌≡◌, ◌≢◌, ◌↔◌, ◌⊎◌, inl, inr, refl, List, [], ◌∷◌, All, true, false,
  not, ◌&&◌, ◌||◌, ◌==◌, ltb, leb, Option, none, some, length, arith, Bool-cases, get_or, take,
  drop, ◌-◌,
}
use mathlib.Core.Path.{subst}
use pacbot.Bits.{get_bit}
use pacbot.Dashboard.{RobotState, Server, logging}
use pacbot.Dashboard.Wire.{slice}
use pacbot.Dashboard.Telemetry.{
  handle_alive, handle_device_info, read_slot, read_sensors, read_imu, handle_sensor_data, text_end,
  log_text, handle_log, handle_pong, dispatch, handle_udp, see,
}
use pacbot.Dashboard.Telemetry.Reads.{
  byte_at-some, uint16_at-some, uint32_at-some, word_at, read_slot-there, read_slot-missing,
  read_slot-disabled,
}

abbrev Works {ℓ} : {A : Type ℓ} → Option A → Type ℓ
Works {A} o = (a : A) × (o ≡ some a)

handle_alive-Works : (bytes : List ℕ) (s : Server) → Works (handle_alive bytes s)
unfolding handle_alive
handle_alive-Works bytes s = elim (Bool-cases (ltb (length bytes) 5)) [
  | inl short ↦ rw short (s, refl)
  | inr long ↦ let (v, e) = uint32_at-some bytes 1 (ground arith) in rw (long, e) (_, refl)
]

handle_pong-Works : (bytes : List ℕ) (s : Server) → Works (handle_pong bytes s)
unfolding handle_pong
handle_pong-Works bytes s = elim (Bool-cases (ltb (length bytes) 5)) [
  | inl short ↦ rw short (s, refl)
  | inr long ↦ let (v, e) = uint32_at-some bytes 1 (ground arith) in rw (long, e) (_, refl)
]

handle_device_info-Works : (bytes : List ℕ) (s : Server) → Works (handle_device_info bytes s)
unfolding handle_device_info
handle_device_info-Works bytes s = elim (Bool-cases (ltb (length bytes) 4)) [
  | inl short ↦ rw short (s, refl)
  | inr long ↦
      rw
        (
          long,
          byte_at-some bytes 1 (ground arith),
          byte_at-some bytes 2 (ground arith),
          byte_at-some bytes 3 (ground arith),
        )
        (_, refl)
]

read_slot-Works :
    (bytes : List ℕ) (mask count i p idx : ℕ) (sensors : List ℕ)
    → Works (read_slot bytes mask count i p idx sensors)
read_slot-Works bytes mask count i p idx sensors = elim (Bool-cases (get_bit mask i)) [
  | inr off ↦ (_, read_slot-disabled bytes mask count i p idx sensors off)
  | inl enabled ↦ elim (Bool-cases (ltb idx count && leb (p + 2) (length bytes))) [
    | inl there ↦
        (_, read_slot-there bytes mask count i p idx sensors enabled (ground arith) (ground arith))
    | inr missing ↦ (_, read_slot-missing bytes mask count i p idx sensors enabled (ground arith))
  ]
]

pub read_sensors-Works :
    (bytes : List ℕ) (mask count n i p idx : ℕ) (sensors : List ℕ)
    → Works (read_sensors bytes mask count n i p idx sensors)
unfolding read_sensors
read_sensors-Works bytes mask count zero i p idx sensors = (_, refl)
read_sensors-Works bytes mask count (suc n) i p idx sensors =
    let (slot, e) = read_slot-Works bytes mask count i p idx sensors in
    let (read, f) = read_sensors-Works bytes mask count n (i + 1) slot.1 slot.2 slot.0 in
    (read, rw e f)

-- The angles are all that a read of them changes.
abbrev pub SameButAngles : RobotState → RobotState → Type 0
SameButAngles r r' = r' ≡ record r { yaw = r'.yaw; pitch = r'.pitch; roll = r'.roll }

pub read_imu-Works :
    (bytes : List ℕ) (p : ℕ) (r : RobotState)
    → (r' : RobotState) × (read_imu bytes p r ≡ some r') × SameButAngles r r'
unfolding read_imu
read_imu-Works bytes p r = elim (Bool-cases (ltb p (length bytes))) [
  | inr past ↦ rw past (r, refl, refl)
  | inl flagged ↦
      elim (Bool-cases (get_or bytes p 0 == 0 || not (leb (p + 1 + 12) (length bytes)))) [
        | inl no_angles ↦
            rw (flagged, byte_at-some bytes p (ground arith), no_angles) (r, refl, refl)
        | inr angles ↦
            let (a, ea) = uint32_at-some bytes (p + 1) (ground arith) in
            let (b, eb) = uint32_at-some bytes (p + 5) (ground arith) in
            let (c, ec) = uint32_at-some bytes (p + 9) (ground arith) in
            rw (flagged, byte_at-some bytes p (ground arith), angles, ea, eb, ec) (_, refl, refl)
      ]
]

handle_sensor_data-Works : (bytes : List ℕ) (s : Server) → Works (handle_sensor_data bytes s)
unfolding handle_sensor_data
handle_sensor_data-Works bytes s = elim (Bool-cases (ltb (length bytes) 6)) [
  | inl short ↦ rw short (s, refl)
  | inr long ↦
      let (t, et) = uint32_at-some bytes 1 (ground arith) in
      let count = get_or bytes 5 0 in
      let (read, er) = read_sensors-Works bytes s.robot.sensor_mask count 8 0 6 0 s.robot.sensors in
      let (imu, ei, same) =
        read_imu-Works bytes read.1
          (record s.robot { timestamp_ms = t; state = logging; sensors = read.0 }) in
      rw (long, et, byte_at-some bytes 5 (ground arith), er, ei) (_, refl)
]

log_text-none :
    (bytes : List ℕ) (n : ℕ) → text_end n < 4 → 4 ≤ length bytes → log_text bytes n ≡ none
unfolding log_text slice
log_text-none bytes n wrapped long = ground arith

log_text-Works : (bytes : List ℕ) (n : ℕ) → 4 ≤ text_end n → Works (log_text bytes n)
unfolding log_text slice
log_text-Works bytes n h = elim (Bool-cases (leb (text_end n) (length bytes))) [
  | inl fits ↦ (take (text_end n - 4) (drop 4 bytes), ground arith)
  | inr cut ↦ ([], ground arith)
]

-- A log message panics when the end of its text has wrapped to a place before its start.
handle_log-none :
    (bytes : List ℕ) (s : Server)
    → 4 ≤ length bytes
    → text_end (word_at bytes 2) < 4
    → handle_log bytes s ≡ none
unfolding handle_log
handle_log-none bytes s long wrapped =
    rw
      (
        long_enough,
        byte_at-some bytes 1 (omega arith),
        uint16_at-some bytes 2 (omega arith),
        log_text-none bytes (word_at bytes 2) wrapped long,
      )
      refl
  where
    long_enough : ltb (length bytes) 4 ≡ false
    long_enough = ground arith

handle_log-Works :
    (bytes : List ℕ) (s : Server)
    → (4 ≤ length bytes → 4 ≤ text_end (word_at bytes 2))
    → Works (handle_log bytes s)
unfolding handle_log
handle_log-Works bytes s h = elim (Bool-cases (ltb (length bytes) 4)) [
  | inl short ↦ rw short (s, refl)
  | inr long ↦
      let (text, e) = log_text-Works bytes (word_at bytes 2) (h (ground arith)) in
      rw (long, byte_at-some bytes 1 (ground arith), uint16_at-some bytes 2 (ground arith), e)
        (_, refl)
]

-- A log message whose length field is at least 65532.
abbrev pub CrashesBy : List ℕ → Type 0
CrashesBy bytes =
    (severity : ℕ) × (lo : ℕ) × (rest : List ℕ) × (bytes ≡ 4 ∷ severity ∷ lo ∷ 255 ∷ rest)
    × (252 ≤ lo)

abbrev pub IsByte : ℕ → Type 0
IsByte n = n < 256

dispatch-Works :
    (n : ℕ) (bytes : List ℕ) (s : Server)
    → (n ≡ 4 → 4 ≤ length bytes → 4 ≤ text_end (word_at bytes 2))
    → Works (dispatch n bytes s)
unfolding dispatch
dispatch-Works n bytes s h = elim (Bool-cases (n == 1)) [
  | inl a ↦ rw a (handle_alive-Works bytes s)
  | inr na ↦ elim (Bool-cases (n == 2)) [
    | inl b ↦ rw (na, b) (handle_device_info-Works bytes s)
    | inr nb ↦ elim (Bool-cases (n == 3)) [
      | inl c ↦ rw (na, nb, c) (handle_sensor_data-Works bytes s)
      | inr nc ↦ elim (Bool-cases (n == 4)) [
        | inl d ↦ rw (na, nb, nc, d) (handle_log-Works bytes s (h (ground arith)))
        | inr nd ↦ elim (Bool-cases (n == 5)) [
          | inl e ↦ rw (na, nb, nc, nd, e) (handle_pong-Works bytes s)
          | inr ne ↦ rw (na, nb, nc, nd, ne) (s, refl)
        ]
      ]
    ]
  ]
]

dispatch-cases :
    (n : ℕ) (rest : List ℕ)
    → All IsByte rest
    → CrashesBy (n ∷ rest) ⊎ ((s : Server) → Works (dispatch n (n ∷ rest) s))
unfolding text_end word_at
dispatch-cases n [] h = inr λ s. dispatch-Works n (n ∷ []) s λ e l. absurd (omega arith)
dispatch-cases n (a ∷ []) h = inr λ s. dispatch-Works n (n ∷ a ∷ []) s λ e l. absurd (omega arith)
dispatch-cases n (a ∷ b ∷ []) h =
    inr λ s. dispatch-Works n (n ∷ a ∷ b ∷ []) s λ e l. absurd (omega arith)
dispatch-cases n (a ∷ b ∷ c ∷ rest) h = elim (Bool-cases (n == 4 && (c == 255 && leb 252 b))) [
  | inl bad ↦ inl (a, b, rest, same bad, ground arith)
  | inr fine ↦ inr λ s. dispatch-Works n (n ∷ a ∷ b ∷ c ∷ rest) s λ e l. ground arith
]
  where
    same :
        (n == 4 && (c == 255 && leb 252 b)) ≡ true
        → (n ∷ a ∷ b ∷ c ∷ rest) ≡ (4 ∷ a ∷ b ∷ 255 ∷ rest)
    same bad = ground arith

handle_udp-Works :
    (n : ℕ) (rest : List ℕ) (addr : String) (now : ℕ) (s : Server)
    → ((t : Server) → Works (dispatch n (n ∷ rest) t))
    → handle_udp (n ∷ rest) addr now s ≢ none
unfolding handle_udp
handle_udp-Works n rest addr now s h e =
    let (t, works) = h (record s { robot = see addr now s.robot }) in cc (rw works at e)

dispatch-none :
    (a b : ℕ) (rest : List ℕ) (s : Server)
    → b < 256
    → 252 ≤ b
    → dispatch 4 (4 ∷ a ∷ b ∷ 255 ∷ rest) s ≡ none
unfolding dispatch text_end word_at
dispatch-none a b rest s hb h =
    handle_log-none (4 ∷ a ∷ b ∷ 255 ∷ rest) s (omega arith) (omega arith)

handle_udp-crash :
    (a b : ℕ) (rest : List ℕ) (addr : String) (now : ℕ) (s : Server)
    → b < 256
    → 252 ≤ b
    → handle_udp (4 ∷ a ∷ b ∷ 255 ∷ rest) addr now s ≡ none
unfolding handle_udp
handle_udp-crash a b rest addr now s hb h =
    rw (dispatch-none a b rest (record s { robot = see addr now s.robot }) hb h) refl

handle_udp-nil : (addr : String) (now : ℕ) (s : Server) → handle_udp [] addr now s ≢ none
unfolding handle_udp
handle_udp-nil addr now s e = cc e

-- The handler of the robot's messages panics exactly on the log messages whose length field is
-- 65532 or more: the end of the text wraps on uint16 to a place before its start. No other message,
-- however short, makes it read out of range.
pub handle_udp-none_iff :
    (bytes : List ℕ) (addr : String) (now : ℕ) (s : Server)
    → All IsByte bytes
    → (handle_udp bytes addr now s ≡ none) ↔ CrashesBy bytes
handle_udp-none_iff [] addr now s h =
    (λ e. absurd (handle_udp-nil addr now s e), λ (a, b, tail, same, big). cc same)
handle_udp-none_iff (n ∷ rest) addr now s h = (
  λ e. elim (dispatch-cases n rest h.1) [
    | inl crash ↦ crash
    | inr works ↦ absurd (handle_udp-Works n rest addr now s works e)
  ],
  λ (a, b, tail, same, big).
      rw same (handle_udp-crash a b tail addr now s (subst (All IsByte) same h).1.1.0 big),
)
