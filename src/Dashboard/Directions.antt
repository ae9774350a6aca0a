-- ===== src/Dashboard/Directions.antt =====
-- dashboard/server/main.go: what a direction from the IPC socket sends to the robot.
use Prim.Native.String.{String}
use pacbot.Prelude.{
  ℕ, ◌%◌, ◌≡◌, ◌<◌, ◌==◌, refl, ap, ◌∙◌, List, [], ◌∷◌, Bool, true, false, Option, none, some,
  if◌then◌else◌, arith, Bool-cases, Option-cases, inl, inr, get_or, zero, suc, ◌⊎◌, ◌↔◌,
}
use pacbot.Dashboard.{Server, cmd_cardinal_move}
use pacbot.Dashboard.Wire.{if_some}
use pacbot.Dashboard.Clients.{broadcast}
use pacbot.Dashboard.Link.{send_to_robot}
use pacbot.Dashboard.Control.{Floats, Msg, as_num, note_speed, cardinal_move}
use pacbot.Dashboard.Ipc.{direction, announce, move_externally, handle_external_direction}

-- The letter of each code: stop, then clockwise from north.
abbrev pub letters : List ℕ
letters = b'x' ∷ b'n' ∷ b'e' ∷ b's' ∷ b'w' ∷ []

abbrev pub letter : ℕ → ℕ
letter k = get_or letters k 0

direction-letter : (k : ℕ) → k < 5 → (ui : Option String) × (direction (letter k) ≡ some (k, ui))
unfolding direction
direction-letter zero lt = (_, refl)
direction-letter (suc zero) lt = (_, refl)
direction-letter (suc (suc zero)) lt = (_, refl)
direction-letter (suc (suc (suc zero))) lt = (_, refl)
direction-letter (suc (suc (suc (suc zero)))) lt = (_, refl)
direction-letter (suc (suc (suc (suc (suc k))))) lt = absurd (omega arith)

abbrev speed_for : ℕ → Server → ℕ
speed_for k s = if k == 0 then 0 else s.last_cardinal_speed

move_externally-sent :
    (k : ℕ) (ui : Option String) (s : Server) (a : String)
    → s.robot.addr ≡ some a
    → ((move_externally true k ui s).0.sent
        ≡ (a, cmd_cardinal_move ∷ k ∷ speed_for k s % 256 ∷ []) ∷ s.sent)
      × ((move_externally true k ui s).1 ≡ true)
unfolding move_externally announce broadcast send_to_robot if_some
move_externally-sent k ui s a here = rw here (refl, refl)

external-sent :
    (k : ℕ) (s : Server) (a : String)
    → k < 5
    → s.robot.addr ≡ some a
    → ((handle_external_direction true (letter k) s).0.sent
        ≡ (a, cmd_cardinal_move ∷ k ∷ speed_for k s % 256 ∷ []) ∷ s.sent)
unfolding handle_external_direction if_some
external-sent k s a lt here =
    let (ui, e) = direction-letter k lt in rw e (move_externally-sent k ui s a here).0

-- After the webapp's cardinal move.
cardinal_move_lem :
    (fl : Floats) (msg : Msg fl) (s : Server) (a : String) (dir spd : fl.F64)
    → as_num fl (msg "direction") ≡ some dir
    → as_num fl (msg "speed") ≡ some spd
    → s.robot.addr ≡ some a
    → 0 < fl.to_byte dir
    → 0 < fl.to_byte spd
    → cardinal_move fl true msg s ≡ record s {
      last_cardinal_speed = fl.to_byte spd;
      sent = (a, cmd_cardinal_move ∷ fl.to_byte dir ∷ fl.to_byte spd ∷ []) ∷ s.sent;
    }
unfolding cardinal_move note_speed send_to_robot if_some
cardinal_move_lem fl msg s a dir spd ed es here moves fast =
    rw (ed, es, here) (ground (arith, moves, fast))

-- A cardinal move of the webapp with a direction and a speed that are not 0, which reaches the
-- robot, is remembered: a direction of the IPC socket after it moves the robot with that speed, and
-- the letter x stops it with speed 0. The speed is a byte.
pub handle_external_direction-cardinal_move :
    (fl : Floats) (msg : Msg fl) (s : Server) (a : String) (dir spd : fl.F64) (k : ℕ)
    → as_num fl (msg "direction") ≡ some dir
    → as_num fl (msg "speed") ≡ some spd
    → s.robot.addr ≡ some a
    → 0 < fl.to_byte dir
    → 0 < fl.to_byte spd
    → fl.to_byte spd < 256
    → k < 5
    → (handle_external_direction true (letter k) (cardinal_move fl true msg s)).0.sent
      ≡ (a, cmd_cardinal_move ∷ k ∷ (if k == 0 then 0 else fl.to_byte spd) ∷ [])
        ∷ (a, cmd_cardinal_move ∷ fl.to_byte dir ∷ fl.to_byte spd ∷ [])
        ∷ s.sent
handle_external_direction-cardinal_move fl msg s a dir spd k ed es here moves fast byte lt =
    rw (cardinal_move_lem fl msg s a dir spd ed es here moves fast) (
      external-sent k _ a lt here
      ∙ ap
          (λ v.
            (a, cmd_cardinal_move ∷ k ∷ v ∷ [])
            ∷ (a, cmd_cardinal_move ∷ fl.to_byte dir ∷ fl.to_byte spd ∷ [])
            ∷ s.sent)
          speed)
  where
    speed : (if k == 0 then 0 else fl.to_byte spd) % 256 ≡ (if k == 0 then 0 else fl.to_byte spd)
    speed = elim (Bool-cases (k == 0)) [
      | inl stop ↦ rw stop refl
      | inr move ↦ rw move (omega (arith, byte))
    ]

-- A character has no code just where it is none of the letters.
named_or_not :
    (c : ℕ)
    → ((direction c ≡ none) × ((k : ℕ) → k < 5 → ¬ (c ≡ letter k)))
      ⊎ ((k : ℕ) × (k < 5) × (ui : Option String) × (direction c ≡ some (k, ui)) × (c ≡ letter k))
unfolding direction
named_or_not c = elim (Bool-cases (c == b'n')) [
  | inl n ↦ inr (found 1 (omega arith) (ground arith))
  | inr not_n ↦ elim (Bool-cases (c == b'e')) [
    | inl e ↦ inr (found 2 (omega arith) (ground arith))
    | inr not_e ↦ elim (Bool-cases (c == b's')) [
      | inl s ↦ inr (found 3 (omega arith) (ground arith))
      | inr not_s ↦ elim (Bool-cases (c == b'w')) [
        | inl w ↦ inr (found 4 (omega arith) (ground arith))
        | inr not_w ↦ elim (Bool-cases (c == b'x')) [
          | inl x ↦ inr (found 0 (omega arith) (ground arith))
          | inr not_x ↦
              let unknown : direction c ≡ none = ground arith in
              inl (unknown, λ k lt same. clash k lt same unknown)
        ]
      ]
    ]
  ]
]
  where
    clash : (k : ℕ) → k < 5 → c ≡ letter k → direction c ≡ none → ⊥
    clash k lt same unknown =
        let (ui, e) = direction-letter k lt in absurd (cc (e, ap direction same, unknown))

    found :
        (k : ℕ)
        → k < 5
        → c ≡ letter k
        → (k : ℕ) × (k < 5) × (ui : Option String) × (direction c ≡ some (k, ui)) × (c ≡ letter k)
    found k lt same =
        let (ui, e) = direction-letter k lt in (k, lt, ui, ap direction same ∙ e, same)

move_externally-error :
    (written : Bool) (k : ℕ) (ui : Option String) (s : Server)
    → ((move_externally written k ui s).1 ≡ false) ↔ ((s.robot.addr ≡ none) ⊎ (written ≡ false))
unfolding move_externally send_to_robot
move_externally-error written k ui s = elim (Option-cases s.robot.addr) [
  | inl off ↦ rw off ((λ e. inl refl), λ why. refl)
  | inr (a, here) ↦ elim (Bool-cases written) [
    | inl w ↦ rw (here, w) (ground arith)
    | inr fails ↦ rw (here, fails) ((λ e. inr refl), λ why. refl)
  ]
]

-- The error of a direction of the IPC socket: it is returned just where the character is none of n,
-- e, s, w and x, or no robot is there, or the write to the UDP socket fails.
pub handle_external_direction-error :
    (written : Bool) (c : ℕ) (s : Server)
    → ((handle_external_direction written c s).1 ≡ false)
      ↔ (((k : ℕ) → k < 5 → ¬ (c ≡ letter k)) ⊎ ((s.robot.addr ≡ none) ⊎ (written ≡ false)))
unfolding handle_external_direction if_some
handle_external_direction-error written c s = elim (named_or_not c) [
  | inl (unknown, no_letter) ↦ rw unknown ((λ e. inl no_letter), λ reason. refl)
  | inr (k, lt, ui, known, same) ↦ rw known (
    (λ e. inr ((move_externally-error written k ui s).0 e)),
    λ reason. elim reason [
      | inl no_letter ↦ absurd (no_letter k lt same)
      | inr why ↦ (move_externally-error written k ui s).1 why
    ],
  )
]
