-- ===== src/Word.antt =====
-- Fixed-width integers of the Go code. A uint8 or uint16 is a number with its wrap-around written
-- out; an int8 is its two's complement bit pattern, a number below 256 (-1 is 255).
use pacbot.Prelude.{ℕ, ◌+◌, ◌-◌, ◌*◌, ◌%◌, Bool, ltb, not, if◌then◌else◌}

abbrev pub u8 : ℕ → ℕ
u8 n = n % 256

abbrev pub u16 : ℕ → ℕ
u16 n = n % 65536

-- `a - b` on uint8 or int8, for b below 256.
abbrev pub sub8 : ℕ → ℕ → ℕ
sub8 a b = (a + 256 - b) % 256

-- `a + b` and `a * b` on int8: two's complement makes them the unsigned operations.
abbrev pub add8 : ℕ → ℕ → ℕ
add8 a b = (a + b) % 256

abbrev pub mul8 : ℕ → ℕ → ℕ
mul8 a b = a * b % 256

-- `a < b` on int8: adding 128 turns the signed order into the unsigned one.
abbrev pub lt8 : ℕ → ℕ → Bool
lt8 a b = ltb ((a + 128) % 256) ((b + 128) % 256)

abbrev pub ge8 : ℕ → ℕ → Bool
ge8 a b = not (lt8 a b)

-- The magnitude of the int that an int8 stands for.
abbrev pub mag8 : ℕ → ℕ
mag8 a = if ltb a 128 then a else 256 - a
