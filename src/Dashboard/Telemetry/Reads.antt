-- ===== src/Dashboard/Telemetry/Reads.antt =====
-- dashboard/server/main.go: the reads of handleUDP within a message.
use pacbot.Prelude.{
  ℕ, zero, suc, ◌+◌, ◌*◌, ◌-◌, ◌≤◌, ◌<◌, ◌≡◌, refl, ap, ap₂, ◌∙◌, List, [], ◌∷◌, some, length,
  get_or, take, drop, length-drop, leb, arith, ◌&&◌, ◌⊎◌, true, false, set,
}
use pacbot.Bits.{get_bit}
use pacbot.Dashboard.Telemetry.{read_slot}
use pacbot.Dashboard.Wire.{slice, byte_at, uint16, uint32, uint16_at, uint32_at}

pub byte_at-some : (xs : List ℕ) (i : ℕ) → i < length xs → byte_at xs i ≡ some (get_or xs i 0)
unfolding byte_at
byte_at-some [] i h = absurd (omega arith)
byte_at-some (x ∷ xs) zero h = refl
byte_at-some (x ∷ xs) (suc i) h = byte_at-some xs i (omega arith)

slice-some :
    (xs : List ℕ) (lo k : ℕ)
    → lo + k ≤ length xs
    → slice xs lo (lo + k) ≡ some (take k (drop lo xs))
unfolding slice
slice-some xs lo k h = rw (fits, amount) refl
  where
    fits : (leb lo (lo + k) && leb (lo + k) (length xs)) ≡ true
    fits = ground arith

    amount : lo + k - lo ≡ k
    amount = omega arith

get_or-drop : (xs : List ℕ) (lo i : ℕ) → get_or (drop lo xs) i 0 ≡ get_or xs (lo + i) 0
get_or-drop xs zero i = ap (λ n. get_or xs n 0) (omega arith)
get_or-drop [] (suc lo) i = refl
get_or-drop (x ∷ xs) (suc lo) i =
    let moved : suc lo + i ≡ suc (lo + i) = omega arith in rw moved (get_or-drop xs lo i)

uint16-some :
    (ys : List ℕ) → 2 ≤ length ys → uint16 (take 2 ys) ≡ some (get_or ys 0 0 + 256 * get_or ys 1 0)
unfolding uint16
uint16-some [] h = absurd (omega arith)
uint16-some (a ∷ []) h = absurd (omega arith)
uint16-some (a ∷ b ∷ ys) h = refl

unfoldable pub word_at : List ℕ → ℕ → ℕ
word_at xs i = get_or xs i 0 + 256 * get_or xs (i + 1) 0

pub uint16_at-some :
    (xs : List ℕ) (lo : ℕ) → lo + 2 ≤ length xs → uint16_at xs lo ≡ some (word_at xs lo)
unfolding uint16_at word_at
uint16_at-some xs lo h = rw (slice-some xs lo 2 h) (
    uint16-some (drop lo xs) (omega (arith, length-drop {0} lo xs))
    ∙ ap some (
        ap₂ (λ a b. a + 256 * b) (get_or-drop xs lo 0 ∙ ap (λ n. get_or xs n 0) (omega arith))
          (get_or-drop xs lo 1)))

uint32-some : (ys : List ℕ) → 4 ≤ length ys → (v : ℕ) × (uint32 (take 4 ys) ≡ some v)
unfolding uint32
uint32-some [] h = absurd (omega arith)
uint32-some (a ∷ []) h = absurd (omega arith)
uint32-some (a ∷ b ∷ []) h = absurd (omega arith)
uint32-some (a ∷ b ∷ c ∷ []) h = absurd (omega arith)
uint32-some (a ∷ b ∷ c ∷ d ∷ ys) h = (_, refl)

pub uint32_at-some :
    (xs : List ℕ) (lo : ℕ) → lo + 4 ≤ length xs → (v : ℕ) × (uint32_at xs lo ≡ some v)
unfolding uint32_at
uint32_at-some xs lo h =
    let (v, e) = uint32-some (drop lo xs) (omega (arith, length-drop {0} lo xs)) in
    (v, rw (slice-some xs lo 4 h) e)

-- One slot.
module _ (bytes : List ℕ) (mask count i p idx : ℕ) (sensors : List ℕ) where
  pub read_slot-there :
      get_bit mask i ≡ true
      → idx < count
      → p + 2 ≤ length bytes
      → read_slot bytes mask count i p idx sensors
        ≡ some (set sensors i (word_at bytes p), p + 2, idx + 1)
  unfolding read_slot
  read_slot-there on more fits = ground (arith, uint16_at-some bytes p)

  pub read_slot-missing :
      get_bit mask i ≡ true
      → (count ≤ idx) ⊎ (length bytes < p + 2)
      → read_slot bytes mask count i p idx sensors ≡ some (sensors, p, idx)
  unfolding read_slot
  read_slot-missing on missing = ground arith

  pub read_slot-disabled :
      get_bit mask i ≡ false
      → read_slot bytes mask count i p idx sensors ≡ some (set sensors i 65535, p, idx)
  unfolding read_slot
  read_slot-disabled off = ground arith
