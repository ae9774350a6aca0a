-- ===== src/Dashboard/Wire.antt =====
-- The little-endian integers of encoding/binary and the slices of Go, as dashboard/server/main.go
-- uses them. `none` stands for the panic of an index out of range.
use pacbot.Prelude.{
  ℕ, zero, suc, ◌+◌, ◌-◌, ◌*◌, ◌/◌, ◌%◌, List, [], ◌∷◌, Option, none, some, ◌&&◌, leb,
  if◌then◌else◌, take, drop, length, ◌≡◌, refl,
}

infixl 5 ◌>>=◌
abbrev pub ◌>>=◌ {ℓ κ} : {A : Type ℓ} {B : Type κ} → Option A → (A → Option B) → Option B
none >>= f = none
some a >>= f = f a

-- A branch taken on a value that is there, with its name; `b` is what the code does without it.
unfoldable pub if_some {ℓ κ} : {A : Type ℓ} {B : Type κ} → Option A → B → (A → B) → B
if_some none b f = b
if_some (some a) b f = f a

-- What both branches have, the whole has.
pub if_some-keeps {ℓ κ μ} :
    {A : Type ℓ} {B : Type κ} (P : B → Type μ) (o : Option A) {b : B} {f : A → B}
    → P b
    → ((a : A) → o ≡ some a → P (f a))
    → P (if_some o b f)
unfolding if_some
if_some-keeps P none without inside = without
if_some-keeps P (some a) without inside = inside a refl

-- What a chain that stops has, and its continuation, the chain has.
pub bind-keeps {ℓ κ μ} :
    {A : Type ℓ} {B : Type κ} (P : Option B → Type μ) (o : Option A) {f : A → Option B}
    → P none
    → ((a : A) → o ≡ some a → P (f a))
    → P (o >>= f)
bind-keeps P none stops goes = stops
bind-keeps P (some a) stops goes = goes a refl

-- `data[lo:hi]`.
unfoldable pub slice : List ℕ → ℕ → ℕ → Option (List ℕ)
slice xs lo hi =
    if leb lo hi && leb hi (length xs) then some (take (hi - lo) (drop lo xs)) else none

-- `data[i]`.
unfoldable pub byte_at : List ℕ → ℕ → Option ℕ
byte_at [] i = none
byte_at (x ∷ xs) zero = some x
byte_at (x ∷ xs) (suc i) = byte_at xs i

unfoldable pub uint16 : List ℕ → Option ℕ
uint16 (a ∷ b ∷ rest) = some (a + 256 * b)
uint16 _ = none

unfoldable pub uint32 : List ℕ → Option ℕ
uint32 (a ∷ b ∷ c ∷ d ∷ rest) = some (a + 256 * b + 65536 * c + 16777216 * d)
uint32 _ = none

-- `binary.LittleEndian.Uint16(data[lo:lo+2])` and its kin.
unfoldable pub uint16_at : List ℕ → ℕ → Option ℕ
uint16_at xs lo = do b ← slice xs lo (lo + 2); uint16 b

unfoldable pub uint32_at : List ℕ → ℕ → Option ℕ
uint32_at xs lo = do b ← slice xs lo (lo + 4); uint32 b

abbrev pub put_uint16 : ℕ → List ℕ
put_uint16 n = n % 256 ∷ n / 256 % 256 ∷ []

abbrev pub put_uint32 : ℕ → List ℕ
put_uint32 n = n % 256 ∷ n / 256 % 256 ∷ n / 65536 % 256 ∷ n / 16777216 % 256 ∷ []
