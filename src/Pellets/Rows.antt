-- ===== src/Pellets/Rows.antt =====
-- Clearing a bit of a row takes one from its count.
use native.Mathlib.Nat.{pow-le-pow_right, pow-succ', div-div-eq-div-mul, div-eq_of_lt}
use native.Mathlib.Decide.{dec_lt}
use pacbot.Prelude.{
  ℕ, zero, suc, ◌+◌, ◌-◌, ◌*◌, ◌/◌, ◌%◌, ◌^◌, ◌<◌, ◌≤◌, ◌≡◌, sym, ◌∙◌, List, [], ◌∷◌, true, length,
  get_or, set, arith,
}
use pacbot.Bits.{get_bit}
use pacbot.Pellets.{pop, total, IsWord}

get_bit-suc : (n i : ℕ) → get_bit n (suc i) ≡ get_bit (n / 2) i
unfolding get_bit
get_bit-suc n i = rw (pow-succ', ← div-div-eq-div-mul)

get_bit-le : (n i : ℕ) → get_bit n i ≡ true → 2 ^ i ≤ n
unfolding get_bit
get_bit-le n i h = ground (arith, div-eq_of_lt {n = n} {m = 2 ^ i})

odd_of_bit : (n : ℕ) → get_bit n 0 ≡ true → n % 2 ≡ 1
unfolding get_bit
odd_of_bit n b = ground arith

pub pop-clear : (w i n : ℕ) → i < w → get_bit n i ≡ true → pop w n ≡ suc (pop w (n - 2 ^ i))
unfolding pop
pop-clear zero i n h b = absurd (omega arith)
pop-clear (suc w) zero n h b =
    let odd : n % 2 ≡ 1 = odd_of_bit n b in
    let half : (n - 1) / 2 ≡ n / 2 = omega arith in rw half (omega arith)
pop-clear (suc w) (suc i) n h b =
    let b' : get_bit (n / 2) i ≡ true = sym (get_bit-suc n i) ∙ b in
    let e : 2 ^ suc i ≡ 2 * 2 ^ i = pow-succ' 2 i in
    let low : 2 ^ suc i ≤ n = get_bit-le n (suc i) b in
    let half : (n - 2 ^ suc i) / 2 ≡ n / 2 - 2 ^ i = omega arith in
    rw half (omega (arith, pop-clear w i (n / 2) (omega arith) b'))

pub get_bit-lt : (n i : ℕ) → IsWord n → get_bit n i ≡ true → i < 32
get_bit-lt n i h b = elim (dec_lt i 32) [
  | yes p ↦ p
  | no p ↦ absurd (
      omega (
        arith,
        get_bit-le n i b,
        pow-le-pow_right {n = 2} (omega arith) {i = 32} {j = i} (omega arith),
      ))
]

pub total-set :
    (rows : List ℕ) (i v : ℕ)
    → i < length rows
    → total (set rows i v) + pop 32 (get_or rows i 0) ≡ total rows + pop 32 v
unfolding total
total-set [] i v h = absurd (omega arith)
total-set (row ∷ rows) zero v h = omega arith
total-set (row ∷ rows) (suc i) v h = omega (arith, total-set rows i v (omega arith))
