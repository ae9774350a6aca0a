-- ===== src/Config/Bounds.antt =====
-- server/config_reader.go, server/game/game_engine.go: which rates of the game have a tick time.
use mathlib.Core.Path.{subst}
use native.Mathlib.Nat.{div-eq_of_lt, le-div_iff_mul-le, mul-div-le, lt-mul-div-succ}
use pacbot.Prelude.{
  ℕ, ◌+◌, ◌*◌, ◌/◌, ◌≤◌, ◌<◌, ◌≡◌, ◌⊎◌, ◌↔◌, refl, sym, ◌∙◌, none, some, inl, inr, arith,
}
use pacbot.Engine.Reach.{some_inj}
use pacbot.Config.{Configuration, tick_time}
use pacbot.System.{start_system, new_system}

positive : (n : ℕ) → 1 ≤ n → n ≤ 1000000000 → 1 ≤ 1000000000 / n
positive n low high = (le-div_iff_mul-le low).1 (omega arith)

-- No ticker exactly for a rate of 0 or above 10^9; the negative rates are above, as bit patterns.
tick_time-none : (n : ℕ) → (n ≡ 0) ⊎ (1000000000 < n) → tick_time n ≡ none
unfolding tick_time
tick_time-none n (inl zero_rate) = rw zero_rate refl
tick_time-none n (inr fast) = rw (div-eq_of_lt fast) (ground arith)

tick_time-some : (n : ℕ) → 1 ≤ n → n ≤ 1000000000 → tick_time n ≡ some (1000000000 / n)
unfolding tick_time
tick_time-some n low high = ground (arith, positive n low high)

tick_time-cases : (n : ℕ) → ((n ≡ 0) ⊎ (1000000000 < n)) ⊎ ((1 ≤ n) × (n ≤ 1000000000))
tick_time-cases n = ground arith

refused : (c : Configuration) → tick_time c.game_fps ≡ none → start_system c ≡ none
unfolding start_system
refused c e = rw e refl

begun :
    (c : Configuration) (t : ℕ)
    → tick_time c.game_fps ≡ some t
    → start_system c ≡ some (new_system c)
unfolding start_system
begun c t e = rw e refl

tick_time-bounds :
    (n t : ℕ)
    → 1 ≤ n
    → n ≤ 1000000000
    → tick_time n ≡ some t
    → (1 ≤ t) × (n * t ≤ 1000000000) × (1000000000 < n * (t + 1))
tick_time-bounds n t low high e =
    let same : 1000000000 / n ≡ t = some_inj (sym (tick_time-some n low high) ∙ e) in
    (
      subst (λ x. 1 ≤ x) same (positive n low high),
      subst (λ x. n * x ≤ 1000000000) same (mul-div-le 1000000000 n),
      subst (λ x. 1000000000 < n * (x + 1)) same (lt-mul-div-succ 1000000000 low),
    )

-- The start of the server panics exactly for a GameFPS of 0 or one that is above 10^9 as an unsigned
-- number, which all negative ones are. Otherwise the time between two ticks is the number of whole
-- nanoseconds, at least 1, in one part of a second out of GameFPS.
pub start_system-none_iff :
    (c : Configuration)
    → ((start_system c ≡ none) ↔ ((c.game_fps ≡ 0) ⊎ (1000000000 < c.game_fps)))
      × ((t : ℕ)
          → tick_time c.game_fps ≡ some t
          → (1 ≤ t) × (c.game_fps * t ≤ 1000000000) × (1000000000 < c.game_fps * (t + 1)))
start_system-none_iff c = elim (tick_time-cases c.game_fps) [
  | inl bad ↦ (
    (λ e. bad, λ b. refused c (tick_time-none c.game_fps b)),
    λ t e. absurd (cc (tick_time-none c.game_fps bad, e)),
  )
  | inr (low, high) ↦ (
    (
      λ e. absurd (cc (begun c _ (tick_time-some c.game_fps low high), e)),
      λ b. absurd (omega (arith, b)),
    ),
    λ t e. tick_time-bounds c.game_fps t low high e,
  )
]
