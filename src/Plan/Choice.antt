-- ===== src/Plan/Choice.antt =====
-- The choice of a direction: which of the valid moves a plan takes.
use pacbot.Prelude.{ℕ, ◌≤◌, ◌<◌, ◌≡◌, ◌≢◌, ◌⊎◌, Bool, true, none, some, arith}
use pacbot.Plan.{all_dirs, count_valid, pick_random, pick_best, best_move, choose_dir}

-- A fact at each of the four directions, and at one of them.
abbrev pub AtDirs : (ℕ → Type 0) → Type 0
AtDirs P = P 0 × P 1 × P 2 × P 3

abbrev pub SomeDir : (ℕ → Type 0) → Type 0
SomeDir P = P 0 ⊎ P 1 ⊎ P 2 ⊎ P 3

module _ (valid : ℕ → Bool) (dist : ℕ → ℕ) where
  -- The best direction is valid, and no valid one is nearer to the target.
  pub best_move_lem :
      SomeDir (λ d. valid d ≡ true)
      → AtDirs (λ d. dist d < 0xffffffff)
      → (best_move valid dist ≤ 3)
        × (valid (best_move valid dist) ≡ true)
        × AtDirs (λ d. valid d ≡ true → dist (best_move valid dist) ≤ dist d)
  unfolding best_move pick_best
  best_move_lem h small = ground arith

  pick_random_lem : (n d : ℕ) → pick_random valid n all_dirs 0 ≡ some d → (d ≤ 3) × (valid d ≡ true)
  unfolding pick_random
  pick_random_lem n d h = ground arith

  count_valid-pos : SomeDir (λ d. valid d ≡ true) → count_valid valid all_dirs 0 ≢ 0
  unfolding count_valid
  count_valid-pos h = ground arith

  count_valid-cases : count_valid valid all_dirs 0 ≢ 0 → SomeDir (λ d. valid d ≡ true)
  unfolding count_valid
  count_valid-cases h = ground arith

  -- Every choice is a valid direction.
  pub choose_dir-valid :
      (fright d : ℕ) (draw : ℕ → ℕ)
      → AtDirs (λ d. dist d < 0xffffffff)
      → choose_dir valid dist fright draw ≡ some d
      → (d ≤ 3) × (valid d ≡ true)
  unfolding choose_dir
  choose_dir-valid fright d draw small h = ground (
    arith,
    count_valid-cases,
    best_move_lem,
    pick_random_lem (draw (count_valid valid all_dirs 0)) d,
  )

  -- There is a choice exactly when there is a valid direction.
  pub choose_dir-ne-none :
      (fright : ℕ) (draw : ℕ → ℕ)
      → SomeDir (λ d. valid d ≡ true)
      → choose_dir valid dist fright draw ≢ none
  unfolding choose_dir
  choose_dir-ne-none fright draw h = ground (arith, count_valid-pos)

  -- A ghost that is not frightened one step on takes the best direction.
  pub choose_dir-calm :
      (fright : ℕ) (draw : ℕ → ℕ)
      → SomeDir (λ d. valid d ≡ true)
      → fright ≤ 1
      → choose_dir valid dist fright draw ≡ some (best_move valid dist)
  unfolding choose_dir
  choose_dir-calm fright draw h f = ground (arith, count_valid-pos)
