-- ===== src/Plan/Nearest.antt =====
-- What a plan decides for a ghost that is free to move.
use pacbot.Prelude.{ℕ, ◌≤◌, ◌<◌, ◌≡◌, Bool, true, false, some, arith, refl, zero, suc, take}
use pacbot.Location.{LocationState, is_empty, advance_from}
use pacbot.State.{GhostState, GameState}
use pacbot.Ghost.{is_trapped}
use pacbot.Plan.{
  all_dirs, count_valid, pick_random, move_valid, move_dist_sq, choose_target, choose_dir, plan,
}
use pacbot.Plan.Choice.{AtDirs, SomeDir, choose_dir-calm, best_move_lem}
use pacbot.Patrol.Plans.{move_dist_sq-small}

-- The cell that the ghost is about to reach, and what a move from there can be.
abbrev pub next_of : GhostState → LocationState
next_of g = advance_from g.next_loc g.loc

abbrev pub is_valid : GameState → GhostState → ℕ → Bool
is_valid s g d = move_valid s.walls g.spawning (next_of g) d

abbrev pub dist_of : GameState → GhostState → ℕ → ℕ
dist_of s g d = move_dist_sq (next_of g) (choose_target s g (next_of g)) d

-- A ghost on the board that is not trapped and not frightened beyond this step, with a valid move,
-- plans the cell ahead and there a valid direction whose neighbor is nearest to its target among
-- the valid ones. Nothing else of the ghost changes.
pub plan-nearest :
    (s : GameState) (draw : ℕ → ℕ) (g : GhostState)
    → is_empty g.loc ≡ false
    → is_trapped g ≡ false
    → g.fright_steps ≤ 1
    → SomeDir (λ d. is_valid s g d ≡ true)
    → let d = (plan s draw g).next_loc.dir in
      (plan s draw g ≡ record g { next_loc = record (next_of g) { dir = d } })
      × (is_valid s g d ≡ true)
      × AtDirs (λ e. is_valid s g e ≡ true → dist_of s g d ≤ dist_of s g e)
unfolding plan
plan-nearest s draw g here free calm some_move =
    rw (here, free, choose_dir-calm (is_valid s g) (dist_of s g) g.fright_steps draw some_move calm)
      (let best = best_move_lem (is_valid s g) (dist_of s g) some_move (move_dist_sq-small _ _) in
        (refl, best.1, best.2))

-- The number of valid directions before a direction.
abbrev pub rank : (ℕ → Bool) → ℕ → ℕ
rank valid e = count_valid valid (take e all_dirs) 0

pick_random-rank :
    (valid : ℕ → Bool) (e : ℕ)
    → e ≤ 3
    → valid e ≡ true
    → (rank valid e < count_valid valid all_dirs 0)
      × (pick_random valid (rank valid e) all_dirs 0 ≡ some e)
unfolding count_valid pick_random
pick_random-rank valid zero l v = ground arith
pick_random-rank valid (suc zero) l v = ground arith
pick_random-rank valid (suc (suc zero)) l v = ground arith
pick_random-rank valid (suc (suc (suc zero))) l v = ground arith
pick_random-rank valid (suc (suc (suc (suc e)))) l v = absurd (omega arith)

-- A ghost on the board that is not trapped and stays frightened beyond this step asks for a random
-- number below the number n of its valid directions. The number of valid directions before a valid
-- direction is such a number, and where it is drawn for n the plan takes that direction.
pub plan-random :
    (s : GameState) (draw : ℕ → ℕ) (g : GhostState) (e : ℕ)
    → is_empty g.loc ≡ false
    → is_trapped g ≡ false
    → 1 < g.fright_steps
    → e ≤ 3
    → is_valid s g e ≡ true
    → draw (count_valid (is_valid s g) all_dirs 0) ≡ rank (is_valid s g) e
    → (rank (is_valid s g) e < count_valid (is_valid s g) all_dirs 0)
      × ((plan s draw g).next_loc ≡ record (next_of g) { dir = e })
unfolding plan choose_dir
plan-random s draw g e here free fright l v drawn =
    let (below, picked) = pick_random-rank (is_valid s g) e l v in
    (below, rw (here, free) (ground (arith, picked, below, drawn)))
