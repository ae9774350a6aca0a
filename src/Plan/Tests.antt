-- ===== src/Plan/Tests.antt =====
-- A round of plans in another order than that of the ghosts.
use pacbot.Prelude.{◌≡◌, refl, [], ◌∷◌, arith}
use pacbot.State.{GameState, new_game_state}
use pacbot.Plan.{plan_all_ghosts}
use pacbot.Plan.Rounds.{run_round, run_round-plan_all_ghosts}

abbrev running : GameState
running = record (new_game_state 4) { mode = 1 }

run_round-plan_all_ghosts_example :
    run_round (λ c n. 0) (2 ∷ 0 ∷ 3 ∷ 1 ∷ []) running ≡ plan_all_ghosts (λ c n. 0) running
unfolding new_game_state
run_round-plan_all_ghosts_example =
    run_round-plan_all_ghosts (λ c n. 0) running (2 ∷ 0 ∷ 3 ∷ 1 ∷ [])
      (refl, (refl, (refl, (refl, tt)))) (λ j lt. ground arith)
