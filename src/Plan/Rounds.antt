-- ===== src/Plan/Rounds.antt =====
-- server/game/game_helpers.go: planAllGhosts starts one goroutine for each ghost. Their plans, in the
-- order of a schedule.
use pacbot.Prelude.{
  ℕ, zero, suc, ◌<◌, ◌==◌, ◌≡◌, refl, sym, ap, ap₂, ◌∙◌, List, [], ◌∷◌, Bool, true, false, ◌||◌,
  if◌then◌else◌, length, map, get_or, arith, Bool-cases, inl, inr,
}
use pacbot.Maze.{red, orange}
use pacbot.Location.{LocationState}
use pacbot.State.{GhostState, GameState, ghost_at, new_ghost_state}
use pacbot.Ghost.{dec_trapped_steps}
use pacbot.Modes.{get_last_unpaused_mode}
use pacbot.Target.{
  get_chase_target, get_chase_target_red, get_chase_target_pink, get_chase_target_cyan,
  get_chase_target_orange,
}
use pacbot.Plan.{plan, plan_all_ghosts, choose_target}

unfoldable pub replace_at {ℓ} : {A : Type ℓ} → ℕ → (A → A) → List A → List A
replace_at i f [] = []
replace_at zero f (x ∷ xs) = f x ∷ xs
replace_at (suc i) f (x ∷ xs) = x ∷ replace_at i f xs

-- The goroutine of the ghost at an index.
unfoldable pub plan_at : (ℕ → ℕ → ℕ) → ℕ → GameState → GameState
plan_at draw i s = record s { ghosts = replace_at i (λ g. plan s (draw g.color) g) s.ghosts }

unfoldable pub run_round : (ℕ → ℕ → ℕ) → List ℕ → GameState → GameState
run_round draw [] s = s
run_round draw (i ∷ is) s = run_round draw is (plan_at draw i s)

abbrev pub is_in : ℕ → List ℕ → Bool
is_in i [] = false
is_in i (j ∷ js) = j == i || is_in i js

abbrev pub IsSchedule : List ℕ → Type 0
IsSchedule [] = Unit
IsSchedule (i ∷ is) = (is_in i is ≡ false) × IsSchedule is

-- The ghosts of which some have planned.
module _ {A : Type 0} (f : A → A) where
  unfoldable mix : (ℕ → Bool) → List A → List A
  mix done [] = []
  mix done (x ∷ xs) = (if done 0 then f x else x) ∷ mix (λ j. done (suc j)) xs

  mix-ext : (a b : ℕ → Bool) (xs : List A) → ((j : ℕ) → a j ≡ b j) → mix a xs ≡ mix b xs
  unfolding mix
  mix-ext a b [] same = refl
  mix-ext a b (x ∷ xs) same =
      ap₂ ◌∷◌ (ap (λ t. if t then f x else x) (same 0))
        (mix-ext (λ j. a (suc j)) (λ j. b (suc j)) xs λ j. same (suc j))

  mix-none : (xs : List A) → mix (λ j. false) xs ≡ xs
  unfolding mix
  mix-none [] = refl
  mix-none (x ∷ xs) = ap (x ∷◌) (mix-none xs)

  mix-all :
      (a : ℕ → Bool) (xs : List A) → ((j : ℕ) → j < length xs → a j ≡ true) → mix a xs ≡ map f xs
  unfolding mix
  mix-all a [] all = refl
  mix-all a (x ∷ xs) all =
      ap₂ ◌∷◌ (ap (λ t. if t then f x else x) (all 0 (omega arith)))
        (mix-all (λ j. a (suc j)) xs λ j lt. all (suc j) (omega arith))

  replace_at-mix :
      (i : ℕ) (a : ℕ → Bool) (xs : List A)
      → a i ≡ false
      → replace_at i f (mix a xs) ≡ mix (λ j. i == j || a j) xs
  unfolding mix replace_at
  replace_at-mix i a [] out = refl
  replace_at-mix zero a (x ∷ xs) out = rw out (ap (f x ∷◌) (mix-ext _ _ xs λ j. ground arith))
  replace_at-mix (suc i) a (x ∷ xs) out =
      ap₂ ◌∷◌ (ap (λ t. if t then f x else x) (ground arith))
        (replace_at-mix i (λ j. a (suc j)) xs out ∙ mix-ext _ _ xs λ j. ground arith)

  mix-view {κ} :
      {B : Type κ} (v : A → B)
      → ((x : A) → v (f x) ≡ v x)
      → (a : ℕ → Bool) (xs : List A) (k : ℕ) (d : A) → v (get_or (mix a xs) k d) ≡ v (get_or xs k d)
  unfolding mix
  mix-view v same a [] k d = refl
  mix-view v same a (x ∷ xs) zero d = elim (Bool-cases (a 0)) [
    | inl planned ↦ rw planned (same x)
    | inr waits ↦ rw waits refl
  ]
  mix-view v same a (x ∷ xs) (suc k) d = mix-view v same (λ j. a (suc j)) xs k d

-- A plan reads of the ghosts only where red and orange are, and where orange scatters to.
plan-reads :
    (s : GameState) (gs : List GhostState) (draw : ℕ → ℕ) (g : GhostState)
    → (get_or gs red (new_ghost_state 0 red)).loc ≡ (ghost_at s red).loc
    → (get_or gs orange (new_ghost_state 0 orange)).loc ≡ (ghost_at s orange).loc
    → (get_or gs orange (new_ghost_state 0 orange)).scatter_target
      ≡ (ghost_at s orange).scatter_target
    → plan (record s { ghosts = gs }) draw g ≡ plan s draw g
unfolding plan choose_target get_chase_target get_chase_target_red get_chase_target_pink
    get_chase_target_cyan get_chase_target_orange get_last_unpaused_mode
plan-reads s gs draw g r o t = cc (r, o, t)

plan-stays :
    (s : GameState) (draw : ℕ → ℕ) (g : GhostState)
    → ((plan s draw g).loc ≡ g.loc) × ((plan s draw g).scatter_target ≡ g.scatter_target)
unfolding plan dec_trapped_steps
plan-stays s draw g = ground arith

module _ (draw : ℕ → ℕ → ℕ) (s : GameState) where
  abbrev planned : GhostState → GhostState
  planned g = plan s (draw g.color) g

  abbrev after : (ℕ → Bool) → GameState
  after done = record s { ghosts = mix planned done s.ghosts }

  -- The plan of a ghost is the same whichever others have planned.
  planned-after :
      (done : ℕ → Bool) → (λ (g : GhostState). plan (after done) (draw g.color) g) ≡ planned
  planned-after done i g =
      plan-reads s (mix planned done s.ghosts) (draw g.color) g
        (view (λ x. x.loc) (λ x. (plan-stays s (draw x.color) x).0) red)
        (view (λ x. x.loc) (λ x. (plan-stays s (draw x.color) x).0) orange)
        (view (λ x. x.scatter_target) (λ x. (plan-stays s (draw x.color) x).1) orange) i
    where
      view :
          (v : GhostState → LocationState)
          → ((x : GhostState) → v (planned x) ≡ v x)
          → (c : ℕ)
          → v (get_or (mix planned done s.ghosts) c (new_ghost_state 0 c)) ≡ v (ghost_at s c)
      view v same c = mix-view planned v same done s.ghosts c (new_ghost_state 0 c)

  plan_at-after :
      (i : ℕ) (done : ℕ → Bool)
      → done i ≡ false
      → plan_at draw i (after done) ≡ after (λ j. i == j || done j)
  unfolding plan_at
  plan_at-after i done waits =
      ap (λ gs. record s { ghosts = gs })
        (ap (λ f. replace_at i f (mix planned done s.ghosts)) (planned-after done)
          ∙ replace_at-mix planned i done s.ghosts waits)

  run_round-after :
      (order : List ℕ) (done : ℕ → Bool)
      → IsSchedule order
      → ((j : ℕ) → is_in j order ≡ true → done j ≡ false)
      → run_round draw order (after done) ≡ after (λ j. is_in j order || done j)
  unfolding run_round
  run_round-after [] done once waits = refl
  run_round-after (i ∷ is) done (out, once) waits =
      ap (run_round draw is) (plan_at-after i done (waits i (ground arith)))
      ∙ (run_round-after is (λ j. i == j || done j) once later
          ∙ ap (λ gs. record s { ghosts = gs }) (mix-ext planned _ _ s.ghosts λ j. ground arith))
    where
      later : (j : ℕ) → is_in j is ≡ true → (i == j || done j) ≡ false
      later j inside = elim (Bool-cases (i == j)) [
        | inl same ↦
            let here : i ≡ j = ground arith in absurd (cc (ap (λ k. is_in k is) here, out, inside))
        | inr differs ↦ ground (arith, waits j)
      ]

  -- In whatever order the goroutines of a round of plans run, each ghost once, the state after them is
  -- the one that planAllGhosts gives: no plan sees that another has been made. The draw of a ghost is
  -- given by its color.
  pub run_round-plan_all_ghosts :
      (order : List ℕ)
      → IsSchedule order
      → ((j : ℕ) → j < length s.ghosts → is_in j order ≡ true)
      → run_round draw order s ≡ plan_all_ghosts draw s
  unfolding plan_all_ghosts
  run_round-plan_all_ghosts order once all =
      ap (run_round draw order)
        (sym (ap (λ gs. record s { ghosts = gs }) (mix-none planned s.ghosts)))
      ∙ (run_round-after order (λ j. false) once (λ j inside. refl)
          ∙ ap (λ gs. record s { ghosts = gs })
              (mix-all planned (λ j. is_in j order || false) s.ghosts
                λ j lt. ground (arith, all j lt)))
