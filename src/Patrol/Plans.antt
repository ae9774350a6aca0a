-- ===== src/Patrol/Plans.antt =====
-- A plan keeps a ghost on its patrol.
use pacbot.Prelude.{
  ℕ, ◌≤◌, ◌<◌, ◌≡◌, inl, inr, List, Bool, true, false, some, arith, Bool-cases, Option-cases, ◌*◌,
}
use pacbot.Word.{mag8, sub8}
use pacbot.Maze.{init_walls}
use pacbot.Location.{LocationState, is_empty, advance_from, get_reversed_dir, update_dir}
use pacbot.State.{GhostState, GameState}
use pacbot.Grid.{dist_sq}
use pacbot.Ghost.{is_trapped, dec_trapped_steps}
use pacbot.Plan.{move_valid, move_dist_sq, choose_target, choose_dir, turn, plan}
use pacbot.Plan.Choice.{AtDirs, SomeDir, choose_dir-valid, choose_dir-ne-none}
use pacbot.Patrol.{legal, ahead, legal-bounds, legal-next, legal-turn}
use pacbot.Patrol.One.{IsGone, IsPlaced, IsPlanned}

sq-le : (a : ℕ) → a ≤ 128 → a * a ≤ 16384
sq-le a h = grind arith

mag8-le : (a : ℕ) → a < 256 → mag8 a ≤ 128
mag8-le a h = ground arith

pub dist_sq-small : (r c x y : ℕ) → dist_sq r c x y < 0xffffffff
unfolding dist_sq
dist_sq-small r c x y =
    let a = mag8 (sub8 x r) in
    let b = mag8 (sub8 y c) in
    omega (
      arith,
      sq-le a (mag8-le (sub8 x r) (omega arith)),
      sq-le b (mag8-le (sub8 y c) (omega arith)),
    )

advance_lem : (a l : LocationState) → l.dir < 4 → advance_from a l ≡ ahead l.row l.col l.dir
unfolding advance_from
advance_lem a l h = ground arith

module _ (l : LocationState) where
  pub is_empty-gone : IsGone l → is_empty l ≡ true
  unfolding is_empty
  is_empty-gone h = ground arith

  pub is_empty-legal : (sp : Bool) → legal sp l.row l.col l.dir ≡ true → is_empty l ≡ false
  unfolding is_empty
  is_empty-legal sp h = ground (arith, legal-bounds sp l.row l.col l.dir h)

abbrev front : GhostState → LocationState
front g = ahead g.loc.row g.loc.col g.loc.dir

abbrev OnCourse : GhostState → Type 0
OnCourse g = legal g.spawning g.loc.row g.loc.col g.loc.dir ≡ true

-- A trapped ghost turns back.
trapped-IsPlanned :
    (g : GhostState)
    → OnCourse g
    → IsPlanned (
        dec_trapped_steps
          (record g { next_loc = update_dir (front g) (get_reversed_dir (front g)) }))
unfolding dec_trapped_steps update_dir get_reversed_dir
trapped-IsPlanned g h = ground (arith, legal-next g.spawning g.loc.row g.loc.col g.loc.dir h)

-- Any other takes a valid move.
turned-IsPlanned :
    (g : GhostState) (d : ℕ)
    → OnCourse g
    → d ≤ 3
    → move_valid init_walls g.spawning (front g) d ≡ true
    → IsPlanned (record g { next_loc = turn (front g) (some d) })
turned-IsPlanned g d h l v =
    ground (arith, legal-turn g.spawning g.loc.row g.loc.col g.loc.dir d h l v)

pub move_dist_sq-small :
    (n : LocationState) (t : ℕ × ℕ) → AtDirs (λ d. move_dist_sq n t d < 0xffffffff)
unfolding move_dist_sq
move_dist_sq-small n t =
    (dist_sq-small _ _ _ _, dist_sq-small _ _ _ _, dist_sq-small _ _ _ _, dist_sq-small _ _ _ _)

some_move :
    (g : GhostState)
    → OnCourse g
    → SomeDir (λ d. move_valid init_walls g.spawning (front g) d ≡ true)
some_move g h = ground (arith, legal-next g.spawning g.loc.row g.loc.col g.loc.dir h)

chosen-IsPlanned :
    (g : GhostState) (dist : ℕ → ℕ) (draw : ℕ → ℕ)
    → OnCourse g
    → AtDirs (λ d. dist d < 0xffffffff)
    → IsPlanned (record g {
      next_loc =
          turn
            (front g)
            (choose_dir (move_valid init_walls g.spawning (front g)) dist g.fright_steps draw);
    })
chosen-IsPlanned g dist draw h small =
    elim (Option-cases (choose_dir valid dist g.fright_steps draw)) [
      | inl e ↦ absurd (choose_dir-ne-none valid dist g.fright_steps draw (some_move g h) e)
      | inr (d, e) ↦
          let (l, v) = choose_dir-valid valid dist g.fright_steps d draw small e in
          rw e (turned-IsPlanned g d h l v)
    ]
  where
    valid : ℕ → Bool
    valid = move_valid init_walls g.spawning (front g)

moved-IsPlanned :
    (g : GhostState) (walls : List ℕ) (dist : ℕ → ℕ) (draw : ℕ → ℕ)
    → walls ≡ init_walls
    → OnCourse g
    → AtDirs (λ d. dist d < 0xffffffff)
    → IsPlanned (record g {
      next_loc =
          turn
            (front g)
            (choose_dir (move_valid walls g.spawning (front g)) dist g.fright_steps draw);
    })
moved-IsPlanned g walls dist draw e h small = rw e (chosen-IsPlanned g dist draw h small)

pub plan-IsPlanned :
    (s : GameState) (draw : ℕ → ℕ) (g : GhostState)
    → s.walls ≡ init_walls
    → IsPlaced g
    → IsPlanned (plan s draw g)
unfolding plan
plan-IsPlanned s draw g e h = elim h.here [
  | inl gone ↦ rw (is_empty-gone g.loc gone) (record { next = h.next gone; here = inl gone })
  | inr course ↦ rw (is_empty-legal g.loc g.spawning course) (
      rw
        (advance_lem g.next_loc g.loc
          (legal-bounds g.spawning g.loc.row g.loc.col g.loc.dir course).2)
        (elim (Bool-cases (is_trapped g)) [
          | inl held ↦ rw held (trapped-IsPlanned g course)
          | inr free ↦ rw free (
              moved-IsPlanned g s.walls _ draw e course
                (move_dist_sq-small (front g) (choose_target s g (front g))))
        ]))
]
