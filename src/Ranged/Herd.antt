-- ===== src/Ranged/Herd.antt =====
-- Each operation on all the ghosts keeps the ranges.
use pacbot.Prelude.{
  ℕ, ◌≡◌, ◌<◌, refl, List, [], ◌∷◌, map, All, All-map, Bool, arith, true, ◌≤◌, Bool-cases,
  Option-cases, inl, inr,
}
use pacbot.Bits.{get_bit}
use pacbot.Location.{LocationState, is_empty, advance_from, get_reversed_dir, update_dir}
use pacbot.Ghost.{is_trapped}
use pacbot.Plan.{choose_target, choose_dir, move_valid, move_dist_sq, turn}
use pacbot.Plan.Choice.{choose_dir-valid}
use pacbot.Patrol.Plans.{dist_sq-small}
use pacbot.State.{GhostState, GameState, new_ghost_state, new_game_state}
use pacbot.Counters.{increment_score}
use pacbot.Ghost.{reset, frighten, reverse_ghost, update, dec_trapped_steps}
use pacbot.Herd.{
  stare, score_combo, respawn_loop, respawn_ghosts, frighten_all_ghosts, reverse_all_ghosts,
  reset_all_ghosts, update_all_ghosts,
}
use pacbot.Plan.{plan, plan_all_ghosts}
use pacbot.Engine.{Draws}
use pacbot.Ranged.{IsTimed, IsRanged}
use pacbot.Ranged.Game.{
  trapped-le, spawn_dir-le, frighten-IsTimed, reverse_ghost-IsTimed, reset-IsTimed, respawn-IsTimed,
  stare-IsTimed, update-IsTimed,
}

advance_from-le : (a l : LocationState) → l.dir ≤ 4 → (advance_from a l).dir ≤ 4
unfolding advance_from
advance_from-le a l h = ground arith

reversed-le : (l : LocationState) → l.dir ≤ 4 → get_reversed_dir l ≤ 4
unfolding get_reversed_dir
reversed-le l h = ground arith

move_dist_sq-small :
    (next : LocationState) (target : ℕ × ℕ) (d : ℕ) → move_dist_sq next target d < 0xffffffff
unfolding move_dist_sq
move_dist_sq-small next target d = dist_sq-small _ _ _ _

turn-le :
    (next : LocationState) (target : ℕ × ℕ) (valid : ℕ → Bool) (fright : ℕ) (draw : ℕ → ℕ)
    → next.dir ≤ 4
    → (turn next (choose_dir valid (move_dist_sq next target) fright draw)).dir ≤ 4
turn-le next target valid fright draw h =
    elim (Option-cases (choose_dir valid (move_dist_sq next target) fright draw)) [
      | inl stuck ↦ rw stuck h
      | inr (d, e) ↦
          let small = move_dist_sq-small next target in
          let low =
            choose_dir-valid valid (move_dist_sq next target) fright d draw
              (small 0, small 1, small 2, small 3) e in
          rw e (omega (arith, low.0))
    ]

dec_trapped-IsTimed :
    (g : GhostState) → is_trapped g ≡ true → IsTimed g → IsTimed (dec_trapped_steps g)
unfolding dec_trapped_steps is_trapped
dec_trapped-IsTimed g trap h = ground arith

plan-IsTimed : (s : GameState) (draw : ℕ → ℕ) (g : GhostState) → IsTimed g → IsTimed (plan s draw g)
unfolding plan update_dir is_trapped
plan-IsTimed s draw g h = elim (Bool-cases (is_empty g.loc)) [
  | inl off ↦ rw off h
  | inr there ↦ rw there (elim (Bool-cases (is_trapped g)) [
    | inl trap ↦ rw trap (back trap)
    | inr free ↦ rw free (record {
      fright = h.fright;
      trapped = h.trapped;
      here = h.here;
      next =
          turn-le next (choose_target s g next) (move_valid s.walls g.spawning next) g.fright_steps
            draw low;
    })
  ])
]
  where
    next : LocationState
    next = advance_from g.next_loc g.loc

    low : next.dir ≤ 4
    low = advance_from-le g.next_loc g.loc h.here

    back :
        is_trapped g ≡ true
        → IsTimed
            (dec_trapped_steps (record g { next_loc = update_dir next (get_reversed_dir next) }))
    back trap =
        dec_trapped-IsTimed (record g { next_loc = update_dir next (get_reversed_dir next) }) trap
          (record {
            fright = h.fright;
            trapped = h.trapped;
            here = h.here;
            next = reversed-le next low;
          })

new_ghost-IsTimed : (active c : ℕ) → IsTimed (new_ghost_state active c)
unfolding new_ghost_state
new_ghost-IsTimed active c = record {
  fright = omega arith;
  trapped = trapped-le c;
  here = omega arith;
  next = ground (arith, spawn_dir-le c);
}

mapped :
    (f : GhostState → GhostState) (s : GameState)
    → ((g : GhostState) → IsTimed g → IsTimed (f g))
    → IsRanged s
    → IsRanged (record s { ghosts = map f s.ghosts })
mapped f s keep h = record {
  combo = h.combo;
  fruit = h.fruit;
  timed = All-map IsTimed IsTimed f keep s.ghosts h.timed;
}

pub frighten_all_ghosts-IsRanged : (s : GameState) → IsRanged s → IsRanged (frighten_all_ghosts s)
unfolding frighten_all_ghosts
frighten_all_ghosts-IsRanged s h = record {
  combo = omega arith;
  fruit = h.fruit;
  timed = (mapped (frighten 40) s frighten-IsTimed h).timed;
}

pub reverse_all_ghosts-IsRanged : (s : GameState) → IsRanged s → IsRanged (reverse_all_ghosts s)
unfolding reverse_all_ghosts
reverse_all_ghosts-IsRanged s h = mapped reverse_ghost s reverse_ghost-IsTimed h

pub update_all_ghosts-IsRanged : (s : GameState) → IsRanged s → IsRanged (update_all_ghosts s)
unfolding update_all_ghosts
update_all_ghosts-IsRanged s h = mapped update s update-IsTimed h

pub plan_all_ghosts-IsRanged :
    (draws : Draws) (s : GameState) → IsRanged s → IsRanged (plan_all_ghosts draws s)
unfolding plan_all_ghosts
plan_all_ghosts-IsRanged draws s h =
    mapped (λ g. plan s (draws g.color) g) s (λ g k. plan-IsTimed s (draws g.color) g k) h

pub reset_all_ghosts-IsRanged : (s : GameState) → IsRanged s → IsRanged (reset_all_ghosts s)
unfolding reset_all_ghosts
reset_all_ghosts-IsRanged s h = record {
  combo = omega arith;
  fruit = h.fruit;
  timed = ground (arith, once, All-map IsTimed IsTimed stare stare-IsTimed _ once);
}
  where
    once : All IsTimed (map (reset s.num_active_ghosts) s.ghosts)
    once =
        (mapped (reset s.num_active_ghosts) s (λ g k. reset-IsTimed g k s.num_active_ghosts)
          h).timed

score_combo-IsRanged : (s : GameState) → IsRanged s → IsRanged (score_combo s)
unfolding score_combo increment_score
score_combo-IsRanged s h = record { combo = omega arith; fruit = h.fruit; timed = h.timed }

-- The loop keeps the rest of the state in range, and the ghosts that it returns.
respawn_loop-IsRanged :
    (flag : ℕ) (gs : List GhostState) (s : GameState)
    → All IsTimed gs
    → IsRanged s
    → All IsTimed (respawn_loop flag gs s).0 × IsRanged (respawn_loop flag gs s).1
unfolding respawn_loop
respawn_loop-IsRanged flag [] s all h = (tt, h)
respawn_loop-IsRanged flag (g ∷ gs) s all h = elim (Bool-cases (get_bit flag g.color)) [
  | inl eat ↦
      let (rest, k) =
        respawn_loop-IsRanged flag gs (score_combo s) all.1 (score_combo-IsRanged s h) in
      rw eat ((respawn-IsTimed g all.0 s.num_active_ghosts, rest), k)
  | inr skip ↦ let (rest, k) = respawn_loop-IsRanged flag gs s all.1 h in rw skip ((all.0, rest), k)
]

pub respawn_ghosts-IsRanged :
    (flag : ℕ) (s : GameState) → IsRanged s → IsRanged (respawn_ghosts flag s)
unfolding respawn_ghosts
respawn_ghosts-IsRanged flag s h =
    let (all, k) = respawn_loop-IsRanged flag s.ghosts s h.timed h in
    record { combo = k.combo; fruit = k.fruit; timed = all }

pub new_game_state-IsRanged : (active : ℕ) → IsRanged (new_game_state active)
unfolding new_game_state
new_game_state-IsRanged active = record {
  combo = omega arith;
  fruit = refl;
  timed = (
    new_ghost-IsTimed active 0,
    (new_ghost-IsTimed active 1, (new_ghost-IsTimed active 2, (new_ghost-IsTimed active 3, tt))),
  );
}
