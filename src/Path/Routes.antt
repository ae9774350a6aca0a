-- ===== src/Path/Routes.antt =====
-- server/game/game_helpers.go: what findLikelyPath comes to.
use mathlib.Core.List.{reverse}
use pacbot.Prelude.{
  ℕ, zero, suc, ◌<◌, ◌≡◌, ◌⊎◌, refl, ap, List, [], ◌∷◌, true, false, Option, none, some, length,
  arith, Bool-cases, Option-cases, inl, inr,
}
use pacbot.State.{GameState}
use pacbot.Grid.{wall_at}
use pacbot.Path.{
  Pos, pos, pos_eq, Parents, parent_of, parent_or_zero, is_some, Route, found, panics, hangs,
  search_fuel, backtrack, finish_path, trace_path, find_likely_path,
}
use pacbot.Path.Ends.{search_loop-some}
use pacbot.Path.Walks.{
  Walk, IsIn, Tree, root, grow, pos_eq-same, start-IsIn, Closed, backtrack-Traces, absent-differs,
}
use pacbot.Path.Search.{Explored, search_loop-Explored, start-Frontier, Walk-IsIn}

-- The cells of a tree are open, but for the start.
zero-outside :
    (s : GameState) (start : Pos) (m : Parents)
    → wall_at s 0 0 ≡ true
    → pos_eq start (pos 0 0) ≡ false
    → Tree s start m
    → parent_of (pos 0 0) m ≡ none
unfolding parent_of
zero-outside s start m wall away root = ground (arith, away)
zero-outside s start _ wall away (grow {m} {adj} {curr} tree new before near clear) =
    elim (Bool-cases (pos_eq adj (pos 0 0))) [
      | inl same ↦
          absurd
            (cc (ap (λ (p : Pos). wall_at s p.r p.c) (pos_eq-same adj (pos 0 0) same), clear, wall))
      | inr differs ↦ ground (arith, differs, zero-outside s start m wall away tree)
    ]

parent_or_zero-none : (p : Pos) (m : Parents) → parent_of p m ≡ none → parent_or_zero p m ≡ pos 0 0
unfolding parent_or_zero
parent_or_zero-none p m e = ap (λ o. elim o [ none ↦ pos 0 0 | some q ↦ q ]) e

-- From a cell outside the tree the loop goes to the zero cell and stays there.
backtrack-lost :
    (fuel : ℕ) (p start : Pos) (m : Parents)
    → IsIn start m
    → parent_of (pos 0 0) m ≡ none
    → parent_of p m ≡ none
    → backtrack fuel p start m ≡ none
unfolding backtrack
backtrack-lost zero p start m here origin lost = refl
backtrack-lost (suc fuel) p start m here origin lost =
    let away = absent-differs m p start lost here in
    let to_origin = parent_or_zero-none p m lost in
    rw (away, to_origin, backtrack-lost fuel (pos 0 0) start m here origin origin) refl

-- What a search comes to.
abbrev pub Outcome : GameState → Pos → Pos → Route → Type 0
Outcome s start target r =
    ((r ≡ panics) × (target ≡ start))
    ⊎ (((path : List Pos) × (r ≡ found path) × Walk s start target path)
        ⊎ ((r ≡ hangs) × ((path : List Pos) → ¬ Walk s start target path)))

finish_path-Outcome :
    (s : GameState) (start target : Pos) (m : Parents) (path : List Pos)
    → Walk s start target (reverse path)
    → Closed m start target path
    → Outcome s start target (finish_path start m path)
unfolding finish_path
finish_path-Outcome s start target m [] walk closed = inl (refl, closed)
finish_path-Outcome s start target m (p ∷ path) walk closed =
    inr (inl (reverse (p ∷ path), rw closed (ground arith), walk))

trace_path-backtrack :
    (start target : Pos) (m : Parents) (o : Option (List Pos))
    → backtrack (suc (length m)) target start m ≡ o
    → trace_path start target (some m)
      ≡ elim o [ none ↦ hangs | some path ↦ finish_path start m path ]
unfolding trace_path
trace_path-backtrack start target m o e =
    ap (λ x. elim x [ none ↦ hangs | some path ↦ finish_path start m path ]) e

trace_path-Outcome :
    (s : GameState) (start target : Pos) (m : Parents)
    → wall_at s 0 0 ≡ true
    → pos_eq start (pos 0 0) ≡ false
    → Explored s start target m
    → Outcome s start target (trace_path start target (some m))
trace_path-Outcome s start target m wall away x = elim (Option-cases (parent_of target m)) [
  | inr (p, e) ↦
      let (path, ends, walk, closed) =
        backtrack-Traces s start m m (suc (length m)) target x.tree (λ p _. refl) (omega arith)
          (ap is_some e) in
      rw (trace_path-backtrack start target m (some path) ends)
        (finish_path-Outcome s start target m path walk closed)
  | inl lost ↦
      rw
        (trace_path-backtrack start target m none (
          backtrack-lost (suc (length m)) target start m (start-IsIn s start m x.tree)
            (zero-outside s start m wall away x.tree) lost))
        (inr (inr (refl, λ path walk. unreached lost path walk)))
]
  where
    unreached : parent_of target m ≡ none → (path : List Pos) → ¬ Walk s start target path
    unreached lost path walk = elim x.whole [
      | inl here ↦ absurd (cc (here, lost))
      | inr all ↦ absurd (cc (Walk-IsIn s start target path m x.tree all walk, lost))
    ]

-- From a position of Pacman other than (0, 0), in a maze with a wall at (0, 0): the search either
-- returns a route from Pacman to the target, in which each cell borders the one before and is no
-- wall; or there is no such route, and it hangs; or the target is Pacman's own cell, and it panics.
pub find_likely_path_lem :
    (s : GameState) (row col : ℕ)
    → s.pacman_loc.row < 256
    → s.pacman_loc.col < 256
    → wall_at s 0 0 ≡ true
    → pos_eq (pos s.pacman_loc.row s.pacman_loc.col) (pos 0 0) ≡ false
    → Outcome s (pos s.pacman_loc.row s.pacman_loc.col) (pos row col) (find_likely_path s row col)
unfolding find_likely_path
find_likely_path_lem s row col lr lc wall away =
    let start = pos s.pacman_loc.row s.pacman_loc.col in
    let (m, e) = search_loop-some s start (pos row col) lr lc in
    rw e (
      trace_path-Outcome s start (pos row col) m wall away (
        search_loop-Explored search_fuel s start (pos row col) (start ∷ []) _ m
          (start-Frontier s start) e))
