-- ===== src/Path.antt =====
-- server/game/game_helpers.go: findLikelyPath, the breadth-first search for a route of Pacman. The
-- map from a cell to its parent is an association list, newest entry first.
pub mod Ends
pub mod Walks
pub mod Search
pub mod Routes
mod Tests
use pacbot.Prelude.{
  ℕ, zero, suc, List, [], ◌∷◌, ◌++◌, Bool, true, false, not, ◌&&◌, ◌||◌, ◌==◌, if◌then◌else◌,
  Option, none, some, length,
}
use mathlib.Core.List.{reverse}
use pacbot.Word.{add8, sub8}
use pacbot.State.{GameState}
use pacbot.Grid.{wall_at}

pub record Pos : Type 0 where
  pub r : ℕ
  pub c : ℕ

abbrev pub pos : ℕ → ℕ → Pos
pos r c = record { r = r; c = c }

abbrev pub pos_eq : Pos → Pos → Bool
pos_eq p q = p.r == q.r && p.c == q.c

unfoldable pub get_adjacent : Pos → List Pos
get_adjacent p =
    pos (add8 p.r 1) p.c ∷ pos p.r (add8 p.c 1) ∷ pos (sub8 p.r 1) p.c ∷ pos p.r (sub8 p.c 1) ∷ []

abbrev pub Parents : Type 0
Parents = List (Pos × Pos)

-- `parent[p]`.
unfoldable pub parent_of : Pos → Parents → Option Pos
parent_of p [] = none
parent_of p ((k, v) ∷ m) = if pos_eq k p then some v else parent_of p m

-- A read of a missing key gives the zero value.
unfoldable pub parent_or_zero : Pos → Parents → Pos
unfolding parent_of
parent_or_zero p m = elim (parent_of p m) [ none ↦ pos 0 0 | some q ↦ q ]

abbrev pub is_some {ℓ} : {A : Type ℓ} → Option A → Bool
is_some none = false
is_some (some a) = true

-- The loop over the neighbors of `curr`; `true` is the break out of the search.
unfoldable pub visit :
    GameState → Pos → Pos → List Pos → List Pos → Parents → Bool × List Pos × Parents
visit s target curr [] queue parents = (false, queue, parents)
visit s target curr (adj ∷ ns) queue parents =
    let skip = is_some (parent_of adj parents) || wall_at s adj.r adj.c in
    let rest =
      visit s target curr ns (if skip then queue else queue ++ adj ∷ [])
        (if skip then parents else (adj, curr) ∷ parents) in
    if not skip && pos_eq adj target then (true, queue, (adj, curr) ∷ parents) else rest

-- The loop over the queue; `none` means that the fuel ran out.
unfoldable pub search_loop : ℕ → GameState → Pos → List Pos → Parents → Option Parents
search_loop zero s target queue parents = none
search_loop (suc fuel) s target [] parents = some parents
search_loop (suc fuel) s target (curr ∷ queue) parents =
    let (found, queue', parents') = visit s target curr (get_adjacent curr) queue parents in
    let rest = search_loop fuel s target queue' parents' in if found then some parents' else rest

-- Each cell of the maze enters the queue at most once, the start too.
abbrev pub search_fuel : ℕ
search_fuel = 870

-- The loop from the target back to the start, in the order of its appends; `none` means that the
-- fuel ran out.
unfoldable pub backtrack : ℕ → Pos → Pos → Parents → Option (List Pos)
backtrack zero last start parents = none
backtrack (suc fuel) last start parents =
    let rest = backtrack fuel (parent_or_zero last parents) start parents in
    if pos_eq last start
    then some []
    else elim rest [ none ↦ none | some path ↦ some (last ∷ path) ]

-- What a call can come to: a path, the nil slice, an index out of range, or no end.
pub data Route : Type 0 where
  found : List Pos → Route
  nil_path : Route
  panics : Route
  hangs : Route

abbrev pub last_of : Pos → List Pos → Pos
last_of p [] = p
last_of p (q ∷ qs) = last_of q qs

-- The read of the path's last element, the check of its parent, and the reversal.
unfoldable pub finish_path : Pos → Parents → List Pos → Route
finish_path start parents [] = panics
finish_path start parents (p ∷ ps) =
    if not (pos_eq (parent_or_zero (last_of p ps) parents) start)
    then nil_path
    else found (reverse (p ∷ ps))

unfoldable pub trace_path : Pos → Pos → Option Parents → Route
trace_path start target none = hangs
trace_path start target (some parents) =
    elim (backtrack (suc (length parents)) target start parents) [
      | none ↦ hangs
      | some path ↦ finish_path start parents path
    ]

unfoldable pub find_likely_path : GameState → ℕ → ℕ → Route
find_likely_path s new_row new_col =
    let start = pos s.pacman_loc.row s.pacman_loc.col in
    let target = pos new_row new_col in
    trace_path start target
      (search_loop search_fuel s target (start ∷ []) ((start, pos 255 255) ∷ []))
