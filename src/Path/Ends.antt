-- ===== src/Path/Ends.antt =====
-- server/game/game_helpers.go: how long the search of findLikelyPath runs.
use pacbot.Prelude.{
  ℕ, zero, suc, ◌+◌, ◌*◌, ◌≤◌, ◌<◌, ◌≡◌, ◌==◌, refl, ap, List, [], ◌∷◌, ◌++◌, Bool, false, none,
  some, length, length-append, if◌then◌else◌, arith, Bool-cases, Option-cases, inl, inr, All,
}
use pacbot.State.{GameState}
use pacbot.Grid.{wall_at, wall_in, in_bounds}
use pacbot.Path.{
  Pos, pos, pos_eq, Parents, parent_of, is_some, visit, get_adjacent, search_loop, search_fuel,
}

open_bounds :
    (s : GameState) (r c : ℕ) → r < 256 → c < 256 → wall_at s r c ≡ false → (r < 31) × (c < 28)
unfolding wall_in in_bounds
open_bounds s r c lr lc clear = ground arith

-- The cells of a row, and of the rows below a bound, that have no parent yet.
unfoldable unseen_in_row : Parents → ℕ → ℕ → ℕ
unseen_in_row m r zero = 0
unseen_in_row m r (suc c) = (if is_some (parent_of (pos r c) m) then 0 else 1) + unseen_in_row m r c

unfoldable unseen : Parents → ℕ → ℕ
unseen m zero = 0
unseen m (suc r) = unseen_in_row m r 28 + unseen m r

unseen_in_row-bound : (m : Parents) (r c : ℕ) → unseen_in_row m r c ≤ c
unfolding unseen_in_row
unseen_in_row-bound m r zero = omega arith
unseen_in_row-bound m r (suc c) = ground (arith, unseen_in_row-bound m r c)

unseen-bound : (m : Parents) (r : ℕ) → unseen m r ≤ r * 28
unfolding unseen
unseen-bound m zero = omega arith
unseen-bound m (suc r) = omega (arith, unseen_in_row-bound m r 28, unseen-bound m r)

module _ (m : Parents) (a v : Pos) where
  row_mono : (r c : ℕ) → unseen_in_row ((a, v) ∷ m) r c ≤ unseen_in_row m r c
  unfolding unseen_in_row parent_of
  row_mono r zero = omega arith
  row_mono r (suc c) = ground (arith, row_mono r c)

  rows_mono : (r : ℕ) → unseen ((a, v) ∷ m) r ≤ unseen m r
  unfolding unseen
  rows_mono zero = omega arith
  rows_mono (suc r) = omega (arith, row_mono r 28, rows_mono r)

  module _ (fresh : parent_of a m ≡ none) where
    row-less : (c : ℕ) → a.c < c → suc (unseen_in_row ((a, v) ∷ m) a.r c) ≤ unseen_in_row m a.r c
    unfolding unseen_in_row parent_of
    row-less zero lt = absurd (omega arith)
    row-less (suc c) lt = elim (Bool-cases (a.c == c)) [
      | inl same ↦
          let here : a.c ≡ c = ground arith in
          ground (arith, row_mono a.r c, fresh, ap (λ x. parent_of (pos a.r x) m) here)
      | inr differs ↦ ground (arith, row-less c)
    ]

    rows-less : (r : ℕ) → a.r < r → a.c < 28 → suc (unseen ((a, v) ∷ m) r) ≤ unseen m r
    unfolding unseen
    rows-less zero lt lc = absurd (omega arith)
    rows-less (suc r) lt lc = elim (Bool-cases (a.r == r)) [
      | inl same ↦
          let here : a.r ≡ r = ground arith in
          ground (
            arith,
            rows_mono r,
            row-less 28 lc,
            ap (λ x. unseen_in_row m x 28) here,
            ap (λ x. unseen_in_row ((a, v) ∷ m) x 28) here,
          )
      | inr differs ↦ ground (arith, row_mono r 28, rows-less r)
    ]

abbrev IsSmall : Pos → Type 0
IsSmall p = (p.r < 256) × (p.c < 256)

-- What is still to do: the queue, and the cells without a parent.
abbrev work : List Pos → Parents → ℕ
work queue m = length queue + unseen m 31

All-snoc :
    (queue : List Pos) (p : Pos) → All IsSmall queue → IsSmall p → All IsSmall (queue ++ p ∷ [])
All-snoc [] p h hp = (hp, tt)
All-snoc (q ∷ queue) p h hp = (h.0, All-snoc queue p h.1 hp)

-- A visit does not add to what is to do.
abbrev Shrinks : List Pos → Parents → Bool × List Pos × Parents → Type 0
Shrinks queue m (found, queue', m') = (work queue' m' ≤ work queue m) × All IsSmall queue'

visit-Shrinks :
    (s : GameState) (target curr : Pos) (ns queue : List Pos) (m : Parents)
    → All IsSmall ns
    → All IsSmall queue
    → Shrinks queue m (visit s target curr ns queue m)
unfolding visit
visit-Shrinks s target curr [] queue m small hq = (omega arith, hq)
visit-Shrinks s target curr (adj ∷ ns) queue m small hq = elim (Option-cases (parent_of adj m)) [
  | inr (p, seen) ↦ rw seen (visit-Shrinks s target curr ns queue m small.1 hq)
  | inl new ↦ elim (Bool-cases (wall_at s adj.r adj.c)) [
    | inl wall ↦ rw (new, wall) (visit-Shrinks s target curr ns queue m small.1 hq)
    | inr clear ↦
        let (lr, lc) = open_bounds s adj.r adj.c small.0.0 small.0.1 clear in
        let less = rows-less m adj curr new 31 lr lc in
        elim (Bool-cases (pos_eq adj target)) [
          | inl arrived ↦ rw (new, clear, arrived) (omega (arith, less), hq)
          | inr farther ↦
              let later =
                visit-Shrinks s target curr ns (queue ++ adj ∷ []) ((adj, curr) ∷ m) small.1
                  (All-snoc queue adj hq small.0) in
              rw (new, clear, farther)
                (omega (arith, less, later.0, length-append queue (adj ∷ [])), later.1)
        ]
  ]
]

adjacent-IsSmall : (p : Pos) → IsSmall p → All IsSmall (get_adjacent p)
unfolding get_adjacent
adjacent-IsSmall p (lr, lc) =
    ((omega arith, lc), ((lr, omega arith), ((omega arith, lc), ((lr, omega arith), tt))))

search_loop-ends :
    (fuel : ℕ) (s : GameState) (target : Pos) (queue : List Pos) (m : Parents)
    → All IsSmall queue
    → work queue m < fuel
    → (m' : Parents) × (search_loop fuel s target queue m ≡ some m')
unfolding search_loop
search_loop-ends zero s target queue m small enough = absurd (omega arith)
search_loop-ends (suc fuel) s target [] m small enough = (m, refl)
search_loop-ends (suc fuel) s target (curr ∷ queue) m small enough =
    let shrinks =
      visit-Shrinks s target curr (get_adjacent curr) queue m (adjacent-IsSmall curr small.0)
        small.1 in
    let v = visit s target curr (get_adjacent curr) queue m in
    elim (Bool-cases v.0) [
      | inl found ↦ (v.2, rw found refl)
      | inr goes_on ↦
          let (m', e) =
            search_loop-ends fuel s target v.1 v.2 shrinks.1 (omega (arith, shrinks.0)) in
          (m', rw (goes_on, e) refl)
    ]

-- The search of a route from any int8 position ends within its fuel, whatever the maze and the
-- target: it returns a map of parents.
pub search_loop-some :
    (s : GameState) (start target : Pos)
    → start.r < 256
    → start.c < 256
    → (m : Parents) × (search_loop search_fuel s target (start ∷ []) ((start, pos 255 255) ∷ [])
        ≡ some m)
search_loop-some s start target lr lc =
    search_loop-ends search_fuel s target (start ∷ []) ((start, pos 255 255) ∷ []) ((lr, lc), tt)
      (omega (arith, unseen-bound ((start, pos 255 255) ∷ []) 31))
