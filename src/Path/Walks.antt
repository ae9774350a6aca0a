-- ===== src/Path/Walks.antt =====
-- server/game/game_helpers.go: routes, the map of parents as a tree, and the way back through it.
use mathlib.Core.List.{reverse, reverse_aux, append_assoc}
use mathlib.Core.Path.{subst}
use pacbot.Prelude.{
  ℕ, zero, suc, ◌≤◌, ◌≡◌, ◌⊎◌, refl, sym, ap, ◌∙◌, List, [], ◌∷◌, ◌++◌, true, false, none, some,
  length, arith, Bool-cases, inl, inr,
}
use pacbot.Word.{add8, sub8}
use pacbot.State.{GameState}
use pacbot.Grid.{wall_at}
use pacbot.Path.{Pos, pos, pos_eq, Parents, parent_of, parent_or_zero, is_some, backtrack, last_of}

-- One step up, down, left or right, on int8.
abbrev pub Borders : Pos → Pos → Type 0
Borders p q =
    (q ≡ pos (add8 p.r 1) p.c)
    ⊎ ((q ≡ pos p.r (add8 p.c 1)) ⊎ ((q ≡ pos (sub8 p.r 1) p.c) ⊎ (q ≡ pos p.r (sub8 p.c 1))))

-- The cells after the start that a route goes through, the last of them its end.
pub data Walk (s : GameState) (start : Pos) : Pos → List Pos → Type 0 where
  stay : Walk s start start []
  step :
      {p q : Pos} {path : List Pos}
      → Walk s start p path
      → Borders p q
      → wall_at s q.r q.c ≡ false
      → Walk s start q (path ++ q ∷ [])

abbrev pub IsIn : Pos → Parents → Type 0
IsIn p m = is_some (parent_of p m) ≡ true

-- A map of parents, grown from the start.
pub data Tree (s : GameState) (start : Pos) : Parents → Type 0 where
  root : Tree s start ((start, pos 255 255) ∷ [])
  grow :
      {m : Parents} {adj curr : Pos}
      → Tree s start m
      → parent_of adj m ≡ none
      → IsIn curr m
      → Borders curr adj
      → wall_at s adj.r adj.c ≡ false
      → Tree s start ((adj, curr) ∷ m)

pub pos_eq-same : (p q : Pos) → pos_eq p q ≡ true → p ≡ q
pos_eq-same p q e = ground arith

reverse_aux_lem : (xs ys : List Pos) → reverse_aux xs ys ≡ reverse xs ++ ys
reverse_aux_lem [] ys = refl
reverse_aux_lem (x ∷ xs) ys =
    reverse_aux_lem xs (x ∷ ys)
    ∙ sym (ap (◌++ ys) (reverse_aux_lem xs (x ∷ [])) ∙ append_assoc (reverse xs) (x ∷ []) ys)

pub start-IsIn : (s : GameState) (start : Pos) (m : Parents) → Tree s start m → IsIn start m
unfolding parent_of
start-IsIn s start m root = ground arith
start-IsIn s start _ (grow tree new old near clear) = ground (arith, start-IsIn s start _ tree)

-- The path has come back to the start.
abbrev pub Closed : Parents → Pos → Pos → List Pos → Type 0
Closed m start p [] = p ≡ start
Closed m start p (q ∷ qs) = parent_or_zero (last_of q qs) m ≡ start

abbrev pub Agree : Parents → Parents → Type 0
Agree m full = (p : Pos) → IsIn p m → parent_of p full ≡ parent_of p m

-- A cell without a parent differs from one that has one.
pub absent-differs :
    (m : Parents) (a p : Pos) → parent_of a m ≡ none → IsIn p m → pos_eq a p ≡ false
absent-differs m a p new old = elim (Bool-cases (pos_eq a p)) [
  | inr differs ↦ differs
  | inl same ↦ absurd (cc (ap (λ x. parent_of x m) (pos_eq-same a p same), new, old))
]

Agree-tail :
    (m full : Parents) (adj curr : Pos)
    → parent_of adj m ≡ none
    → Agree ((adj, curr) ∷ m) full
    → Agree m full
unfolding parent_of
Agree-tail m full adj curr new agree p old =
    let differs = absent-differs m adj p new old in ground (arith, differs, agree p)

pub parent_of-head : (m : Parents) (a v : Pos) → parent_of a ((a, v) ∷ m) ≡ some v
unfolding parent_of
parent_of-head m a v = ground arith

Closed-cons :
    (full : Parents) (start a curr : Pos) (path : List Pos)
    → parent_or_zero a full ≡ curr
    → Closed full start curr path
    → Closed full start a (a ∷ path)
Closed-cons full start a curr [] e closed = e ∙ closed
Closed-cons full start a curr (q ∷ qs) e closed = closed

abbrev pub Traces : GameState → Pos → Parents → ℕ → Pos → Type 0
Traces s start full fuel p =
    (path : List Pos) × (backtrack fuel p start full ≡ some path)
    × Walk s start p (reverse path)
    × Closed full start p path

start-Traces :
    (s : GameState) (start : Pos) (full : Parents) (fuel : ℕ) → Traces s start full (suc fuel) start
unfolding backtrack
start-Traces s start full fuel = ([], ground arith, stay, refl)

parent_or_zero_lem : (a p : Pos) (m : Parents) → parent_of a m ≡ some p → parent_or_zero a m ≡ p
unfolding parent_or_zero
parent_or_zero_lem a p m e = ap (λ o. elim o [ none ↦ pos 0 0 | some q ↦ q ]) e

step-Traces :
    (s : GameState) (start : Pos) (full : Parents) (fuel : ℕ) (a curr : Pos)
    → pos_eq a start ≡ false
    → parent_of a full ≡ some curr
    → Borders curr a
    → wall_at s a.r a.c ≡ false
    → Traces s start full fuel curr
    → Traces s start full (suc fuel) a
unfolding backtrack
step-Traces s start full fuel a curr away here near clear (path, e, walk, closed) =
    let parent : parent_or_zero a full ≡ curr = parent_or_zero_lem a curr full here in
    (
      a ∷ path,
      rw (away, parent, e) refl,
      subst (Walk s start a) (sym (reverse_aux_lem path (a ∷ []))) (step walk near clear),
      Closed-cons full start a curr path parent closed,
    )

pub backtrack-Traces :
    (s : GameState) (start : Pos) (full m : Parents) (fuel : ℕ) (p : Pos)
    → Tree s start m
    → Agree m full
    → length m ≤ fuel
    → IsIn p m
    → Traces s start full fuel p
unfolding parent_of
backtrack-Traces s start full m zero p root agree enough old = absurd (omega arith)
backtrack-Traces s start full m (suc fuel) p root agree enough old =
    let same : pos_eq start p ≡ true = ground arith in
    subst (Traces s start full (suc fuel)) (pos_eq-same start p same)
      (start-Traces s start full fuel)
backtrack-Traces s start full _ zero p (grow tree new before near clear) agree enough old =
    absurd (omega arith)
backtrack-Traces s start full _ (suc fuel) p (grow {m} {adj} {curr} tree new before near clear)
      agree enough old =
    let agree' = Agree-tail m full adj curr new agree in
    elim (Bool-cases (pos_eq adj p)) [
      | inl same ↦
          let here =
            agree adj (ap is_some (parent_of-head m adj curr)) ∙ parent_of-head m adj curr in
          subst (Traces s start full (suc fuel)) (pos_eq-same adj p same) (
            step-Traces s start full fuel adj curr
              (absent-differs m adj start new (start-IsIn s start m tree)) here near clear
              (backtrack-Traces s start full m fuel curr tree agree' (omega arith) before))
      | inr differs ↦
          backtrack-Traces s start full m (suc fuel) p tree agree' (omega arith)
            (ground (arith, differs, old))
    ]
