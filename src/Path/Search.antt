-- ===== src/Path/Search.antt =====
-- server/game/game_helpers.go: what the search of findLikelyPath explores.
use mathlib.Core.Path.{subst}
use pacbot.Prelude.{
  ℕ, zero, suc, ◌≡◌, ◌⊎◌, refl, sym, ap, List, [], ◌∷◌, ◌++◌, Bool, true, false, some, arith,
  Bool-cases, Option-cases, inl, inr, All, All-imp,
}
use pacbot.State.{GameState}
use pacbot.Grid.{wall_at}
use pacbot.Engine.Reach.{some_inj}
use pacbot.Path.{Pos, pos, pos_eq, Parents, parent_of, is_some, visit, get_adjacent, search_loop}
use pacbot.Path.Walks.{
  Borders, Walk, stay, step, IsIn, Tree, root, grow, pos_eq-same, start-IsIn, parent_of-head,
}

abbrev Has : Pos → List Pos → Type 0
Has p [] = ⊥
Has p (q ∷ qs) = (p ≡ q) ⊎ Has p qs

Has-snoc : (p q : Pos) (qs : List Pos) → Has p qs → Has p (qs ++ q ∷ [])
Has-snoc p q [] h = absurd h
Has-snoc p q (x ∷ qs) (inl here) = inl here
Has-snoc p q (x ∷ qs) (inr there) = inr (Has-snoc p q qs there)

Has-last : (q : Pos) (qs : List Pos) → Has q (qs ++ q ∷ [])
Has-last q [] = inl refl
Has-last q (x ∷ qs) = inr (Has-last q qs)

All-snoc {ℓ} : (P : Pos → Type ℓ) (q : Pos) (qs : List Pos) → All P qs → P q → All P (qs ++ q ∷ [])
All-snoc P q [] h hq = (hq, tt)
All-snoc P q (x ∷ qs) h hq = (h.0, All-snoc P q qs h.1 hq)

IsIn-cons : (p a v : Pos) (m : Parents) → IsIn p m → IsIn p ((a, v) ∷ m)
unfolding parent_of
IsIn-cons p a v m old = ground (arith, old)

IsIn-cons-cases : (p a v : Pos) (m : Parents) → IsIn p ((a, v) ∷ m) → (p ≡ a) ⊎ IsIn p m
unfolding parent_of
IsIn-cons-cases p a v m old = elim (Bool-cases (pos_eq a p)) [
  | inl same ↦ inl (sym (pos_eq-same a p same))
  | inr differs ↦ inr (ground (arith, differs, old))
]

abbrev Covered : GameState → Parents → Pos → Type 0
Covered s m q = wall_at s q.r q.c ≡ false → IsIn q m

-- What a visit of the neighbors `ns` makes of a queue and a map of parents.
record Visited (s : GameState) (start target : Pos) (ns queue : List Pos) (m : Parents)
    (r : Bool × List Pos × Parents) : Type 0 where
  tree : Tree s start r.2
  hit : r.0 ≡ true → IsIn target r.2
  kept : (p : Pos) → IsIn p m → IsIn p r.2
  queued : (p : Pos) → Has p queue → Has p r.1
  all_in : All (λ p. IsIn p r.2) r.1
  fresh : r.0 ≡ false → (p : Pos) → IsIn p r.2 → IsIn p m ⊎ Has p r.1
  covered : r.0 ≡ false → All (Covered s r.2) ns

module _ (s : GameState) (start target curr : Pos) where
  skipped :
      (adj : Pos) (ns queue : List Pos) (m : Parents) (r : Bool × List Pos × Parents)
      → (wall_at s adj.r adj.c ≡ false → IsIn adj m)
      → Visited s start target ns queue m r
      → Visited s start target (adj ∷ ns) queue m r
  skipped adj ns queue m r why v = record {
    tree = v.tree;
    hit = v.hit;
    kept = v.kept;
    queued = v.queued;
    all_in = v.all_in;
    fresh = v.fresh;
    covered = λ e. ((λ clear. v.kept adj (why clear)), v.covered e);
  }

  entered :
      (adj : Pos) (ns queue : List Pos) (m : Parents) (r : Bool × List Pos × Parents)
      → Visited s start target ns (queue ++ adj ∷ []) ((adj, curr) ∷ m) r
      → Visited s start target (adj ∷ ns) queue m r
  entered adj ns queue m r v = record {
    tree = v.tree;
    hit = v.hit;
    kept = λ p old. v.kept p (IsIn-cons p adj curr m old);
    queued = λ p h. v.queued p (Has-snoc p adj queue h);
    all_in = v.all_in;
    fresh = λ e p now. elim (v.fresh e p now) [
      | inr new ↦ inr new
      | inl old ↦ elim (IsIn-cons-cases p adj curr m old) [
        | inl same ↦ inr (subst (λ x. Has x r.1) (sym same) (v.queued adj (Has-last adj queue)))
        | inr older ↦ inl older
      ]
    ];
    covered = λ e. ((λ clear. v.kept adj (ap is_some (parent_of-head m adj curr))), v.covered e);
  }

  visit-Visited :
      (ns queue : List Pos) (m : Parents)
      → Tree s start m
      → IsIn curr m
      → All (Borders curr) ns
      → All (λ p. IsIn p m) queue
      → Visited s start target ns queue m (visit s target curr ns queue m)
  unfolding visit
  visit-Visited [] queue m tree here near all_in = record {
    tree = tree;
    hit = λ e. ground arith;
    kept = λ p old. old;
    queued = λ p h. h;
    all_in = all_in;
    fresh = λ e p now. inl now;
    covered = λ e. tt;
  }
  visit-Visited (adj ∷ ns) queue m tree here near all_in = elim (Option-cases (parent_of adj m)) [
    | inr (p, seen) ↦ rw seen (
        skipped adj ns queue m _ (λ clear. ap is_some seen)
          (visit-Visited ns queue m tree here near.1 all_in))
    | inl new ↦ elim (Bool-cases (wall_at s adj.r adj.c)) [
      | inl wall ↦
          rw (new, wall)
            (skipped adj ns queue m _ (λ clear. absurd (cc (wall, clear)))
              (visit-Visited ns queue m tree here near.1 all_in))
      | inr clear ↦
          let bigger = grow tree new here near.0 clear in
          let all_in' =
            All-imp (λ p. IsIn p m) (λ p. IsIn p ((adj, curr) ∷ m)) (λ p. IsIn-cons p adj curr m)
              queue all_in in
          elim (Bool-cases (pos_eq adj target)) [
            | inl arrived ↦
                rw (new, clear, arrived)
                  (record {
                    tree = bigger;
                    hit = λ e.
                        subst (λ x. IsIn x ((adj, curr) ∷ m)) (pos_eq-same adj target arrived)
                          (ap is_some (parent_of-head m adj curr));
                    kept = λ p. IsIn-cons p adj curr m;
                    queued = λ p h. h;
                    all_in = all_in';
                    fresh = λ e. ground arith;
                    covered = λ e. ground arith;
                  })
            | inr farther ↦
                rw (new, clear, farther)
                  (entered adj ns queue m _ (
                    visit-Visited ns (queue ++ adj ∷ []) ((adj, curr) ∷ m) bigger
                      (IsIn-cons curr adj curr m here) near.1
                      (All-snoc (λ p. IsIn p ((adj, curr) ∷ m)) adj queue all_in'
                        (ap is_some (parent_of-head m adj curr)))))
          ]
    ]
  ]

adjacent-Borders : (p : Pos) → All (Borders p) (get_adjacent p)
unfolding get_adjacent
adjacent-Borders p =
    (inl refl, (inr (inl refl), (inr (inr (inl refl)), (inr (inr (inr refl)), tt))))

Borders-adjacent {ℓ} : (P : Pos → Type ℓ) (p q : Pos) → All P (get_adjacent p) → Borders p q → P q
unfolding get_adjacent
Borders-adjacent P p q (h1, (h2, (h3, (h4, _)))) (inl e) = subst P (sym e) h1
Borders-adjacent P p q (h1, (h2, (h3, (h4, _)))) (inr (inl e)) = subst P (sym e) h2
Borders-adjacent P p q (h1, (h2, (h3, (h4, _)))) (inr (inr (inl e))) = subst P (sym e) h3
Borders-adjacent P p q (h1, (h2, (h3, (h4, _)))) (inr (inr (inr e))) = subst P (sym e) h4

-- What the search has at each turn: a tree, whose cells are in the queue or have all their open
-- neighbors in the tree.
pub record Frontier (s : GameState) (start : Pos) (queue : List Pos) (m : Parents) : Type 0 where
  tree : Tree s start m
  all_in : All (λ p. IsIn p m) queue
  near : (p : Pos) → IsIn p m → Has p queue ⊎ ((q : Pos) → Borders p q → Covered s m q)

Frontier-visit :
    (s : GameState) (start target curr : Pos) (queue : List Pos) (m : Parents)
    (r : Bool × List Pos × Parents)
    → r.0 ≡ false
    → Frontier s start (curr ∷ queue) m
    → Visited s start target (get_adjacent curr) queue m r
    → Frontier s start r.1 r.2
Frontier-visit s start target curr queue m r goes_on f v = record {
  tree = v.tree;
  all_in = v.all_in;
  near = λ p now. elim (v.fresh goes_on p now) [
    | inr new ↦ inl new
    | inl old ↦ elim (f.near p old) [
      | inl (inl same) ↦ inr λ q border.
          Borders-adjacent (Covered s r.2) curr q (v.covered goes_on)
            (subst (λ x. Borders x q) same border)
      | inl (inr waiting) ↦ inl (v.queued p waiting)
      | inr all ↦ inr λ q border clear. v.kept q (all q border clear)
    ]
  ];
}

pub record Explored (s : GameState) (start target : Pos) (m : Parents) : Type 0 where
  pub tree : Tree s start m
  pub whole : IsIn target m ⊎ ((p q : Pos) → IsIn p m → Borders p q → Covered s m q)

pub search_loop-Explored :
    (fuel : ℕ) (s : GameState) (start target : Pos) (queue : List Pos) (m m' : Parents)
    → Frontier s start queue m
    → search_loop fuel s target queue m ≡ some m'
    → Explored s start target m'
unfolding search_loop
search_loop-Explored zero s start target queue m m' f e = absurd (cc e)
search_loop-Explored (suc fuel) s start target [] m m' f e =
    subst (Explored s start target) (some_inj e) (record {
      tree = f.tree;
      whole =
          inr
            λ p q here. elim (f.near p here) [ inl none_left ↦ absurd none_left | inr all ↦ all q ];
    })
search_loop-Explored (suc fuel) s start target (curr ∷ queue) m m' f e =
    let r = visit s target curr (get_adjacent curr) queue m in
    let v =
      visit-Visited s start target curr (get_adjacent curr) queue m f.tree f.all_in.0
        (adjacent-Borders curr) f.all_in.1 in
    elim (Bool-cases r.0) [
      | inl found ↦
          subst (Explored s start target) (some_inj (rw found at e))
            (record { tree = v.tree; whole = inl (v.hit found) })
      | inr goes_on ↦
          search_loop-Explored fuel s start target r.1 r.2 m'
            (Frontier-visit s start target curr queue m r goes_on f v) (rw goes_on at e)
    ]

pub start-Frontier :
    (s : GameState) (start : Pos) → Frontier s start (start ∷ []) ((start, pos 255 255) ∷ [])
unfolding parent_of
start-Frontier s start = record {
  tree = root;
  all_in = (start-IsIn s start _ root, tt);
  near = λ p here. elim (IsIn-cons-cases p start (pos 255 255) [] here) [
    | inl same ↦ inl (inl same)
    | inr nowhere ↦ absurd (ground (arith, nowhere))
  ];
}

-- A route stays within what was explored to the end.
pub Walk-IsIn :
    (s : GameState) (start q : Pos) (path : List Pos) (m : Parents)
    → Tree s start m
    → ((p q : Pos) → IsIn p m → Borders p q → Covered s m q)
    → Walk s start q path
    → IsIn q m
Walk-IsIn s start q path m tree all stay = start-IsIn s start m tree
Walk-IsIn s start q path m tree all (step {p} walk border clear) =
    all p q (Walk-IsIn s start p _ m tree all walk) border clear
