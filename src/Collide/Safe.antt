-- ===== src/Collide/Safe.antt =====
-- What a check for collisions leaves on Pacman's cell.
use pacbot.Prelude.{
  ℕ, zero, suc, ◌+◌, ◌<◌, ◌≤◌, ◌≡◌, ◌==◌, refl, sym, List, [], ◌∷◌, map, All, All-imp, Bool, true,
  false, not, ◌&&◌, ◌||◌, ltb, if◌then◌else◌, none, some, inl, inr, Bool-cases, Option-cases, arith,
  all_below, all_below_lem,
}
use mathlib.Core.Path.{subst}
use pacbot.Bits.{get_bit, modify_bit}
use pacbot.Location.{LocationState, collides_with, copy_from}
use pacbot.State.{GhostState, GameState}
use pacbot.Modes.{set_pause_on_update, set_mode, set_mode_steps}
use pacbot.Counters.{set_fruit_steps, decrement_lives}
use pacbot.Ghost.{is_frightened, respawn}
use pacbot.Herd.{respawn_ghosts, reset_all_ghosts}
use pacbot.Board.{death_reset, put_pacman, restart_mode}
use pacbot.Collide.{scan, check_collisions}
use pacbot.Listed.{IsListed, IsHerd}
use pacbot.Listed.Game.{respawn_loop_lem}

-- Setting bit `i` of a byte: it stays a byte, has the bit, and keeps bit `j`.
abbrev sets : ℕ → ℕ → ℕ → Bool
sets f i j =
    ltb (modify_bit 8 f i true) 256
    && get_bit (modify_bit 8 f i true) i
    && (not (get_bit f j) || get_bit (modify_bit 8 f i true) j)

sets_all : all_below 256 (λ f. all_below 8 (λ i. all_below 8 (sets f i))) ≡ true
unfolding all_below get_bit modify_bit
sets_all = refl

modify_bit_lem :
    (f i j : ℕ)
    → f < 256
    → i < 8
    → j < 8
    → (modify_bit 8 f i true < 256)
      × (get_bit (modify_bit 8 f i true) i ≡ true)
      × (get_bit f j ≡ true → get_bit (modify_bit 8 f i true) j ≡ true)
modify_bit_lem f i j hf hi hj = ground (arith, row)
  where
    row : sets f i j ≡ true
    row =
        all_below_lem 8 (sets f i) j
          (all_below_lem 8 (λ i. all_below 8 (sets f i)) i
            (all_below_lem 256 (λ f. all_below 8 (λ i. all_below 8 (sets f i))) f sets_all hf) hi)
          hj

-- A ghost that is not eaten stands on the cell.
abbrev pub hits : LocationState → GhostState → Bool
hits p g = collides_with p g.loc && not g.eaten

-- What a scan that ends without a death gives.
abbrev Flagged : LocationState → ℕ → ℕ → ℕ → GhostState → Type 0
Flagged p flag num n g = hits p g ≡ true → (get_bit flag g.color ≡ true) × (num < n)

abbrev eats : LocationState → GhostState → Bool
eats p g = hits p g && is_frightened g

scan-eats :
    (p : LocationState) (flag num f n : ℕ) (g : GhostState) (gs : List GhostState)
    → eats p g ≡ true
    → scan p flag num (g ∷ gs) ≡ some (f, n)
    → scan p (modify_bit 8 flag g.color true) (num + 1) gs ≡ some (f, n)
unfolding scan
scan-eats p flag num f n g gs eat eq = ground arith

scan-spares :
    (p : LocationState) (flag num f n : ℕ) (g : GhostState) (gs : List GhostState)
    → eats p g ≡ false
    → scan p flag num (g ∷ gs) ≡ some (f, n)
    → (scan p flag num gs ≡ some (f, n)) × (hits p g ≡ false)
unfolding scan
scan-spares p flag num f n g gs spare eq = ground arith

abbrev InRange : GhostState → Type 0
InRange g = g.color < 8

abbrev Outcome : LocationState → ℕ → ℕ → ℕ → ℕ → List GhostState → Type 0
Outcome p flag num f n gs =
    (f < 256)
    × (num ≤ n)
    × ((j : ℕ) → j < 8 → get_bit flag j ≡ true → get_bit f j ≡ true)
    × All (Flagged p f num n) gs

Outcome-eats :
    (p : LocationState) (flag num f n : ℕ) (g : GhostState) (gs : List GhostState)
    → flag < 256
    → g.color < 8
    → Outcome p (modify_bit 8 flag g.color true) (num + 1) f n gs
    → Outcome p flag num f n (g ∷ gs)
Outcome-eats p flag num f n g gs hf hc (bound, more, keep, rest) = (
  bound,
  omega arith,
  λ j hj b. keep j hj ((modify_bit_lem flag g.color j hf hc hj).2 b),
  (
    (λ h. (keep g.color hc (modify_bit_lem flag g.color g.color hf hc hc).1, omega arith)),
    All-imp (Flagged p f (num + 1) n) (Flagged p f num n)
        (λ x k h. ((k h).0, omega (arith, (k h).1))) gs rest,
  ),
)

scan-Flagged :
    (p : LocationState) (flag num f n : ℕ) (gs : List GhostState)
    → scan p flag num gs ≡ some (f, n)
    → flag < 256
    → All InRange gs
    → Outcome p flag num f n gs
unfolding scan
scan-Flagged p flag num f n [] eq hf h = ground (arith, eq)
scan-Flagged p flag num f n (g ∷ gs) eq hf h = elim (Bool-cases (eats p g)) [
  | inl eat ↦ Outcome-eats p flag num f n g gs hf h.0 (
      scan-Flagged p (modify_bit 8 flag g.color true) (num + 1) f n gs
        (scan-eats p flag num f n g gs eat eq)
        (modify_bit_lem flag g.color 0 hf h.0 (omega arith)).0 h.1)
  | inr spare ↦
      let (rest_eq, miss) = scan-spares p flag num f n g gs spare eq in
      let (bound, more, keep, rest) = scan-Flagged p flag num f n gs rest_eq hf h.1 in
      (bound, more, keep, ((λ hit. absurd (cc (hit, miss))), rest))
]

death_reset-gone : (s : GameState) → (death_reset s).pacman_loc.row ≡ 32
unfolding death_reset reset_all_ghosts set_fruit_steps decrement_lives put_pacman restart_mode
    set_pause_on_update set_mode set_mode_steps copy_from
death_reset-gone s = ground arith

pub gone-Misses : (p : LocationState) (g : GhostState) → p.row ≡ 32 → hits p g ≡ false
unfolding collides_with
gone-Misses p g h = ground arith

chosen-Misses :
    (p : LocationState) (flag active num n : ℕ) (g : GhostState)
    → IsListed active g
    → Flagged p flag num n g
    → hits p (if get_bit flag g.color then respawn active g else g) ≡ false
unfolding respawn collides_with
chosen-Misses p flag active num n g h k = ground (arith)

abbrev pub Misses : LocationState → GhostState → Type 0
Misses p g = hits p g ≡ false

pub All-Misses : (p : LocationState) (gs : List GhostState) → p.row ≡ 32 → All (Misses p) gs
All-Misses p [] h = tt
All-Misses p (g ∷ gs) h = (gone-Misses p g h, All-Misses p gs h)

respawned-Misses :
    (p : LocationState) (flag active num n : ℕ) (gs : List GhostState)
    → All (IsListed active) gs
    → All (Flagged p flag num n) gs
    → All (Misses p) (map (λ g. if get_bit flag g.color then respawn active g else g) gs)
respawned-Misses p flag active num n [] h k = tt
respawned-Misses p flag active num n (g ∷ gs) h k =
    (chosen-Misses p flag active num n g h.0 k.0, respawned-Misses p flag active num n gs h.1 k.1)

unchosen-Misses : (p : LocationState) (f : ℕ) (g : GhostState) → Flagged p f 0 0 g → Misses p g
unchosen-Misses p f g h = ground arith

respawn_ghosts-Misses :
    (flag n : ℕ) (s : GameState)
    → All (IsListed s.num_active_ghosts) s.ghosts
    → All (Flagged s.pacman_loc flag 0 n) s.ghosts
    → All (Misses (respawn_ghosts flag s).pacman_loc) (respawn_ghosts flag s).ghosts
unfolding respawn_ghosts
respawn_ghosts-Misses flag n s h k =
    let (same, same_active, pac) = respawn_loop_lem flag s.num_active_ghosts s.ghosts s refl in
    rw (same, pac) (respawned-Misses s.pacman_loc flag s.num_active_ghosts 0 n s.ghosts h k)

-- No ghost that is not eaten stands on Pacman's cell.
abbrev pub IsClear : GameState → Type 0
IsClear s = All (λ g. hits s.pacman_loc g ≡ false) s.ghosts

check_collisions-dies :
    (s : GameState) → scan s.pacman_loc 0 0 s.ghosts ≡ none → check_collisions s ≡ death_reset s
unfolding check_collisions
check_collisions-dies s h = rw (h, check_collisions) refl

check_collisions-lives :
    (s : GameState) (flag n : ℕ)
    → scan s.pacman_loc 0 0 s.ghosts ≡ some (flag, n)
    → check_collisions s ≡ (if n == 0 then s else respawn_ghosts flag s)
unfolding check_collisions
check_collisions-lives s flag n h = rw (h, check_collisions) refl

lives-IsClear :
    (s : GameState) (flag n : ℕ)
    → All (IsListed s.num_active_ghosts) s.ghosts
    → All (Flagged s.pacman_loc flag 0 n) s.ghosts
    → IsClear (if n == 0 then s else respawn_ghosts flag s)
lives-IsClear s flag zero h marked =
    All-imp (Flagged s.pacman_loc flag 0 0) (Misses s.pacman_loc)
      (unchosen-Misses s.pacman_loc flag) s.ghosts marked
lives-IsClear s flag (suc n) h marked =
    subst (λ b. IsClear (if b then s else respawn_ghosts flag s)) (sym positive)
      (respawn_ghosts-Misses flag (suc n) s h marked)
  where
    positive : (suc n == 0) ≡ false
    positive = ground arith

-- After a check for collisions no ghost that is not eaten stands on Pacman's cell, in a game whose
-- ghosts each have one of the four colors and are off the board unless they are active.
pub check_collisions-IsClear : (s : GameState) → IsHerd s → IsClear (check_collisions s)
check_collisions-IsClear s herd = elim (Option-cases (scan s.pacman_loc 0 0 s.ghosts)) [
  | inl dies ↦
      subst IsClear (sym (check_collisions-dies s dies))
        (All-Misses _ (death_reset s).ghosts (death_reset-gone s))
  | inr ((flag, n), lives) ↦ subst IsClear (sym (check_collisions-lives s flag n lives)) (
      lives-IsClear s flag n herd.listed
        (scan-Flagged s.pacman_loc 0 0 flag n s.ghosts lives (omega arith) (
          All-imp (IsListed s.num_active_ghosts) InRange (λ g l. omega (arith, l.0)) s.ghosts
            herd.listed)).3)
]
