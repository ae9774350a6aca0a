-- ===== src/Ranged/Sent.antt =====
-- A state of a running server with a life left is in the ranges of what a client reads back.
use pacbot.Prelude.{ℕ, zero, suc, ◌<◌, ◌≡◌, inl, inr, List, [], ◌∷◌, All, get_or, arith, sym, false}
use mathlib.Core.Path.{subst}
use pacbot.Location.{LocationState, fruit_spawn_loc}
use pacbot.State.{GhostState, GameState, new_ghost_state, ghost_at}
use pacbot.Grid.{wall_in, in_bounds}
use pacbot.Serialize.Decode.{IsShown, GhostShown, IsSent}
use pacbot.Patrol.{legal-bounds}
use pacbot.Patrol.One.{IsPlanned}
use pacbot.Patrol.Game.{Patrolled}
use pacbot.Pellets.{Counted}
use pacbot.Sound.{IsSound}
use pacbot.Ranged.{IsTimed, IsRanged}

ghost-GhostShown : (g : GhostState) → IsTimed g → IsPlanned g → GhostShown g
ghost-GhostShown g t p = record {
  place = record {
    row_small = ground (arith, p.here, legal-bounds g.spawning g.loc.row g.loc.col g.loc.dir);
    col_small = ground (arith, p.here, legal-bounds g.spawning g.loc.row g.loc.col g.loc.dir);
    dir_small = t.here;
  };
  fright = omega (arith, t.fright);
  trapped = omega (arith, t.trapped);
}

nobody-GhostShown : (c : ℕ) → c < 4 → GhostShown (new_ghost_state 0 c)
unfolding new_ghost_state
nobody-GhostShown c h = ground arith

ghost_at-GhostShown :
    (gs : List GhostState) (i : ℕ) (d : GhostState)
    → All IsTimed gs
    → All IsPlanned gs
    → GhostShown d
    → GhostShown (get_or gs i d)
ghost_at-GhostShown [] i d t p last = last
ghost_at-GhostShown (g ∷ gs) zero d t p last = ghost-GhostShown g t.0 p.0
ghost_at-GhostShown (g ∷ gs) (suc i) d t p last = ghost_at-GhostShown gs i d t.1 p.1 last

-- Pacman's coordinates are int8, bit patterns below 256.
abbrev pub IsByte : LocationState → Type 0
IsByte l = (l.row < 256) × (l.col < 256)

wall_in-bounds :
    (walls : List ℕ) (r c : ℕ) → r < 256 → c < 256 → wall_in walls r c ≡ false → (r < 31) × (c < 28)
unfolding wall_in in_bounds
wall_in-bounds walls r c hr hc h = ground (arith, h)

pacman-IsShown : (s : GameState) → IsSound s → IsByte s.pacman_loc → IsShown s.pacman_loc
pacman-IsShown s h bytes = elim h.pacman_clear [
  | inl (r, c) ↦ record {
    row_small = omega arith;
    col_small = omega arith;
    dir_small = h.pacman_dir;
  }
  | inr clear ↦
      let (r, c) = wall_in-bounds s.walls _ _ bytes.0 bytes.1 clear in
      record { row_small = omega arith; col_small = omega arith; dir_small = h.pacman_dir }
]

fruit-IsShown : (l : LocationState) → l ≡ fruit_spawn_loc → IsShown l
fruit-IsShown l e =
    subst IsShown (sym e)
      (record { row_small = omega arith; col_small = omega arith; dir_small = omega arith })

pub IsSound-IsSent :
    (s : GameState)
    → IsSound s
    → IsRanged s
    → Counted s
    → Patrolled IsPlanned s
    → 0 < s.curr_lives
    → IsByte s.pacman_loc
    → IsSent s
IsSound-IsSent s h k n p alive bytes = record {
  ticks = omega (arith, h.ticks_le);
  period = omega (arith, h.period_le);
  mode_low = h.mode_le;
  last_low = h.last_mode_le;
  steps = omega (arith, h.mode_steps_le);
  level_steps_low = omega (arith, h.level_steps_le);
  score = omega (arith, h.score_le);
  level = omega (arith, h.level_le);
  lives = omega (arith, h.lives_le);
  combo = k.combo;
  reds = shown 0 (omega arith);
  pinks = shown 1 (omega arith);
  cyans = shown 2 (omega arith);
  oranges = shown 3 (omega arith);
  pacman = pacman-IsShown s h bytes;
  fruit = fruit-IsShown s.fruit_loc k.fruit;
  fruit_steps_low = omega (arith, h.fruit_le);
  words = n.words;
}
  where
    shown : (c : ℕ) → c < 4 → GhostShown (ghost_at s c)
    shown c low =
        ghost_at-GhostShown s.ghosts c (new_ghost_state 0 c) k.timed (p.all_ghosts alive)
          (nobody-GhostShown c low)
