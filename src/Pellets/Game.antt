-- ===== src/Pellets/Game.antt =====
-- The pellet count is kept by every operation of the server.
use pacbot.Prelude.{
  length-set, ℕ, suc, ◌-◌, ◌^◌, ◌<◌, ◌≡◌, refl, List, [], ◌∷◌, All, Bool, true, false, length,
  get_or, set, arith, zero,
}
use pacbot.Bits.{get_bit, modify_bit}
use pacbot.Maze.{init_pellets}
use pacbot.State.{GameState}
use pacbot.Modes.{pause, play, set_pause_on_update}
use pacbot.Counters.{
  next_tick, increment_score, increment_level, decrement_lives, set_fruit_steps, set_level_steps,
  reset_pellets, decrement_num_pellets,
}
use pacbot.Grid.{pellet_at, pellet_in}
use pacbot.Herd.{
  frighten_all_ghosts, reverse_all_ghosts, reset_all_ghosts, score_combo, update_all_ghosts,
}
use pacbot.Board.{put_pacman, restart_mode, try_respawn_pacman}
use pacbot.Collect.{collect_fruit, clear_pellet, spawn_fruit, anger}
use pacbot.Plan.{plan_all_ghosts}
use pacbot.Steps.{switch_mode, level_event, count_down}
use pacbot.Engine.{Draws, pause_if_due}
use pacbot.Pellets.{pop, total, IsWord, Counted}
use pacbot.Pellets.Rows.{pop-clear, get_bit-lt, total-set}

-- A read past the rows gives 0, which has no bit.
pub get_bit-past : (rows : List ℕ) (r c : ℕ) → get_bit (get_or rows r 0) c ≡ true → r < length rows
get_bit-past [] r c h = absurd (unfold get_bit in ground arith)
get_bit-past (row ∷ rows) zero c h = omega arith
get_bit-past (row ∷ rows) (suc r) c h = omega (arith, get_bit-past rows r c h)

pub get_or-IsWord : (rows : List ℕ) (r : ℕ) → All IsWord rows → IsWord (get_or rows r 0)
get_or-IsWord [] r h = omega arith
get_or-IsWord (row ∷ rows) zero h = h.0
get_or-IsWord (row ∷ rows) (suc r) h = get_or-IsWord rows r h.1

pub set-IsWord : (rows : List ℕ) (r v : ℕ) → IsWord v → All IsWord rows → All IsWord (set rows r v)
set-IsWord [] r v k h = tt
set-IsWord (row ∷ rows) zero v k h = (k, h.1)
set-IsWord (row ∷ rows) (suc r) v k h = (h.0, set-IsWord rows r v k h.1)

pub pellet_in-bit :
    (rows : List ℕ) (r c : ℕ) → pellet_in rows r c ≡ true → get_bit (get_or rows r 0) c ≡ true
unfolding pellet_in
pellet_in-bit rows r c h = ground arith

pub modify_bit-clear : (n c : ℕ) → c < 32 → get_bit n c ≡ true → modify_bit 32 n c false ≡ n - 2 ^ c
unfolding modify_bit
modify_bit-clear n c h b = ground arith

-- Where a pellet is, clearing it takes one from the number of bits.
pub clear-total :
    (rows : List ℕ) (r c : ℕ)
    → All IsWord rows
    → pellet_in rows r c ≡ true
    → All IsWord (set rows r (modify_bit 32 (get_or rows r 0) c false))
      × (total rows ≡ suc (total (set rows r (modify_bit 32 (get_or rows r 0) c false))))
clear-total rows r c words there = rw cleared (
  set-IsWord rows r (row - 2 ^ c) (omega (arith, word)) words,
  omega (
    arith,
    total-set rows r (row - 2 ^ c) (get_bit-past rows r c bit),
    pop-clear 32 c row low bit,
  ),
)
  where
    row : ℕ
    row = get_or rows r 0

    bit : get_bit row c ≡ true
    bit = pellet_in-bit rows r c there

    word : IsWord row
    word = get_or-IsWord rows r words

    low : c < 32
    low = get_bit-lt row c word bit

    cleared : modify_bit 32 row c false ≡ row - 2 ^ c
    cleared = modify_bit-clear row c low bit

module _ {s : GameState} (h : Counted s) where
  pub pause-Counted : Counted (pause s)
  unfolding pause
  pause-Counted = ground arith

  pub play-Counted : Counted (play s)
  unfolding play
  play-Counted = ground arith

  pub next_tick-Counted : Counted (next_tick s)
  unfolding next_tick
  next_tick-Counted = ground arith

  pub increment_level-Counted : Counted (increment_level s)
  unfolding increment_level
  increment_level-Counted = ground arith

  pub decrement_lives-Counted : Counted (decrement_lives s)
  unfolding decrement_lives
  decrement_lives-Counted = ground arith

  pub collect_fruit-Counted : Counted (collect_fruit s)
  unfolding collect_fruit
  collect_fruit-Counted = ground arith

  pub spawn_fruit-Counted : Counted (spawn_fruit s)
  unfolding spawn_fruit
  spawn_fruit-Counted = ground arith

  pub anger-Counted : Counted (anger s)
  unfolding anger
  anger-Counted = ground arith

  pub switch_mode-Counted : Counted (switch_mode s)
  unfolding switch_mode
  switch_mode-Counted = ground arith

  pub count_down-Counted : Counted (count_down s)
  unfolding count_down
  count_down-Counted = ground arith

  pub put_pacman-Counted : Counted (put_pacman s)
  unfolding put_pacman
  put_pacman-Counted = ground arith

  pub restart_mode-Counted : Counted (restart_mode s)
  unfolding restart_mode
  restart_mode-Counted = ground arith

  pub try_respawn_pacman-Counted : Counted (try_respawn_pacman s)
  unfolding try_respawn_pacman
  try_respawn_pacman-Counted = ground arith

  pub frighten_all_ghosts-Counted : Counted (frighten_all_ghosts s)
  unfolding frighten_all_ghosts
  frighten_all_ghosts-Counted = ground arith

  pub reverse_all_ghosts-Counted : Counted (reverse_all_ghosts s)
  unfolding reverse_all_ghosts
  reverse_all_ghosts-Counted = ground arith

  pub reset_all_ghosts-Counted : Counted (reset_all_ghosts s)
  unfolding reset_all_ghosts
  reset_all_ghosts-Counted = ground arith

  pub score_combo-Counted : Counted (score_combo s)
  unfolding score_combo
  score_combo-Counted = ground arith

  pub update_all_ghosts-Counted : Counted (update_all_ghosts s)
  unfolding update_all_ghosts
  update_all_ghosts-Counted = ground arith

  pub pause_if_due-Counted : Counted (pause_if_due s)
  unfolding pause_if_due set_pause_on_update pause
  pause_if_due-Counted = ground arith

  pub level_event-Counted : (n : ℕ) → Counted (level_event n s)
  unfolding level_event
  level_event-Counted n = ground arith

  pub increment_score-Counted : (n : ℕ) → Counted (increment_score n s)
  unfolding increment_score
  increment_score-Counted n = ground arith

  pub set_fruit_steps-Counted : (n : ℕ) → Counted (set_fruit_steps n s)
  unfolding set_fruit_steps
  set_fruit_steps-Counted n = ground arith

  pub set_level_steps-Counted : (n : ℕ) → Counted (set_level_steps n s)
  unfolding set_level_steps
  set_level_steps-Counted n = ground arith

  pub set_pause_on_update-Counted : (b : Bool) → Counted (set_pause_on_update b s)
  unfolding set_pause_on_update
  set_pause_on_update-Counted b = ground arith

  pub plan_all_ghosts-Counted : (draws : Draws) → Counted (plan_all_ghosts draws s)
  unfolding plan_all_ghosts
  plan_all_ghosts-Counted draws = ground arith

  pub clear_pellet-Counted : (r c : ℕ) → pellet_at s r c ≡ true → Counted (clear_pellet r c s)
  unfolding clear_pellet decrement_num_pellets
  clear_pellet-Counted r c there = ground (
    arith,
    clear-total s.pellets r c h.words there,
    length-set s.pellets r (modify_bit 32 (get_or s.pellets r 0) c false),
  )

  pub reset_pellets-Counted : Counted (reset_pellets s)
  unfolding reset_pellets total pop init_pellets
  reset_pellets-Counted = record { rows = refl; words = omega arith; count = refl }
