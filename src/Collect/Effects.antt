-- ===== src/Collect/Effects.antt =====
-- What collecting a pellet does to the score, the count and the board.
use pacbot.Prelude.{ℕ, ◌+◌, ◌-◌, ◌≤◌, ◌≡◌, min, Bool, if◌then◌else◌, ◌==◌, arith, ◌&&◌}
use pacbot.Location.{collides_with}
use pacbot.State.{GameState}
use pacbot.Modes.{set_pause_on_update}
use pacbot.Counters.{
  increment_score, increment_level, fruit_exists, set_fruit_steps, set_level_steps, reset_pellets,
}
use pacbot.Grid.{pellet_at}
use pacbot.Herd.{frighten_all_ghosts, reset_all_ghosts}
use pacbot.Board.{put_pacman, restart_mode, level_reset}
use pacbot.Collect.{
  collect_fruit, is_super_pellet, clear_pellet, score_pellet, spawn_fruit, anger, pellet_events,
  collect_pellet,
}

-- The points of a step onto the fruit and of a pellet.
abbrev pub fruit_gain : GameState → ℕ
fruit_gain s = if fruit_exists s && collides_with s.pacman_loc s.fruit_loc then 100 else 0

abbrev pub pellet_gain : ℕ → ℕ → ℕ
pellet_gain row col = if is_super_pellet row col then 50 else 10

-- Score and count of a state, which most operations leave alone.
abbrev Same : GameState → GameState → Type 0
Same t s = (t.curr_score ≡ s.curr_score) × (t.num_pellets ≡ s.num_pellets)

anger-Same : (s : GameState) → Same (anger s) s
unfolding anger
anger-Same s = ground arith

increment_level-Same : (s : GameState) → Same (increment_level s) s
unfolding increment_level
increment_level-Same s = ground arith

spawn_fruit-Same : (s : GameState) → Same (spawn_fruit s) s
unfolding spawn_fruit
spawn_fruit-Same s = ground arith

frighten_all-Same : (s : GameState) → Same (frighten_all_ghosts s) s
unfolding frighten_all_ghosts
frighten_all-Same s = ground arith

level_reset_lem :
    (s : GameState)
    → ((level_reset s).curr_score ≡ s.curr_score) × ((level_reset s).num_pellets ≡ 244)
unfolding level_reset reset_all_ghosts reset_pellets set_fruit_steps set_level_steps restart_mode
    put_pacman set_pause_on_update
level_reset_lem s = ground arith

pellet_events_lem :
    (s : GameState)
    → ((pellet_events s).curr_score ≡ s.curr_score)
      × ((pellet_events s).num_pellets ≡ (if s.num_pellets == 0 then 244 else s.num_pellets))
unfolding pellet_events
pellet_events_lem s =
    ground (arith, anger-Same s, level_reset_lem s, increment_level-Same (level_reset s))

collect_fruit_lem :
    (s : GameState)
    → s.curr_score ≤ 65535
    → ((collect_fruit s).curr_score ≡ min (s.curr_score + fruit_gain s) 65535)
      × ((collect_fruit s).num_pellets ≡ s.num_pellets)
      × ((collect_fruit s).pellets ≡ s.pellets)
unfolding collect_fruit
collect_fruit_lem s h = ground arith

clear_pellet_lem :
    (row col : ℕ) (s : GameState)
    → ((clear_pellet row col s).curr_score ≡ s.curr_score)
      × ((clear_pellet row col s).num_pellets ≡ s.num_pellets - 1)
unfolding clear_pellet
clear_pellet_lem row col s = ground arith

score_pellet_lem :
    (b : Bool) (s : GameState)
    → s.curr_score ≤ 65535
    → ((score_pellet b s).curr_score ≡ min (s.curr_score + (if b then 50 else 10)) 65535)
      × ((score_pellet b s).num_pellets ≡ s.num_pellets)
unfolding score_pellet increment_score
score_pellet_lem b s h = ground (arith, frighten_all-Same s)

-- Collecting at a cell adds the points of the pellet there, and those of a fruit that Pacman stands
-- on, up to the largest uint16. The pellet count falls by one if there is a pellet, and starts anew
-- at 244 when it reaches 0; where there is no pellet only the fruit counts.
pub collect_pellet_lem :
    (row col : ℕ) (s : GameState)
    → s.curr_score ≤ 65535
    → ((collect_pellet row col s).curr_score
        ≡ min
            (s.curr_score + fruit_gain s + (if pellet_at s row col then pellet_gain row col else 0))
            65535)
      × ((collect_pellet row col s).num_pellets ≡ (
          if pellet_at s row col
          then (if s.num_pellets - 1 == 0 then 244 else s.num_pellets - 1)
          else s.num_pellets))
unfolding collect_pellet
collect_pellet_lem row col s h =
    let s1 = collect_fruit s in
    let fed = collect_fruit_lem s h in
    let low : s1.curr_score ≤ 65535 = omega (arith, fed.0) in
    let s2 = clear_pellet row col s1 in
    let cleared = clear_pellet_lem row col s1 in
    let s3 = score_pellet (is_super_pellet row col) s2 in
    let scored = score_pellet_lem (is_super_pellet row col) s2 (omega (arith, cleared.0)) in
    ground (arith, fed, cleared, scored, spawn_fruit-Same s3, pellet_events_lem (spawn_fruit s3))
