-- ===== src/Engine/Reach.antt =====
-- The states that the engine's loop reaches, and what it takes for a predicate to hold of them all.
use pacbot.Prelude.{
  ℕ, List, [], ◌∷◌, Bool, true, false, ◌≤◌, ◌≡◌, Option, none, some, inl, inr, ap, ltb, length,
  ◌||◌, Bool-cases, Option-cases, arith,
}
use mathlib.Core.Path.{subst}
use mathlib.Core.Option
use pacbot.Location.{update_dir, update_coords, get_neighbor_coords}
use pacbot.State.{GameState, new_game_state}
use pacbot.Modes.{is_paused, pause, play}
use pacbot.Counters.{decrement_lives, next_tick}
use pacbot.Grid.{wall_at}
use pacbot.Collect.{collect_pellet}
use pacbot.Collide.{check_collisions}
use pacbot.Path.{Pos, Route, found, nil_path, panics, hangs, find_likely_path}
use pacbot.Pacman.{
  turn_and_step, move_pacman_dir, heading, walk, jump, follow, move_pacman_absolute,
}
use pacbot.Commands.{absolute_position, interpret_command}
use pacbot.Serialize.{ser_full}
use pacbot.Steps.{update_ready}
use pacbot.Engine.{
  Draws, Message, Engine, new_engine, update_step, restart, update_if, update_if_ready,
  send_and_read, after_command, handle_message, read_loop, tick, iteration,
}

-- What the loop can come to from a new engine, whatever messages and random numbers it meets.
pub data Reach (active : ℕ) : Engine → Type 0 where
  start : Reach active (new_engine active)
  next :
      {e e' : Engine} (draws : Draws) (ms : List Message) {out : List ℕ}
      → Reach active e
      → iteration draws ms e ≡ some (out, e')
      → Reach active e'

-- A predicate R that every step of the program keeps, with a weaker P that may hold alone between
-- the steps of a move, up to the check for collisions.
pub record Stable (R P : GameState → Type 0) : Type 0 where
  pub rests : (s : GameState) → R s → P s
  pub aim :
      (d : ℕ) (s : GameState)
      → d ≤ 3
      → P s
      → P (record s { pacman_loc = update_dir s.pacman_loc d })
  pub place :
      (r c : ℕ) (s : GameState)
      → wall_at s r c ≡ false
      → P s
      → P (record s { pacman_loc = update_coords s.pacman_loc (r, c) })
  pub collect : (r c : ℕ) (s : GameState) → P s → P (collect_pellet r c s)
  pub collect_at_rest : (r c : ℕ) (s : GameState) → R s → R (collect_pellet r c s)
  pub collide : (s : GameState) → P s → R (check_collisions s)
  pub paused : (s : GameState) → R s → R (pause s)
  pub played : (s : GameState) → R s → R (play s)
  pub killed : (s : GameState) → R s → R (decrement_lives s)
  pub ticked : (s : GameState) → R s → R (next_tick s)
  pub updated : (draws : Draws) (s : GameState) → R s → R (update_step draws s)
  pub restarted : (draws : Draws) (active : ℕ) → R (restart draws active)
  pub fresh : (active : ℕ) → R (new_game_state active)

-- A predicate on the result of a call that may fail.
abbrev OnSome : (GameState → Type 0) → Option GameState → Type 0
OnSome P none = Unit
OnSome P (some s) = P s

abbrev pub OnFirst : (GameState → Type 0) → Option (GameState × Bool) → Type 0
OnFirst P none = Unit
OnFirst P (some (s, b)) = P s

abbrev state_of : Engine → GameState
state_of e = e.state

abbrev second_state : List ℕ × Engine → GameState
second_state r = r.1.state

pub some_inj {ℓ} : {A : Type ℓ} {a b : A} → some a ≡ some b → a ≡ b
some_inj h = cc

heading-le : (prev n : Pos) → heading prev n ≤ 3
unfolding heading
heading-le prev n = ground arith

module _ {R P : GameState → Type 0} (st : Stable R P) where
  turn_and_step-keeps : (d : ℕ) (s : GameState) → d ≤ 3 → P s → P (turn_and_step d s)
  unfolding turn_and_step
  turn_and_step-keeps d s h p = elim (Bool-cases (is_paused s || s.pause_on_update)) [
    | inl stop ↦ rw stop p
    | inr go ↦ rw go (elim (Bool-cases (wall_at s row col)) [
      | inl wall ↦ rw wall turned
      | inr clear ↦ rw clear (st.collect row col _ (st.place row col _ clear turned))
    ])
  ]
    where
      row : ℕ
      row = (get_neighbor_coords s.pacman_loc d).0

      col : ℕ
      col = (get_neighbor_coords s.pacman_loc d).1

      turned : P (record s { pacman_loc = update_dir s.pacman_loc d })
      turned = st.aim d s h p

  move_pacman_dir-keeps : (d : ℕ) (s : GameState) → d ≤ 3 → R s → R (move_pacman_dir d s)
  unfolding move_pacman_dir
  move_pacman_dir-keeps d s h p = st.collide _ (turn_and_step-keeps d s h (st.rests s p))

  walk-keeps : (prev : Pos) (path : List Pos) (s : GameState) → R s → R (walk prev path s)
  unfolding walk
  walk-keeps prev [] s p = p
  walk-keeps prev (n ∷ path) s p = walk-keeps n path _ (
      st.collect_at_rest _ _ _ (
        st.collide _ (st.rests _ (move_pacman_dir-keeps (heading prev n) s (heading-le prev n) p))))

  jump-keeps : (r c : ℕ) (s : GameState) → wall_at s r c ≡ false → R s → R (jump r c s)
  unfolding jump
  jump-keeps r c s clear p = st.collide _ (st.collect _ _ _ (st.place r c s clear (st.rests s p)))

  follow-keeps :
      (r c : ℕ) (s : GameState) (route : Route)
      → wall_at s r c ≡ false
      → R s
      → OnSome R (follow r c s route)
  unfolding follow
  follow-keeps r c s (found path) clear p = elim (Bool-cases (ltb 11 (length path))) [
    | inl long ↦ rw long (jump-keeps r c s clear p)
    | inr short ↦ rw short (walk-keeps _ path s p)
  ]
  follow-keeps r c s nil_path clear p = p
  follow-keeps r c s panics clear p = tt
  follow-keeps r c s hangs clear p = tt

  move_pacman_absolute-keeps :
      (r c : ℕ) (s : GameState) → R s → OnSome R (move_pacman_absolute r c s)
  unfolding move_pacman_absolute
  move_pacman_absolute-keeps r c s p = ground (arith, follow-keeps r c s (find_likely_path s r c))

  OnFirst-map : (o : Option GameState) → OnSome R o → OnFirst R (Option.map (λ t. (t, false)) o)
  OnFirst-map none h = tt
  OnFirst-map (some t) h = h

  absolute_position-keeps :
      (bytes : List ℕ) (s : GameState) → R s → OnFirst R (absolute_position bytes s)
  unfolding absolute_position
  absolute_position-keeps [] s p = p
  absolute_position-keeps (c ∷ []) s p = p
  absolute_position-keeps (c ∷ row ∷ []) s p = p
  absolute_position-keeps (c ∷ row ∷ col ∷ []) s p =
      OnFirst-map _ (move_pacman_absolute-keeps row col s p)
  absolute_position-keeps (c ∷ row ∷ col ∷ d ∷ ds) s p = p

  pub interpret_command-keeps :
      (bytes : List ℕ) (s : GameState) → R s → OnFirst R (interpret_command bytes s)
  unfolding interpret_command
  interpret_command-keeps [] s p = tt
  interpret_command-keeps (c ∷ rest) s p = ground (
    arith,
    st.paused s p,
    st.played s p,
    move_pacman_dir-keeps 0 s (omega arith) p,
    move_pacman_dir-keeps 1 s (omega arith) p,
    move_pacman_dir-keeps 2 s (omega arith) p,
    move_pacman_dir-keeps 3 s (omega arith) p,
    absolute_position-keeps (c ∷ rest) s p,
    st.killed s p,
  )

  pub after_command-keeps :
      (m : Message) (e : Engine) (r : Option (GameState × Bool)) (e' : Engine)
      → OnFirst R r
      → after_command m e r ≡ some e'
      → R e'.state
  unfolding after_command
  after_command-keeps m e none e' h eq = cc
  after_command-keeps m e (some (s, true)) e' h eq =
      subst R (ap state_of (some_inj eq)) (st.restarted m.draws s.num_active_ghosts)
  after_command-keeps m e (some (s, false)) e' h eq = subst R (ap state_of (some_inj eq)) h

  pub read_loop-keeps :
      (ms : List Message) (e e' : Engine) → R e.state → read_loop ms e ≡ some e' → R e'.state
  unfolding read_loop handle_message
  read_loop-keeps [] e e' p eq = subst R (ap state_of (some_inj eq)) p
  read_loop-keeps (m ∷ ms) e e' p eq = elim (Option-cases (handle_message m e)) [
    | inl eh ↦ absurd (cc (rw (eh, read_loop) at eq))
    | inr (f, eh) ↦
        read_loop-keeps ms f e'
          (after_command-keeps m e _ f (interpret_command-keeps m.bytes e.state p) eh)
          (rw (eh, read_loop) at eq)
  ]

  update_if-keeps :
      (ready : Bool) (draws : Draws) (e : Engine) → R e.state → R (update_if ready draws e).state
  unfolding update_if
  update_if-keeps true draws e p = st.updated draws e.state p
  update_if-keeps false draws e p = p

  pub update_if_ready-keeps :
      (draws : Draws) (e e1 : Engine) → R e.state → update_if_ready draws e ≡ some e1 → R e1.state
  unfolding update_if_ready
  update_if_ready-keeps draws e e1 p eq = elim (Bool-cases e.just_ticked) [
    | inr rests ↦ subst R (ap state_of (some_inj (rw rests at eq))) p
    | inl ticked ↦ elim (Option-cases (update_ready e.state)) [
      | inl fails ↦ absurd (cc (rw (ticked, fails) at eq))
      | inr (ready, works) ↦
          subst R (ap state_of (some_inj (rw (ticked, works) at eq)))
            (update_if-keeps ready draws e p)
    ]
  ]

  pub tick-keeps : (e : Engine) → R e.state → R (tick e).state
  unfolding tick
  tick-keeps e p = ground (arith, st.ticked e.state p)

  send_and_read-keeps :
      (ms : List Message) (e e' : Engine) {out : List ℕ}
      → R e.state
      → send_and_read ms e ≡ some (out, e')
      → R e'.state
  unfolding send_and_read
  send_and_read-keeps ms e e' p eq = elim (Option-cases (read_loop ms sent)) [
    | inl eh ↦ absurd (cc (rw (eh, send_and_read) at eq))
    | inr (g, eh) ↦
        subst R (ap second_state (some_inj (rw (eh, send_and_read) at eq)))
          (tick-keeps g (read_loop-keeps ms sent g p eh))
  ]
    where
      sent : Engine
      sent = record e { output_buf = (ser_full e.state (e.output_buf, 0)).0 }

  iteration-keeps :
      (draws : Draws) (ms : List Message) (e e' : Engine) {out : List ℕ}
      → R e.state
      → iteration draws ms e ≡ some (out, e')
      → R e'.state
  unfolding iteration
  iteration-keeps draws ms e e' p eq = elim (Option-cases (update_if_ready draws e)) [
    | inl fails ↦ absurd (cc (rw (fails, iteration) at eq))
    | inr (e1, works) ↦
        send_and_read-keeps ms e1 e' (update_if_ready-keeps draws e e1 p works)
          (rw (works, iteration) at eq)
  ]

  -- A stable predicate holds of every state that the loop reaches.
  pub Reach-keeps : {active : ℕ} {e : Engine} → Reach active e → R e.state
  unfolding new_engine
  Reach-keeps {active} start = st.fresh active
  Reach-keeps (next {e} {e'} draws ms r eq) = iteration-keeps draws ms e e' (Reach-keeps r) eq
