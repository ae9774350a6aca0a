-- ===== src/Engine/Frames.antt =====
-- The frames that the loop of server/game/game_engine.go sends.
use pacbot.Prelude.{
  ℕ, List, [], ◌∷◌, ◌≡◌, ◌≢◌, refl, sym, ap, ◌∙◌, Bool, Option, none, some, inl, inr, length, take,
  All, Option-cases, Bool-cases, ◌==◌, ◌%◌, ◌≤◌, arith, true, false,
}
use pacbot.State.{GameState}
use pacbot.Commands.{interpret_command}
use pacbot.Commands.Results.{interpret_command-none}
use pacbot.Serialize.{ser_full}
use pacbot.Serialize.Encode.{encode, ser_full_lem, length-encode}
use pacbot.Steps.{update_ready}
use pacbot.Sound.Server.{Reach-IsSound}
use pacbot.Engine.{
  Draws, Message, Engine, new_engine, update_if, update_if_ready, send_and_read, after_command,
  handle_message, read_loop, tick, iteration,
}
use pacbot.Engine.Reach.{Reach, start, next, some_inj, update_if_ready-keeps}
use pacbot.Pellets.{Counted}
use pacbot.Pellets.Server.{Counted-Stable, Reach-Counted}

-- A message that is not empty and does not ask for a position.
abbrev pub IsPlain : Message → Type 0
IsPlain m = (c : ℕ) × (rest : List ℕ) × (m.bytes ≡ c ∷ rest) × (c ≢ b'x')

interpret_command-plain :
    (m : Message) (s : GameState)
    → IsPlain m
    → (r : GameState × Bool) × (interpret_command m.bytes s ≡ some r)
interpret_command-plain m s (c, rest, e, h) = elim (Option-cases (interpret_command m.bytes s)) [
  | inl fails ↦ elim (interpret_command-none m.bytes s fails) [
    | inl empty ↦ absurd (cc (e, empty))
    | inr (row, col, x, route) ↦ absurd (h (cc (e, x)))
  ]
  | inr (r, works) ↦ (r, works)
]

after_command-some :
    (m : Message) (e : Engine) (r : GameState × Bool)
    → (e' : Engine) × (after_command m e (some r) ≡ some e') × (e'.output_buf ≡ e.output_buf)
unfolding after_command
after_command-some m e (s, true) = (_, refl, refl)
after_command-some m e (s, false) = (_, refl, refl)

pub handle_message-some :
    (m : Message) (e : Engine) → IsPlain m → (e' : Engine) × (handle_message m e ≡ some e')
unfolding handle_message
handle_message-some m e plain =
    let (r, works) = interpret_command-plain m e.state plain in
    let (f, done, _) = after_command-some m e r in (f, rw works done)

read_loop-step :
    (m : Message) (ms : List Message) (e : Engine) (r : GameState × Bool) (f g : Engine)
    → interpret_command m.bytes e.state ≡ some r
    → after_command m e (some r) ≡ some f
    → read_loop ms f ≡ some g
    → read_loop (m ∷ ms) e ≡ some g
unfolding read_loop handle_message
read_loop-step m ms e r f g works ef eg = rw (handled, read_loop) eg
  where
    handled : handle_message m e ≡ some f
    handled = rw (works, handle_message) ef

-- Plain messages are all handled, and leave the buffer.
read_loop-some :
    (ms : List Message) (e : Engine)
    → All IsPlain ms
    → (e' : Engine) × (read_loop ms e ≡ some e') × (e'.output_buf ≡ e.output_buf)
unfolding read_loop
read_loop-some [] e h = (e, refl, refl)
read_loop-some (m ∷ ms) e h =
    let (r, works) = interpret_command-plain m e.state h.0 in
    let (f, ef, bf) = after_command-some m e r in
    let (g, eg, bg) = read_loop-some ms f h.1 in
    (g, read_loop-step m ms e r f g works ef eg, bg ∙ bf)

update_if-buf :
    (ready : Bool) (draws : Draws) (e : Engine)
    → (update_if ready draws e).output_buf ≡ e.output_buf
unfolding update_if
update_if-buf true draws e = refl
update_if-buf false draws e = refl

pub update_if_ready-buf :
    (draws : Draws) (e e1 : Engine)
    → update_if_ready draws e ≡ some e1
    → e1.output_buf ≡ e.output_buf
unfolding update_if_ready
update_if_ready-buf draws e e1 eq = elim (Bool-cases e.just_ticked) [
  | inr rests ↦ sym (ap (λ (x : Engine). x.output_buf) (some_inj (rw rests at eq)))
  | inl ticked ↦ elim (Option-cases (update_ready e.state)) [
    | inl panics ↦ absurd (cc (rw (ticked, panics) at eq))
    | inr (ready, works) ↦
        sym (ap (λ (x : Engine). x.output_buf) (some_inj (rw (ticked, works) at eq)))
        ∙ update_if-buf ready draws e
  ]
]

-- An update period of at least 1 keeps the remainder from its panic.
pub update_if_ready-some :
    (draws : Draws) (e : Engine)
    → 1 ≤ e.state.update_period
    → (e1 : Engine) × (update_if_ready draws e ≡ some e1)
unfolding update_if_ready update_ready
update_if_ready-some draws e low = elim (Bool-cases e.just_ticked) [
  | inr rests ↦ (e, simp rests)
  | inl ticked ↦
      let off : (e.state.update_period == 0) ≡ false = ground arith in
      let ready = e.state.curr_ticks % e.state.update_period == 0 in
      (update_if ready draws e, simp (ticked, off))
]

pub tick-buf : (e : Engine) → (tick e).output_buf ≡ e.output_buf
unfolding tick
tick-buf e = ground arith

abbrev buf_of : Engine → List ℕ
buf_of e = e.output_buf

abbrev written : Engine → Engine
written e = record e { output_buf = (ser_full e.state (e.output_buf, 0)).0 }

-- An iteration whose commands do not fail sends the state as it was before them.
iteration-sends :
    (draws : Draws) (ms : List Message) (e first e' : Engine)
    → Counted first.state
    → length first.output_buf ≡ 256
    → update_if_ready draws e ≡ some first
    → read_loop ms (written first) ≡ some e'
    → iteration draws ms e ≡ some (encode first.state, tick e')
unfolding iteration send_and_read
iteration-sends draws ms e first e' h size ready eq =
    rw (ready, iteration, eq, send_and_read) (ap (λ out. some (out, tick e')) sent)
  where
    sent :
        take
          (ser_full first.state (first.output_buf, 0)).1
          (ser_full first.state (first.output_buf, 0)).0
        ≡ encode first.state
    sent = (ser_full_lem first.state first.output_buf h.rows size).1

-- Whatever the commands, the buffer keeps its length.
pub after_command-buf :
    (m : Message) (e : Engine) (r : Option (GameState × Bool)) (e' : Engine)
    → after_command m e r ≡ some e'
    → e.output_buf ≡ e'.output_buf
unfolding after_command
after_command-buf m e none e' eq = cc
after_command-buf m e (some (s, true)) e' eq = ap buf_of (some_inj eq)
after_command-buf m e (some (s, false)) e' eq = ap buf_of (some_inj eq)

pub read_loop-buf :
    (ms : List Message) (e e' : Engine) → read_loop ms e ≡ some e' → e.output_buf ≡ e'.output_buf
unfolding read_loop handle_message
read_loop-buf [] e e' eq = ap buf_of (some_inj eq)
read_loop-buf (m ∷ ms) e e' eq = elim (Option-cases (handle_message m e)) [
  | inl eh ↦ absurd (cc (rw (eh, read_loop) at eq))
  | inr (f, eh) ↦ after_command-buf m e _ f eh ∙ read_loop-buf ms f e' (rw (eh, read_loop) at eq)
]

abbrev second_buf : List ℕ × Engine → List ℕ
second_buf r = r.1.output_buf

send_and_read-buf :
    (ms : List Message) (e e' : Engine) {out : List ℕ}
    → Counted e.state
    → length e.output_buf ≡ 256
    → send_and_read ms e ≡ some (out, e')
    → length e'.output_buf ≡ 256
unfolding send_and_read
send_and_read-buf ms e e' h size eq = elim (Option-cases (read_loop ms (written e))) [
  | inl eh ↦ absurd (cc (rw (eh, send_and_read) at eq))
  | inr (g, eh) ↦
      sym (ap length (ap second_buf (some_inj (rw (eh, send_and_read) at eq))))
      ∙ ap length (tick-buf g ∙ sym (read_loop-buf ms (written e) g eh))
      ∙ (ser_full_lem e.state e.output_buf h.rows size).3
]

iteration-buf :
    (draws : Draws) (ms : List Message) (e e' : Engine) {out : List ℕ}
    → Counted e.state
    → length e.output_buf ≡ 256
    → iteration draws ms e ≡ some (out, e')
    → length e'.output_buf ≡ 256
unfolding iteration
iteration-buf draws ms e e' h size eq = elim (Option-cases (update_if_ready draws e)) [
  | inl panics ↦ absurd (cc (rw (panics, iteration) at eq))
  | inr (first, works) ↦
      send_and_read-buf ms first e' (update_if_ready-keeps Counted-Stable draws e first h works)
        (ap length (update_if_ready-buf draws e first works) ∙ size) (rw (works, iteration) at eq)
]

Reach-buf : {active : ℕ} {e : Engine} → Reach active e → length e.output_buf ≡ 256
unfolding new_engine
Reach-buf start = refl
Reach-buf (next {e} {e'} draws ms r eq) =
    iteration-buf draws ms e e' (Reach-Counted r) (Reach-buf r) eq

-- From every state that the loop reaches, an iteration whose messages are plain (not empty, and no
-- request of a position) does not fail, by the division of its update or otherwise: its update gives
-- an engine, and it sends the 159 bytes that encode the state of that engine, after the update of this
-- tick and before the commands.
pub iteration-frame :
    {active : ℕ} {e : Engine} (draws : Draws) (ms : List Message)
    → Reach active e
    → All IsPlain ms
    → (e1 : Engine) × (e' : Engine) × (update_if_ready draws e ≡ some e1)
      × (iteration draws ms e ≡ some (encode e1.state, e'))
      × (length (encode e1.state) ≡ 159)
iteration-frame {e = e} draws ms r plain =
    let (e1, works) = update_if_ready-some draws e (Reach-IsSound r).0.period_pos in
    let (g, eg, bg) = read_loop-some ms (written e1) plain in
    let counted = update_if_ready-keeps Counted-Stable draws e e1 (Reach-Counted r) works in
    (
      e1,
      tick g,
      works,
      iteration-sends draws ms e e1 g counted
          (ap length (update_if_ready-buf draws e e1 works) ∙ Reach-buf r) works eg,
      length-encode e1.state counted.rows,
    )
