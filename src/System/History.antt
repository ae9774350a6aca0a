-- ===== src/System/History.antt =====
-- What holds of every state of the loop of iterations, in the whole server: at every moment, and of
-- the states that serFull was begun on.
use mathlib.Core.Path.{subst}
use pacbot.Prelude.{
  All, ℕ, ◌≡◌, refl, sym, ap, ◌∙◌, List, [], ◌∷◌, some, Option-cases, inl, inr, arith,
}
use pacbot.State.{GameState}
use pacbot.Sound.{IsSound}
use pacbot.Sound.Server.{IsSound-Stable}
use pacbot.Ranged.{IsRanged}
use pacbot.Ranged.Server.{IsRanged-Stable}
use pacbot.Pellets.{Counted}
use pacbot.Pellets.Server.{Counted-Stable}
use pacbot.Engine.{Draws, Message, new_engine, update_if_ready, handle_message}
use pacbot.Engine.Reach.{
  Stable, interpret_command-keeps, after_command-keeps, tick-keeps, update_if_ready-keeps, some_inj,
}
use pacbot.Config.{Configuration, active_ghosts}
use pacbot.System.{
  System, enter_engine, leave_engine, update_frame, put_first, put_next, send_frame, read_first,
  read_input,
}
use pacbot.System.Steps.{
  EngineStep, enters_engine, updates, puts, sends, reads, ticks, quits_engine, engine_goes,
  other_goes, Reach, start, next,
}
use pacbot.System.Others.{OtherStep-part, start_system-some}

abbrev state_of : System → GameState
state_of s = s.engine.state

enter_engine-state : (s : System) → state_of (enter_engine s) ≡ state_of s
unfolding enter_engine leave_engine
enter_engine-state s = ground arith

put_first-state : (bytes : List ℕ) (s : System) → state_of (put_first bytes s) ≡ state_of s
unfolding put_first
put_first-state [] s = refl
put_first-state (b ∷ bytes) s = refl

module _ {R P : GameState → Type 0} (st : Stable R P) where
  update_frame-keeps :
      (draws : Draws) (s t : System)
      → R (state_of s)
      → update_frame draws s ≡ some t
      → R (state_of t)
  unfolding update_frame
  update_frame-keeps draws s t now e = elim (Option-cases (update_if_ready draws s.engine)) [
    | inl fails ↦ absurd (cc (rw fails at e))
    | inr (f, works) ↦
        subst R (ap state_of (some_inj (rw works at e)))
          (update_if_ready-keeps st draws s.engine f now works)
  ]

  read_first-keeps :
      (ms : List Message) (s t : System)
      → R (state_of s)
      → read_first ms s ≡ some t
      → R (state_of t)
  unfolding read_first handle_message
  read_first-keeps [] s t now e = subst R (ap state_of (some_inj e)) (tick-keeps st s.engine now)
  read_first-keeps (m ∷ ms) s t now e = elim (Option-cases (handle_message m s.engine)) [
    | inl fails ↦ absurd (cc (rw fails at e))
    | inr (f, works) ↦ subst R (ap state_of (some_inj (rw works at e))) (
        after_command-keeps st m s.engine _ f
          (interpret_command-keeps st m.bytes s.engine.state now) works)
  ]

  EngineStep-keeps :
      (s t : System) {h h' : List GameState}
      → EngineStep s t h h'
      → R (state_of s)
      → All R h
      → R (state_of t) × All R h'
  unfolding put_next send_frame leave_engine read_input
  EngineStep-keeps s t (enters_engine at e) now past =
      (subst R (sym (ap state_of e ∙ enter_engine-state s)) now, past)
  EngineStep-keeps s t (updates draws at e) now past =
      let later = update_frame-keeps draws s t now e in (later, (later, past))
  EngineStep-keeps s t (puts at e) now past =
      (subst R (sym (ap state_of e ∙ put_first-state s.pending s)) now, past)
  EngineStep-keeps s t (sends at room e) now past = (subst R (sym (ap state_of e)) now, past)
  EngineStep-keeps s t (reads at e) now past = (read_first-keeps s.input s t now e, past)
  EngineStep-keeps s t (ticks at e) now past = (subst R (sym (ap state_of e)) now, past)
  EngineStep-keeps s t (quits_engine at shut e) now past = (subst R (sym (ap state_of e)) now, past)

  Reach-Stable :
      {c : Configuration} {h : List GameState} {s : System}
      → Reach c h s
      → R s.engine.state × All R h
  unfolding new_engine
  Reach-Stable {c} (start {s} e) =
      (subst R (ap state_of (start_system-some c s e)) (st.fresh (active_ghosts c)), tt)
  Reach-Stable (next {s} {t} r up (engine_goes step)) =
      let (now, past) = Reach-Stable r in EngineStep-keeps s t step now past
  Reach-Stable (next {s} {t} r up (other_goes step)) =
      let (now, past) = Reach-Stable r in
      (subst R (sym (ap (λ p. p.0.state) (OtherStep-part s t step))) now, past)

-- The ranges of the state, and its count of the pellets.
abbrev pub IsFit : GameState → Type 0
IsFit s = IsSound s × IsRanged s × Counted s

-- In the whole server, at every moment and whatever the order of the steps before, so within an
-- iteration of the engine too: the state of the game is in its ranges (`IsSound`, `IsRanged`) and its number of
-- pellets is that of the bits of its rows; the same holds of every state that serFull was begun on.
pub Reach-IsFit :
    {c : Configuration} {h : List GameState} {s : System}
    → Reach c h s
    → IsFit s.engine.state × All IsFit h
Reach-IsFit {h = h} r =
    let (sound, sounds) = Reach-Stable IsSound-Stable r in
    let (ranged, all_ranged) = Reach-Stable IsRanged-Stable r in
    let (counted, all_counted) = Reach-Stable Counted-Stable r in
    ((sound, ranged, counted), together h sounds all_ranged all_counted)
  where
    together :
        (gs : List GameState) → All IsSound gs → All IsRanged gs → All Counted gs → All IsFit gs
    together [] a b c = tt
    together (g ∷ gs) a b c = ((a.0, b.0, c.0), together gs a.1 b.1 c.1)
