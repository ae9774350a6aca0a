-- ===== src/System/Group/Steady.antt =====
-- The wait group: the steps that start and end no handler.
use mathlib.Core.Path.{subst}
use pacbot.Prelude.{
  ℕ, ◌+◌, ◌≡◌, refl, sym, ap, ◌∙◌, List, [], ◌∷◌, Bool, true, false, Option, none, some, Bool-cases,
  Option-cases, inl, inr, arith, ltb,
}
use pacbot.State.{GameState}
use pacbot.Engine.{Draws, Message, handle_message, update_if_ready}
use pacbot.Engine.Reach.{some_inj}
use pacbot.Web.{
  Slice, unlisted, forgotten, WebServer, set_ip, forget, is_session, broadcast, quit_all,
  take_message,
}
use pacbot.Web.Safe.Quiet.{take_message-Quieter, offer_all-Quieter, quit_all-Quieter}
use pacbot.System.{
  System, Place, Loop, created, at_top, reading, serialising, running, enter_engine, leave_engine,
  update_frame, put_first, put_next, send_frame, read_first, read_input, forward, broadcast_first,
  leave_broker, Write, set_writing, end_write, write_next, send_turn_of, client_turn, write_first,
  read_line,
}
use pacbot.System.Steps.{
  EngineStep, enters_engine, updates, puts, sends, reads, ticks, quits_engine,
}
use pacbot.System.Group.{
  is_handled, engines, brokers_in, Grouped, Calm, set_session-handlers, Quieter-handlers,
}

enter_engine-Calm : (s : System) → s.place ≡ created → Calm s (enter_engine s)
unfolding enter_engine leave_engine
enter_engine-Calm s at = elim (Bool-cases (ltb 1 (s.active_engines + 1))) [
  | inl second ↦ rw second (record { handlers = λ i. refl; others = omega (arith, ap engines at) })
  | inr first ↦ rw first (record { handlers = λ i. refl; others = omega (arith, ap engines at) })
]

read_first-Calm :
    (ms : List Message) (s t : System) → s.place ≡ reading → read_first ms s ≡ some t → Calm s t
unfolding read_first
read_first-Calm [] s t at e =
    subst (Calm s) (some_inj e)
      (record { handlers = λ i. refl; others = omega (arith, ap engines at) })
read_first-Calm (m ∷ ms) s t at e = elim (Option-cases (handle_message m s.engine)) [
  | inl fails ↦ absurd (cc (rw fails at e))
  | inr (f, works) ↦
      subst (Calm s) (some_inj (rw works at e)) (record { handlers = λ i. refl; others = refl })
]

update_frame-Calm :
    (draws : Draws) (s t : System) → s.place ≡ at_top → update_frame draws s ≡ some t → Calm s t
unfolding update_frame
update_frame-Calm draws s t at e = elim (Option-cases (update_if_ready draws s.engine)) [
  | inl fails ↦ absurd (cc (rw fails at e))
  | inr (f, works) ↦
      subst (Calm s) (some_inj (rw works at e))
        (record { handlers = λ i. refl; others = omega (arith, ap engines at) })
]

put_first-Calm : (bytes : List ℕ) (s : System) → s.place ≡ serialising → Calm s (put_first bytes s)
unfolding put_first
put_first-Calm [] s at = record { handlers = λ i. refl; others = omega (arith, ap engines at) }
put_first-Calm (b ∷ bytes) s at = record { handlers = λ i. refl; others = refl }

pub EngineStep-Calm :
    (s t : System) (live : List ℕ) {h h' : List GameState}
    → Grouped s live
    → EngineStep s t h h'
    → Calm s t
unfolding put_next send_frame leave_engine read_input
EngineStep-Calm s t live g (enters_engine at e) = subst (Calm s) (sym e) (enter_engine-Calm s at)
EngineStep-Calm s t live g (updates draws at e) = update_frame-Calm draws s t at e
EngineStep-Calm s t live g (puts at e) = subst (Calm s) (sym e) (put_first-Calm s.pending s at)
EngineStep-Calm s t live g (sends at room e) =
    subst (Calm s) (sym e) (record { handlers = λ i. refl; others = omega (arith, ap engines at) })
EngineStep-Calm s t live g (reads at e) = read_first-Calm s.input s t at e
EngineStep-Calm s t live g (ticks at e) =
    subst (Calm s) (sym e) (record { handlers = λ i. refl; others = omega (arith, ap engines at) })
EngineStep-Calm s t live g (quits_engine at shut e) =
    subst (Calm s) (sym e)
      (record { handlers = λ i. refl; others = omega (arith, ap engines at, g.count) })

-- A change of the sessions that keeps the handlers.
pub web-Calm :
    (s : System) (w : WebServer)
    → ((i : ℕ) → is_handled (w.sessions i).stage ≡ is_handled (s.web.sessions i).stage)
    → Calm s (record s { web = w })
web-Calm s w same = record { handlers = same; others = refl }

forward-Calm :
    (sl : Slice) (rest : List Slice) (s t : System)
    → forward sl (record s { output = rest }) ≡ some t
    → Calm s t
unfolding forward broadcast
forward-Calm sl rest s t e = elim (Option-cases (broadcast sl s.web)) [
  | inl panics ↦ absurd (cc (rw panics at e))
  | inr (w, works) ↦ subst (Calm s) (some_inj (rw works at e)) (record {
    handlers = λ i.
        Quieter-handlers s.web w i (offer_all-Quieter (some sl) s.web.open_sessions s.web w works);
    others = refl;
  })
]

pub broadcast_first-Calm :
    (sls : List Slice) (s t : System) → broadcast_first sls s ≡ some t → Calm s t
unfolding broadcast_first
broadcast_first-Calm [] s t e =
    subst (Calm s) (some_inj e) (record { handlers = λ i. refl; others = refl })
broadcast_first-Calm (sl ∷ rest) s t e = forward-Calm sl rest s t e

pub leave_broker-Calm :
    (s t : System) (live : List ℕ)
    → Grouped s live
    → s.broker ≡ running
    → leave_broker s ≡ some t
    → Calm s t
unfolding leave_broker
leave_broker-Calm s t live g at e = elim (Option-cases (quit_all s.web.open_sessions s.web)) [
  | inl panics ↦ absurd (cc (rw panics at e))
  | inr (w, works) ↦ subst (Calm s) (some_inj (rw works at e)) (record {
    handlers = λ i. Quieter-handlers s.web w i (quit_all-Quieter s.web.open_sessions s.web w works);
    others = omega (arith, g.count, ap brokers_in at);
  })
]

pub forget-handlers :
    (i j : ℕ) (w : WebServer)
    → (w.sessions i).stage ≡ unlisted
    → is_handled ((forget i w).sessions j).stage ≡ is_handled (w.sessions j).stage
unfolding forget set_ip
forget-handlers i j w at =
    let moved =
      set_session-handlers i (record (w.sessions i) { stage = forgotten }) w j
        (sym (ap is_handled at)) in
    elim (Bool-cases (is_session i (w.ip_sessions (w.sessions i).ip))) [
      | inl mine ↦ rw mine moved
      | inr other ↦ rw other moved
    ]

-- The parts of a system that the wait group is about.
abbrev pub Waits : Type 0
Waits = WebServer × Place × Loop × ℕ

abbrev pub waits : System → Waits
waits s = (s.web, s.place, s.broker, s.wg_quit)

pub waits-Calm : (s t : System) → waits t ≡ waits s → Calm s t
waits-Calm s t e = record {
  handlers = λ i. ap (λ (x : Waits). is_handled (x.0.sessions i).stage) e;
  others = omega (
    arith,
    ap (λ (x : Waits). engines x.1) e,
    ap (λ (x : Waits). brokers_in x.2) e,
    ap (λ (x : Waits). x.3) e,
  );
}

write_next-waits :
    (i : ℕ) (ms : List (Option Slice)) (s : System) → waits (write_next i ms s) ≡ waits s
unfolding write_next set_writing
write_next-waits i (some sl ∷ ms) s = elim (Bool-cases (s.web.sessions i).conn_open) [
  | inl there ↦ rw there refl
  | inr lost ↦ rw lost refl
]
write_next-waits i (none ∷ ms) s = refl
write_next-waits i [] s = refl

pub end_write-waits :
    (written : Bool) (i : ℕ) (w : Write) (s : System) → waits (end_write written i w s) ≡ waits s
unfolding end_write set_writing
end_write-waits true i w s = refl
end_write-waits false i w s = refl

pub send_turn_of-Calm : (i : ℕ) (s : System) → Calm s (send_turn_of i s)
unfolding send_turn_of
send_turn_of-Calm i s =
    let t = write_next i (s.web.sessions i).send s in
    let k = waits-Calm s t (write_next-waits i (s.web.sessions i).send s) in
    record {
      handlers = λ j.
          Quieter-handlers t.web (take_message i t.web) j (take_message-Quieter i t.web)
          ∙ k.handlers j;
      others = k.others;
    }

pub write_first-waits : (sls : List Slice) (s : System) → waits (write_first sls s) ≡ waits s
unfolding write_first
write_first-waits [] s = refl
write_first-waits (sl ∷ rest) s = refl

pub client_turn-waits : (i : ℕ) (m : Message) (s : System) → waits (client_turn i m s) ≡ waits s
unfolding client_turn
client_turn-waits i m s = ground arith

pub read_line-waits : (m : Message) (s : System) → waits (read_line m s) ≡ waits s
unfolding read_line
read_line-waits m s = ground arith
