-- ===== src/System/Sessions.antt =====
-- The sessions of the whole server against the events of web_session.go and web_broker.go.
use Prim.Native.String.{String}
use mathlib.Core.Path.{subst}
use pacbot.Prelude.{
  ℕ, ◌≡◌, ◌⊎◌, refl, sym, ap, ◌∙◌, List, [], ◌∷◌, Bool, true, false, Option, none, some, All,
  Option-cases, Bool-cases, inl, inr, arith,
}
use pacbot.State.{GameState}
use pacbot.Engine.{Draws, Message, handle_message, update_if_ready}
use pacbot.Engine.Reach.{some_inj}
use pacbot.Engine.Frames.{IsPlain, handle_message-some}
use pacbot.Config.{Configuration}
use pacbot.Dashboard.Wire.{◌>>=◌}
use pacbot.Web.{
  Slice, WebServer, new_web_server, broadcast, quit_all, register, take_message, Step as WebStep,
  Reach as WebReach, handled, takes, broadcasts, exits, start as web_start, next as web_next,
}
use pacbot.Web as Web
use pacbot.Web.Tcp.{TcpServer}
use pacbot.Web.Safe.Run.{no_send_to_closed}
use pacbot.System.{
  Main, System, enter_engine, leave_engine, update_frame, put_first, put_next, send_frame,
  read_first, read_input, enter_broker, forward, broadcast_first, broker_turn, leave_broker,
  connect, disconnect, Write, set_writing, write_next, send_turn_of, copy_client, end_write,
  copy_robots, end_robots, client_turn, write_first, write_robots, tell_broker, tell_engine, finish,
  read_line,
}
use pacbot.System.Steps.{
  EngineStep, enters_engine, updates, puts, sends, reads, ticks, quits_engine, OtherStep,
  enters_broker, brokers, quits_broker, connects, enlists, unlists, forgets, disconnects,
  quits_client, writes, copies, ends_write, copies_robots, ends_robots, commands, accepts,
  robot_reads, writes_robots, types, tells_broker, tells_engine, returns, Step, engine_goes,
  other_goes, Reach, start, next,
}
use pacbot.System.Others.{start_system-some}

-- What the engine leaves alone.
abbrev pub rest_part : System → WebServer × TcpServer × (ℕ → List (List ℕ)) × List (List ℕ) × Main
rest_part s = (s.web, s.tcp, s.to_clients, s.to_robots, s.main)

abbrev pub rest_main : WebServer × TcpServer × (ℕ → List (List ℕ)) × List (List ℕ) × Main → Main
rest_main p = p.4

read_first-rest :
    (ms : List Message) (s t : System) → read_first ms s ≡ some t → rest_part t ≡ rest_part s
unfolding read_first
read_first-rest [] s t e = sym (ap rest_part (some_inj e))
read_first-rest (m ∷ ms) s t e = elim (Option-cases (handle_message m s.engine)) [
  | inl fails ↦ absurd (cc (rw fails at e))
  | inr (f, works) ↦ sym (ap rest_part (some_inj (rw works at e)))
]

enter_engine-rest : (s : System) → rest_part (enter_engine s) ≡ rest_part s
unfolding enter_engine leave_engine
enter_engine-rest s = ground arith

update_frame-rest :
    (draws : Draws) (s t : System) → update_frame draws s ≡ some t → rest_part t ≡ rest_part s
unfolding update_frame
update_frame-rest draws s t e = elim (Option-cases (update_if_ready draws s.engine)) [
  | inl fails ↦ absurd (cc (rw fails at e))
  | inr (f, works) ↦ sym (ap rest_part (some_inj (rw works at e)))
]

put_first-rest : (bytes : List ℕ) (s : System) → rest_part (put_first bytes s) ≡ rest_part s
unfolding put_first
put_first-rest [] s = refl
put_first-rest (b ∷ bytes) s = refl

pub EngineStep-rest :
    (s t : System) {h h' : List GameState} → EngineStep s t h h' → rest_part t ≡ rest_part s
unfolding put_next send_frame leave_engine read_input
EngineStep-rest s t (enters_engine at e) = ap rest_part e ∙ enter_engine-rest s
EngineStep-rest s t (updates draws at e) = update_frame-rest draws s t e
EngineStep-rest s t (puts at e) = ap rest_part e ∙ put_first-rest s.pending s
EngineStep-rest s t (sends at room e) = ap rest_part e
EngineStep-rest s t (reads at e) = read_first-rest s.input s t e
EngineStep-rest s t (ticks at e) = ap rest_part e
EngineStep-rest s t (quits_engine at shut e) = ap rest_part e

abbrev web_of : System → WebServer
web_of s = s.web

-- The sessions stay as they are, or an event of theirs happens.
abbrev pub Moves : WebServer → WebServer → Type 0
Moves w v = (v ≡ w) ⊎ WebStep w v

broadcast_first-Moves :
    (sls : List Slice) (s t : System) → broadcast_first sls s ≡ some t → Moves s.web t.web
unfolding broadcast_first forward
broadcast_first-Moves [] s t e = inl (sym (ap web_of (some_inj e)))
broadcast_first-Moves (sl ∷ rest) s t e = elim (Option-cases (broadcast sl s.web)) [
  | inl panics ↦ absurd (cc (rw panics at e))
  | inr (w, works) ↦
      inr (broadcasts sl (works ∙ ap (λ x. some (web_of x)) (some_inj (rw works at e))))
]

leave_broker-Moves : (s t : System) → leave_broker s ≡ some t → Moves s.web t.web
unfolding leave_broker
leave_broker-Moves s t e = elim (Option-cases (quit_all s.web.open_sessions s.web)) [
  | inl panics ↦ absurd (cc (rw panics at e))
  | inr (w, works) ↦ inr (exits (works ∙ ap (λ x. some (web_of x)) (some_inj (rw works at e))))
]

connect-registers :
    (i : ℕ) (ip : String) (s t : System)
    → connect i ip s ≡ some t
    → register i ip s.web ≡ some t.web
unfolding connect
connect-registers i ip s t e = elim (Option-cases (register i ip s.web)) [
  | inl panics ↦ absurd (cc (rw panics at e))
  | inr (w, works) ↦ works ∙ ap (λ x. some (web_of x)) (some_inj (rw works at e))
]

write_next-web : (i : ℕ) (ms : List (Option Slice)) (s : System) → (write_next i ms s).web ≡ s.web
unfolding write_next set_writing
write_next-web i (some sl ∷ ms) s = elim (Bool-cases (s.web.sessions i).conn_open) [
  | inl there ↦ rw there refl
  | inr lost ↦ rw lost refl
]
write_next-web i (none ∷ ms) s = refl
write_next-web i [] s = refl

end_write-web :
    (written : Bool) (i : ℕ) (w : Write) (s : System) → (end_write written i w s).web ≡ s.web
unfolding end_write set_writing
end_write-web true i w s = refl
end_write-web false i w s = refl

write_first-web : (sls : List Slice) (s : System) → (write_first sls s).web ≡ s.web
unfolding write_first
write_first-web [] s = refl
write_first-web (sl ∷ rest) s = refl

client_turn-web : (i : ℕ) (m : Message) (s : System) → (client_turn i m s).web ≡ s.web
unfolding client_turn
client_turn-web i m s = ground arith

read_line-web : (m : Message) (s : System) → (read_line m s).web ≡ s.web
unfolding read_line
read_line-web m s = ground arith

OtherStep-Moves : (s t : System) → OtherStep s t → Moves s.web t.web
unfolding tell_broker tell_engine finish enter_broker broker_turn disconnect send_turn_of
    copy_client set_writing write_robots copy_robots end_robots
OtherStep-Moves s t (enters_broker at e) = inl (ap web_of e)
OtherStep-Moves s t (brokers at e) = broadcast_first-Moves s.output s t e
OtherStep-Moves s t (quits_broker at shut e) = leave_broker-Moves s t e
OtherStep-Moves s t (connects i ip up young e) =
    inr (handled (Web.registers i ip young (connect-registers i ip s t e)))
OtherStep-Moves s t (enlists i at e) = inr (handled (Web.enlists i at (ap web_of e)))
OtherStep-Moves s t (unlists i at e) = inr (handled (Web.unlists i at (ap web_of e)))
OtherStep-Moves s t (forgets i at e) = inr (handled (Web.forgets i at (ap web_of e)))
OtherStep-Moves s t (disconnects i at e) = inr (handled (Web.closes i at (ap web_of e)))
OtherStep-Moves s t (quits_client i {w} works e) =
    inr (handled (Web.quits i (works ∙ ap some (sym (ap web_of e)))))
OtherStep-Moves s t (writes i at free e) =
    inr (takes i (ap web_of e ∙ ap (take_message i) (write_next-web i (s.web.sessions i).send s)))
OtherStep-Moves s t (copies i w at e) = inl (ap web_of e)
OtherStep-Moves s t (ends_write written i w at all e) =
    inl (ap web_of e ∙ end_write-web written i w s)
OtherStep-Moves s t (copies_robots w at e) = inl (ap web_of e)
OtherStep-Moves s t (ends_robots w at all e) = inl (ap web_of e)
OtherStep-Moves s t (commands i m at room e) = inl (ap web_of e ∙ client_turn-web i m s)
OtherStep-Moves s t (accepts c new e) = inl (ap web_of e)
OtherStep-Moves s t (robot_reads c r there e) = inl (ap web_of e)
OtherStep-Moves s t (writes_robots free e) = inl (ap web_of e ∙ write_first-web s.tcp.tcp_send s)
OtherStep-Moves s t (types m up room e) = inl (ap web_of e ∙ read_line-web m s)
OtherStep-Moves s t (tells_broker at e) = inl (ap web_of e)
OtherStep-Moves s t (tells_engine at e) = inl (ap web_of e)
OtherStep-Moves s t (returns at zero_left e) = inl (ap web_of e)

abbrev first_web : WebServer × TcpServer × (ℕ → List (List ℕ)) × List (List ℕ) × Main → WebServer
first_web p = p.0

Step-Moves : (s t : System) {h h' : List GameState} → Step s t h h' → Moves s.web t.web
Step-Moves s t (engine_goes step) = inl (ap first_web (EngineStep-rest s t step))
Step-Moves s t (other_goes step) = OtherStep-Moves s t step

-- The sessions of the whole server go through events of theirs only.
pub Reach-web :
    {c : Configuration} {h : List GameState} {s : System}
    → Reach c h s
    → WebReach c.one_client_per_ip c.trusted_client_ips s.web
Reach-web {c} (start {s} e) =
    subst (WebReach c.one_client_per_ip c.trusted_client_ips) (ap web_of (start_system-some c s e))
      web_start
Reach-web {c} (next {s} {t} r up step) = elim (Step-Moves s t step) [
  | inl same ↦ subst (WebReach c.one_client_per_ip c.trusted_client_ips) (sym same) (Reach-web r)
  | inr event ↦ web_next (Reach-web r) event
]

do-some :
    {A B : Type 0} (f : A → B) (o : Option A) (a : A)
    → o ≡ some a
    → (b : B) × ((do x ← o; some (f x)) ≡ some b)
do-some f o a e = (f a, rw e refl)

broker_turn-some :
    (s : System)
    → ((sl : Slice) → (w : WebServer) × (broadcast sl s.web ≡ some w))
    → (t : System) × (broker_turn s ≡ some t)
unfolding broker_turn broadcast_first forward
broker_turn-some s all = turn s.output
  where
    turn : (sls : List Slice) → (t : System) × (broadcast_first sls s ≡ some t)
    turn [] = (s, refl)
    turn (sl ∷ rest) = let (w, e) = all sl in do-some _ _ w e

leave_broker-some :
    (s : System) (w : WebServer)
    → quit_all s.web.open_sessions s.web ≡ some w
    → (t : System) × (leave_broker s ≡ some t)
unfolding leave_broker
leave_broker-some s w e = do-some _ _ w e

connect-some :
    (i : ℕ) (ip : String) (s : System) (w : WebServer)
    → register i ip s.web ≡ some w
    → (t : System) × (connect i ip s ≡ some t)
unfolding connect
connect-some i ip s w e = do-some _ _ w e

read_input-some : (s : System) → All IsPlain s.input → (t : System) × (read_input s ≡ some t)
unfolding read_input read_first
read_input-some s plain = turn s.input plain
  where
    turn : (ms : List Message) → All IsPlain ms → (t : System) × (read_first ms s ≡ some t)
    turn [] h = (_, refl)
    turn (m ∷ ms) h = let (f, e) = handle_message-some m s.engine h.0 in do-some _ _ f e

-- In every system that is reached, whatever the order of the steps before: a turn of the broker and
-- its exit give a result, and so does the start of a client's handler; none of them panics. Where
-- every message in the input channel is plain (not empty, and no request of a position), a turn of
-- the engine on the channel gives a result too.
pub Reach-goes_on :
    {c : Configuration} {h : List GameState} {s : System}
    → Reach c h s
    → ((t : System) × (broker_turn s ≡ some t))
      × ((t : System) × (leave_broker s ≡ some t))
      × ((i : ℕ) (ip : String) → (t : System) × (connect i ip s ≡ some t))
      × (All IsPlain s.input → (t : System) × (read_input s ≡ some t))
Reach-goes_on {c} {s = s} r =
    let (sent, (w, left), entered) =
      no_send_to_closed c.one_client_per_ip c.trusted_client_ips s.web (Reach-web r) in
    (
      broker_turn-some s sent,
      leave_broker-some s w left,
      λ i ip. connect-some i ip s (entered i ip).0 (entered i ip).1,
      read_input-some s,
    )
