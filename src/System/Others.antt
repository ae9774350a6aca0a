-- ===== src/System/Others.antt =====
-- The steps of the others, and what they leave alone: the variables of the engine's loop.
use Prim.Native.String.{String}
use pacbot.Prelude.{
  true, false, ℕ, ◌≡◌, ◌⊎◌, refl, sym, ap, ◌∙◌, List, [], ◌∷◌, Bool, Option, none, some,
  Option-cases, Bool-cases, inl, inr, arith,
}
use pacbot.Engine.{Message, Engine}
use pacbot.Engine.Reach.{some_inj}
use pacbot.Config.{Configuration, tick_time}
use pacbot.Web.{Slice, broadcast, quit_all, register}
use pacbot.Web.Tcp.{is_q}
use pacbot.System.{
  System, Place, enter_broker, forward, broadcast_first, broker_turn, leave_broker, connect,
  disconnect, Write, set_writing, write_next, send_turn_of, copy_client, end_write, copy_robots,
  end_robots, start_system, new_system, client_turn, write_first, write_robots, Main, prompting,
  is_returned, tell_broker, tell_engine, finish, read_line,
}
use pacbot.System.Steps.{
  OtherStep, enters_broker, brokers, quits_broker, connects, enlists, unlists, forgets, disconnects,
  quits_client, writes, copies, ends_write, copies_robots, ends_robots, commands, accepts,
  robot_reads, writes_robots, types, tells_broker, tells_engine, returns,
}

-- The variables of RunLoop.
abbrev pub engine_part : System → Engine × Place × ℕ
engine_part s = (s.engine, s.place, s.ser_len)

abbrev main_of : System → Main
main_of s = s.main

abbrev wg_of : System → ℕ
wg_of s = s.wg_quit

-- With where main is.
abbrev pub kept_part : System → (Engine × Place × ℕ) × Main
kept_part s = (engine_part s, s.main)

abbrev kept_engine : (Engine × Place × ℕ) × Main → Engine × Place × ℕ
kept_engine k = k.0

abbrev pub kept_main : (Engine × Place × ℕ) × Main → Main
kept_main k = k.1

forward-part : (sl : Slice) (s t : System) → forward sl s ≡ some t → kept_part t ≡ kept_part s
unfolding forward
forward-part sl s t e = elim (Option-cases (broadcast sl s.web)) [
  | inl panics ↦ absurd (cc (rw panics at e))
  | inr (w, works) ↦ sym (ap kept_part (some_inj (rw works at e)))
]

broadcast_first-part :
    (sls : List Slice) (s t : System) → broadcast_first sls s ≡ some t → kept_part t ≡ kept_part s
unfolding broadcast_first
broadcast_first-part [] s t e = sym (ap kept_part (some_inj e))
broadcast_first-part (sl ∷ rest) s t e = forward-part sl (record s { output = rest }) t e

leave_broker-part : (s t : System) → leave_broker s ≡ some t → kept_part t ≡ kept_part s
unfolding leave_broker
leave_broker-part s t e = elim (Option-cases (quit_all s.web.open_sessions s.web)) [
  | inl panics ↦ absurd (cc (rw panics at e))
  | inr (w, works) ↦ sym (ap kept_part (some_inj (rw works at e)))
]

connect-part :
    (i : ℕ) (ip : String) (s t : System) → connect i ip s ≡ some t → kept_part t ≡ kept_part s
unfolding connect
connect-part i ip s t e = elim (Option-cases (register i ip s.web)) [
  | inl panics ↦ absurd (cc (rw panics at e))
  | inr (w, works) ↦ sym (ap kept_part (some_inj (rw works at e)))
]

write_next-part :
    (i : ℕ) (ms : List (Option Slice)) (s : System) → kept_part (write_next i ms s) ≡ kept_part s
unfolding write_next set_writing
write_next-part i (some sl ∷ ms) s = elim (Bool-cases (s.web.sessions i).conn_open) [
  | inl there ↦ rw there refl
  | inr lost ↦ rw lost refl
]
write_next-part i (none ∷ ms) s = refl
write_next-part i [] s = refl

end_write-part :
    (written : Bool) (i : ℕ) (w : Write) (s : System)
    → kept_part (end_write written i w s) ≡ kept_part s
unfolding end_write set_writing
end_write-part true i w s = refl
end_write-part false i w s = refl

write_first-part : (sls : List Slice) (s : System) → kept_part (write_first sls s) ≡ kept_part s
unfolding write_first
write_first-part [] s = refl
write_first-part (sl ∷ rest) s = refl

client_turn-part : (i : ℕ) (m : Message) (s : System) → kept_part (client_turn i m s) ≡ kept_part s
unfolding client_turn
client_turn-part i m s = ground arith

-- The same variables of the engine; main has not returned, or the wait group is at 0.
abbrev pub MainGoes : System → System → Type 0
MainGoes s t = (engine_part t ≡ engine_part s) × ((is_returned t.main ≡ false) ⊎ (t.wg_quit ≡ 0))

read_line-part : (m : Message) (s : System) → engine_part (read_line m s) ≡ engine_part s
unfolding read_line
read_line-part m s = ground arith

read_line-main :
    (m : Message) (s : System) → s.main ≡ prompting → is_returned (read_line m s).main ≡ false
unfolding read_line
read_line-main m s at = elim (Bool-cases (is_q m.bytes)) [
  | inl q ↦ rw q refl
  | inr line ↦ rw line (ap is_returned at)
]

pub OtherStep-kept : (s t : System) → OtherStep s t → (kept_part t ≡ kept_part s) ⊎ MainGoes s t
unfolding enter_broker broker_turn disconnect send_turn_of copy_client set_writing write_robots
    copy_robots end_robots tell_broker tell_engine finish
OtherStep-kept s t (enters_broker at e) = inl (ap kept_part e)
OtherStep-kept s t (brokers at e) = inl (broadcast_first-part s.output s t e)
OtherStep-kept s t (quits_broker at shut e) = inl (leave_broker-part s t e)
OtherStep-kept s t (connects i ip up young e) = inl (connect-part i ip s t e)
OtherStep-kept s t (enlists i at e) = inl (ap kept_part e)
OtherStep-kept s t (unlists i at e) = inl (ap kept_part e)
OtherStep-kept s t (forgets i at e) = inl (ap kept_part e)
OtherStep-kept s t (disconnects i at e) = inl (ap kept_part e)
OtherStep-kept s t (quits_client i works e) = inl (ap kept_part e)
OtherStep-kept s t (writes i at free e) =
    inl (ap kept_part e ∙ write_next-part i (s.web.sessions i).send s)
OtherStep-kept s t (copies i w at e) = inl (ap kept_part e)
OtherStep-kept s t (ends_write written i w at all e) =
    inl (ap kept_part e ∙ end_write-part written i w s)
OtherStep-kept s t (copies_robots w at e) = inl (ap kept_part e)
OtherStep-kept s t (ends_robots w at all e) = inl (ap kept_part e)
OtherStep-kept s t (commands i m at room e) = inl (ap kept_part e ∙ client_turn-part i m s)
OtherStep-kept s t (accepts c new e) = inl (ap kept_part e)
OtherStep-kept s t (robot_reads c r there e) = inl (ap kept_part e)
OtherStep-kept s t (writes_robots free e) = inl (ap kept_part e ∙ write_first-part s.tcp.tcp_send s)
OtherStep-kept s t (types m up room e) = inr (
  ap engine_part e ∙ read_line-part m s,
  inl (ap (λ x. is_returned (main_of x)) e ∙ read_line-main m s up),
)
OtherStep-kept s t (tells_broker at e) =
    inr (ap engine_part e, inl (ap (λ x. is_returned (main_of x)) e))
OtherStep-kept s t (tells_engine at e) =
    inr (ap engine_part e, inl (ap (λ x. is_returned (main_of x)) e))
OtherStep-kept s t (returns at zero_left e) = inr (ap engine_part e, inr (ap wg_of e ∙ zero_left))

-- Only the engine changes its variables.
pub OtherStep-part : (s t : System) → OtherStep s t → engine_part t ≡ engine_part s
OtherStep-part s t step = elim (OtherStep-kept s t step) [
  | inl kept ↦ ap kept_engine kept
  | inr (same, ends) ↦ same
]

pub start_system-some :
    (c : Configuration) (s : System) → start_system c ≡ some s → new_system c ≡ s
unfolding start_system
start_system-some c s e = elim (Option-cases (tick_time c.game_fps)) [
  | inl panics ↦ absurd (cc (rw panics at e))
  | inr (t, works) ↦ some_inj (rw works at e)
]
