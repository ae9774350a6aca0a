-- ===== src/System/Steps.antt =====
-- The steps of the game server: every goroutine goes on in any order, where its channels let it.
use Prim.Native.String.{String}
use pacbot.Prelude.{ℕ, ◌≡◌, ◌<◌, List, [], ◌∷◌, Bool, true, false, none, some, length}
use pacbot.State.{GameState}
use pacbot.Engine.{Draws, Message}
use pacbot.Config.{Configuration}
use pacbot.Web.{
  Stage, unborn, registered, listed, unlisted, forgotten, enlist, unlist, forget, quit,
}
use pacbot.Web.Tcp.{ReadResult, is_in, accept, read_turn}
use pacbot.System.{
  System, Write, created, at_top, serialising, sending, reading, waiting, idle, running,
  channel_capacity, start_system, enter_engine, leave_engine, update_frame, put_next, send_frame,
  read_input, enter_broker, broker_turn, leave_broker, connect, disconnect, send_turn_of,
  copy_client, end_write, client_turn, write_robots, copy_robots, end_robots, read_line, prompting,
  server_down, broker_told, joining, tell_broker, tell_engine, finish, is_returned,
}

abbrev pub stage_of : ℕ → System → Stage
stage_of i s = (s.web.sessions i).stage

-- RunLoop of the engine. The list holds the states that serFull was begun on before the step and
-- after it, the latest first.
pub data EngineStep (s t : System) : List GameState → List GameState → Type 0 where
  enters_engine : {h : List GameState} → s.place ≡ created → t ≡ enter_engine s → EngineStep s t h h
  updates :
      {h : List GameState} (draws : Draws)
      → s.place ≡ at_top
      → update_frame draws s ≡ some t
      → EngineStep s t h (t.engine.state ∷ h)
  puts : {h : List GameState} → s.place ≡ serialising → t ≡ put_next s → EngineStep s t h h
  sends :
      {h : List GameState}
      → s.place ≡ sending
      → length s.output < channel_capacity
      → t ≡ send_frame s
      → EngineStep s t h h
  reads : {h : List GameState} → s.place ≡ reading → read_input s ≡ some t → EngineStep s t h h
  ticks :
      {h : List GameState}
      → s.place ≡ waiting
      → t ≡ record s { place = at_top }
      → EngineStep s t h h
  quits_engine :
      {h : List GameState}
      → s.place ≡ waiting
      → s.quit_engine ≡ true
      → t ≡ leave_engine s
      → EngineStep s t h h

-- The broker, the handlers of the clients and their loops, the robots and main.
pub data OtherStep (s t : System) : Type 0 where
  enters_broker : s.broker ≡ idle → t ≡ enter_broker s → OtherStep s t
  brokers : s.broker ≡ running → broker_turn s ≡ some t → OtherStep s t
  quits_broker : s.broker ≡ running → s.quit_broker ≡ true → leave_broker s ≡ some t → OtherStep s t
  connects :
      (i : ℕ) (ip : String)
      → s.main ≡ prompting
      → stage_of i s ≡ unborn
      → connect i ip s ≡ some t
      → OtherStep s t
  enlists :
      (i : ℕ) → stage_of i s ≡ registered → t ≡ record s { web = enlist i s.web } → OtherStep s t
  unlists : (i : ℕ) → stage_of i s ≡ listed → t ≡ record s { web = unlist i s.web } → OtherStep s t
  forgets :
      (i : ℕ) → stage_of i s ≡ unlisted → t ≡ record s { web = forget i s.web } → OtherStep s t
  disconnects : (i : ℕ) → stage_of i s ≡ forgotten → t ≡ disconnect i s → OtherStep s t
  quits_client : (i : ℕ) {w : _} → quit i s.web ≡ some w → t ≡ record s { web = w } → OtherStep s t
  writes :
      (i : ℕ) → stage_of i s ≡ listed → s.writing i ≡ none → t ≡ send_turn_of i s → OtherStep s t
  copies : (i : ℕ) (w : Write) → s.writing i ≡ some w → t ≡ copy_client i w s → OtherStep s t
  ends_write :
      (written : Bool) (i : ℕ) (w : Write)
      → s.writing i ≡ some w
      → (written ≡ true → length w.copied ≡ w.slice.len)
      → t ≡ end_write written i w s
      → OtherStep s t
  commands :
      (i : ℕ) (m : Message)
      → stage_of i s ≡ listed
      → length s.input < channel_capacity
      → t ≡ client_turn i m s
      → OtherStep s t
  accepts :
      (c : ℕ) → is_in c s.tcp.conns ≡ false → t ≡ record s { tcp = accept c s.tcp } → OtherStep s t
  robot_reads :
      (c : ℕ) (r : ReadResult)
      → is_in c s.tcp.conns ≡ true
      → t ≡ record s { tcp = read_turn c r s.tcp }
      → OtherStep s t
  writes_robots : s.robots_writing ≡ none → t ≡ write_robots s → OtherStep s t
  copies_robots : (w : Write) → s.robots_writing ≡ some w → t ≡ copy_robots w s → OtherStep s t
  ends_robots :
      (w : Write)
      → s.robots_writing ≡ some w
      → length w.copied ≡ w.slice.len
      → t ≡ end_robots w s
      → OtherStep s t
  types :
      (m : Message)
      → s.main ≡ prompting
      → length s.input < channel_capacity
      → t ≡ read_line m s
      → OtherStep s t
  tells_broker : s.main ≡ server_down → t ≡ tell_broker s → OtherStep s t
  tells_engine : s.main ≡ broker_told → t ≡ tell_engine s → OtherStep s t
  returns : s.main ≡ joining → s.wg_quit ≡ 0 → t ≡ finish s → OtherStep s t

pub data Step (s t : System) : List GameState → List GameState → Type 0 where
  engine_goes : {h h' : List GameState} → EngineStep s t h h' → Step s t h h'
  other_goes : {h : List GameState} → OtherStep s t → Step s t h h

-- The systems that a configuration reaches, with the states that serFull was begun on.
pub data Reach (c : Configuration) : List GameState → System → Type 0 where
  start : {s : System} → start_system c ≡ some s → Reach c [] s
  next :
      {h h' : List GameState} {s t : System}
      → Reach c h s
      → is_returned s.main ≡ false
      → Step s t h h'
      → Reach c h' t
