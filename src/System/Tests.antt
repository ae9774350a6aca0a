-- ===== src/System/Tests.antt =====
-- A run of the whole server with one client: examples for the properties.
use pacbot.Prelude.{
  ℕ, ◌+◌, ◌*◌, ◌≡◌, ◌≤◌, ◌<◌, ◌⊎◌, ◌↔◌, refl, set, List, [], ◌∷◌, All, true, false, Option, none,
  some, arith,
}
use pacbot.State.{GameState, new_game_state}
use pacbot.Engine.{Draws, Message, new_engine, update_if_ready}
use pacbot.Steps.{update_ready}
use pacbot.Engine.Frames.{IsPlain}
use pacbot.Config.{Configuration, tick_time}
use pacbot.Config.Bounds.{start_system-none_iff}
use pacbot.Web.{
  set_session, set_ip, offer_message, offer_to, offer_all, broadcast, kick, kick_if, register,
  enlist, is_trusted,
}
use pacbot.Web.Tcp.{forward_tcp}
use Prim.Native.String.{String}
use pacbot.System.{
  read_first, leave_engine, read_line, tell_broker, tell_engine, finish, System, new_system,
  start_system, enter_engine, update_frame, put_first, put_next, is_returned, serialising, sending,
  set_writing, copy_client, send_frame, read_input, enter_broker, forward, broadcast_first,
  broker_turn, write_next, leave_broker, connect, send_turn_of,
}
use pacbot.System.Steps.{
  stage_of, reads, types, tells_broker, tells_engine, quits_engine, returns, enters_engine, updates,
  puts, sends, enters_broker, brokers, connects, enlists, writes, copies, engine_goes, other_goes,
  Reach, start, next,
}
use pacbot.System.History.{IsFit, Reach-IsFit}
use pacbot.System.Sessions.{Reach-goes_on}
use pacbot.System.Group.{Grouped, engines, brokers_in, is_handled}
use pacbot.System.Group.Ends.{Reach-returned}
use pacbot.System.Group.Run.{Reach-Grouped}

abbrev conf : Configuration
conf = record {
  server_ip = "10.0.0.1";
  tcp_port = 20002;
  web_socket_port = 3002;
  one_client_per_ip = true;
  game_fps = 24;
  num_active_ghosts = 4;
  trusted_client_ips = "10.0.0.5" ∷ [];
}

abbrev no_draws : Draws
no_draws = λ color n. 0

abbrev pausing : Message
pausing = record { bytes = b'p' ∷ []; draws = no_draws }

abbrev or_same : Option System → System → System
or_same none s = s
or_same (some t) s = t

abbrev entered : System
entered = enter_engine (new_system conf)

abbrev updated : System
updated = or_same (update_frame no_draws entered) entered

-- The game after the first update, which serFull is begun on.
abbrev first_frame : GameState
first_frame = updated.engine.state

abbrev put_at : List ℕ → ℕ → List ℕ → List ℕ
put_at [] n buf = buf
put_at (b ∷ bytes) n buf = put_at bytes (n + 1) (set buf n b)

abbrev after_put : List ℕ → ℕ → ℕ
after_put [] n = n
after_put (b ∷ bytes) n = after_put bytes (n + 1)

-- At the end of serFull.
abbrev put_all : List ℕ → System → System
put_all bytes s = record s {
  engine = record s.engine { output_buf = put_at bytes s.ser_len s.engine.output_buf };
  pending = [];
  ser_len = after_put bytes s.ser_len;
  place = sending;
}

-- All the bytes are in the buffer.
abbrev rendered : System
rendered = put_all updated.pending updated

abbrev met : System
met = or_same (connect 3 "10.0.0.5" (enter_broker (send_frame rendered))) rendered

abbrev joined : System
joined = record met { web = enlist 3 met.web }

abbrev shared : System
shared = or_same (broker_turn joined) joined

abbrev shown : System
shown =
    copy_client 3 (record { slice = record { len = rendered.ser_len }; copied = [] })
      (send_turn_of 3 shared)

Reach-entered : Reach conf [] entered
unfolding start_system tick_time
Reach-entered = next (start refl) refl (engine_goes (enters_engine refl refl))

Reach-updated : Reach conf (first_frame ∷ []) updated
unfolding enter_engine update_frame update_if_ready new_engine update_ready new_game_state
Reach-updated = next Reach-entered refl (engine_goes (updates no_draws refl refl))

Reach-put_all :
    (bytes : List ℕ) (s : System)
    → s.place ≡ serialising
    → is_returned s.main ≡ false
    → Reach conf (first_frame ∷ []) (record s { pending = bytes })
    → Reach conf (first_frame ∷ []) (put_all bytes s)
unfolding put_next put_first
Reach-put_all [] s at up r = next r up (engine_goes (puts at refl))
Reach-put_all (b ∷ bytes) s at up r =
    Reach-put_all bytes
      (record s {
        engine = record s.engine { output_buf = set s.engine.output_buf s.ser_len b };
        ser_len = s.ser_len + 1;
      })
      at up (next r up (engine_goes (puts at refl)))

Reach-rendered : Reach conf (first_frame ∷ []) rendered
unfolding enter_engine update_frame update_if_ready new_engine update_ready new_game_state
Reach-rendered = Reach-put_all updated.pending updated refl refl Reach-updated

Reach-met : Reach conf (first_frame ∷ []) met
unfolding enter_engine update_frame update_if_ready new_engine update_ready new_game_state
    send_frame enter_broker connect register kick kick_if set_session set_ip
Reach-met =
    next
      (next (next Reach-rendered refl (engine_goes (sends refl (omega arith) refl))) refl
        (other_goes (enters_broker refl refl)))
      refl (other_goes (connects 3 "10.0.0.5" refl refl refl))

Reach-joined : Reach conf (first_frame ∷ []) joined
unfolding enter_engine update_frame update_if_ready new_engine update_ready new_game_state
    send_frame enter_broker connect register kick kick_if set_session set_ip
Reach-joined = next Reach-met refl (other_goes (enlists 3 refl refl))

Reach-shared : Reach conf (first_frame ∷ []) shared
unfolding enter_engine update_frame update_if_ready new_engine update_ready new_game_state
    send_frame enter_broker connect register kick kick_if set_session set_ip broker_turn
    broadcast_first forward broadcast offer_all offer_to offer_message enlist forward_tcp is_trusted
Reach-shared = next Reach-joined refl (other_goes (brokers refl refl))

Reach-shown : Reach conf (first_frame ∷ []) shown
unfolding enter_engine update_frame update_if_ready new_engine update_ready new_game_state
    send_frame enter_broker connect register kick kick_if set_session set_ip broker_turn
    broadcast_first forward broadcast offer_all offer_to offer_message enlist forward_tcp is_trusted
    send_turn_of write_next set_writing
Reach-shown =
    next (next Reach-shared refl (other_goes (writes 3 refl refl refl))) refl
      (other_goes (copies 3 _ refl refl))

Reach-IsFit_example : IsFit shown.engine.state × All IsFit (first_frame ∷ [])
Reach-IsFit_example = Reach-IsFit Reach-shown

Reach-goes_on_example :
    ((t : System) × (broker_turn joined ≡ some t))
    × ((t : System) × (leave_broker joined ≡ some t))
    × ((i : ℕ) (ip : String) → (t : System) × (connect i ip joined ≡ some t))
    × (All IsPlain joined.input → (t : System) × (read_input joined ≡ some t))
Reach-goes_on_example = Reach-goes_on Reach-joined

Reach-Grouped_example : (live : List ℕ) × Grouped shown live
Reach-Grouped_example = Reach-Grouped Reach-shown

start_system-none_iff_example :
    ((start_system conf ≡ none) ↔ ((conf.game_fps ≡ 0) ⊎ (1000000000 < 24)))
    × ((t : ℕ)
        → tick_time 24 ≡ some t
        → (1 ≤ t) × (24 * t ≤ 1000000000) × (1000000000 < 24 * (t + 1)))
start_system-none_iff_example = start_system-none_iff conf

abbrev q_line : Message
q_line = record { bytes = b'q' ∷ []; draws = no_draws }

abbrev idle_engine : System
idle_engine = or_same (read_input (send_frame rendered)) rendered

abbrev told : System
told = tell_engine (tell_broker (read_line q_line idle_engine))

-- The engine quits before the broker has begun.
Reach-left : Reach conf (first_frame ∷ []) (leave_engine told)
unfolding enter_engine update_frame update_if_ready new_engine update_ready new_game_state
    send_frame read_input read_first read_line tell_broker tell_engine
Reach-left =
    let idle_now =
      next (next Reach-rendered refl (engine_goes (sends refl (omega arith) refl))) refl
        (engine_goes (reads refl refl)) in
    let asked = next idle_now refl (other_goes (types q_line refl (omega arith) refl)) in
    let all_told =
      next (next asked refl (other_goes (tells_broker refl refl))) refl
        (other_goes (tells_engine refl refl)) in
    next all_told refl (engine_goes (quits_engine refl refl refl))

abbrev over : System
over = finish (leave_engine told)

Reach-over : Reach conf (first_frame ∷ []) over
unfolding enter_engine update_frame update_if_ready new_engine update_ready new_game_state
    send_frame read_input read_first read_line tell_broker tell_engine leave_engine
Reach-over = next Reach-left refl (other_goes (returns refl refl refl))

Reach-returned_example :
    (engines over.place ≡ 0)
    × (brokers_in over.broker ≡ 0)
    × ((i : ℕ) → is_handled (stage_of i over) ≡ false)
unfolding finish
Reach-returned_example = Reach-returned Reach-over refl
