-- ===== src/System/Group.antt =====
-- The wait group of server/main.go: wgQuit of the engine, the broker and the handlers.
pub mod Steady
pub mod Run
pub mod Ends
use Prim.Native.String.{String}
use mathlib.Core.Path.{subst}
use pacbot.Prelude.{
  ℕ, ◌+◌, ◌-◌, ◌≡◌, ◌≤◌, ◌==◌, refl, sym, ap, ◌∙◌, List, [], ◌∷◌, Bool, true, false, Option, none,
  some, length, Bool-cases, Option-cases, inl, inr, arith, if◌then◌else◌, ltb, ==_iff,
}
use pacbot.State.{GameState}
use pacbot.Engine.{Message, handle_message}
use pacbot.Engine.Reach.{some_inj}
use pacbot.Config.{Configuration}
use pacbot.Web.{
  Slice, Stage, unborn, registered, listed, unlisted, forgotten, closed, WebSession, WebServer,
  set_session, set_ip, kick, register, new_web_session, enlist, unlist, forget, close_channel,
  is_session, broadcast, quit_all, take_message,
}
use pacbot.Web.Safe.{Quieter}
use pacbot.Web.Safe.Quiet.{take_message-Quieter, quit-Quieter, offer_all-Quieter, quit_all-Quieter}
use pacbot.Web.Safe.Stages.{kick_if-Quieter}
use pacbot.Web.Tcp.{is_in, without_conn}
use pacbot.Web.Tcp.Count.{
  IsDistinct, is_in-gone, is_in-other, without_conn-IsDistinct, length-without_conn,
}
use pacbot.System.{
  System, Place, created, at_top, sending, reading, waiting, stopped, Loop, idle, running, ended,
  start_system, new_system, enter_engine, leave_engine, update_frame, send_frame, read_first,
  read_input, enter_broker, forward, broadcast_first, broker_turn, leave_broker, connect,
  disconnect, send_turn_of, client_turn, write_robots, read_line,
}
use pacbot.System.Steps.{stage_of}

abbrev pub is_handled : Stage → Bool
is_handled unborn = false
is_handled closed = false
is_handled _ = true

abbrev pub engines : Place → ℕ
engines created = 0
engines stopped = 0
engines _ = 1

abbrev pub brokers_in : Loop → ℕ
brokers_in running = 1
brokers_in _ = 0

-- The wait group counts the engine in its loop, the broker in its, and the handlers that have not
-- ended, which `live` lists.
pub record Grouped (s : System) (live : List ℕ) : Type 0 where
  pub distinct : IsDistinct live
  pub members : (i : ℕ) → is_in i live ≡ is_handled (stage_of i s)
  pub count : s.wg_quit ≡ engines s.place + brokers_in s.broker + length live

-- A step after which the same handlers run, with the count of the others kept right.
pub record Calm (s t : System) : Type 0 where
  pub handlers : (i : ℕ) → is_handled (stage_of i t) ≡ is_handled (stage_of i s)
  pub others :
      t.wg_quit + (engines s.place + brokers_in s.broker)
      ≡ s.wg_quit + (engines t.place + brokers_in t.broker)

pub Calm-Grouped : (s t : System) (live : List ℕ) → Calm s t → Grouped s live → Grouped t live
Calm-Grouped s t live k g = record {
  distinct = g.distinct;
  members = λ i. g.members i ∙ sym (k.handlers i);
  count = omega (arith, g.count, k.others);
}

stage-here :
    (i j : ℕ) (ws : WebSession) (w : WebServer)
    → (j == i) ≡ true
    → ((set_session i ws w).sessions j).stage ≡ ws.stage
unfolding set_session
stage-here i j ws w here = rw here refl

stage-apart :
    (i j : ℕ) (ws : WebSession) (w : WebServer)
    → (j == i) ≡ false
    → ((set_session i ws w).sessions j).stage ≡ (w.sessions j).stage
unfolding set_session
stage-apart i j ws w apart = rw apart refl

-- The session i comes to another stage of the same kind.
pub set_session-handlers :
    (i : ℕ) (ws : WebSession) (w : WebServer) (j : ℕ)
    → is_handled ws.stage ≡ is_handled (w.sessions i).stage
    → is_handled ((set_session i ws w).sessions j).stage ≡ is_handled (w.sessions j).stage
set_session-handlers i ws w j same = elim (Bool-cases (j == i)) [
  | inl here ↦
      ap is_handled (stage-here i j ws w here)
      ∙ same
      ∙ ap (λ k. is_handled (w.sessions k).stage) (sym ((==_iff j i).0 here))
  | inr apart ↦ ap is_handled (stage-apart i j ws w apart)
]

pub Quieter-handlers :
    (w v : WebServer) (j : ℕ)
    → Quieter w v
    → is_handled (v.sessions j).stage ≡ is_handled (w.sessions j).stage
Quieter-handlers w v j q = ap is_handled (q.same_stage j)

-- A new handler.
entered-Grouped :
    (i : ℕ) (ip : String) (s : System) (u : WebServer) (live : List ℕ)
    → stage_of i s ≡ unborn
    → Quieter s.web u
    → Grouped s live
    → Grouped
        (record s {
          web = set_ip ip (some i) (set_session i (new_web_session ip) u);
          wg_quit = s.wg_quit + 1;
        })
        (i ∷ live)
unfolding set_ip
entered-Grouped i ip s u live young q g = record {
  distinct = (g.members i ∙ ap is_handled young, g.distinct);
  members = λ j. elim (Bool-cases (j == i)) [
    | inl here ↦
        ap (λ k. if i == k then true else is_in k live) ((==_iff j i).0 here)
        ∙ rw ((==_iff i i).1 refl) refl
        ∙ sym (ap is_handled (stage-here i j (new_web_session ip) u here))
    | inr apart ↦
        let other : (i == j) ≡ false = ground arith in
        rw other (
          g.members j
          ∙ sym (Quieter-handlers s.web u j q)
          ∙ sym (ap is_handled (stage-apart i j (new_web_session ip) u apart)))
  ];
  count = omega (arith, g.count);
}

pub connect-Grouped :
    (i : ℕ) (ip : String) (s t : System) (live : List ℕ)
    → stage_of i s ≡ unborn
    → connect i ip s ≡ some t
    → Grouped s live
    → Grouped t (i ∷ live)
unfolding connect register kick
connect-Grouped i ip s t live young e g = elim (Option-cases (kick ip s.web)) [
  | inl panics ↦ absurd (cc (rw panics at e))
  | inr (u, works) ↦
      let (q, shut) =
        kick_if-Quieter ip s.web.one_client_per_ip (s.web.ip_sessions ip) s.web u refl works in
      subst (λ x. Grouped x (i ∷ live)) (some_inj (rw works at e))
        (entered-Grouped i ip s u live young q g)
]

-- The end of one.
pub disconnect-Grouped :
    (i : ℕ) (s : System) (live : List ℕ)
    → stage_of i s ≡ forgotten
    → Grouped s live
    → Grouped (disconnect i s) (without_conn i live)
unfolding disconnect close_channel
disconnect-Grouped i s live at g =
    let ws = record (s.web.sessions i) { stage = closed } in
    record {
      distinct = without_conn-IsDistinct i live g.distinct;
      members = λ j. elim (Bool-cases (j == i)) [
        | inl here ↦
            ap (λ k. is_in k (without_conn i live)) ((==_iff j i).0 here)
            ∙ is_in-gone i live
            ∙ sym (ap is_handled (stage-here i j ws s.web here))
        | inr apart ↦
            is_in-other i j live apart
            ∙ g.members j
            ∙ sym (ap is_handled (stage-apart i j ws s.web apart))
      ];
      count =
          omega (
            arith,
            g.count,
            length-without_conn i live g.distinct (g.members i ∙ ap is_handled at),
          );
    }
