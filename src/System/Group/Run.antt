-- ===== src/System/Group/Run.antt =====
-- The wait group in every system that is reached.
use mathlib.Core.Path.{subst}
use pacbot.Prelude.{ℕ, refl, sym, ap, ◌∙◌, List, [], ◌∷◌, arith}
use pacbot.State.{GameState}
use pacbot.Config.{Configuration}
use pacbot.Web.{enlist, unlist, forget}
use pacbot.Web.Safe.Quiet.{quit-Quieter}
use pacbot.Web.Tcp.{without_conn}
use pacbot.System.{
  copy_client, set_writing, copy_robots, end_robots, tell_broker, tell_engine, finish, System,
  enter_broker, broker_turn, write_robots,
}
use pacbot.System.Steps.{
  OtherStep, enters_broker, brokers, quits_broker, connects, enlists, unlists, forgets, disconnects,
  quits_client, writes, copies, ends_write, copies_robots, ends_robots, commands, accepts,
  robot_reads, writes_robots, types, tells_broker, tells_engine, returns, engine_goes, other_goes,
  Reach, start, next,
}
use pacbot.System.Others.{start_system-some}
use pacbot.System.Group.{
  is_handled, brokers_in, Grouped, Calm, Calm-Grouped, set_session-handlers, Quieter-handlers,
  connect-Grouped, disconnect-Grouped,
}
use pacbot.System.Group.Steady.{
  EngineStep-Calm, web-Calm, broadcast_first-Calm, leave_broker-Calm, forget-handlers, waits,
  waits-Calm, send_turn_of-Calm, write_first-waits, end_write-waits, client_turn-waits,
  read_line-waits,
}

-- The handlers that run after a step, listed.
OtherStep-Grouped :
    (s t : System) (live : List ℕ)
    → OtherStep s t
    → Grouped s live
    → (live' : List ℕ) × Grouped t live'
unfolding tell_broker tell_engine finish enter_broker broker_turn enlist unlist copy_client
    set_writing write_robots copy_robots end_robots
OtherStep-Grouped s t live (enters_broker at e) g = (
  live,
  Calm-Grouped s t live
      (subst (Calm s) (sym e)
        (record { handlers = λ i. refl; others = omega (arith, ap brokers_in at) }))
      g,
)
OtherStep-Grouped s t live (brokers at e) g =
    (live, Calm-Grouped s t live (broadcast_first-Calm s.output s t e) g)
OtherStep-Grouped s t live (quits_broker at shut e) g =
    (live, Calm-Grouped s t live (leave_broker-Calm s t live g at e) g)
OtherStep-Grouped s t live (connects i ip up young e) g =
    (i ∷ live, connect-Grouped i ip s t live young e g)
OtherStep-Grouped s t live (enlists i at e) g = (
  live,
  Calm-Grouped s t live
      (subst (Calm s) (sym e) (
        web-Calm s (enlist i s.web)
          (λ j. set_session-handlers i _ s.web j (sym (ap is_handled at)))))
      g,
)
OtherStep-Grouped s t live (unlists i at e) g = (
  live,
  Calm-Grouped s t live
      (subst (Calm s) (sym e) (
        web-Calm s (unlist i s.web)
          (λ j. set_session-handlers i _ s.web j (sym (ap is_handled at)))))
      g,
)
OtherStep-Grouped s t live (forgets i at e) g = (
  live,
  Calm-Grouped s t live
      (subst (Calm s) (sym e) (web-Calm s (forget i s.web) (λ j. forget-handlers i j s.web at))) g,
)
OtherStep-Grouped s t live (disconnects i at e) g =
    let k = disconnect-Grouped i s live at g in
    (without_conn i live, subst (λ x. Grouped x (without_conn i live)) (sym e) k)
OtherStep-Grouped s t live (quits_client i {w} works e) g = (
  live,
  Calm-Grouped s t live
      (subst (Calm s) (sym e)
        (web-Calm s w (λ j. Quieter-handlers s.web w j (quit-Quieter i s.web w works).0)))
      g,
)
OtherStep-Grouped s t live (writes i at free e) g =
    (live, Calm-Grouped s t live (subst (Calm s) (sym e) (send_turn_of-Calm i s)) g)
OtherStep-Grouped s t live (copies i w at e) g =
    (live, Calm-Grouped s t live (waits-Calm s t (ap waits e)) g)
OtherStep-Grouped s t live (ends_write written i w at all e) g =
    (live, Calm-Grouped s t live (waits-Calm s t (ap waits e ∙ end_write-waits written i w s)) g)
OtherStep-Grouped s t live (copies_robots w at e) g =
    (live, Calm-Grouped s t live (waits-Calm s t (ap waits e)) g)
OtherStep-Grouped s t live (ends_robots w at all e) g =
    (live, Calm-Grouped s t live (waits-Calm s t (ap waits e)) g)
OtherStep-Grouped s t live (commands i m at room e) g =
    (live, Calm-Grouped s t live (waits-Calm s t (ap waits e ∙ client_turn-waits i m s)) g)
OtherStep-Grouped s t live (accepts c new e) g =
    (live, Calm-Grouped s t live (waits-Calm s t (ap waits e)) g)
OtherStep-Grouped s t live (robot_reads c r there e) g =
    (live, Calm-Grouped s t live (waits-Calm s t (ap waits e)) g)
OtherStep-Grouped s t live (writes_robots free e) g = (
  live,
  Calm-Grouped s t live (waits-Calm s t (ap waits e ∙ write_first-waits s.tcp.tcp_send s)) g,
)
OtherStep-Grouped s t live (types m up room e) g =
    (live, Calm-Grouped s t live (waits-Calm s t (ap waits e ∙ read_line-waits m s)) g)
OtherStep-Grouped s t live (tells_broker at e) g =
    (live, Calm-Grouped s t live (waits-Calm s t (ap waits e)) g)
OtherStep-Grouped s t live (tells_engine at e) g =
    (live, Calm-Grouped s t live (waits-Calm s t (ap waits e)) g)
OtherStep-Grouped s t live (returns at zero_left e) g =
    (live, Calm-Grouped s t live (waits-Calm s t (ap waits e)) g)

-- In every system that is reached the wait group of main counts one for the engine in its loop, one
-- for the broker in its, and one for each handler of a client from its registration to the close of
-- its channel.
pub Reach-Grouped :
    {c : Configuration} {h : List GameState} {s : System}
    → Reach c h s
    → (live : List ℕ) × Grouped s live
Reach-Grouped {c} (start {s} e) = (
  [],
  subst (λ x. Grouped x []) (start_system-some c s e)
      (record { distinct = tt; members = λ i. refl; count = refl }),
)
Reach-Grouped (next {s} {t} r up (engine_goes step)) =
    let (live, g) = Reach-Grouped r in
    (live, Calm-Grouped s t live (EngineStep-Calm s t live g step) g)
Reach-Grouped (next {s} {t} r up (other_goes step)) =
    let (live, g) = Reach-Grouped r in OtherStep-Grouped s t live step g
