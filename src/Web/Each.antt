-- ===== src/Web/Each.antt =====
-- server/webserver: what it takes for a predicate to hold of every session in every state.
use Prim.Native.String.{String}
use mathlib.Core.Path.{subst}
use pacbot.Prelude.{
  ℕ, ◌≡◌, ◌==◌, refl, sym, List, [], ◌∷◌, ◌++◌, Bool, true, false, Option, none, some, length, ltb,
  Option-cases, Bool-cases, inl, inr,
}
use pacbot.Engine.Reach.{some_inj}
use pacbot.Web.{
  Slice, Stage, listed, unlisted, forgotten, closed, WebSession, WebServer, no_session,
  new_web_session, new_web_server, set_session, set_ip, is_closed, offer_message, offer_to, quit,
  kick, kick_if, register, is_trusted, enlist, unlist, forget, close_channel, is_session, offer_all,
  broadcast, quit_all, take_message, HandlerStep, registers, enlists, unlists, forgets, closes,
  quits, handled, takes, broadcasts, exits, Reach, start, next,
}

abbrev pub is_listed : Stage → Bool
is_listed listed = true
is_listed _ = false

-- A predicate Q that the changes of a session keep, where F holds of the messages that it is offered.
pub record SessionStable (Q : WebSession → Type 0) (F : Option Slice → Type 0)
    (trusted : List String) : Type 0 where
  pub born : Q no_session
  pub begun : (ip : String) → Q (new_web_session ip)
  pub nil : F none
  pub offered :
      (msg : Option Slice) (ws : WebSession)
      → F msg
      → ltb (length ws.send) 10 ≡ true
      → Q ws
      → Q (record ws { send = ws.send ++ msg ∷ [] })
  pub taken :
      (ws : WebSession) → Q ws → Q (record ws { send = elim ws.send [ [] ↦ [] | m ∷ ms ↦ ms ] })
  pub hung_up : (ws : WebSession) → Q ws → Q (record ws { conn_open = false })
  pub enlisted :
      (ws : WebSession)
      → Q ws
      → Q (record ws { stage = listed; read_en = is_trusted ws.ip trusted })
  pub moved :
      (st : Stage) (ws : WebSession) → is_listed st ≡ false → Q ws → Q (record ws { stage = st })

-- The predicate holds of every session, and the trusted addresses are the configured ones.
pub record Each (Q : WebSession → Type 0) (trusted : List String) (w : WebServer) : Type 0 where
  pub config : w.trusted ≡ trusted
  pub all : (i : ℕ) → Q (w.sessions i)

module _ {Q : WebSession → Type 0} {F : Option Slice → Type 0} {trusted : List String}
    (st : SessionStable Q F trusted) where
  pub new_web_server-Each : (one : Bool) → Each Q trusted (new_web_server one trusted)
  new_web_server-Each one = record { config = refl; all = λ i. st.born }

  set_session-Each :
      (i : ℕ) (ws : WebSession) (w : WebServer)
      → Q ws
      → Each Q trusted w
      → Each Q trusted (set_session i ws w)
  unfolding set_session
  set_session-Each i ws w new h = record {
    config = h.config;
    all = λ j. elim (Bool-cases (j == i)) [
      | inl same ↦ rw same new
      | inr differs ↦ rw differs (h.all j)
    ];
  }

  set_ip-Each :
      (ip : String) (o : Option ℕ) (w : WebServer)
      → Each Q trusted w
      → Each Q trusted (set_ip ip o w)
  unfolding set_ip
  set_ip-Each ip o w h = record { config = h.config; all = h.all }

  offer_message-keeps :
      (msg : Option Slice) (ws u : WebSession) → F msg → Q ws → offer_message msg ws ≡ some u → Q u
  unfolding offer_message
  offer_message-keeps msg ws u f q e = elim (Bool-cases (is_closed ws.stage)) [
    | inl dead ↦ absurd (cc (rw dead at e))
    | inr live ↦ elim (Bool-cases (ltb (length ws.send) 10)) [
      | inl room ↦ subst Q (some_inj (rw (live, room) at e)) (st.offered msg ws f room q)
      | inr full ↦ subst Q (some_inj (rw (live, full) at e)) q
    ]
  ]

  offer_to-Each :
      (i : ℕ) (msg : Option Slice) (w v : WebServer)
      → F msg
      → offer_to i msg w ≡ some v
      → Each Q trusted w
      → Each Q trusted v
  unfolding offer_to
  offer_to-Each i msg w v f e h = elim (Option-cases (offer_message msg (w.sessions i))) [
    | inl panics ↦ absurd (cc (rw panics at e))
    | inr (ws, works) ↦
        subst (Each Q trusted) (some_inj (rw works at e))
          (set_session-Each i ws w (offer_message-keeps msg (w.sessions i) ws f (h.all i) works) h)
  ]

  quit-Each : (i : ℕ) (w v : WebServer) → quit i w ≡ some v → Each Q trusted w → Each Q trusted v
  unfolding quit
  quit-Each i w v e h =
      offer_to-Each i none _ v st.nil e
        (set_session-Each i _ w (st.hung_up (w.sessions i) (h.all i)) h)

  kick_if-Each :
      (b : Bool) (o : Option ℕ) (w v : WebServer)
      → kick_if b o w ≡ some v
      → Each Q trusted w
      → Each Q trusted v
  unfolding kick_if
  kick_if-Each true (some old) w v e h = quit-Each old w v e h
  kick_if-Each true none w v e h = subst (Each Q trusted) (some_inj e) h
  kick_if-Each false o w v e h = subst (Each Q trusted) (some_inj e) h

  register-Each :
      (i : ℕ) (ip : String) (w v : WebServer)
      → register i ip w ≡ some v
      → Each Q trusted w
      → Each Q trusted v
  unfolding register kick
  register-Each i ip w v e h = elim (Option-cases (kick ip w)) [
    | inl panics ↦ absurd (cc (rw panics at e))
    | inr (u, works) ↦ subst (Each Q trusted) (some_inj (rw works at e)) (
        set_ip-Each ip (some i) _ (
          set_session-Each i (new_web_session ip) u (st.begun ip)
            (kick_if-Each w.one_client_per_ip (w.ip_sessions ip) w u works h)))
  ]

  -- A session comes to another stage than that of the loops.
  move-Each :
      (i : ℕ) (to : Stage) (w : WebServer)
      → is_listed to ≡ false
      → Each Q trusted w
      → Each Q trusted (set_session i (record (w.sessions i) { stage = to }) w)
  move-Each i to w out h = set_session-Each i _ w (st.moved to (w.sessions i) out (h.all i)) h

  enlist-Each : (i : ℕ) (w : WebServer) → Each Q trusted w → Each Q trusted (enlist i w)
  unfolding enlist
  enlist-Each i w h =
      let ws = w.sessions i in
      let entered =
        set_session-Each i (record ws { stage = listed; read_en = is_trusted ws.ip w.trusted }) w
          (subst (λ t. Q (record ws { stage = listed; read_en = is_trusted ws.ip t }))
            (sym h.config) (st.enlisted ws (h.all i)))
          h in
      record { config = entered.config; all = entered.all }

  unlist-Each : (i : ℕ) (w : WebServer) → Each Q trusted w → Each Q trusted (unlist i w)
  unfolding unlist
  unlist-Each i w h =
      let left = move-Each i unlisted w refl h in record { config = left.config; all = left.all }

  forget-Each : (i : ℕ) (w : WebServer) → Each Q trusted w → Each Q trusted (forget i w)
  unfolding forget
  forget-Each i w h =
      let left = move-Each i forgotten w refl h in
      elim (Bool-cases (is_session i (w.ip_sessions (w.sessions i).ip))) [
        | inl mine ↦ rw mine (set_ip-Each (w.sessions i).ip none _ left)
        | inr other ↦ rw other left
      ]

  pub HandlerStep-Each : (w v : WebServer) → HandlerStep w v → Each Q trusted w → Each Q trusted v
  unfolding close_channel
  HandlerStep-Each w v (registers i ip young e) h = register-Each i ip w v e h
  HandlerStep-Each w v (enlists i at e) h = subst (Each Q trusted) (sym e) (enlist-Each i w h)
  HandlerStep-Each w v (unlists i at e) h = subst (Each Q trusted) (sym e) (unlist-Each i w h)
  HandlerStep-Each w v (forgets i at e) h = subst (Each Q trusted) (sym e) (forget-Each i w h)
  HandlerStep-Each w v (closes i at e) h =
      subst (Each Q trusted) (sym e) (move-Each i closed w refl h)
  HandlerStep-Each w v (quits i e) h = quit-Each i w v e h

  pub take_message-Each :
      (i : ℕ) (w : WebServer) → Each Q trusted w → Each Q trusted (take_message i w)
  unfolding take_message
  take_message-Each i w h = set_session-Each i _ w (st.taken (w.sessions i) (h.all i)) h

  pub offer_all-Each :
      (msg : Option Slice) (is : List ℕ) (w v : WebServer)
      → F msg
      → offer_all msg is w ≡ some v
      → Each Q trusted w
      → Each Q trusted v
  unfolding offer_all
  offer_all-Each msg [] w v f e h = subst (Each Q trusted) (some_inj e) h
  offer_all-Each msg (i ∷ is) w v f e h = elim (Option-cases (offer_to i msg w)) [
    | inl panics ↦ absurd (cc (rw panics at e))
    | inr (u, works) ↦
        offer_all-Each msg is u v f (rw works at e) (offer_to-Each i msg w u f works h)
  ]

  pub quit_all-Each :
      (is : List ℕ) (w v : WebServer) → quit_all is w ≡ some v → Each Q trusted w → Each Q trusted v
  unfolding quit_all
  quit_all-Each [] w v e h = subst (Each Q trusted) (some_inj e) h
  quit_all-Each (i ∷ is) w v e h = elim (Option-cases (quit i w)) [
    | inl panics ↦ absurd (cc (rw panics at e))
    | inr (u, works) ↦ quit_all-Each is u v (rw works at e) (quit-Each i w u works h)
  ]

  -- Where F holds of every message.
  pub Reach-Each :
      ((msg : Slice) → F (some msg))
      → {one : Bool} {w : WebServer} → Reach one trusted w
      → Each Q trusted w
  unfolding broadcast
  Reach-Each f {one} start = new_web_server-Each one
  Reach-Each f (next {w} {v} r (handled step)) = HandlerStep-Each w v step (Reach-Each f r)
  Reach-Each f (next {w} {v} r (takes i e)) =
      subst (Each Q trusted) (sym e) (take_message-Each i w (Reach-Each f r))
  Reach-Each f (next {w} {v} r (broadcasts msg e)) =
      offer_all-Each (some msg) w.open_sessions w v (f msg) e (Reach-Each f r)
  Reach-Each f (next {w} {v} r (exits e)) = quit_all-Each w.open_sessions w v e (Reach-Each f r)
