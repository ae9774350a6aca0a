-- ===== src/Web/Safe/Run.antt =====
-- server/webserver: the events of the sessions, the broker and the new clients.
use Prim.Native.String.{String}
use mathlib.Core.Path.{subst}
use pacbot.Prelude.{
  ℕ, ◌≡◌, refl, sym, ap, ◌∙◌, List, Bool, true, false, Option, none, some, All-imp, arith,
  Option-cases, inl, inr,
}
use pacbot.Engine.Reach.{some_inj}
use pacbot.Web.{
  Slice, HandlerStep, handled, WebServer, Stage, unborn, listed, is_active, is_closed, set_session,
  set_ip, kick, kick_if, register, new_web_session, enlist, unlist, forget, close_channel,
  broadcast, quit_all, take_message, Step, registers, enlists, unlists, forgets, closes, quits,
  takes, broadcasts, exits, Reach, start, next,
}
use pacbot.Web.Safe.{IsSafe}
use pacbot.Web.Safe.Quiet.{
  Quieter-IsSafe, take_message-Quieter, quit-Quieter, quit-some, offer_all-Quieter,
  quit_all-Quieter, offer_all-some, quit_all-some, AllLive,
}
use pacbot.Web.Safe.Stages.{
  kick_if-Quieter, new_session-IsSafe, enlist-IsSafe, unlist-IsSafe, close_channel-IsSafe,
  forget-IsSafe,
}

register-IsSafe :
    (i : ℕ) (ip : String) (w v : WebServer)
    → IsSafe w
    → (w.sessions i).stage ≡ unborn
    → register i ip w ≡ some v
    → IsSafe v
unfolding register kick
register-IsSafe i ip w v h young e = elim (Option-cases (kick ip w)) [
  | inl panics ↦ absurd (cc (rw panics at e))
  | inr (u, works) ↦
      let (q, shut) = kick_if-Quieter ip w.one_client_per_ip (w.ip_sessions ip) w u refl works in
      subst IsSafe (some_inj (rw works at e)) (
        new_session-IsSafe i ip u (Quieter-IsSafe w u q h) (q.same_stage i ∙ young)
          (λ one. shut (sym q.same_one ∙ one)))
]

HandlerStep-IsSafe : (w v : WebServer) → IsSafe w → HandlerStep w v → IsSafe v
unfolding broadcast
HandlerStep-IsSafe w v h (registers i ip young e) = register-IsSafe i ip w v h young e
HandlerStep-IsSafe w v h (enlists i at e) = subst IsSafe (sym e) (enlist-IsSafe i w h at)
HandlerStep-IsSafe w v h (unlists i at e) = subst IsSafe (sym e) (unlist-IsSafe i w h at)
HandlerStep-IsSafe w v h (forgets i at e) = subst IsSafe (sym e) (forget-IsSafe i w h at)
HandlerStep-IsSafe w v h (closes i at e) = subst IsSafe (sym e) (close_channel-IsSafe i w h at)
HandlerStep-IsSafe w v h (quits i e) = Quieter-IsSafe w v (quit-Quieter i w v e).0 h

Step-IsSafe : (w v : WebServer) → IsSafe w → Step w v → IsSafe v
unfolding broadcast
Step-IsSafe w v h (handled e) = HandlerStep-IsSafe w v h e
Step-IsSafe w v h (takes i e) =
    subst IsSafe (sym e) (Quieter-IsSafe w (take_message i w) (take_message-Quieter i w) h)
Step-IsSafe w v h (broadcasts msg e) =
    Quieter-IsSafe w v (offer_all-Quieter (some msg) w.open_sessions w v e) h
Step-IsSafe w v h (exits e) = Quieter-IsSafe w v (quit_all-Quieter w.open_sessions w v e) h

pub Reach-IsSafe :
    (one : Bool) (trusted : List String) (w : WebServer) → Reach one trusted w → IsSafe w
Reach-IsSafe one trusted w start = record {
  opened = tt;
  mapped = λ ip i e. absurd (cc e);
  alone = λ i _ active. absurd (ground (arith, active));
}
Reach-IsSafe one trusted w (next r step) = Step-IsSafe _ w (Reach-IsSafe one trusted _ r) step

open-live : (w : WebServer) → IsSafe w → AllLive w.open_sessions w
open-live w h =
    All-imp (λ i. (w.sessions i).stage ≡ listed) (λ i. is_closed (w.sessions i).stage ≡ false)
      (λ i e. ap is_closed e) w.open_sessions h.opened

kick_if-some :
    (b : Bool) (o : Option ℕ) (w : WebServer)
    → ((old : ℕ) → o ≡ some old → is_closed (w.sessions old).stage ≡ false)
    → (v : WebServer) × (kick_if b o w ≡ some v)
unfolding kick_if
kick_if-some false o w live = (w, refl)
kick_if-some true none w live = (w, refl)
kick_if-some true (some old) w live = quit-some old w (live old refl)

active-live : (st : Stage) → is_active st ≡ true → is_closed st ≡ false
active-live st active = ground (arith, active)

register-some :
    (i : ℕ) (ip : String) (w : WebServer) → IsSafe w → (v : WebServer) × (register i ip w ≡ some v)
unfolding register kick kick_if
register-some i ip w h =
    let (u, e) =
      kick_if-some w.one_client_per_ip (w.ip_sessions ip) w
        (λ old taken. active-live _ (h.mapped ip old taken).0) in
    (set_ip ip (some i) (set_session i (new_web_session ip) u), rw e refl)

register-config :
    (i : ℕ) (ip : String) (w v : WebServer)
    → register i ip w ≡ some v
    → v.one_client_per_ip ≡ w.one_client_per_ip
unfolding register kick set_session set_ip
register-config i ip w v e = elim (Option-cases (kick ip w)) [
  | inl panics ↦ absurd (cc (rw panics at e))
  | inr (u, works) ↦
      let (q, _) = kick_if-Quieter ip w.one_client_per_ip (w.ip_sessions ip) w u refl works in
      sym (ap (λ (x : WebServer). x.one_client_per_ip) (some_inj (rw works at e))) ∙ q.same_one
]

forget-config : (i : ℕ) (w : WebServer) → (forget i w).one_client_per_ip ≡ w.one_client_per_ip
unfolding forget set_session set_ip
forget-config i w = ground arith

abbrev config : WebServer → Bool
config w = w.one_client_per_ip

HandlerStep-config : (w v : WebServer) → HandlerStep w v → v.one_client_per_ip ≡ w.one_client_per_ip
unfolding broadcast enlist unlist close_channel set_session take_message
HandlerStep-config w v (registers i ip young e) = register-config i ip w v e
HandlerStep-config w v (enlists i at e) = ap config e
HandlerStep-config w v (unlists i at e) = ap config e
HandlerStep-config w v (forgets i at e) = ap config e ∙ forget-config i w
HandlerStep-config w v (closes i at e) = ap config e
HandlerStep-config w v (quits i e) = (quit-Quieter i w v e).0.same_one

Step-config : (w v : WebServer) → Step w v → v.one_client_per_ip ≡ w.one_client_per_ip
unfolding broadcast enlist unlist close_channel set_session take_message
Step-config w v (handled e) = HandlerStep-config w v e
Step-config w v (takes i e) = ap config e
Step-config w v (broadcasts msg e) = (offer_all-Quieter (some msg) w.open_sessions w v e).same_one
Step-config w v (exits e) = (quit_all-Quieter w.open_sessions w v e).same_one

Reach-config :
    (one : Bool) (trusted : List String) (w : WebServer)
    → Reach one trusted w
    → w.one_client_per_ip ≡ one
Reach-config one trusted w start = refl
Reach-config one trusted w (next r step) = Step-config _ w step ∙ Reach-config one trusted _ r

-- In every state that the sessions reach, whatever the order of their events, a broadcast, the exit
-- of the broker and the registration of a new client do not panic: none of them sends to a channel
-- that was closed.
pub no_send_to_closed :
    (one : Bool) (trusted : List String) (w : WebServer)
    → Reach one trusted w
    → ((msg : Slice) → (v : WebServer) × (broadcast msg w ≡ some v))
      × ((v : WebServer) × (quit_all w.open_sessions w ≡ some v))
      × ((i : ℕ) (ip : String) → (v : WebServer) × (register i ip w ≡ some v))
unfolding broadcast
no_send_to_closed one trusted w r =
    let h = Reach-IsSafe one trusted w r in
    (
      λ msg. offer_all-some (some msg) w.open_sessions w (open-live w h),
      quit_all-some w.open_sessions w (open-live w h),
      λ i ip. register-some i ip w h,
    )

-- Where one client per IP is configured: in every state that the sessions reach, two sessions of one
-- address that are registered and not yet forgotten, with open connections, are the same.
pub one_per_ip_lem :
    (trusted : List String) (w : WebServer) (i j : ℕ)
    → Reach true trusted w
    → is_active (w.sessions i).stage ≡ true
    → is_active (w.sessions j).stage ≡ true
    → (w.sessions i).conn_open ≡ true
    → (w.sessions j).conn_open ≡ true
    → (w.sessions i).ip ≡ (w.sessions j).ip
    → i ≡ j
one_per_ip_lem trusted w i j r active_i active_j open_i open_j same =
    let h = Reach-IsSafe true trusted w r in
    let one = Reach-config true trusted w r in
    some_inj (
      sym (h.alone i one active_i open_i) ∙ (ap w.ip_sessions same ∙ h.alone j one active_j open_j))
