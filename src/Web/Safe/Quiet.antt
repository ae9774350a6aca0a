-- ===== src/Web/Safe/Quiet.antt =====
-- server/webserver: the sends to the sessions, and their exits.
use mathlib.Core.Path.{subst}
use pacbot.Prelude.{
  ℕ, ◌≡◌, ◌==◌, refl, sym, ap, ◌∙◌, List, [], ◌∷◌, Bool, true, false, Option, none, some, All,
  All-imp, arith, Bool-cases, Option-cases, inl, inr, ltb, length, if◌then◌else◌,
}
use pacbot.Engine.Reach.{some_inj}
use pacbot.Web.{
  Slice, WebServer, WebSession, is_active, is_closed, set_session, offer_message, offer_to, quit,
  offer_all, quit_all, take_message,
}
use pacbot.Web.Safe.{IsSafe, Quieter}

pub Quieter-IsSafe : (w v : WebServer) → Quieter w v → IsSafe w → IsSafe v
Quieter-IsSafe w v q h = record {
  opened =
      subst (All _) (sym q.same_open)
        (All-imp _ _ (λ i e. q.same_stage i ∙ e) w.open_sessions h.opened);
  mapped = λ ip i e.
      let (active, same) = h.mapped ip i (sym (q.same_map ip) ∙ e) in
      (ap is_active (q.same_stage i) ∙ active, q.same_ip i ∙ same);
  alone = λ i one active connected.
      q.same_map _
      ∙ ap w.ip_sessions (q.same_ip i)
      ∙ h.alone i (sym q.same_one ∙ one) (sym (ap is_active (q.same_stage i)) ∙ active)
          (q.no_opening i connected);
}

pub Quieter-refl : (w : WebServer) → Quieter w w
Quieter-refl w = record {
  same_one = refl;
  same_open = refl;
  same_map = λ ip. refl;
  same_stage = λ i. refl;
  same_ip = λ i. refl;
  no_opening = λ i e. e;
}

pub Quieter-trans : (w u v : WebServer) → Quieter w u → Quieter u v → Quieter w v
Quieter-trans w u v p q = record {
  same_one = q.same_one ∙ p.same_one;
  same_open = q.same_open ∙ p.same_open;
  same_map = λ ip. q.same_map ip ∙ p.same_map ip;
  same_stage = λ i. q.same_stage i ∙ p.same_stage i;
  same_ip = λ i. q.same_ip i ∙ p.same_ip i;
  no_opening = λ i e. p.no_opening i (q.no_opening i e);
}

-- One session changed, quietly.
set_session-Quieter :
    (i : ℕ) (ws : WebSession) (w : WebServer)
    → ws.stage ≡ (w.sessions i).stage
    → ws.ip ≡ (w.sessions i).ip
    → (ws.conn_open ≡ true → (w.sessions i).conn_open ≡ true)
    → Quieter w (set_session i ws w)
unfolding set_session
set_session-Quieter i ws w stage ip opening = record {
  same_one = refl;
  same_open = refl;
  same_map = λ k. refl;
  same_stage = λ j. at j (λ x. x.stage) stage;
  same_ip = λ j. at j (λ x. x.ip) ip;
  no_opening = λ j. elim (Bool-cases (j == i)) [
    | inl same ↦
        let here : j ≡ i = ground arith in
        λ e. subst (λ k. (w.sessions k).conn_open ≡ true) (sym here) (opening (rw same at e))
    | inr differs ↦ λ e. rw differs at e
  ];
}
  where
    at :
        {A : Type 0} (j : ℕ) (f : WebSession → A)
        → f ws ≡ f (w.sessions i)
        → f (if j == i then ws else w.sessions j) ≡ f (w.sessions j)
    at j f e = elim (Bool-cases (j == i)) [
      | inl same ↦
          let here : j ≡ i = ground arith in rw same (e ∙ ap (λ k. f (w.sessions k)) (sym here))
      | inr differs ↦ rw differs refl
    ]

-- A send to a session panics just where its channel is closed, and is quiet where it does not.
pub offer_to-some :
    (i : ℕ) (msg : Option Slice) (w : WebServer)
    → is_closed (w.sessions i).stage ≡ false
    → (v : WebServer) × (offer_to i msg w ≡ some v) × Quieter w v
unfolding offer_to offer_message
offer_to-some i msg w live = rw live (
  _,
  refl,
  elim (Bool-cases (ltb (length (w.sessions i).send) 10)) [
    | inl room ↦ rw room (set_session-Quieter i _ w refl refl λ e. e)
    | inr full ↦ rw full (set_session-Quieter i _ w refl refl λ e. e)
  ],
)

pub take_message-Quieter : (i : ℕ) (w : WebServer) → Quieter w (take_message i w)
unfolding take_message
take_message-Quieter i w = set_session-Quieter i _ w refl refl λ e. e

-- The rule for an operation that panics on a closed channel and is quiet otherwise.
pub Quieter-of-some :
    (w v : WebServer) (b : Bool) (o : Option WebServer)
    → (b ≡ true → o ≡ none)
    → (b ≡ false → (u : WebServer) × (o ≡ some u) × Quieter w u)
    → o ≡ some v
    → Quieter w v
Quieter-of-some w v true o panics works e = absurd (cc (panics refl, e))
Quieter-of-some w v false o panics works e =
    let (u, f, q) = works refl in subst (Quieter w) (some_inj (sym f ∙ e)) q

pub offer_to-Quieter :
    (i : ℕ) (msg : Option Slice) (w v : WebServer) → offer_to i msg w ≡ some v → Quieter w v
unfolding offer_to offer_message
offer_to-Quieter i msg w v e =
    Quieter-of-some w v (is_closed (w.sessions i).stage) (offer_to i msg w) (λ dead. rw dead refl)
      (offer_to-some i msg w) e

-- `quit` closes the connection, and then sends.
unfoldable hang_up : ℕ → WebServer → WebServer
hang_up i w = set_session i (record (w.sessions i) { conn_open = false }) w

hang_up-Quieter : (i : ℕ) (w : WebServer) → Quieter w (hang_up i w)
unfolding hang_up
hang_up-Quieter i w = set_session-Quieter i _ w refl refl λ e. ground arith

hang_up-closed : (i : ℕ) (w : WebServer) → ((hang_up i w).sessions i).conn_open ≡ false
unfolding hang_up set_session
hang_up-closed i w = ground arith

pub quit-Quieter :
    (i : ℕ) (w v : WebServer) → quit i w ≡ some v → Quieter w v × ((v.sessions i).conn_open ≡ false)
unfolding quit hang_up
quit-Quieter i w v e =
    let q = offer_to-Quieter i none (hang_up i w) v e in
    (
      Quieter-trans w (hang_up i w) v (hang_up-Quieter i w) q,
      elim (Bool-cases (v.sessions i).conn_open) [
        | inr shut ↦ shut
        | inl connected ↦ absurd (cc (q.no_opening i connected, hang_up-closed i w))
      ],
    )

pub quit-some :
    (i : ℕ) (w : WebServer)
    → is_closed (w.sessions i).stage ≡ false
    → (v : WebServer) × (quit i w ≡ some v)
unfolding quit hang_up
quit-some i w live =
    let (v, e, q) =
      offer_to-some i none (hang_up i w)
        (ap is_closed ((hang_up-Quieter i w).same_stage i) ∙ live) in
    (v, e)

pub offer_all-Quieter :
    (msg : Option Slice) (is : List ℕ) (w v : WebServer) → offer_all msg is w ≡ some v → Quieter w v
unfolding offer_all
offer_all-Quieter msg [] w v e = subst (Quieter w) (some_inj e) (Quieter-refl w)
offer_all-Quieter msg (i ∷ is) w v e = elim (Option-cases (offer_to i msg w)) [
  | inl panics ↦ absurd (cc (rw panics at e))
  | inr (u, works) ↦
      Quieter-trans w u v (offer_to-Quieter i msg w u works)
        (offer_all-Quieter msg is u v (rw works at e))
]

pub quit_all-Quieter : (is : List ℕ) (w v : WebServer) → quit_all is w ≡ some v → Quieter w v
unfolding quit_all
quit_all-Quieter [] w v e = subst (Quieter w) (some_inj e) (Quieter-refl w)
quit_all-Quieter (i ∷ is) w v e = elim (Option-cases (quit i w)) [
  | inl panics ↦ absurd (cc (rw panics at e))
  | inr (u, works) ↦
      Quieter-trans w u v (quit-Quieter i w u works).0 (quit_all-Quieter is u v (rw works at e))
]

abbrev pub AllLive : List ℕ → WebServer → Type 0
AllLive is w = All (λ i. is_closed (w.sessions i).stage ≡ false) is

AllLive-Quieter : (is : List ℕ) (w v : WebServer) → Quieter w v → AllLive is w → AllLive is v
AllLive-Quieter is w v q live = All-imp _ _ (λ i e. ap is_closed (q.same_stage i) ∙ e) is live

pub offer_all-some :
    (msg : Option Slice) (is : List ℕ) (w : WebServer)
    → AllLive is w
    → (v : WebServer) × (offer_all msg is w ≡ some v)
unfolding offer_all
offer_all-some msg [] w live = (w, refl)
offer_all-some msg (i ∷ is) w (here, there) =
    let (u, e, q) = offer_to-some i msg w here in
    let (v, f) = offer_all-some msg is u (AllLive-Quieter is w u q there) in (v, rw e f)

pub quit_all-some :
    (is : List ℕ) (w : WebServer) → AllLive is w → (v : WebServer) × (quit_all is w ≡ some v)
unfolding quit_all
quit_all-some [] w live = (w, refl)
quit_all-some (i ∷ is) w (here, there) =
    let (u, e) = quit-some i w here in
    let (v, f) = quit_all-some is u (AllLive-Quieter is w u (quit-Quieter i w u e).0 there) in
    (v, rw e f)
