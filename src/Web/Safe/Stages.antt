-- ===== src/Web/Safe/Stages.antt =====
-- server/webserver: the steps of a session's handler.
use Prim.Native.String.{String}
use text.Mathlib.Text.{◌==◌ as str_eq}
use text.Mathlib.TextEquality.{eq_iff}
use text.Mathlib.TextPositions.{eq_refl}
use mathlib.Core.Path.{subst}
use pacbot.Prelude.{
  ℕ, ◌≡◌, ◌==◌, refl, sym, ap, ◌∙◌, List, [], ◌∷◌, Bool, true, false, Option, none, some, All,
  All-imp, arith, Bool-cases, inl, inr, if◌then◌else◌,
}
use pacbot.Engine.Reach.{some_inj}
use pacbot.Web.{
  WebServer, WebSession, Stage, unborn, registered, listed, unlisted, forgotten, closed, is_active,
  set_session, set_ip, kick_if, new_web_session, enlist, remove, unlist, is_session, forget,
  close_channel, is_trusted,
}
use pacbot.Web.Safe.{IsSafe, Quieter}
use pacbot.Web.Safe.Quiet.{Quieter-refl, quit-Quieter}

-- After the older session of an address is kicked, the one in the map has no open connection.
pub kick_if-Quieter :
    (ip : String) (b : Bool) (o : Option ℕ) (w u : WebServer)
    → w.ip_sessions ip ≡ o
    → kick_if b o w ≡ some u
    → Quieter w u
      × (b ≡ true → (j : ℕ) → u.ip_sessions ip ≡ some j → (u.sessions j).conn_open ≡ false)
unfolding kick_if
kick_if-Quieter ip false o w u free e =
    (subst (Quieter w) (some_inj e) (Quieter-refl w), λ one. absurd (cc one))
kick_if-Quieter ip true none w u free e = (
  subst (Quieter w) (some_inj e) (Quieter-refl w),
  λ _ j f. absurd (cc (free, f, ap (λ (x : WebServer). x.ip_sessions ip) (some_inj e))),
)
kick_if-Quieter ip true (some old) w u taken e =
    let (q, shut) = quit-Quieter old w u e in
    (
      q,
      λ _ j f.
          ap (λ k. (u.sessions k).conn_open) (some_inj (sym f ∙ (q.same_map ip ∙ taken))) ∙ shut,
    )

-- A session that has not begun is none of those that a step speaks of.
differs-by :
    (w : WebServer) (i j : ℕ) (f : Stage → Bool)
    → f (w.sessions i).stage ≡ false
    → f (w.sessions j).stage ≡ true
    → (j == i) ≡ false
differs-by w i j f inside_not inside = elim (Bool-cases (j == i)) [
  | inr differs ↦ differs
  | inl same ↦
      let here : j ≡ i = ground arith in
      absurd (cc (ap (λ k. f (w.sessions k).stage) here, inside_not, inside))
]

abbrev is_listed : Stage → Bool
is_listed listed = true
is_listed _ = false

pub new_session-IsSafe :
    (i : ℕ) (ip : String) (w : WebServer)
    → IsSafe w
    → (w.sessions i).stage ≡ unborn
    → (w.one_client_per_ip ≡ true
        → (j : ℕ) → w.ip_sessions ip ≡ some j
        → (w.sessions j).conn_open ≡ false)
    → IsSafe (set_ip ip (some i) (set_session i (new_web_session ip) w))
unfolding set_ip set_session
new_session-IsSafe i ip w h young shut = record {
  opened =
      All-imp (λ j. (w.sessions j).stage ≡ listed)
        (λ j. (if j == i then new_web_session ip else w.sessions j).stage ≡ listed)
        (λ j e. rw (differs-by w i j is_listed (ap is_listed young) (ap is_listed e)) e)
        w.open_sessions h.opened;
  mapped = λ k j e. elim (Bool-cases (str_eq k ip)) [
    | inl same ↦
        let here : (j == i) ≡ true = ground (arith, some_inj (rw same at e)) in
        rw here (refl, sym ((eq_iff k ip).0 same))
    | inr other ↦
        let (active, at) = h.mapped k j (rw other at e) in
        rw (differs-by w i j is_active (ap is_active young) active) (active, at)
  ];
  alone = λ j one active connected. elim (Bool-cases (j == i)) [
    | inl same ↦ let here : i ≡ j = ground arith in rw (same, eq_refl ip) (ap some here)
    | inr differs ↦
        let old = h.alone j one (rw differs at active) (rw differs at connected) in
        elim (Bool-cases (str_eq (w.sessions j).ip ip)) [
          | inr other ↦ rw (differs, other) old
          | inl clash ↦
              let at : w.ip_sessions ip ≡ some j =
                ap w.ip_sessions (sym ((eq_iff _ ip).0 clash)) ∙ old in
              absurd (cc (shut one j at, (rw differs at connected)))
        ]
  ];
}

-- A step of a handler: one session comes to another stage, the collections change with it.
advance-IsSafe :
    (i : ℕ) (ws : WebSession) (opens : List ℕ) (m : String → Option ℕ) (w : WebServer)
    → IsSafe w
    → ws.ip ≡ (w.sessions i).ip
    → ws.conn_open ≡ (w.sessions i).conn_open
    → All (λ j. (if j == i then ws else w.sessions j).stage ≡ listed) opens
    → ((ip : String) (j : ℕ) → m ip ≡ some j → w.ip_sessions ip ≡ some j)
    → ((ip : String) → m ip ≡ some i → is_active ws.stage ≡ true)
    → (is_active ws.stage ≡ true → is_active (w.sessions i).stage ≡ true)
    → ((j : ℕ)
        → is_active (if j == i then ws else w.sessions j).stage ≡ true
        → w.ip_sessions (w.sessions j).ip ≡ some j
        → m (w.sessions j).ip ≡ some j)
    → IsSafe (record w {
      sessions = λ j. if j == i then ws else w.sessions j;
      open_sessions = opens;
      ip_sessions = m;
    })
advance-IsSafe i ws opens m w h same_ip same_conn opened older own before keep = record {
  opened = opened;
  mapped = λ ip j e.
      let (active, at) = h.mapped ip j (older ip j e) in
      elim (Bool-cases (j == i)) [
        | inr differs ↦ rw differs (active, at)
        | inl same ↦
            let here : j ≡ i = ground arith in
            rw same
              (own ip (e ∙ ap some here), same_ip ∙ (ap (λ k. (w.sessions k).ip) (sym here) ∙ at))
      ];
  alone = λ j one active connected. elim (Bool-cases (j == i)) [
    | inr differs ↦
        let active' = rw differs at active in
        let old = h.alone j one active' (rw differs at connected) in rw differs (keep j active old)
    | inl same ↦
        let here : i ≡ j = ground arith in
        let old =
          h.alone i one (before (rw same at active)) (sym same_conn ∙ (rw same at connected)) in
        let old' = subst (λ k. w.ip_sessions (w.sessions k).ip ≡ some k) here old in
        rw same (ap m (same_ip ∙ ap (λ k. (w.sessions k).ip) here) ∙ keep j active old')
  ];
}

set_stage-IsSafe :
    (i : ℕ) (ws : WebSession) (opens : List ℕ) (w : WebServer)
    → IsSafe w
    → ws.ip ≡ (w.sessions i).ip
    → ws.conn_open ≡ (w.sessions i).conn_open
    → All (λ j. (if j == i then ws else w.sessions j).stage ≡ listed) opens
    → is_active (w.sessions i).stage ≡ is_active ws.stage
    → IsSafe
        (record w { sessions = λ j. if j == i then ws else w.sessions j; open_sessions = opens })
set_stage-IsSafe i ws opens w h same_ip same_conn opened same_active =
    advance-IsSafe i ws opens w.ip_sessions w h same_ip same_conn opened (λ ip j e. e)
      (λ ip e. sym same_active ∙ (h.mapped ip i e).0) (λ e. same_active ∙ e) (λ j _ e. e)

-- The open sessions stay listed where a session changes that is not one of them.
others-listed :
    (i : ℕ) (ws : WebSession) (w : WebServer)
    → IsSafe w
    → is_listed (w.sessions i).stage ≡ false
    → All (λ j. (if j == i then ws else w.sessions j).stage ≡ listed) w.open_sessions
others-listed i ws w h out =
    All-imp (λ j. (w.sessions j).stage ≡ listed)
      (λ j. (if j == i then ws else w.sessions j).stage ≡ listed)
      (λ j e. rw (differs-by w i j is_listed out (ap is_listed e)) e) w.open_sessions h.opened

pub enlist-IsSafe :
    (i : ℕ) (w : WebServer) → IsSafe w → (w.sessions i).stage ≡ registered → IsSafe (enlist i w)
unfolding enlist set_session
enlist-IsSafe i w h at =
    set_stage-IsSafe i
      (record (w.sessions i) { stage = listed; read_en = is_trusted (w.sessions i).ip w.trusted })
      (i ∷ w.open_sessions) w h refl refl (here, still) (ap is_active at)
  where
    ws : WebSession
    ws = record (w.sessions i) { stage = listed; read_en = is_trusted (w.sessions i).ip w.trusted }

    here : (if i == i then ws else w.sessions i).stage ≡ listed
    here = ground arith

    still : All (λ j. (if j == i then ws else w.sessions j).stage ≡ listed) w.open_sessions
    still = others-listed i ws w h (ap is_listed at)

remove-listed :
    (i : ℕ) (ws : WebSession) (w : WebServer) (js : List ℕ)
    → All (λ j. (w.sessions j).stage ≡ listed) js
    → All (λ j. (if j == i then ws else w.sessions j).stage ≡ listed) (remove i js)
unfolding remove
remove-listed i ws w [] h = tt
remove-listed i ws w (j ∷ js) (here, there) = elim (Bool-cases (j == i)) [
  | inl gone ↦ rw gone (remove-listed i ws w js there)
  | inr kept ↦ rw kept ((rw kept here), remove-listed i ws w js there)
]

pub unlist-IsSafe :
    (i : ℕ) (w : WebServer) → IsSafe w → (w.sessions i).stage ≡ listed → IsSafe (unlist i w)
unfolding unlist set_session
unlist-IsSafe i w h at =
    set_stage-IsSafe i (record (w.sessions i) { stage = unlisted }) (remove i w.open_sessions) w h
      refl refl (remove-listed i _ w w.open_sessions h.opened) (ap is_active at)

pub close_channel-IsSafe :
    (i : ℕ) (w : WebServer)
    → IsSafe w
    → (w.sessions i).stage ≡ forgotten
    → IsSafe (close_channel i w)
unfolding close_channel set_session
close_channel-IsSafe i w h at =
    set_stage-IsSafe i (record (w.sessions i) { stage = closed }) w.open_sessions w h refl refl
      (others-listed i _ w h (ap is_listed at)) (ap is_active at)

module _ (i : ℕ) (w : WebServer) (h : IsSafe w) (at : (w.sessions i).stage ≡ unlisted) where
  abbrev gone : WebSession
  gone = record (w.sessions i) { stage = forgotten }

  gone-inactive :
      (j : ℕ) → is_active (if j == i then gone else w.sessions j).stage ≡ true → (j == i) ≡ false
  gone-inactive j active = ground (arith, active)

  forget-other :
      is_session i (w.ip_sessions (w.sessions i).ip) ≡ false
      → IsSafe (record w { sessions = λ j. if j == i then gone else w.sessions j })
  unfolding is_session
  forget-other other =
      advance-IsSafe i gone w.open_sessions w.ip_sessions w h refl refl
        (others-listed i gone w h (ap is_listed at)) (λ k j e. e) own (λ e. ground arith)
        (λ j _ e. e)
    where
      own : (k : String) → w.ip_sessions k ≡ some i → is_active gone.stage ≡ true
      own k e =
          let found : w.ip_sessions (w.sessions i).ip ≡ some i =
            ap w.ip_sessions (h.mapped k i e).1 ∙ e in
          let mine : (i == i) ≡ false = sym (ap (is_session i) found) ∙ other in
          absurd (ground (arith, mine))

  forget-own :
      is_session i (w.ip_sessions (w.sessions i).ip) ≡ true
      → IsSafe (record w {
        sessions = λ j. if j == i then gone else w.sessions j;
        ip_sessions = λ k. if str_eq k (w.sessions i).ip then none else w.ip_sessions k;
      })
  unfolding is_session
  forget-own mine =
      advance-IsSafe i gone w.open_sessions m w h refl refl
        (others-listed i gone w h (ap is_listed at)) older own (λ e. ground arith) keep
    where
      m : String → Option ℕ
      m k = if str_eq k (w.sessions i).ip then none else w.ip_sessions k

      older : (k : String) (j : ℕ) → m k ≡ some j → w.ip_sessions k ≡ some j
      older k j e = elim (Bool-cases (str_eq k (w.sessions i).ip)) [
        | inl same ↦ absurd (cc (rw same at e))
        | inr other ↦ rw other at e
      ]

      own : (k : String) → m k ≡ some i → is_active gone.stage ≡ true
      own k e =
          let same = (eq_iff k (w.sessions i).ip).1 (sym (h.mapped k i (older k i e)).1) in
          absurd (cc (rw same at e))

      keep :
          (j : ℕ)
          → is_active (if j == i then gone else w.sessions j).stage ≡ true
          → w.ip_sessions (w.sessions j).ip ≡ some j
          → m (w.sessions j).ip ≡ some j
      keep j active e = elim (Bool-cases (str_eq (w.sessions j).ip (w.sessions i).ip)) [
        | inr other ↦ rw other e
        | inl same ↦
            let found =
              ap w.ip_sessions (sym ((eq_iff (w.sessions j).ip (w.sessions i).ip).0 same)) ∙ e in
            absurd (cc (sym (ap (is_session i) found) ∙ mine, gone-inactive j active))
      ]

  pub forget-IsSafe : IsSafe (forget i w)
  unfolding forget set_session set_ip
  forget-IsSafe = elim (Bool-cases (is_session i (w.ip_sessions (w.sessions i).ip))) [
    | inl mine ↦ rw mine (forget-own mine)
    | inr other ↦ rw other (forget-other other)
  ]
