-- ===== src/System/Group/Ends.antt =====
-- The end of server/main.go: what runs when main returns from the wait.
use pacbot.Prelude.{ℕ, ◌≡◌, inl, inr, sym, ap, ◌∙◌, List, [], ◌∷◌, true, false, arith}
use pacbot.State.{GameState}
use pacbot.Config.{Configuration}
use pacbot.System.{System, is_returned}
use pacbot.System.Steps.{stage_of, Step, engine_goes, other_goes, Reach, start, next}
use pacbot.System.Others.{OtherStep-kept, kept_main, start_system-some}
use pacbot.System.Sessions.{rest_main, EngineStep-rest}
use pacbot.System.Group.{engines, brokers_in, is_handled, Grouped}
use pacbot.System.Group.Run.{Reach-Grouped}

Step-ends :
    (s t : System) {h h' : List GameState}
    → is_returned s.main ≡ false
    → Step s t h h'
    → is_returned t.main ≡ true
    → t.wg_quit ≡ 0
Step-ends s t up (engine_goes step) ends =
    let same = ap (λ x. is_returned (rest_main x)) (EngineStep-rest s t step) in
    absurd (cc (sym ends ∙ same ∙ up))
Step-ends s t up (other_goes step) ends = elim (OtherStep-kept s t step) [
  | inl kept ↦
      let same = ap (λ x. is_returned (kept_main x)) kept in absurd (cc (sym ends ∙ same ∙ up))
  | inr (engine, inl goes) ↦ absurd (cc (goes, ends))
  | inr (engine, inr nobody) ↦ nobody
]

Reach-wg_quit :
    {c : Configuration} {h : List GameState} {s : System}
    → Reach c h s
    → is_returned s.main ≡ true
    → s.wg_quit ≡ 0
Reach-wg_quit {c} (start {s} e) ends =
    let same = ap (λ (x : System). is_returned x.main) (start_system-some c s e) in
    absurd (cc (same, ends))
Reach-wg_quit (next {s} {t} r up step) ends = Step-ends s t up step ends

nobody_left :
    (s : System) (live : List ℕ)
    → Grouped s live
    → s.wg_quit ≡ 0
    → (engines s.place ≡ 0)
      × (brokers_in s.broker ≡ 0)
      × ((i : ℕ) → is_handled (stage_of i s) ≡ false)
nobody_left s [] g e =
    (omega (arith, g.count, e), omega (arith, g.count, e), λ i. sym (g.members i))
nobody_left s (i ∷ live) g e = absurd (omega (arith, g.count, e))

-- In every system that is reached in which main has returned, the engine is not in its loop, nor is
-- the broker in its, and every client's handler that began has closed its channel.
pub Reach-returned :
    {c : Configuration} {h : List GameState} {s : System}
    → Reach c h s
    → is_returned s.main ≡ true
    → (engines s.place ≡ 0)
      × (brokers_in s.broker ≡ 0)
      × ((i : ℕ) → is_handled (stage_of i s) ≡ false)
Reach-returned {s = s} r ends =
    let (live, g) = Reach-Grouped r in nobody_left s live g (Reach-wg_quit r ends)
