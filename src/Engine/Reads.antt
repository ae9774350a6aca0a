-- ===== src/Engine/Reads.antt =====
-- server/game/game_engine.go: what a client reads from the frame that an iteration sends.
use pacbot.Prelude.{ℕ, ◌<◌, ◌≡◌, sym, ap, ◌∙◌, List, some, All}
use pacbot.Serialize.Encode.{encode}
use pacbot.Serialize.Client.{view, decode}
use pacbot.Serialize.Decode.{decode-encode}
use pacbot.Pellets.Server.{Counted-Stable}
use pacbot.Sound.Server.{IsSound-Stable}
use pacbot.Patrol.Server.{Patrolled-Stable}
use pacbot.Ranged.Server.{IsRanged-Stable}
use pacbot.Ranged.Sent.{IsByte, IsSound-IsSent}
use pacbot.Engine.{Draws, Message, Engine, update_if_ready, iteration}
use pacbot.Engine.Reach.{Reach, Reach-keeps, update_if_ready-keeps, some_inj}
use pacbot.Engine.Frames.{IsPlain, iteration-frame}

updated-decode :
    {active : ℕ} (draws : Draws) (e e1 : Engine)
    → Reach active e
    → update_if_ready draws e ≡ some e1
    → 0 < e1.state.curr_lives
    → IsByte e1.state.pacman_loc
    → decode (encode e1.state) ≡ some (view e1.state)
updated-decode draws e e1 r works alive small = decode-encode e1.state (
    IsSound-IsSent e1.state
      (update_if_ready-keeps IsSound-Stable draws e e1 (Reach-keeps IsSound-Stable r) works)
      (update_if_ready-keeps IsRanged-Stable draws e e1 (Reach-keeps IsRanged-Stable r) works)
      (update_if_ready-keeps Counted-Stable draws e e1 (Reach-keeps Counted-Stable r) works)
      (update_if_ready-keeps Patrolled-Stable draws e e1 (Reach-keeps Patrolled-Stable r) works)
      alive small)

-- From every state that the loop reaches: where the messages of an iteration are plain (not empty, and no
-- request of a position), and its update leaves a state with a life left and Pacman's coordinates
-- below 256, the iteration gives a result, and a client reads from the bytes that it sends every field
-- of that state that it is meant to see.
pub iteration-decode :
    {active : ℕ} {e : Engine} (draws : Draws) (ms : List Message) (e1 : Engine)
    → Reach active e
    → All IsPlain ms
    → update_if_ready draws e ≡ some e1
    → 0 < e1.state.curr_lives
    → IsByte e1.state.pacman_loc
    → (out : List ℕ) × (e' : Engine) × (iteration draws ms e ≡ some (out, e'))
      × (decode out ≡ some (view e1.state))
iteration-decode {e = e} draws ms e1 r plain works alive small =
    let (f, e', updates, sends, len) = iteration-frame draws ms r plain in
    let same : f ≡ e1 = some_inj (sym updates ∙ works) in
    (
      encode f.state,
      e',
      sends,
      ap (λ (x : Engine). decode (encode x.state)) same
          ∙ updated-decode draws e e1 r works alive small,
    )
