-- ===== src/System/Trust.antt =====
-- Which clients may send commands: TrustedClientIPs of the configuration.
use Prim.Native.String.{String}
use pacbot.Prelude.{◌≡◌, List, true}
use pacbot.Web.{WebSession, is_trusted}
use pacbot.Web.Each.{is_listed}
use pacbot.System.{System}

-- In its loops, a session may send exactly if its address is trusted.
abbrev Screened : List String → WebSession → Type 0
Screened trusted ws = is_listed ws.stage ≡ true → ws.read_en ≡ is_trusted ws.ip trusted
