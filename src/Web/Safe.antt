-- ===== src/Web/Safe.antt =====
-- server/webserver: predicates on the sessions and on their changes.
pub mod Quiet
pub mod Stages
pub mod Run
use Prim.Native.String.{String}
use pacbot.Prelude.{ℕ, ◌≡◌, List, Bool, true, false, Option, none, some, All}
use pacbot.Web.{WebServer, WebSession, listed, is_active}

-- The open sessions are in their loops, and those in the map of IPs are active and of that address.
-- With one client per IP, an active session whose connection is open is the one of its address.
pub record IsSafe (w : WebServer) : Type 0 where
  pub opened : All (λ i. (w.sessions i).stage ≡ listed) w.open_sessions
  pub mapped :
      (ip : String) (i : ℕ)
      → w.ip_sessions ip ≡ some i
      → (is_active (w.sessions i).stage ≡ true) × ((w.sessions i).ip ≡ ip)
  pub alone :
      (i : ℕ)
      → w.one_client_per_ip ≡ true
      → is_active (w.sessions i).stage ≡ true
      → (w.sessions i).conn_open ≡ true
      → w.ip_sessions (w.sessions i).ip ≡ some i

-- A change that leaves the stages and the two collections alone, and opens no connection.
pub record Quieter (w v : WebServer) : Type 0 where
  pub same_one : v.one_client_per_ip ≡ w.one_client_per_ip
  pub same_open : v.open_sessions ≡ w.open_sessions
  pub same_map : (ip : String) → v.ip_sessions ip ≡ w.ip_sessions ip
  pub same_stage : (i : ℕ) → (v.sessions i).stage ≡ (w.sessions i).stage
  pub same_ip : (i : ℕ) → (v.sessions i).ip ≡ (w.sessions i).ip
  pub no_opening : (i : ℕ) → (v.sessions i).conn_open ≡ true → (w.sessions i).conn_open ≡ true
