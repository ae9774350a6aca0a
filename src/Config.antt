-- ===== src/Config.antt =====
-- server/config_reader.go and the checks on its values: main.go, NewGameEngine of
-- server/game/game_engine.go. The reading of the JSON file is the standard library's.
pub mod Bounds
use Prim.Native.String.{String}
use pacbot.Prelude.{
  ℕ, ◌/◌, ◌^◌, List, [], Bool, false, ◌||◌, ◌==◌, leb, if◌then◌else◌, Option, none, some, min,
}

-- GameFPS is an int32, a two's complement bit pattern of 32 bits.
pub record Configuration : Type 0 where
  pub server_ip : String
  pub tcp_port : ℕ
  pub web_socket_port : ℕ
  pub one_client_per_ip : Bool
  pub game_fps : ℕ
  pub num_active_ghosts : ℕ
  pub trusted_client_ips : List String

-- What GetConfig returns where there is no file: its errors are only logged.
abbrev pub no_configuration : Configuration
no_configuration = record {
  server_ip = "";
  tcp_port = 0;
  web_socket_port = 0;
  one_client_per_ip = false;
  game_fps = 0;
  num_active_ghosts = 0;
  trusted_client_ips = [];
}

-- The nanoseconds between two ticks; `none` is a panic, of the division or of NewTicker, which wants
-- a positive time.
unfoldable pub tick_time : ℕ → Option ℕ
tick_time clock_rate =
    if clock_rate == 0 || leb (2 ^ 31) clock_rate
    then none
    else if 1000000000 / clock_rate == 0
    then none
    else some (1000000000 / clock_rate)

-- `min(conf.NumActiveGhosts, 4)`.
unfoldable pub active_ghosts : Configuration → ℕ
active_ghosts c = min c.num_active_ghosts 4
