-- ===== src/Dashboard/Watch.antt =====
-- dashboard/server/main.go: disconnectWatcher, one tick of its loop. Times are in nanoseconds.
use pacbot.Prelude.{ℕ, ◌-◌, false, ◌&&◌, ltb, if◌then◌else◌, none}
use pacbot.Dashboard.{Server, disconnected, drive_manual}
use pacbot.Dashboard.Clients.{broadcast_state}

abbrev pub timeout : ℕ
timeout = 5000000000

unfoldable pub watch : ℕ → Server → Server
watch now s =
    if s.robot.connected && ltb timeout (now - s.robot.last_seen)
    then broadcast_state (record s {
      robot = record s.robot {
        connected = false;
        state = disconnected;
        drive_mode = drive_manual;
        addr = none;
      };
    })
    else s
