-- ===== src/Lib.antt =====
-- A model of the Pacbot servers: the game (server/game), the sessions of its web clients
-- (server/webserver), and the dashboard between the robot and its webapp (dashboard/server).
--
-- The game server keeps one game state. A loop runs at a fixed frame rate: it updates the ghosts when
-- the update period divides the tick, handles collisions and step counters, plans the next moves
-- of the ghosts, serialises the state to a buffer that goes to the clients, and reads the
-- commands that the clients sent. The modules follow the files of server/game:
--
--   Word, Bits, Grid: fixed-width integers, getBit, modifyBit and the tests on cells
--     (game_helpers.go). An int8 is its two's complement bit pattern.
--   Maze, Location: the constants (variables.go) and the locations (location.go).
--   State, Modes, Counters: gameState and ghostState with their setters (game_state.go,
--     game_modes.go, ghost_state.go). The package variable numActiveGhosts is a field of the state.
--   Ghost, Herd, Target, Plan: one ghost, all ghosts, the chase targets, and the choice of a move
--     (ghost_helpers.go, game_helpers.go). The random source is an argument.
--   Board, Collect, Collide: resets, pellets and fruit, collisions (game_helpers.go).
--   Path, Pacman, Commands: the route search, the motion of Pacman, the commands (game_helpers.go,
--     commands.go). `none` stands for a panic or a loop without end.
--   Steps, Serialize, Engine: handleStepEvents (game_state.go), the bytes of a frame
--     (serialize.go), one iteration of RunLoop (game_engine.go).
--   Engine.Reach: the states that the loop comes to, for any messages and random numbers.
--   Closure, Sound, Pellets, Patrol, Listed, Ranged, Collide.Game: predicates on the state and how the
--     operations keep them. Patrol.Server, Collide.Server, Sound.Server, Pellets.Server,
--     Listed.Server, Ranged.Server: the same for every state that the loop comes to. Ranged.Sent: from
--     these to what a client can read back. Engine.Frames, Engine.Reads: what an iteration sends, and what
--     a client reads of it.
--   Modes.Pausing, Counters.Levels, Collect.Effects, Collide.Safe, Board.Resets, Steps.Modes,
--   Plan.Choice, Plan.Nearest, Commands.Results: single operations.
--   Plan.Rounds: the goroutines of a round of plans, in any order.
--   Serialize.Encode, Serialize.Client, Serialize.Decode: the bytes as a list, how a client reads
--     them, and that the two fit.
--   Path.Ends, Path.Walks, Path.Search, Path.Routes: the end of the route search, its map of
--     parents as a tree, what it explores, and what it comes to.
--   Tests, Plan.Tests, Path.Tests, Web.Tests, Dashboard.Tests: runs of the model, and the results
--     at concrete inputs.
--
-- The engine hands its frames to the broker, which sends them to the sessions:
--
--   Web: the sessions, the map of IPs and the set of open sessions (web_session.go), the broker's
--     broadcast and exit (web_broker.go), as steps in any order. Each section under a mutex is one
--     step. Web.Address: getIP. Web.Tcp, Web.Tcp.Count: the connections of the robots and their
--     count (tcp_server.go), which the broker reads. Web.Safe, Web.Safe.Quiet, Web.Safe.Stages,
--     Web.Safe.Run: what its steps keep. Web.Each: predicates on every session.
--
-- The whole game server joins these:
--
--   Config, Config.Bounds: the configuration (config_reader.go) and what main makes of it.
--   System: the engine, the broker, the handlers of the clients, the loops of the robots and main, with
--     the two channels between engine and broker, the quit channels and the wait group. RunLoop of
--     the engine is cut where it waits: at the send of a frame, at each read of the input channel, and
--     at the ticker (game_engine.go). A message is a slice of the engine's buffer, which has no lock:
--     serFull puts its bytes there one step at a time, and a write to a client or to the robots
--     reads them one step at a time, in order, so a message may hold bytes of two frames.
--     System.Steps: the steps, in any order; the ticker may fire at any time, and no step follows
--     the return of main. System.Others: what the other steps leave to the engine. System.History,
--     System.Sessions: the states and the sessions against Engine and Web.
--   System.Trust, System.Group and its children: who may send commands; the wait group.
--   System.Tests: a run of the server with one client.
--
-- The dashboard's server stands alone; it keeps the last state of the robot and relays both ways:
--
--   Dashboard: its constants and state (dashboard/server/main.go, like all that follows).
--   Dashboard.Wire: little-endian integers, slices that may panic.
--   Dashboard.Clients, Dashboard.Telemetry, Dashboard.Link, Dashboard.Control, Dashboard.Ipc,
--     Dashboard.Watch: the clients and broadcasts, handleUDP, sendToRobot and resendPidGains,
--     handleWSCommand, the IPC socket, disconnectWatcher. A float32 is its bits; the conversions of
--     a float64 of JSON are a parameter, the record Floats. A write to the UDP socket succeeds or
--     fails by an argument, and `sent` collects what was written.
--   Dashboard.Steps and its children: its events in any order, and what they keep. The parts of a
--     command or of a datagram's handler between two locks are events of their own too.
--   Dashboard.Telemetry.Reads, Dashboard.Telemetry.Panics, Dashboard.Telemetry.Sensors,
--   Dashboard.Gains, Dashboard.Offline, Dashboard.Directions, Dashboard.Timeout: single operations.
--
-- Names are those of the source in snake_case; a loop or a part of a long function is a helper with
-- a comment that says which. The state is passed along; a mutex has no counterpart, since the loop
-- calls the operations one after the other. The goroutines of a round (reset, update, plan) each
-- write their own ghost, and are a map over the ghosts.
--
-- Bounds: the search of a route in Path runs on fuel, 870 rounds for the 868 cells of the maze and
-- the start, each of which enters the queue at most once; running out reads as "hangs", like the
-- loop back through the parents when it does not meet the start within the number of parents.
--
-- The channels of the clients hold 10 messages (Web) and 64 (Dashboard), that of the robots 2; a full
-- one drops a message. The two channels of the engine hold 100 (System); their senders wait.
--
-- Not modelled: logging, and the time that a send waits; sockets, timers and JSON encoding, the
-- rounding of angles for the webapp, the HTTP server, with the time that its shutdown takes; the
-- dashboard's main, the bot, the web clients and the firmware. The late quit of a session, which may
-- send to a closed channel, is a step of the model only where it does not.
pub mod Prelude
pub mod Word
pub mod Bits
pub mod Maze
pub mod Location
pub mod State
pub mod Modes
pub mod Counters
pub mod Grid
pub mod Ghost
pub mod Herd
pub mod Board
pub mod Collect
pub mod Collide
pub mod Path
pub mod Pacman
pub mod Commands
pub mod Target
pub mod Plan
pub mod Steps
pub mod Serialize
pub mod Engine
pub mod Tests
pub mod Closure
pub mod Sound
pub mod Patrol
pub mod Pellets
pub mod Listed
pub mod Dashboard
pub mod Web
pub mod Ranged
pub mod Config
pub mod System
