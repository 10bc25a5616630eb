-- ===== src/Lib.antt =====
-- The game server of CrawlStars: rooms in which players meet, are matched, get ready and play.
--
-- internal/rooms keeps a Store of rooms. HTTP handlers, the WebSocket of each client, one worker for
-- each timer of a room, and a janitor call its operations; each takes the Store's lock and a room's,
-- changes them, and stops what it has detached after the locks. internal/simulation plays a match and
-- says which modes, teams and characters there are.
--
-- Base, with Base/Tests, Base/Lists, Base/Dict and Base/Sublists: names that the other files share,
-- Boolean tests on numbers, lists, association lists for Go's maps, and parts of lists in their order.
-- Simulation/Types: the data types of internal/simulation/simulation.go and game_config.go.
-- Simulation/Modes: the choice of modes, characters and teams in game_config.go; Modes/Deal: the
-- dealing to teams ends.
-- Simulation/Floats: the operations on float64, a parameter, and the vectors made with them.
-- Simulation/State: the type State of simulation.go. Charges, Inputs, Attacks, Skills and Combat beside
-- it: its operations in simulation.go, normal_attack.go, skill.go, timed_dash.go and combat_rules.go.
-- Simulation/Maps: map_collision.go, and the collisions with the map in simulation.go; Movement: the
-- movement of players and projectAttackStateToPlayers; Melee: melee.go.
-- Simulation/Recharge, Bursts, Approvals, Hits, Tombstones and Ranges: what these operations promise.
-- Simulation/Kinds, Kept and Play: what the operations keep over any sequence of them.
-- Simulation/Tests: concrete runs.
-- Rooms/Types: the data types of internal/rooms. `Store` and `Room` are the types Store and room of
-- store.go, `ClientSession` is the lifecycle part of clientSession in websocket.go.
-- Rooms/Observer: observer.go; Observer/Order: the order of its reports.
-- Rooms/Resources: cleanup.go, what is detached from a room and stopped.
-- Rooms/Monad: operations with an error and the Store that is left either way.
-- Rooms/Identity: identity.go, and the identifiers and credentials of store.go.
-- Rooms/Participants: newRoomLocked and the participants of store.go, and messages.go.
-- Rooms/Phases: the phases of a match and their timers, of store.go, ready_deadline.go, cleanup.go and
-- websocket.go; Phases/Countdown: the countdown.
-- Rooms/Registry: creation, deletion, expiry, deadlines, the end of a game and startRoom.
-- Rooms/Matchmaking: addPlayer, addBots, fillMatchmakingBots and joinMatchmakingRequest.
-- Rooms/Clients: reserveClient to tickMatchCountdownRoom of websocket.go; Clients/Reservations: what a
-- reservation promises.
-- Rooms/Inputs: setInput and the reconnect graces; Inputs/Order: ticks and presses, one input and many;
-- Inputs/Graces: whose grace has run out.
-- Rooms/Session: the queues of clientSession in websocket.go; Session/WriteLoop: its writer;
-- Session/Run: all its goroutines in any order. Session/Pipeline, Sections, Steps and Bounds: the
-- invariant; Offers, Line and Delivery: the order of snapshots; ControlQueue, ControlWriter and Control:
-- the order of control commands; Publications and PublicationOrder: the lifecycle callbacks.
-- Rooms/RateLimit: rate_limit.go; RateLimit/Waiting: what it tells a client and whom a request changes.
-- Rooms/GameEnd: game_end.go, with GameEnd/Results, Verdicts, Teams and Ending.
-- Rooms/Setup: newStore.
-- Rooms/Invariant: what holds of the Store between operations. Views, Changes and Keeps treat the
-- changes one by one, Removal and Retirement the operations that remove rooms, Timers their timers,
-- Frames and Members those on one room, Outcomes and BotIds the identifiers, Seats and Bots the participants, Creation,
-- Search and Joins the new rooms and the matchmaking, History any sequence of operations.
-- Rooms/Tests, with Tests/Matches, Tests/Reports and Tests/Sessions: concrete runs.
--
-- How the state is kept: an identifier is a string; a map is an association list whose order stands for
-- the order of a range over it; a pointer is a number, to a room in `Store.heap`, to a session in
-- `Store.client_sessions`, and a ticker or channel for itself, below `next_handle`. Instants are
-- nanoseconds; one that the code tests by IsZero is an option. A float64 is its 64 bits; what
-- the hardware and the package math make of it is the record Floats, of which nothing is assumed.
-- A session's goroutines are cut into the sections under its lock, the steps of its writer and the
-- results of conn.Write, and run one at a time in any order; so are the goroutines in the two queues of
-- publications, whose callbacks run outside their locks. uint64 counters wrap. Counts of type int are natural numbers: the guards on
-- negative ones have no counterpart, and subtractions are written where they cannot pass zero or where
-- the code cuts at zero.
-- The clock gives `now` to each operation. crypto/rand with base64, the choice of bots, sha256 and the
-- spawn points are fields of the Store, and net/netip is the record Netip, without any assumption.
--
-- Bounds: an identifier is drawn at most eight times, as in the code. The dealing of participants to
-- teams has fuel for one round more than there are participants before the one asked for; each round
-- but the last deals to one. The drainer of the observer has two turns for each publication, its section
-- and its call, and two more, and that of a session two for each and one to leave.
--
-- Not modelled: an operation of the Store runs as one step, so the interleavings between the lock
-- sections of one operation are left out, and the second look of addBots at its room finds it as the
-- first did; of a cancelled match the gauge of clients is published before that of rooms. Logs,
-- deliveries to clients, the heartbeat and the read loop of a session, panics of callbacks, shutdown,
-- tickRoomState, the dashes and teleports of the simulation and its Step as a whole, bots and the HTTP
-- handlers are left out as well.
pub mod Base
pub mod Simulation
pub mod Rooms
