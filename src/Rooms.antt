-- ===== src/Rooms.antt =====
-- Package internal/rooms: the registry of rooms, matchmaking, the life of a room, and its clients.
pub mod Types
pub mod Observer
pub mod Resources
pub mod Monad
pub mod Identity
pub mod Participants
pub mod Phases
pub mod Registry
pub mod Matchmaking
pub mod Clients
pub mod Inputs
pub mod GameEnd
pub mod Session
pub mod RateLimit
pub mod Setup
pub mod Invariant
mod Tests
