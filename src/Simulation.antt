-- ===== src/Simulation.antt =====
-- Package internal/simulation: the data of a match, its configuration, and the rules of a tick.
pub mod Types
pub mod Modes
pub mod Floats
pub mod State
pub mod Charges
pub mod Recharge
pub mod Maps
pub mod Ranges
pub mod Combat
pub mod Hits
pub mod Tombstones
pub mod Inputs
pub mod Attacks
pub mod Skills
pub mod Bursts
pub mod Approvals
pub mod Melee
pub mod Movement
pub mod Kinds
pub mod Kept
pub mod Play
mod Tests
