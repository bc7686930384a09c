-- ===== src/Server.antt =====
-- server.hpp: a server on a socket file, and its peers.
pub mod State
pub mod Acceptor
pub mod Peers
pub mod HealthCheck
pub mod Tasks
pub mod Api
pub mod Facade
pub mod Events
pub mod Induction
pub mod Quiet
pub mod Exposure
pub mod History
pub mod Waiting
pub mod Links
pub mod Session
pub mod Stop
pub mod Spared
pub mod Sharing
pub mod Attempts
pub mod Load
pub mod Reports
pub mod Failures
pub mod Pace
pub mod Detached
pub mod Shutdown
pub mod Growth
pub mod Unmoved
pub mod Keeping
pub mod Release
pub mod Ids
pub mod Line
pub mod Lined
pub mod Order
