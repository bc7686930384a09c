-- ===== src/Client.antt =====
-- client.hpp: a client that keeps one connection to a server.
pub mod State
pub mod Connection
pub mod Requests
pub mod Tasks
pub mod Api
pub mod Facade
pub mod Events
pub mod Induction
pub mod Session
pub mod History
pub mod Stop
pub mod Shutdown
pub mod Load
pub mod Failures
pub mod Pace
pub mod Release
pub mod Growth
