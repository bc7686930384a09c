-- ===== src/Peer.antt =====
-- impl/peer.hpp: one end of a connection.
pub mod State
pub mod Write
pub mod Read
pub mod Timers
pub mod Events
pub mod Signals
pub mod Queue
pub mod Body
pub mod Closed
pub mod Messages
pub mod Receive
pub mod Stream
pub mod Unannounced
pub mod Check
pub mod Send
pub mod Destruction
