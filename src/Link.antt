-- ===== src/Link.antt =====
-- Two peers of impl/peer.hpp at the ends of a connection, in one direction: one writes, the other
-- reads. The socket keeps the bytes that were written and not yet read, in order.
pub mod Packets
pub mod Steps
pub mod Sender
pub mod Receiver
pub mod Fifo
pub mod Writing
pub mod Reading
pub mod Order
pub mod Flush
pub mod Drain
