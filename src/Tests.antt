-- ===== src/Tests.antt =====
-- Runs of the model on concrete inputs, one module per part of the program.
pub mod Protocol
pub mod Peer
pub mod Link
pub mod Client
pub mod Server
pub mod Example
