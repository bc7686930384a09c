-- ===== src/Example.antt =====
-- example/main.cpp: the program that shows the library, a server and a client in one process.
pub mod Output
pub mod App
pub mod Events
pub mod Lived
pub mod Calls
pub mod Replies
pub mod Answers
pub mod End
pub mod Listing
