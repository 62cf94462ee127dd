-- ===== src/Game.antt =====
-- The noughts-and-crosses game of cw10: the board, a player's process, and the server over stream
-- sockets, and over datagrams.
pub mod Board
pub mod Client
pub mod Server
pub mod Relay
pub mod Datagram
mod Tests
