-- ===== src/Network.antt =====
-- src/network: the JSON lines that the two ends exchange, the client and the server's loop.
pub mod Protocol
pub mod Sockets
pub mod Client
pub mod Server
pub mod Session
pub mod Response
pub mod Listen
