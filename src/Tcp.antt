-- ===== src/Tcp.antt =====
-- The TCP messages of the camera plugin, tcp_comms.c: the settings that the operator's program sends,
-- the exchange of all parameters at the start of a connection, and the texts that are sent back.
pub mod Types
pub mod Cases
pub mod Handle
pub mod Swap
pub mod Server
pub mod Text
mod Tests
