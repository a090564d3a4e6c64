-- ===== src/Udp.antt =====
-- The UDP messages of the camera plugin, udp_comms.c: the table of clients, sending to them, and the
-- synchronization of their clocks.
pub mod Types
pub mod Table
pub mod Send
pub mod Echo
pub mod Status
pub mod Loop
mod Tests
