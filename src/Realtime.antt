-- ===== src/Realtime.antt =====
-- apps/api/src/realtime: the tickets that open a WebSocket, and the gateway that tells the sockets.
pub mod Tickets
pub mod Gateway
pub mod Rooms
pub mod Admission
