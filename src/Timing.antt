-- ===== src/Timing.antt =====
-- apps/api/src/timing: the pure engine and the service that applies it.
pub mod Subscriber
pub mod Engine
pub mod Service
