-- ===== src/Signaling.antt =====
-- apps/signaling: the connection registry, the repositories, the limiters and the router.
pub mod Registry
pub mod Pairings
pub mod Sessions
pub mod Devices
pub mod RateLimit
pub mod Router
pub mod System
pub mod Turn
pub mod Http
