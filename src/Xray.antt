-- ===== src/Xray.antt =====
-- internal/xray: the embedded core, its configuration, users and statistics.
pub mod Config
pub mod Users
pub mod StatNames
pub mod Stats
pub mod Geodata
pub mod Core
pub mod Routing
