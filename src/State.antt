-- ===== src/State.antt =====
-- internal/state: the runtime state that the controllers share.
pub mod Hashes
pub mod Runtime
pub mod Restart
pub mod Inbounds
