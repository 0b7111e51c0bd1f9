-- ===== src/Controller.antt =====
-- internal/controller: the request handlers over the runtime state and the core.
pub mod Node
pub mod Requests
pub mod Handler
pub mod Lifecycle
pub mod Stats
pub mod Internal
