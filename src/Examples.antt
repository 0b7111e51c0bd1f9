-- ===== src/Examples.antt =====
-- The theorems at concrete inputs.
mod Fixtures
mod State
mod Config
mod Stats
mod Core
mod Handler
mod Lifecycle
mod Environment
mod System
mod Files
mod Panel
mod Http
