-- ===== src/Http.antt =====
-- internal/httpapi: who may reach the handlers, and with what body. net/http, gin, the JWT library,
-- the zstd decoder and the cryptography are parameters.
pub mod Tokens
pub mod Body
pub mod Tls
pub mod Server
pub mod Routes
