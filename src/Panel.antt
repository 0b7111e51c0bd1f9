-- ===== src/Panel.antt =====
-- internal/testkit/panel_client.go and cmd/panel-integration/main.go: the client of the panel and the
-- commands that drive a node through it.
pub mod Redact
pub mod Redacted
pub mod Alike
pub mod Client
pub mod Requests
pub mod Nodes
pub mod Wait
pub mod Smoke
pub mod Ends
pub mod Reached
