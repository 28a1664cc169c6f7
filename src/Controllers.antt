-- ===== src/Controllers.antt =====
-- The set-up of the controllers (internal/controller) and the process (cmd/provider/main.go).
pub mod Types
pub mod Setup
pub mod Namespaced
pub mod Cluster
pub mod Process
pub mod Scripts
pub mod Register
pub mod Scopes
pub mod Reviews
pub mod Endings
pub mod Wiring
pub mod Serving
pub mod Startup
mod Tests
