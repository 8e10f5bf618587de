-- ===== src/Server.antt =====
-- unyport/backend/server/server.go: what the set-up computes.
pub mod Origins
pub mod Routes
