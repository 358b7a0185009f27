-- ===== src/Web.antt =====
-- internal/web: what the dashboard and the HTTP endpoints show of a snapshot.
pub mod View
pub mod Server
