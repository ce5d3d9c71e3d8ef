-- ===== src/Server.antt =====
-- internal/server: the middleware that stands in front of every handler, and the routes.
pub mod Rbac
pub mod RateLimit
pub mod Requests
pub mod Guards
pub mod Gates
pub mod Routes
mod Examples
