-- ===== src/Limiter.antt =====
-- The throttles of the HTTP API (ui/backend/internal/httpapi): failed logins per source, password
-- changes, and the budgets of machine clients.
pub mod Table
pub mod Login
mod Tests
