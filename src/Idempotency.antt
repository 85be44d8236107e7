-- ===== src/Idempotency.antt =====
-- The Idempotency-Key convention: key syntax, request fingerprints, the record table and the
-- middleware that uses them (ui/backend/internal/idempotency, ui/backend/internal/httpapi/idempotency.go).
pub mod Key
pub mod Keyring
pub mod Store
pub mod Outcome
pub mod Body
pub mod Request
mod Tests
