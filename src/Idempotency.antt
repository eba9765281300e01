-- ===== src/Idempotency.antt =====
-- The idempotency layer: the domain port, the Redis store behind it and the HTTP middleware.
pub mod Record
pub mod Redis
pub mod Program
pub mod Store
pub mod Recorder
pub mod Middleware
pub mod Exclusion
pub mod Hazards
pub mod Expiry
pub mod Contract
mod Tests
