-- ===== src/Backend.antt =====
-- backend/src: the services over the in-memory store.
pub mod Categories
pub mod Model
pub mod Table
pub mod Store
pub mod Outcome
pub mod Days
pub mod RateLimit
pub mod Scopes
pub mod Enrollment
pub mod Grants
pub mod Assembly
pub mod Decide
pub mod Requests
pub mod Devices
pub mod Email
pub mod Family
pub mod Auth
