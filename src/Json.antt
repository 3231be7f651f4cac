-- ===== src/Json.antt =====
-- The JSON visitors.
pub mod Base64
pub mod Print
pub mod Joined
pub mod RoundTrip
mod Tests
