-- ===== src/Lcm.antt =====
-- The LCM format.
pub mod Hash
pub mod Encode
pub mod Fields
pub mod Decode
pub mod Mismatch
pub mod Primitives
pub mod RoundTrip
pub mod Packet
pub mod Channels
pub mod Dynamic
mod Tests
