-- ===== src/MsgPack.antt =====
-- The MsgPack format.
pub mod Constants
pub mod Encode
pub mod Tree
pub mod Written
pub mod Names
pub mod RoundTrip
pub mod Limits
mod Tests
pub mod Decode
