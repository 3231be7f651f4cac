-- ===== src/Proto.antt =====
-- The Protobuf wire format.
pub mod ZigZag
pub mod VarInt
pub mod Encode
pub mod Decode
pub mod Returning
pub mod RoundTrip
pub mod FieldMap
pub mod MapRoundTrip
pub mod Duplicates
mod Tests
