-- ===== src/Envelope.antt =====
-- Envelopes and the OD4 framing: libcluon/include/cluon/Envelope.hpp, with the messages TimeStamp
-- and Envelope of libcluon/resources/cluonDataStructures.odvd.
pub mod Framing
pub mod Outcome
pub mod Recorded
mod Tests
use libcluon.Prelude.{
  ℕ, zero, suc, ◌+◌, ◌*◌, ◌/◌, ◌%◌, ◌^◌, ◌<◌, Bool, true, false, ◌&&◌, List, [], ◌∷◌, ◌++◌,
}
use libcluon.Prelude.{◌==◌, if◌then◌else◌, length, drop, take, set, codes}
use libcluon.Prelude.Words.{le_bytes, from_le}
use libcluon.Stream.{Stream, stream, read}
use libcluon.Visitor.{Schema, Val, Vals, end, field, message, int32, uint32, string}
use libcluon.Proto.Encode.{encoded_data}
use libcluon.Proto.Decode.Direct.{decode_into}

abbrev pub time_stamp : Schema
time_stamp = field 1 (codes "seconds") int32 (field 2 (codes "microseconds") int32 end)

abbrev pub envelope : Schema
envelope = field 1 (codes "dataType") int32 (
    field 2 (codes "serializedData") string (
      field 3 (codes "sent") (message time_stamp) (
        field 4 (codes "received") (message time_stamp) (
          field 5 (codes "sampleTimeStamp") (message time_stamp)
            (field 6 (codes "senderStamp") uint32 end)))))

abbrev pub TimeStamp : Type 0
TimeStamp = Vals time_stamp

abbrev pub Envelope : Type 0
Envelope = Vals envelope

-- dataType, serializedData, the seconds of sampleTimeStamp, and senderStamp.
abbrev pub data_type : Envelope → ℕ
data_type env = env.0

abbrev pub serialized_data : Envelope → List ℕ
serialized_data env = env.1.0

abbrev pub sample_seconds : Envelope → ℕ
sample_seconds env = env.1.1.1.1.0.0

abbrev pub sender_stamp : Envelope → ℕ
sender_stamp env = env.1.1.1.1.1.0

-- TimeStamp() and Envelope()
abbrev pub new_time_stamp : TimeStamp
new_time_stamp = (0, (0, tt))

abbrev pub new_envelope : Envelope
new_envelope = (0, ([], (new_time_stamp, (new_time_stamp, (new_time_stamp, (0, tt))))))

-- The first byte and the length shifted by eight bits, whose lowest byte is then written over. The
-- length is a uint32_t, so bits 24 and up of the size are lost.
unfoldable pub serialize_envelope : Envelope → List ℕ
serialize_envelope env =
    let tmp = encoded_data envelope env in
    let length' = length tmp % 2 ^ 32 * 2 ^ 8 % 2 ^ 32 in
    set (0x0D ∷ le_bytes 4 length') 1 0xA4 ++ tmp

-- The byte at `i` of what has been read.
abbrev pub byte_at : List ℕ → ℕ → ℕ
byte_at [] i = 0
byte_at (b ∷ bs) zero = b
byte_at (b ∷ bs) (suc i) = byte_at bs i

-- le32toh(*reinterpret_cast<uint32_t *>(&buffer[1])) >> 8
unfoldable pub header_length : List ℕ → ℕ
header_length header = from_le (take 4 (drop 1 header)) / 2 ^ 8

-- The result of extractEnvelope, and the stream after it. `memory` is that of the decoder.
module _ (memory : ℕ → ℕ) where
  abbrev decode_envelope : List ℕ → Envelope
  decode_envelope bytes = decode_into memory envelope bytes new_envelope

  -- Reading the payload after a header with the magic bytes.
  unfoldable pub extract_payload : ℕ → Stream → Bool × Envelope × Stream
  extract_payload n s =
      let (bytes, s') = read n s in
      if length bytes == n then (true, decode_envelope bytes, s') else (false, new_envelope, s')

  unfoldable pub extract_envelope : Stream → Bool × Envelope × Stream
  unfolding extract_payload header_length
  extract_envelope s =
      let (header, s') = read 5 s in
      if s.good && (length header == 5)
      then (if (byte_at header 0 == 0x0D) && (byte_at header 1 == 0xA4)
          then extract_payload (header_length header) s'
          else (false, new_envelope, s'))
      else (false, new_envelope, s')
