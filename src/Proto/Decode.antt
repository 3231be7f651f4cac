-- ===== src/Proto/Decode.antt =====
-- FromProtoVisitor (libcluon/src/FromProtoVisitor.cpp, libcluon/include/cluon/FromProtoVisitor.hpp):
-- the members, and the loop that both ways to decode share.
pub mod Direct
pub mod Map
pub mod Reading
pub mod Loop
pub mod Returns
pub mod Rounds
use libcluon.Prelude.{ℕ, zero, suc, ◌-◌, ◌/◌, ◌%◌, ◌^◌, Bool, true, false}
use libcluon.Prelude.{List, [], ◌∷◌, ◌++◌, ltb, ◌==◌, if◌then◌else◌, length, drop, bit_and}
use libcluon.Stream.{Stream, read}
use libcluon.Proto.VarInt.{from_var_int}
use libcluon.Proto.Encode.{varint, eight_bytes, length_delimited, four_bytes}

-- The members that hold what was read last. The unions of a number and its bytes are their bytes;
-- m_stringValue is the bytes that readBytesFromStream has stored in it.
pub record Decoder : Type 0 where
  pub value : ℕ
  pub double_value : List ℕ
  pub float_value : List ℕ
  pub string_value : List ℕ
  pub key_field_type : ℕ
  pub proto_type : ℕ
  pub field_id : ℕ

abbrev pub new_decoder : Decoder
new_decoder = record {
  value = 0;
  double_value = 0 ∷ 0 ∷ 0 ∷ 0 ∷ 0 ∷ 0 ∷ 0 ∷ 0 ∷ [];
  float_value = 0 ∷ 0 ∷ 0 ∷ 0 ∷ [];
  string_value = [];
  key_field_type = 0;
  proto_type = varint;
  field_id = 0;
}

-- readBytesFromStream: chunks of at most 1024 bytes while there are bytes to read and the stream is
-- good; the bytes stored. Every round with a good stream after it has stored a byte, so `n` rounds
-- are enough for `n` bytes.
read_chunks : ℕ → ℕ → Stream → List ℕ × Stream
read_chunks zero n s = ([], s)
read_chunks (suc rounds) n s =
    let (chunk, s') = read (if ltb 1024 n then 1024 else n) s in
    let (more, s'') = read_chunks rounds (n - length chunk) s' in
    if ltb 0 n then (if s.good then (chunk ++ more, s'') else ([], s)) else ([], s)

unfoldable pub read_bytes_from_stream : ℕ → Stream → List ℕ × Stream
unfolding read_chunks
read_bytes_from_stream n s = read_chunks n n s

-- Bytes stored at the start of a buffer leave what stands behind them.
abbrev pub overwrite : List ℕ → List ℕ → List ℕ
overwrite bytes buffer = bytes ++ drop (length bytes) buffer

-- The first `n` bytes of a buffer, where `memory` is what stands behind the bytes stored last.
unfoldable pub first_bytes : (ℕ → ℕ) → List ℕ → ℕ → List ℕ
first_bytes memory bytes zero = []
first_bytes memory [] (suc n) = memory zero ∷ first_bytes (λ i. memory (suc i)) [] n
first_bytes memory (b ∷ bytes) (suc n) = b ∷ first_bytes (λ i. memory (suc i)) bytes n

-- The switch on m_protoType, which both ways share: the members and the stream after it, and whether
-- one of its cases was taken; where reserve() does not throw, for which see Proto/Decode/Returns.antt.
unfoldable pub read_payload : Decoder → Stream → Decoder × Stream × Bool
read_payload d s =
    if d.proto_type == varint
    then (let (v, size, s') = from_var_int s in (record d { value = v }, s', true))
    else if d.proto_type == eight_bytes
    then (let (bytes, s') = read_bytes_from_stream 8 s in
        (record d { double_value = overwrite bytes d.double_value }, s', true))
    else if d.proto_type == four_bytes
    then (let (bytes, s') = read_bytes_from_stream 4 s in
        (record d { float_value = overwrite bytes d.float_value }, s', true))
    else if d.proto_type == length_delimited
    then (let (v, size, s') = from_var_int s in
        let (bytes, s'') = read_bytes_from_stream v s' in
        (record d { value = v; string_value = bytes }, s'', true))
    else (d, s, false)

-- Reading keyFieldType and taking it apart.
abbrev pub with_key : Decoder → ℕ → Decoder
with_key d key = record d {
  key_field_type = key;
  proto_type = bit_and key 0x7;
  field_id = key / 2 ^ 3 % 2 ^ 32;
}

-- One round of either loop on a good stream.
unfoldable pub read_field : Decoder → Stream → Decoder × Stream × Bool
read_field d s =
    let (key, size, s') = from_var_int s in
    if ltb 0 size
    then read_payload (with_key d key) s'
    else (record d { key_field_type = key }, s', false)

-- The loop of either way, with what it does to its target `x` after a case of the switch. Each round
-- takes a byte or meets the end of the stream.
unfoldable pub decode_loop {ℓ} : {X : Type ℓ} → (Decoder → X → X) → ℕ → Decoder → Stream → X → X
decode_loop store zero d s x = x
decode_loop store (suc rounds) d s x =
    let (d', s', known) = read_field d s in
    let rest = decode_loop store rounds d' s' (if known then store d' x else x) in
    if s.good then rest else x
