-- ===== src/Proto/Decode/Returns.antt =====
-- Whether decodeFrom(in, v) of libcluon/include/cluon/FromProtoVisitor.hpp returns (visit() and
-- fromVarInt are in libcluon/src/FromProtoVisitor.cpp). It is noexcept: where reserve() or a
-- std::string throws, since there is no room for as many bytes as a length says, the program is
-- terminated. A number of more than ten bytes is shifted by 64 bits and more, which is undefined.
use libcluon.Prelude.{
  ℕ, zero, suc, Bool, true, ◌&&◌, List, Option, none, some, ltb, leb, ◌==◌, if◌then◌else◌, length,
}
use libcluon.Visitor.{Ty, Schema, end, field, message, string}
use libcluon.Stream.{Stream, stream}
use libcluon.Proto.VarInt.{from_var_int}
use libcluon.Proto.Encode.{varint, length_delimited}
use libcluon.Proto.Decode.{Decoder, new_decoder, first_bytes, with_key, read_field, decode_loop}

-- `room` is the most bytes that a std::vector<char> or a std::string can get.
module _ (room : ℕ) where
  -- The switch on m_protoType.
  unfoldable pub payload_returns : Decoder → Stream → Bool
  payload_returns d s =
      let (v, size, s') = from_var_int s in
      if d.proto_type == varint
      then leb size 10
      else if d.proto_type == length_delimited
      then leb size 10 && leb v room
      else true

  -- One round of the loop on a good stream, up to v.accept(m_fieldId, *this).
  unfoldable pub field_returns : Decoder → Stream → Bool
  field_returns d s =
      let (key, size, s') = from_var_int s in
      leb size 10 && (if ltb 0 size then payload_returns (with_key d key) s' else true)

  -- The loop, with what `check` says of the visit after a case of the switch.
  unfoldable pub loop_returns : (Decoder → Bool) → ℕ → Decoder → Stream → Bool
  loop_returns check zero d s = true
  loop_returns check (suc rounds) d s =
      let (d', s', known) = read_field d s in
      let rest = loop_returns check rounds d' s' in
      if s.good then field_returns d s && (if known then check d' else true) && rest else true

  -- The loop with its result, and `none` where it does not return.
  unfoldable pub loop_outcome {ℓ} :
      {X : Type ℓ} → (Decoder → X → X) → (Decoder → Bool) → ℕ → Decoder → Stream → X → Option X
  loop_outcome store check rounds d s x =
      if loop_returns check rounds d s then some (decode_loop store rounds d s x) else none

  module _ (memory : ℕ → ℕ) where
    -- visit() makes a std::string of m_value bytes for a string and for a nested message.
    unfoldable mutual
      pub visit_returns : (t : Ty) → Decoder → Bool
      visit_returns string d = leb d.value room
      visit_returns (message s) d =
          let bytes = first_bytes memory d.string_value d.value in
          leb d.value room
          && loop_returns (fields_return s) (suc (length bytes)) new_decoder (stream bytes)
      visit_returns t d = true

      -- accept(fieldId, visitor): the field of that identifier, if there is one.
      pub fields_return : (s : Schema) → Decoder → Bool
      fields_return end d = true
      fields_return (field id name t s) d =
          if d.field_id == id then visit_returns t d else fields_return s d

    -- decodeFrom(in, v) with a new visitor, on the bytes of the stream.
    unfoldable pub decode_returns : (s : Schema) → List ℕ → Bool
    decode_returns s bytes =
        loop_returns (fields_return s) (suc (length bytes)) new_decoder (stream bytes)
