-- ===== src/Proto/Decode/Direct.antt =====
-- FromProtoVisitor::decodeFrom(in, v) and the visit() methods while it runs
-- (libcluon/include/cluon/FromProtoVisitor.hpp, libcluon/src/FromProtoVisitor.cpp), with the accept()
-- of generated messages (libcluon/src/MetaMessageToCPPTransformator.cpp).
use libcluon.Prelude.{ℕ, suc, ◌^◌, ◌%◌, not, List, ◌==◌, if◌then◌else◌, length}
use libcluon.Visitor.{Ty, Schema, Val, Vals, end, field, message}
use libcluon.Visitor.{bool, char, int8, uint8, int16, uint16, int32, uint32, int64, uint64}
use libcluon.Visitor.{float, double, string}
use libcluon.Prelude.Words.{from_le}
use libcluon.Stream.{stream}
use libcluon.Proto.ZigZag.{from_zig_zag}
use libcluon.Proto.Decode.{Decoder, new_decoder, first_bytes, decode_loop}

-- Decoding directly: visit() for each type takes the members as they are, whatever the last wire type
-- was, and accept(fieldId, visitor) of a message visits the field of that identifier, if there is one.
module _ (memory : ℕ → ℕ) where
  unfoldable mutual
    pub visit_direct : (t : Ty) → Decoder → Val t → Val t
    visit_direct bool d v = not (d.value == 0)
    visit_direct char d v = d.value % 2 ^ 8
    visit_direct int8 d v = from_zig_zag 8 (d.value % 2 ^ 8)
    visit_direct uint8 d v = d.value % 2 ^ 8
    visit_direct int16 d v = from_zig_zag 16 (d.value % 2 ^ 16)
    visit_direct uint16 d v = d.value % 2 ^ 16
    visit_direct int32 d v = from_zig_zag 32 (d.value % 2 ^ 32)
    visit_direct uint32 d v = d.value % 2 ^ 32
    visit_direct int64 d v = from_zig_zag 64 d.value
    visit_direct uint64 d v = d.value
    visit_direct float d v = from_le d.float_value
    visit_direct double d v = from_le d.double_value
    visit_direct string d v = first_bytes memory d.string_value d.value
    visit_direct (message s) d v =
        let bytes = first_bytes memory d.string_value d.value in
        decode_loop (accept_field s) (suc (length bytes)) new_decoder (stream bytes) v

    pub accept_field : (s : Schema) → Decoder → Vals s → Vals s
    accept_field end d v = v
    accept_field (field id name t s) d (a, v) =
        if d.field_id == id then (visit_direct t d a, v) else (a, accept_field s d v)

  -- decodeFrom(in, v) with a new visitor, on the bytes of the stream.
  unfoldable pub decode_into : (s : Schema) → List ℕ → Vals s → Vals s
  decode_into s bytes v =
      decode_loop (accept_field s) (suc (length bytes)) new_decoder (stream bytes) v
