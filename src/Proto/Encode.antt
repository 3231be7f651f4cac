-- ===== src/Proto/Encode.antt =====
-- ToProtoVisitor (libcluon/src/ToProtoVisitor.cpp, libcluon/include/cluon/ToProtoVisitor.hpp): each
-- method appends to the buffer. The names of fields and messages are not looked at.
pub mod Records
use libcluon.Prelude.{
  ℕ, ◌+◌, ◌*◌, ◌%◌, ◌^◌, ◌<◌, Bool, List, [], ◌++◌, bit_or, if◌then◌else◌, length,
}
use libcluon.Prelude.Words.{le_bytes}
use libcluon.Visitor.{Ty, Schema, Val, Vals, end, field, message}
use libcluon.Visitor.{bool, char, int8, uint8, int16, uint16, int32, uint32, int64, uint64}
use libcluon.Visitor.{float, double, string}
use libcluon.Proto.ZigZag.{to_zig_zag}
use libcluon.Proto.VarInt.{to_var_int}

-- enum class ProtoConstants (libcluon/include/cluon/ProtoConstants.hpp)
abbrev pub varint : ℕ
varint = 0

abbrev pub eight_bytes : ℕ
eight_bytes = 1

abbrev pub length_delimited : ℕ
length_delimited = 2

abbrev pub four_bytes : ℕ
four_bytes = 5

-- (fieldIdentifier << 0x3) | protoType, computed in a uint32_t
unfoldable pub encode_key : ℕ → ℕ → ℕ
encode_key id proto_type = bit_or (id * 2 ^ 3 % 2 ^ 32) proto_type

-- The overloads of encode() that write a VarInt: the number that they hand to toVarInt. The other
-- types have none, and visit() does not come here with them.
unfoldable pub var_int_of : (t : Ty) → Val t → ℕ
var_int_of bool v = if v then 1 else 0
var_int_of char v = v
var_int_of int8 v = to_zig_zag 8 v
var_int_of uint8 v = v
var_int_of int16 v = to_zig_zag 16 v
var_int_of uint16 v = v
var_int_of int32 v = to_zig_zag 32 v
var_int_of uint32 v = v
var_int_of int64 v = to_zig_zag 64 v
var_int_of uint64 v = v
var_int_of _ v = 0

-- The overloads of encode() for float, double and std::string.
encode_float : List ℕ → ℕ → List ℕ
encode_float out v = out ++ le_bytes 4 v

encode_double : List ℕ → ℕ → List ℕ
encode_double out v = out ++ le_bytes 8 v

encode_string : List ℕ → List ℕ → List ℕ
encode_string out v = (to_var_int out (length v)).0 ++ v

-- toKeyValue<T>
to_key_value : List ℕ → ℕ → (t : Ty) → Val t → List ℕ
to_key_value out id t v = (to_var_int (to_var_int out (encode_key id varint)).0 (var_int_of t v)).0

-- visit() for each type, and accept() of a message: the buffer after it.
unfoldable mutual
  unfolding encode_float encode_double encode_string to_key_value

  pub visit : List ℕ → ℕ → (t : Ty) → Val t → List ℕ
  visit out id float v = encode_float (to_var_int out (encode_key id four_bytes)).0 v
  visit out id double v = encode_double (to_var_int out (encode_key id eight_bytes)).0 v
  visit out id string v = encode_string (to_var_int out (encode_key id length_delimited)).0 v
  visit out id (message s) v =
      encode_string (to_var_int out (encode_key id length_delimited)).0 (accept [] s v)
  visit out id t v = to_key_value out id t v

  pub accept : List ℕ → (s : Schema) → Vals s → List ℕ
  accept out end v = out
  accept out (field id name t s) v = accept (visit out id t v.0) s v.1

-- accept() with a new visitor, and encodedData().
abbrev pub encoded_data : (s : Schema) → Vals s → List ℕ
encoded_data s v = accept [] s v
