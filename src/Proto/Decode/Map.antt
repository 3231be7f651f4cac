-- ===== src/Proto/Decode/Map.antt =====
-- FromProtoVisitor::decodeFrom(in) into a map of the fields, and the visit() methods after it
-- (libcluon/src/FromProtoVisitor.cpp, libcluon/include/cluon/FromProtoVisitor.hpp).
use libcluon.Prelude.{ℕ, suc, ◌^◌, ◌%◌, Bool, not, List, [], ◌∷◌, ◌==◌, if◌then◌else◌, length}
use libcluon.Prelude.{Option, none, some}
use libcluon.Visitor.{Ty, Schema, Val, Vals, end, field, message}
use libcluon.Visitor.{bool, char, int8, uint8, int16, uint16, int32, uint32, int64, uint64}
use libcluon.Visitor.{float, double, string}
use libcluon.Prelude.Words.{from_le}
use libcluon.Stream.{stream}
use libcluon.Proto.ZigZag.{from_zig_zag}
use libcluon.Proto.Decode.{Decoder, new_decoder, first_bytes, decode_loop}
use libcluon.Proto.Encode.{varint, eight_bytes, four_bytes}

-- The types that the code puts into a linb::any.
pub data Any : Type 0 where
  uint64_any float_any double_any : ℕ → Any
  string_any : List ℕ → Any

-- std::unordered_map<uint32_t, linb::any>, of which the code uses emplace, count and [].
abbrev pub FieldMap : Type 0
FieldMap = List (ℕ × Any)

unfoldable pub find : ℕ → FieldMap → Option Any
find k [] = none
find k ((j, a) ∷ m) = if j == k then some a else find k m

-- emplace changes nothing where the key is there.
unfoldable pub emplace : ℕ → Any → FieldMap → FieldMap
emplace k a m = elim (find k m) [ none ↦ (k, a) ∷ m | some b ↦ m ]

module _ (memory : ℕ → ℕ) where
  -- What the cases of the switch put into the map.
  unfoldable pub store_any : Decoder → FieldMap → FieldMap
  store_any d m =
      if d.proto_type == varint
      then emplace d.field_id (uint64_any d.value) m
      else if d.proto_type == eight_bytes
      then emplace d.field_id (double_any (from_le d.double_value)) m
      else if d.proto_type == four_bytes
      then emplace d.field_id (float_any (from_le d.float_value)) m
      else emplace d.field_id (string_any (first_bytes memory d.string_value d.value)) m

  -- decodeFrom(in): the map is cleared first.
  unfoldable pub decode_map : Decoder → List ℕ → FieldMap
  decode_map d bytes = decode_loop store_any (suc (length bytes)) d (stream bytes) []

  -- visit() after decodeFrom(in): a field that is missing, or of which the map holds another type,
  -- keeps its value.
  visit_number : Option Any → ℕ → (ℕ → ℕ) → ℕ
  visit_number (some (uint64_any n)) v f = f n
  visit_number _ v f = v

  visit_bool : Option Any → Bool → Bool
  visit_bool (some (uint64_any n)) v = not (n == 0)
  visit_bool _ v = v

  visit_float : Option Any → ℕ → ℕ
  visit_float (some (float_any n)) v = n
  visit_float _ v = v

  visit_double : Option Any → ℕ → ℕ
  visit_double (some (double_any n)) v = n
  visit_double _ v = v

  visit_string : Option Any → List ℕ → List ℕ
  visit_string (some (string_any bytes)) v = bytes
  visit_string _ v = v

  -- The nested visitor decodes the bytes, and the message accepts it.
  visit_message {ℓ} : {X : Type ℓ} → Option Any → X → (FieldMap → X → X) → X
  visit_message (some (string_any bytes)) v accept = accept (decode_map new_decoder bytes) v
  visit_message _ v accept = v

  unfoldable mutual
    unfolding visit_number visit_bool visit_float visit_double visit_string visit_message

    pub visit_map : (t : Ty) → Option Any → Val t → Val t
    visit_map bool a v = visit_bool a v
    visit_map char a v = visit_number a v (λ n. n % 2 ^ 8)
    visit_map int8 a v = visit_number a v (λ n. from_zig_zag 8 (n % 2 ^ 8))
    visit_map uint8 a v = visit_number a v (λ n. n % 2 ^ 8)
    visit_map int16 a v = visit_number a v (λ n. from_zig_zag 16 (n % 2 ^ 16))
    visit_map uint16 a v = visit_number a v (λ n. n % 2 ^ 16)
    visit_map int32 a v = visit_number a v (λ n. from_zig_zag 32 (n % 2 ^ 32))
    visit_map uint32 a v = visit_number a v (λ n. n % 2 ^ 32)
    visit_map int64 a v = visit_number a v (λ n. from_zig_zag 64 n)
    visit_map uint64 a v = visit_number a v (λ n. n)
    visit_map float a v = visit_float a v
    visit_map double a v = visit_double a v
    visit_map string a v = visit_string a v
    visit_map (message s) a v = visit_message a v (accept_map s)

    pub accept_map : (s : Schema) → FieldMap → Vals s → Vals s
    accept_map end m v = v
    accept_map (field id name t s) m (a, v) = (visit_map t (find id m) a, accept_map s m v)

  -- extractMessage<T> of libcluon/include/cluon/Envelope.hpp, on the bytes of the payload and the
  -- fields of a new message.
  unfoldable pub extract_message : (s : Schema) → List ℕ → Vals s → Vals s
  extract_message s bytes v = accept_map s (decode_map new_decoder bytes) v
