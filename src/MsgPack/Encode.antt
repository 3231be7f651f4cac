-- ===== src/MsgPack/Encode.antt =====
-- ToMsgPackVisitor (libcluon/src/ToMsgPackVisitor.cpp, libcluon/include/cluon/ToMsgPackVisitor.hpp).
use libcluon.Prelude.{ℕ, ◌+◌, ◌-◌, ◌%◌, ◌^◌, Bool, ◌||◌, List, [], ◌∷◌, ◌++◌}
use libcluon.Prelude.{ltb, leb, bit_or, if◌then◌else◌, length, take}
use libcluon.Prelude.Words.{be_bytes}
use libcluon.Visitor.{Ty, Schema, Val, Vals, end, field, message}
use libcluon.Visitor.{bool, char, int8, uint8, int16, uint16, int32, uint32, int64, uint64}
use libcluon.Visitor.{float, double, string}
use libcluon.MsgPack.Constants.{is_false, is_true, float_tag, double_tag, uint8_tag, uint16_tag}
use libcluon.MsgPack.Constants.{uint32_tag, uint64_tag, int8_tag, int16_tag, int32_tag, int64_tag}
use libcluon.MsgPack.Constants.{fixstr, str8, str16, str32, fixmap, map16, map32}

-- encode(o, s): the length is a uint32_t.
unfoldable pub encode : List ℕ → List ℕ → List ℕ
encode o s =
    let n = length s % 2 ^ 32 in
    let header =
      if ltb n 32
      then bit_or fixstr n ∷ []
      else if leb n 0xFF
      then str8 ∷ be_bytes 1 n
      else if leb n 0xFFFF
      then str16 ∷ be_bytes 2 n
      else str32 ∷ be_bytes 4 n in
    o ++ (header ++ take n s)

-- encodeUint(o, v)
unfoldable pub encode_uint : List ℕ → ℕ → List ℕ
encode_uint o v =
    o
    ++ (if leb v 0x7F
        then v ∷ []
        else if leb v 0xFF
        then uint8_tag ∷ be_bytes 1 v
        else if leb v 0xFFFF
        then uint16_tag ∷ be_bytes 2 v
        else if leb v 0xFFFF_FFFF
        then uint32_tag ∷ be_bytes 4 v
        else uint64_tag ∷ be_bytes 8 v)

-- -k <= v for an int64_t pattern
abbrev at_least_minus : ℕ → ℕ → Bool
at_least_minus k v = ltb v (2 ^ 63) || leb (2 ^ 64 - k) v

-- encodeInt(o, v): casts to fewer bits keep the lowest ones.
unfoldable pub encode_int : List ℕ → ℕ → List ℕ
encode_int o v =
    o
    ++ (if at_least_minus 31 v
        then be_bytes 1 v
        else if at_least_minus (2 ^ 7) v
        then int8_tag ∷ be_bytes 1 v
        else if at_least_minus (2 ^ 15) v
        then int16_tag ∷ be_bytes 2 v
        else if at_least_minus (2 ^ 31) v
        then int32_tag ∷ be_bytes 4 v
        else int64_tag ∷ be_bytes 8 v)

-- The pattern of a signed integer of `w` bits as an int64_t.
abbrev pub widen : ℕ → ℕ → ℕ
widen w v = if ltb v (2 ^ (w - 1)) then v else v + 2 ^ 64 - 2 ^ w

-- (v < 0) ? encodeInt(m_buffer, v) : encodeUint(m_buffer, static_cast<uintN_t>(v))
unfoldable pub encode_signed : List ℕ → ℕ → ℕ → List ℕ
encode_signed o w v = if leb (2 ^ (w - 1)) v then encode_int o (widen w v) else encode_uint o v

-- m_numberOfFields and m_buffer
pub record Encoder : Type 0 where
  pub number_of_fields : ℕ
  pub buffer : List ℕ

-- preVisit(): also what a new visitor holds.
abbrev pub pre_visit : Encoder
pre_visit = record { number_of_fields = 0; buffer = [] }

-- encodedData()
unfoldable pub encoded_data : Encoder → List ℕ
encoded_data e =
    let n = e.number_of_fields in
    let prefix =
      if leb n 0xF
      then bit_or fixmap n ∷ []
      else if leb n 0xFFFF
      then map16 ∷ be_bytes 2 n
      else map32 ∷ be_bytes 4 n in
    prefix ++ e.buffer

-- What the overloads of visit() write behind the name.
unfoldable mutual
  pub encode_value : List ℕ → (t : Ty) → Val t → List ℕ
  encode_value o bool v = o ++ ((if v then is_true else is_false) ∷ [])
  encode_value o char v = encode o (v ∷ [])
  encode_value o int8 v = encode_signed o 8 v
  encode_value o uint8 v = encode_uint o v
  encode_value o int16 v = encode_signed o 16 v
  encode_value o uint16 v = encode_uint o v
  encode_value o int32 v = encode_signed o 32 v
  encode_value o uint32 v = encode_uint o v
  encode_value o int64 v = encode_signed o 64 v
  encode_value o uint64 v = encode_uint o v
  encode_value o float v = o ++ (float_tag ∷ be_bytes 4 v)
  encode_value o double v = o ++ (double_tag ∷ be_bytes 8 v)
  encode_value o string v = encode o v
  encode_value o (message s) v =
      let tmp = encoded_data (accept pre_visit s v) in o ++ take (length tmp % 2 ^ 32) tmp

  -- visit() of each field: the name, the value and one more field.
  pub accept : Encoder → (s : Schema) → Vals s → Encoder
  accept e end v = e
  accept e (field id name t s) v =
      accept
        (record {
          number_of_fields = (e.number_of_fields + 1) % 2 ^ 32;
          buffer = encode_value (encode e.buffer name) t v.0;
        })
        s v.1

-- accept() with a new visitor, and encodedData().
abbrev pub encoded_message : (s : Schema) → Vals s → List ℕ
encoded_message s v = encoded_data (accept pre_visit s v)
