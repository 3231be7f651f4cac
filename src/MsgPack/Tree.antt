-- ===== src/MsgPack/Tree.antt =====
-- What the encoder writes as a tree of values, the one that the decoder builds.
use libcluon.Prelude.{same, ℕ, suc, ◌-◌, ◌^◌, ◌<◌, ◌≡◌, ◌≢◌, refl, ap, false, List, [], ◌∷◌, ◌++◌}
use libcluon.Prelude.{leb, if◌then◌else◌, length, bit_or}
use libcluon.Prelude.Words.{be_bytes}
use libcluon.Visitor.{Ty, Schema, Val, Vals, end, field, message}
use libcluon.Visitor.{bool, char, int8, uint8, int16, uint16, int32, uint32, int64, uint64}
use libcluon.Visitor.{float, double, string}
use libcluon.MsgPack.Constants.{is_false, is_true, float_tag, double_tag, fixmap, map16, map32}
use libcluon.MsgPack.Constants.{
  Format, unknown_format, bool_format, uint_format, int_format, float_format, str_format,
  map_format,
}
use libcluon.MsgPack.Encode.{encode, encode_uint, encode_int, widen, encoded_message}
use libcluon.MsgPack.Decode.{
  AnyValue, KeyValues, nil, pair, empty, bool_any, uint64_any, int64_any, float_any, double_any,
  string_any, map_any,
}

-- The format of a value, and the number of entries.
abbrev pub format_of : AnyValue → Format
format_of empty = unknown_format
format_of (bool_any b) = bool_format
format_of (uint64_any n) = uint_format
format_of (int64_any n) = int_format
format_of (float_any n) = float_format
format_of (double_any n) = float_format
format_of (string_any s) = str_format
format_of (map_any m) = map_format

unfoldable pub count : KeyValues → ℕ
count nil = 0
count (pair k f a m) = suc (count m)

-- The bytes of a value and of the entries of a map.
abbrev pub map_header : ℕ → List ℕ
map_header n =
    if leb n 0xF
    then bit_or fixmap n ∷ []
    else if leb n 0xFFFF
    then map16 ∷ be_bytes 2 n
    else map32 ∷ be_bytes 4 n

unfoldable mutual
  pub value_bytes : AnyValue → List ℕ
  value_bytes empty = []
  value_bytes (bool_any b) = (if b then is_true else is_false) ∷ []
  value_bytes (uint64_any n) = encode_uint [] n
  value_bytes (int64_any n) = encode_int [] n
  value_bytes (float_any n) = float_tag ∷ be_bytes 4 n
  value_bytes (double_any n) = double_tag ∷ be_bytes 8 n
  value_bytes (string_any s) = encode [] s
  value_bytes (map_any m) = map_header (count m) ++ entries_bytes m

  pub entries_bytes : KeyValues → List ℕ
  entries_bytes nil = []
  entries_bytes (pair k f a m) = encode [] k ++ (value_bytes a ++ entries_bytes m)

-- The tree of a message. A signed integer is stored by its sign.
abbrev pub signed_any : ℕ → ℕ → AnyValue
signed_any w v = if leb (2 ^ (w - 1)) v then int64_any (widen w v) else uint64_any v

unfoldable mutual
  pub tree : (t : Ty) → Val t → AnyValue
  tree bool v = bool_any v
  tree char v = string_any (v ∷ [])
  tree int8 v = signed_any 8 v
  tree uint8 v = uint64_any v
  tree int16 v = signed_any 16 v
  tree uint16 v = uint64_any v
  tree int32 v = signed_any 32 v
  tree uint32 v = uint64_any v
  tree int64 v = signed_any 64 v
  tree uint64 v = uint64_any v
  tree float v = float_any v
  tree double v = double_any v
  tree string v = string_any v
  tree (message s) v = map_any (trees s v)

  pub trees : (s : Schema) → Vals s → KeyValues
  trees end v = nil
  trees (field id name t s) v = pair name (format_of (tree t v.0)) (tree t v.0) (trees s v.1)

-- The number of fields of a message.
unfoldable pub fields : Schema → ℕ
fields end = 0
fields (field id name t s) = suc (fields s)

pub count-trees : (s : Schema) (v : Vals s) → count (trees s v) ≡ fields s
unfolding count trees fields
count-trees end v = refl
count-trees (field id name t s) v = ap suc (count-trees s v.1)

-- Strings whose header the decoder knows, and names of which no two are the same.
abbrev pub IsText : List ℕ → Type 0
IsText s = (length s < 2 ^ 32) × (length s ≢ 31)

abbrev pub Absent : List ℕ → Schema → Type 0
Absent name end = Unit {0}
Absent name (field id n t s) = (same name n ≡ false) × Absent name s

abbrev pub Distinct : Schema → Type 0
Distinct end = Unit {0}
Distinct (field id name t s) = Absent name s × Distinct s

-- Values in the range of their types, with texts and numbers of fields that the decoder knows and
-- sizes that fit the counters, at each level.
abbrev pub IsMessage : Schema → Type 0
IsMessage s = (fields s < 2 ^ 32) × (fields s ≢ 15) × Distinct s

abbrev mutual
  pub IsPackable : (t : Ty) → Val t → Type 0
  IsPackable bool v = Unit {0}
  IsPackable char v = v < 2 ^ 8
  IsPackable int8 v = v < 2 ^ 8
  IsPackable uint8 v = v < 2 ^ 8
  IsPackable int16 v = v < 2 ^ 16
  IsPackable uint16 v = v < 2 ^ 16
  IsPackable int32 v = v < 2 ^ 32
  IsPackable uint32 v = v < 2 ^ 32
  IsPackable int64 v = v < 2 ^ 64
  IsPackable uint64 v = v < 2 ^ 64
  IsPackable float v = v < 2 ^ 32
  IsPackable double v = v < 2 ^ 64
  IsPackable string v = IsText v
  IsPackable (message s) v = (length (encoded_message s v) < 2 ^ 32) × IsMessage s × ArePackable s v

  pub ArePackable : (s : Schema) → Vals s → Type 0
  ArePackable end v = Unit {0}
  ArePackable (field id name t s) v = IsText name × IsPackable t v.0 × ArePackable s v.1
