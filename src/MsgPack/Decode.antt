-- ===== src/MsgPack/Decode.antt =====
-- FromMsgPackVisitor (libcluon/src/FromMsgPackVisitor.cpp,
-- libcluon/include/cluon/FromMsgPackVisitor.hpp), under the branch for systems other than Windows.
pub mod Entries
pub mod Maps
pub mod Lengths
pub mod Depth
pub mod Scalars
pub mod Visit
use libcluon.Prelude.{
  same, ℕ, zero, suc, ◌+◌, ◌-◌, ◌%◌, ◌^◌, Bool, true, false, List, [], ◌∷◌, ◌++◌,
}
use libcluon.Prelude.{ltb, leb, ◌==◌, ◌&&◌, if◌then◌else◌, length, Option, none, some}
use libcluon.Prelude.Words.{from_be}
use libcluon.Stream.{read_be, Stream, stream, get, read}
use libcluon.Proto.Decode.{first_bytes}
use libcluon.MsgPack.Constants.{Format, unknown_format, bool_format, uint_format, int_format}
use libcluon.MsgPack.Constants.{float_format, str_format, map_format, format_family}
use libcluon.MsgPack.Constants.{is_true, float_tag, double_tag, uint8_tag, uint16_tag, uint32_tag}
use libcluon.MsgPack.Constants.{uint64_tag, int8_tag, int16_tag, int32_tag, int64_tag}
use libcluon.MsgPack.Constants.{
  fixstr, fixstr_end, str8, str16, str32, fixmap, fixmap_end, map16, map32,
}
use libcluon.MsgPack.Encode.{widen}

-- linb::any and std::map<std::string, MsgPackKeyValue>: the key, m_formatFamily and m_value. The map
-- is a list in the order in which its keys came.
mutual
  pub data AnyValue : Type 0 where
    empty : AnyValue
    bool_any : Bool → AnyValue
    uint64_any int64_any float_any double_any : ℕ → AnyValue
    string_any : List ℕ → AnyValue
    map_any : KeyValues → AnyValue

  pub data KeyValues : Type 0 where
    nil : KeyValues
    pair : List ℕ → Format → AnyValue → KeyValues → KeyValues

-- keyValues[key] = entry
unfoldable pub put : List ℕ → Format → AnyValue → KeyValues → KeyValues
put k f a nil = pair k f a nil
put k f a (pair j g b m) = if same j k then pair k f a m else pair j g b (put k f a m)

-- m_keyValues[key].m_value where count(key) is 1.
unfoldable pub value_at : List ℕ → KeyValues → Option AnyValue
value_at k nil = none
value_at k (pair j f a m) = if same j k then some a else value_at k m

-- static_cast<uint8_t>(in.get()), which is 0xFF at the end of the stream, and in.unget() after it.
abbrev byte_of : Option ℕ → ℕ
byte_of none = 0xFF
byte_of (some c) = c

unfoldable pub get8 : Stream → ℕ × Stream
unfolding get
get8 s = let (c, s') = get s in (byte_of c, s')

unfoldable pub unget : ℕ → Stream → Stream
unget c s = if s.good then stream (c ∷ s.rest) else s

-- readUint
unfoldable pub uint_behind : ℕ → Stream → ℕ × Stream
uint_behind c s =
    if leb c 0x7F
    then (c, s)
    else if c == uint8_tag
    then read_be 1 s
    else if c == uint16_tag
    then read_be 2 s
    else if c == uint32_tag
    then read_be 4 s
    else if c == uint64_tag
    then read_be 8 s
    else (0, s)

unfoldable pub read_uint : Stream → ℕ × Stream
unfolding uint_behind
read_uint s =
    let (c, s') = get8 s in
    if s.good
    then elim (format_family c) [ uint_format ↦ uint_behind c s' | _ ↦ (0, s') ]
    else (0, s)

-- readInt: the pattern of an int64_t.
unfoldable pub widened : ℕ → ℕ × Stream → ℕ × Stream
widened w (v, s) = (widen w v, s)

unfoldable pub int_behind : ℕ → Stream → ℕ × Stream
unfolding widened
int_behind c s =
    if leb 0xE0 c
    then (widen 8 c, s)
    else if c == int8_tag
    then widened 8 (read_be 1 s)
    else if c == int16_tag
    then widened 16 (read_be 2 s)
    else if c == int32_tag
    then widened 32 (read_be 4 s)
    else if c == int64_tag
    then read_be 8 s
    else (0, s)

unfoldable pub read_int : Stream → ℕ × Stream
unfolding int_behind
read_int s =
    let (c, s') = get8 s in
    if s.good then elim (format_family c) [ int_format ↦ int_behind c s' | _ ↦ (0, s') ] else (0, s)

-- readString: the length, and the characters. `memory` stands behind what the stream gave.
unfoldable pub length_behind : ℕ → Stream → ℕ × Stream
length_behind c s =
    if leb fixstr c && ltb c fixstr_end
    then (c - fixstr, s)
    else if c == str8
    then read_be 1 s
    else if c == str16
    then read_be 2 s
    else if c == str32
    then read_be 4 s
    else (0, s)

-- The bytes up to the one that opens a map, and that one.
unfoldable pub find_map : List ℕ → Option (ℕ × List ℕ)
find_map [] = none
find_map (c ∷ rest) = elim (format_family c) [ map_format ↦ some (c, rest) | _ ↦ find_map rest ]

unfoldable pub tokens_behind : ℕ → Stream → ℕ × Stream
tokens_behind c s =
    if leb fixmap c && ltb c fixmap_end
    then (c - fixmap, s)
    else if c == map16
    then read_be 2 s
    else if c == map32
    then read_be 4 s
    else (0, s)

-- The value of an entry of FLOAT_FORMAT.
unfoldable pub float_value : ℕ → Stream → AnyValue × Stream
float_value c s =
    if c == float_tag
    then (let (v, s') = read_be 4 s in (float_any v, s'))
    else if c == double_tag
    then (let (v, s') = read_be 8 s in (double_any v, s'))
    else (empty, s)

module _ (memory : ℕ → ℕ) where
  unfoldable pub characters : ℕ → Stream → List ℕ × Stream
  characters n s =
      let (bytes, s') = read n s in if ltb 0 n then (first_bytes memory bytes n, s') else ([], s)

  unfoldable pub read_string : Stream → List ℕ × Stream
  unfolding length_behind characters
  read_string s =
      let (c, s') = get8 s in
      let (n, s'') = length_behind c s' in
      if s.good
      then elim (format_family c) [ str_format ↦ characters n s'' | _ ↦ ([], s') ]
      else ([], s)

  -- The value of an entry whose first byte `c` has been read. `nested` is readKeyValues.
  unfoldable pub read_value : (Stream → KeyValues × Stream) → ℕ → Stream → AnyValue × Stream
  unfolding float_value
  read_value nested c s = elim (format_family c) [
    | bool_format ↦ (bool_any (c == is_true), s)
    | uint_format ↦ (let (v, s') = read_uint (unget c s) in (uint64_any v, s'))
    | int_format ↦ (let (v, s') = read_int (unget c s) in (int64_any v, s'))
    | float_format ↦ float_value c s
    | str_format ↦ (let (v, s') = read_string (unget c s) in (string_any v, s'))
    | map_format ↦ (let (v, s') = nested (unget c s) in (map_any v, s'))
    | unknown_format ↦ (empty, s)
  ]

  -- while (0 < tokensToRead)
  unfoldable pub read_entries :
      (Stream → KeyValues × Stream) → ℕ → Stream → KeyValues → KeyValues × Stream
  read_entries nested zero s m = (m, s)
  read_entries nested (suc tokens) s m =
      let (key, s₁) = read_string s in
      let (c, s₂) = get8 s₁ in
      let (value, s₃) = read_value nested c s₂ in
      read_entries nested tokens s₃ (put key (format_family c) value m)

  -- readKeyValues, with the depth of maps within maps that may still come.
  unfoldable pub read_key_values : ℕ → Stream → KeyValues × Stream
  unfolding tokens_behind
  read_key_values zero s = (nil, s)
  read_key_values (suc depth) s =
      if s.good
      then elim (find_map s.rest) [
        | none ↦ (nil, record { rest = []; good = false })
        | some (c, rest) ↦
            (let (tokens, s') = tokens_behind c (stream rest) in
              read_entries (read_key_values depth) tokens s' nil)
      ]
      else (nil, s)

  -- decodeFrom(in): each map within a map takes a byte.
  unfoldable pub decode : List ℕ → KeyValues
  decode bytes = (read_key_values (suc (length bytes)) (stream bytes)).0
