-- ===== src/MsgPack/Decode/Entries.antt =====
-- Reading the entries of a map as the encoder writes them.
use libcluon.Prelude.{ℕ, zero, suc, ◌^◌, ◌≤◌, ◌<◌, ◌≡◌, ◌≢◌, refl, arith}
use libcluon.Prelude.{Bool, true, false, List, [], ◌∷◌, ◌++◌, length}
use libcluon.Prelude.Bits.{field-bit_or}
use libcluon.Prelude.Words.{be_bytes}
use libcluon.Stream.{read_be-be_bytes, Stream, stream, get}
use libcluon.MsgPack.Constants.{
  Format, uint_format, int_format, str_format, map_format, bool_format, float_format, format_family,
}
use libcluon.MsgPack.Encode.{encode, encode_uint, encode_int}
use libcluon.MsgPack.Tree.{IsText, format_of, count, map_header, value_bytes}
use libcluon.MsgPack.Decode.{
  AnyValue, KeyValues, nil, pair, empty, bool_any, uint64_any, int64_any, float_any, double_any,
  string_any, map_any,
}
use libcluon.MsgPack.Decode.{get8, unget, read_value, float_value, put}
use libcluon.MsgPack.Decode.Scalars.{read_uint-encode_uint, read_int-encode_int, read_string-encode}

-- The format that the first byte names.
Opens : List ℕ → Format → Type 0
Opens bytes f = (format_family (get8 (stream bytes)).0 ≡ f) × (0 < length bytes)

unget-get8 :
    (bytes : List ℕ)
    → 0 < length bytes
    → unget (get8 (stream bytes)).0 (get8 (stream bytes)).1 ≡ stream bytes
unfolding get8 unget get
unget-get8 [] h = absurd (omega arith)
unget-get8 (b ∷ bytes) h = refl

encode_uint-Opens : (v : ℕ) (rest : List ℕ) → Opens (encode_uint [] v ++ rest) uint_format
unfolding Opens get8 get encode_uint format_family
encode_uint-Opens v rest = ground arith

encode_int-Opens :
    (v : ℕ) (rest : List ℕ) → 2 ^ 63 ≤ v → v < 2 ^ 64 → Opens (encode_int [] v ++ rest) int_format
unfolding Opens get8 get encode_int format_family be_bytes
encode_int-Opens v rest l h = ground arith

encode-Opens :
    (s rest : List ℕ) → length s < 2 ^ 32 → length s ≢ 31 → Opens (encode [] s ++ rest) str_format
unfolding Opens get8 get encode format_family
encode-Opens s rest h k = ground (arith, field-bit_or 5 5 (length s))

map_header-Opens :
    (n : ℕ) (rest : List ℕ) → n < 2 ^ 32 → n ≢ 15 → Opens (map_header n ++ rest) map_format
unfolding Opens get8 get format_family
map_header-Opens n rest h k = ground (arith, field-bit_or 4 8 n)

-- What puts all entries into a map, one after the other.
unfoldable pub puts : KeyValues → KeyValues → KeyValues
puts nil acc = acc
puts (pair k f a m) acc = puts m (put k f a acc)

-- Values that the decoder gives back, with at most `depth` maps within each other.
unfoldable mutual
  pub IsReadable : ℕ → AnyValue → Type 0
  IsReadable d empty = 0 < 0
  IsReadable d (bool_any b) = Unit {0}
  IsReadable d (uint64_any n) = n < 2 ^ 64
  IsReadable d (int64_any n) = (2 ^ 63 ≤ n) × (n < 2 ^ 64)
  IsReadable d (float_any n) = n < 2 ^ 32
  IsReadable d (double_any n) = n < 2 ^ 64
  IsReadable d (string_any s) = IsText s
  IsReadable zero (map_any m) = 0 < 0
  IsReadable (suc d) (map_any m) =
      (count m < 2 ^ 32) × (count m ≢ 15) × AreReadable d m × (puts m nil ≡ m)

  pub AreReadable : ℕ → KeyValues → Type 0
  AreReadable d nil = Unit {0}
  AreReadable d (pair k f a m) = IsText k × (format_of a ≡ f) × IsReadable d a × AreReadable d m

module _ (memory : ℕ → ℕ) where
  -- The first byte of an entry's value, and the value.
  unfoldable pub read_any : (Stream → KeyValues × Stream) → Stream → Format × AnyValue × Stream
  read_any nested s =
      let (c, s') = get8 s in
      let (a, s'') = read_value memory nested c s' in (format_family c, a, s'')

  pub read_any-uint64 :
      (nested : Stream → KeyValues × Stream) (v : ℕ) (rest : List ℕ)
      → v < 2 ^ 64
      → read_any nested (stream (encode_uint [] v ++ rest))
        ≡ (uint_format, uint64_any v, stream rest)
  unfolding read_any read_value Opens
  read_any-uint64 nested v rest h =
      let o = encode_uint-Opens v rest in
      rw
        (read_value, o.0, unget-get8 (encode_uint [] v ++ rest) o.1, read_uint-encode_uint v rest h)

  pub read_any-int64 :
      (nested : Stream → KeyValues × Stream) (v : ℕ) (rest : List ℕ)
      → 2 ^ 63 ≤ v
      → v < 2 ^ 64
      → read_any nested (stream (encode_int [] v ++ rest)) ≡ (int_format, int64_any v, stream rest)
  unfolding read_any read_value Opens
  read_any-int64 nested v rest l h =
      let o = encode_int-Opens v rest l h in
      rw (read_value, o.0, unget-get8 (encode_int [] v ++ rest) o.1, read_int-encode_int v rest l h)

  pub read_any-string :
      (nested : Stream → KeyValues × Stream) (s rest : List ℕ)
      → IsText s
      → read_any nested (stream (encode [] s ++ rest)) ≡ (str_format, string_any s, stream rest)
  unfolding read_any read_value Opens
  read_any-string nested s rest h =
      let o = encode-Opens s rest h.0 h.1 in
      rw (
        read_value,
        o.0,
        unget-get8 (encode [] s ++ rest) o.1,
        read_string-encode memory s rest h.0 h.1,
      )

  pub read_any-map :
      (nested : Stream → KeyValues × Stream) (n : ℕ) (m : KeyValues) (bytes rest : List ℕ)
      → n < 2 ^ 32
      → n ≢ 15
      → nested (stream (map_header n ++ bytes)) ≡ (m, stream rest)
      → read_any nested (stream (map_header n ++ bytes)) ≡ (map_format, map_any m, stream rest)
  unfolding read_any read_value Opens
  read_any-map nested n m bytes rest h k e =
      let o = map_header-Opens n bytes h k in
      rw (read_value, o.0, unget-get8 (map_header n ++ bytes) o.1, e)

  pub read_any-bool :
      (nested : Stream → KeyValues × Stream) (b : Bool) (rest : List ℕ)
      → read_any nested (stream (value_bytes (bool_any b) ++ rest))
        ≡ (bool_format, bool_any b, stream rest)
  unfolding read_any read_value get8 get format_family value_bytes
  read_any-bool nested true rest = refl
  read_any-bool nested false rest = refl

  pub read_any-float :
      (nested : Stream → KeyValues × Stream) (v : ℕ) (rest : List ℕ)
      → v < 2 ^ 32
      → read_any nested (stream (value_bytes (float_any v) ++ rest))
        ≡ (float_format, float_any v, stream rest)
  unfolding read_any read_value float_value get8 get format_family value_bytes
  read_any-float nested v rest h = rw (read_be-be_bytes 4 v rest h)

  pub read_any-double :
      (nested : Stream → KeyValues × Stream) (v : ℕ) (rest : List ℕ)
      → v < 2 ^ 64
      → read_any nested (stream (value_bytes (double_any v) ++ rest))
        ≡ (float_format, double_any v, stream rest)
  unfolding read_any read_value float_value get8 get format_family value_bytes
  read_any-double nested v rest h = rw (read_be-be_bytes 8 v rest h)
