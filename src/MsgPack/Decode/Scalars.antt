-- ===== src/MsgPack/Decode/Scalars.antt =====
-- Reading integers and strings as the encoder writes them.
use libcluon.Prelude.{ℕ, ◌%◌, ◌^◌, ◌≤◌, ◌<◌, ◌≡◌, ◌≢◌, refl, ap, ◌∙◌, arith}
use libcluon.Prelude.{List, [], ◌∷◌, ◌++◌, ltb, leb, if◌then◌else◌, length, append_assoc}
use libcluon.Prelude.{take-length, take, bit_or}
use libcluon.Prelude.Bits.{field-bit_or}
use libcluon.Prelude.Words.{be_bytes}
use libcluon.Stream.{read_be-be_bytes, Stream, stream, get, read, read-append}
use libcluon.Proto.RoundTrip.{first_bytes-all}
use libcluon.MsgPack.Constants.{Format, str_format, format_family, fixstr, str8, str16, str32}
use libcluon.MsgPack.Encode.{encode, encode_uint, encode_int}
use libcluon.MsgPack.Decode.{
  get8, read_uint, uint_behind, read_int, int_behind, read_string, length_behind, characters,
}

be_bytes-one : (v : ℕ) → be_bytes 1 v ≡ (v % 256) ∷ []
unfolding be_bytes
be_bytes-one v = refl

be_bytes-mod :
    (v : ℕ)
    → (be_bytes 1 (v % 2 ^ 8) ≡ be_bytes 1 v)
      × (be_bytes 2 (v % 2 ^ 16) ≡ be_bytes 2 v)
      × (be_bytes 4 (v % 2 ^ 32) ≡ be_bytes 4 v)
unfolding be_bytes
be_bytes-mod v = ground arith

-- ReadUint reads back a 64-bit number that encodeUint wrote, in each of its formats, and leaves
-- the bytes behind it.
pub read_uint-encode_uint :
    (v : ℕ) (rest : List ℕ)
    → v < 2 ^ 64
    → read_uint (stream (encode_uint [] v ++ rest)) ≡ (v, stream rest)
unfolding read_uint uint_behind get8 get encode_uint format_family
read_uint-encode_uint v rest h = ground (
  arith,
  read_be-be_bytes 1 v rest,
  read_be-be_bytes 2 v rest,
  read_be-be_bytes 4 v rest,
  read_be-be_bytes 8 v rest,
)

-- ReadInt reads back a negative number that encodeInt wrote, in each of its formats, and leaves
-- the bytes behind it.
pub read_int-encode_int :
    (v : ℕ) (rest : List ℕ)
    → 2 ^ 63 ≤ v
    → v < 2 ^ 64
    → read_int (stream (encode_int [] v ++ rest)) ≡ (v, stream rest)
unfolding read_int int_behind get8 get encode_int format_family
read_int-encode_int v rest l h = ground (
  arith,
  read_be-be_bytes 1 (v % 2 ^ 8) rest,
  read_be-be_bytes 2 (v % 2 ^ 16) rest,
  read_be-be_bytes 4 (v % 2 ^ 32) rest,
  read_be-be_bytes 8 v rest,
  be_bytes-one v,
  be_bytes-mod v,
)

-- The header of a string, and the string behind it.
unfoldable pub header_of : ℕ → List ℕ
header_of n =
    if ltb n 32
    then bit_or fixstr n ∷ []
    else if leb n 0xFF
    then str8 ∷ be_bytes 1 n
    else if leb n 0xFFFF
    then str16 ∷ be_bytes 2 n
    else str32 ∷ be_bytes 4 n

read_header : Stream → (Format × ℕ) × Stream
read_header s =
    let (c, s') = get8 s in let (n, s'') = length_behind c s' in ((format_family c, n), s'')

read_header-header_of :
    (n : ℕ) (rest : List ℕ)
    → n < 2 ^ 32
    → n ≢ 31
    → read_header (stream (header_of n ++ rest)) ≡ ((str_format, n), stream rest)
unfolding read_header header_of get8 get format_family length_behind
read_header-header_of n rest h k = ground (
  arith,
  field-bit_or 5 5 n,
  read_be-be_bytes 1 n rest,
  read_be-be_bytes 2 n rest,
  read_be-be_bytes 4 n rest,
)

pub encode-header_of : (s : List ℕ) → length s < 2 ^ 32 → encode [] s ≡ header_of (length s) ++ s
unfolding encode header_of
encode-header_of s h =
    ap (λ (n : ℕ). header_of n ++ take n s) {x = length s % 2 ^ 32} {y = length s} (omega arith)
    ∙ ap (λ t. header_of (length s) ++ t) (take-length s)

module _ (memory : ℕ → ℕ) where
  characters-append :
      (s rest : List ℕ) → characters memory (length s) (stream (s ++ rest)) ≡ (s, stream rest)
  unfolding characters
  characters-append [] rest = unfold read in refl
  characters-append (b ∷ s) rest =
      ground (arith, read-append (b ∷ s) rest, first_bytes-all memory (b ∷ s))

  read_string-read_header :
      (n : ℕ) (bytes : List ℕ) (s' : Stream)
      → read_header (stream bytes) ≡ ((str_format, n), s')
      → read_string memory (stream bytes) ≡ characters memory n s'
  unfolding read_string read_header
  read_string-read_header n bytes s' h = rw (ap (λ r. r.0.0) h, ap (λ r. r.0.1) h, ap (λ r. r.1) h)

  -- ReadString reads back a string that encode wrote and leaves the bytes behind it, if the
  -- string is shorter than 2^32 and does not have 31 characters.
  pub read_string-encode :
      (s rest : List ℕ)
      → length s < 2 ^ 32
      → length s ≢ 31
      → read_string memory (stream (encode [] s ++ rest)) ≡ (s, stream rest)
  read_string-encode s rest h k =
      ap (λ t. read_string memory (stream t))
        (ap (λ t. t ++ rest) (encode-header_of s h) ∙ append_assoc (header_of (length s)) s rest)
      ∙ read_string-read_header (length s) (header_of (length s) ++ (s ++ rest))
          (stream (s ++ rest)) (read_header-header_of (length s) (s ++ rest) h k)
      ∙ characters-append s rest
