-- ===== src/Lcm/Decode.antt =====
-- FromLCMVisitor (libcluon/src/FromLCMVisitor.cpp, libcluon/include/cluon/FromLCMVisitor.hpp), under
-- the branch for systems other than Windows.
use libcluon.Prelude.{
  ℕ, ◌-◌, ◌^◌, Bool, true, false, not, ◌&&◌, List, [], ◌∷◌, ◌++◌, ltb, ◌==◌, if◌then◌else◌, length,
  drop,
}
use libcluon.Prelude.Words.{from_be, le_bytes}
use libcluon.Stream.{Stream, stream, read, read_be}
use libcluon.Visitor.{Ty, Schema, Val, Vals, end, field, message}
use libcluon.Visitor.{bool, char, int8, uint8, int16, uint16, int32, uint32, int64, uint64}
use libcluon.Visitor.{float, double, string}
use libcluon.Proto.Decode.{first_bytes}
use libcluon.Lcm.Hash.{decoder_hash, field_hash, hash_of}

-- m_calculatedHash, m_expectedHash and m_hashes. The stringstream m_buffer is what was put into it
-- and what is left to read.
pub record Decoder : Type 0 where
  pub calculated : ℕ
  pub expected : ℕ
  pub contents : List ℕ
  pub buffer : Stream
  pub hashes : List ℕ

abbrev pub new_decoder : Decoder
new_decoder = record {
  calculated = 0x12345678;
  expected = 0;
  contents = [];
  buffer = stream [];
  hashes = [];
}

-- decodeFrom(in): the hash is read over the old one, and the rest is put into the buffer. Putting
-- nothing into a stream makes it fail.
abbrev pub nonempty : List ℕ → Bool
nonempty [] = false
nonempty (b ∷ bs) = true

unfoldable pub decode_from : Decoder → Stream → Decoder
decode_from d s =
    let (bytes, s') = read 8 s in
    record d {
      expected = from_be (bytes ++ drop (length bytes) (le_bytes 8 d.expected));
      contents = s'.rest;
      buffer = record { rest = s'.rest; good = nonempty s'.rest };
    }

-- preVisit() and postVisit(), which tells whether it reports a mismatch of the hashes.
unfoldable pub pre_visit : Decoder → Decoder
pre_visit d =
    if d.expected == 0
    then d
    else record d { calculated = 0x12345678; buffer = stream d.contents; hashes = [] }

unfoldable pub post_visit : Decoder → Bool
post_visit d = not (d.expected == 0) && not (d.expected == hash_of d.calculated d.hashes)

-- Reading a byte over a value.
abbrev byte_over : List ℕ → ℕ → ℕ
byte_over [] v = v
byte_over (b ∷ bs) v = b

abbrev bool_over : List ℕ → Bool → Bool
bool_over [] v = v
bool_over (b ∷ bs) v = not (b == 0)

unfoldable pub read_byte : Stream → ℕ → ℕ × Stream
read_byte s v = let (bytes, s') = read 1 s in (byte_over bytes v, s')

-- What visit() reads for each type but messages. `memory` is what stands behind the bytes that were
-- read into the buffer of a string.
module _ (memory : ℕ → ℕ) where
  unfoldable pub read_characters : ℕ → Stream → List ℕ × Stream
  read_characters n s =
      let (bytes, s') = read n s in
      if ltb 0 n && ltb n (2 ^ 31) then (first_bytes memory bytes (n - 1), s') else ([], s)

  unfoldable pub read_primitive : (t : Ty) → Stream → Val t → Val t × Stream
  unfolding read_byte read_characters
  read_primitive bool s v = let (bytes, s') = read 1 s in (bool_over bytes v, s')
  read_primitive char s v = read_byte s v
  read_primitive int8 s v = read_byte s v
  read_primitive uint8 s v = read_byte s v
  read_primitive int16 s v = read_be 2 s
  read_primitive uint16 s v = read_be 2 s
  read_primitive int32 s v = read_be 4 s
  read_primitive uint32 s v = read_be 4 s
  read_primitive int64 s v = read_be 8 s
  read_primitive uint64 s v = read_be 8 s
  read_primitive float s v = read_be 4 s
  read_primitive double s v = read_be 8 s
  read_primitive string s v = let (n, s') = read_be 4 s in read_characters n s'
  read_primitive (message t) s v = (v, s)

  -- FromLCMVisitor(in): the decoder of a nested message, on the same buffer.
  abbrev pub nested_decoder : Decoder → Decoder
  nested_decoder d = record d { calculated = 0x12345678; expected = 0; hashes = [] }

  -- visit(), and the visits of all fields of a message.
  unfoldable mutual
    pub visit : Decoder → List ℕ → (t : Ty) → Val t → Decoder × Val t
    visit d name (message s) v =
        let (nested, v') = visit_fields (pre_visit (nested_decoder d)) s v in
        (
          record d {
            calculated = field_hash decoder_hash d.calculated name (message s);
            buffer = nested.buffer;
            hashes = d.hashes ++ (hash_of nested.calculated nested.hashes ∷ []);
          },
          v',
        )
    visit d name t v =
        let (v', s) = read_primitive t d.buffer v in
        (record d { calculated = field_hash decoder_hash d.calculated name t; buffer = s }, v')

    pub visit_fields : Decoder → (s : Schema) → Vals s → Decoder × Vals s
    visit_fields d end v = (d, v)
    visit_fields d (field id name t s) v =
        let (d', a) = visit d name t v.0 in let (d'', w) = visit_fields d' s v.1 in (d'', (a, w))

  -- accept() of a message: the values, and whether a mismatch is reported.
  unfoldable pub accept : Decoder → (s : Schema) → Vals s → Vals s × Bool
  accept d s v = let (d', v') = visit_fields (pre_visit d) s v in (v', post_visit d')
