-- ===== src/MsgPack/Limits.antt =====
-- Messages that the encoder writes and the decoder does not take.
use libcluon.Prelude.{same_self, ℕ, ◌≡◌, refl, ap, ◌∙◌, arith}
use libcluon.Prelude.{List, [], ◌∷◌, ◌++◌, length, none, some}
use libcluon.Stream.{stream, get}
use libcluon.Visitor.{Ty, Schema, Val, Vals, end, field, message, char, string}
use libcluon.MsgPack.Constants.{format_family}
use libcluon.MsgPack.Encode.{encode, encoded_message}
use libcluon.MsgPack.Written.{encoded_message-tree}
use libcluon.MsgPack.Tree.{
  fields, count-trees, map_header, value_bytes, entries_bytes, tree, trees, IsText, ArePackable,
}
use libcluon.MsgPack.Decode.{nil, get8, read_string, find_map, read_key_values, value_at, decode}
use libcluon.MsgPack.Decode.Visit.{
  visit, visit_bool, visit_char, visit_signed, visit_unsigned, visit_float, visit_double,
  visit_string, visit_message, accept, decode_message,
}
use libcluon.MsgPack.Decode.Scalars.{header_of, encode-header_of}
use libcluon.Visitor.{bool, int8, uint8, int16, uint16, int32, uint32, int64, uint64, float, double}
use libcluon.MsgPack.RoundTrip.{decode-trees}

encode_31 : (s : List ℕ) → length s ≡ 31 → encode [] s ≡ 0xBF ∷ s
unfolding header_of
encode_31 s h = encode-header_of s (omega (arith, h)) ∙ ap (λ (n : ℕ). header_of n ++ s) h

module _ (memory : ℕ → ℕ) where
  -- A string of 31 characters that encode wrote is read as the empty string, and its characters
  -- stay in the stream.
  pub read_string-encode_31 :
      (s rest : List ℕ)
      → length s ≡ 31
      → read_string memory (stream (encode [] s ++ rest)) ≡ ([], stream (s ++ rest))
  unfolding read_string encode get8 get format_family
  read_string-encode_31 s rest h = ap (λ t. read_string memory (stream (t ++ rest))) (encode_31 s h)

  -- Without any entry, each field keeps its value.
  visit_missing : (t : Ty) (old : Val t) → visit t none old ≡ some old
  unfolding visit visit_bool visit_char visit_signed visit_unsigned visit_float visit_double
      visit_string visit_message
  visit_missing bool old = refl
  visit_missing char old = refl
  visit_missing int8 old = refl
  visit_missing uint8 old = refl
  visit_missing int16 old = refl
  visit_missing uint16 old = refl
  visit_missing int32 old = refl
  visit_missing uint32 old = refl
  visit_missing int64 old = refl
  visit_missing uint64 old = refl
  visit_missing float old = refl
  visit_missing double old = refl
  visit_missing string old = refl
  visit_missing (message s) old = refl

  accept_missing : (s : Schema) (old : Vals s) → accept s nil old ≡ some old
  unfolding accept value_at
  accept_missing end old = refl
  accept_missing (field id name t s) old = rw (visit_missing t old.0, accept_missing s old.1)

  decode_unopened : (bytes : List ℕ) → find_map bytes ≡ none → decode memory bytes ≡ nil
  unfolding decode read_key_values find_map
  decode_unopened bytes h = rw h

  -- Decoding the MsgPack bytes of a message with 15 fields changes nothing, if none of the bytes
  -- of its entries opens a map; for values and sizes in range.
  pub decode_message-fields_15 :
      (s : Schema) (v old : Vals s)
      → fields s ≡ 15
      → ArePackable s v
      → find_map (entries_bytes (trees s v)) ≡ none
      → decode_message memory s (encoded_message s v) old ≡ some old
  unfolding decode_message find_map value_bytes format_family
  decode_message-fields_15 s v old n h e =
      ap (λ t. accept s (decode memory t) old)
        (encoded_message-tree s v (omega arith) h
          ∙ ap (λ (n : ℕ). map_header n ++ entries_bytes (trees s v)) (count-trees s v ∙ n))
      ∙ ap (λ m. accept s m old) (decode_unopened (0x8F ∷ entries_bytes (trees s v)) e)
      ∙ accept_missing s old

  -- Decoding an empty string, under a name that the decoder can read, into a character ends the
  -- program.
  pub decode_message_empty_char :
      (id : ℕ) (name : List ℕ) (old : ℕ)
      → IsText name
      → decode_message memory
          (field id name char end)
          (encoded_message (field id name string end) ([], tt))
          (old, tt)
        ≡ none
  unfolding decode_message accept visit visit_char value_at trees fields tree
  decode_message_empty_char id name old h = rw (
    decode-trees memory (field id name string end) ([], tt)
        (omega arith, (λ e. absurd (omega arith)), (tt, tt))
        ((h, (omega arith, λ e. absurd (omega arith)), tt)),
    same_self name,
  )
