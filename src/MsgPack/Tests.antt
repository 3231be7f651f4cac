-- ===== src/MsgPack/Tests.antt =====
-- The theorems of the MsgPack format at concrete messages.
use libcluon.Prelude.{same, ℕ, ◌≡◌, refl, arith, List, [], ◌∷◌, true, false, none, some, codes}
use libcluon.Prelude.Words.{be_bytes}
use libcluon.Stream.{stream}
use libcluon.Visitor.{
  Schema, Vals, field, end, message, bool, char, int8, uint8, uint32, string, double,
}
use libcluon.MsgPack.Encode.{
  encode, encode_uint, encode_value, accept, encoded_data, encoded_message,
}
use libcluon.MsgPack.Tree.{IsMessage, ArePackable, fields, tree, trees, value_bytes, entries_bytes}
use libcluon.MsgPack.Constants.{format_family}
use libcluon.MsgPack.Decode.Depth.{read_key_values_depth}
use libcluon.MsgPack.Decode.{read_key_values, find_map}
use libcluon.MsgPack.Decode.Visit.{decode_message}
use libcluon.MsgPack.RoundTrip.{decode_message-encoded_message}

abbrev no_memory : ℕ → ℕ
no_memory i = 0

-- A message with an int8, a string and a nested message with a uint32, a double and a character.
abbrev inner : Schema
inner =
    field 1 (codes "count") uint32 (field 7 (codes "ratio") double (field 8 (codes "c") char end))

abbrev outer : Schema
outer = field 2 (codes "level") int8 (
    field 1 (codes "name") string
      (field 3 (codes "in") (message inner) (field 4 (codes "ok") bool end)))

-- The level is -100.
abbrev sample : Vals outer
sample = (156, (codes "abc", ((70000, (4, (65, tt))), (true, tt))))

abbrev zeros : Vals outer
zeros = (0, ([], ((0, (0, (0, tt))), (false, tt))))

sample-ArePackable : IsMessage outer × ArePackable outer sample
unfolding fields same encoded_data accept encode_value encode encode_uint be_bytes
sample-ArePackable = ground arith

decode_message-encoded_message_example :
    decode_message no_memory outer (encoded_message outer sample) zeros ≡ some sample
decode_message-encoded_message_example =
    decode_message-encoded_message no_memory outer sample zeros sample-ArePackable.0
      sample-ArePackable.1

abbrev text_31 : List ℕ
text_31 = codes "abcdefghijklmnopqrstuvwxyz01234"

-- Fifteen small numbers.
abbrev fifteen : Schema
fifteen = field 1 (codes "a") uint8 (
    field 2 (codes "b") uint8 (
      field 3 (codes "c") uint8 (
        field 4 (codes "d") uint8 (
          field 5 (codes "e") uint8 (
            field 6 (codes "f") uint8 (
              field 7 (codes "g") uint8 (
                field 8 (codes "h") uint8 (
                  field 9 (codes "i") uint8 (
                    field 10 (codes "j") uint8 (
                      field 11 (codes "k") uint8 (
                        field 12 (codes "l") uint8 (
                          field 13 (codes "m") uint8 (
                            field 14 (codes "n") uint8 (field 15 (codes "o") uint8 end))))))))))))))

abbrev all_of : ℕ → Vals fifteen
all_of n = (n, (n, (n, (n, (n, (n, (n, (n, (n, (n, (n, (n, (n, (n, (n, tt)))))))))))))))

fifteen-fields : fields fifteen ≡ 15
unfolding fields
fifteen-fields = refl

sevens-ArePackable : ArePackable fifteen (all_of 7)
sevens-ArePackable = ground arith

unopened : find_map (entries_bytes (trees fifteen (all_of 7))) ≡ none
unfolding find_map entries_bytes trees tree value_bytes encode encode_uint format_family
unopened = refl

-- A map within a map, the rest of which is missing.
abbrev cut : List ℕ
cut = 0x81 ∷ 0xA1 ∷ 0x61 ∷ 0x82 ∷ 0xA1 ∷ 0x62 ∷ 0xCD ∷ []

read_key_values_depth_example :
    read_key_values no_memory 8 (stream cut) ≡ read_key_values no_memory 100 (stream cut)
read_key_values_depth_example =
    read_key_values_depth no_memory 8 100 (stream cut) (omega arith) (omega arith)
