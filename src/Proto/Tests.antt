-- ===== src/Proto/Tests.antt =====
-- The codec's theorems at concrete messages.
use libcluon.Prelude.{ℕ, ◌≤◌, ◌≡◌, refl, arith, [], ◌∷◌, ◌++◌, codes, Option, none}
use libcluon.Prelude.Words.{signed, le_bytes}
use libcluon.Stream.{Stream, stream}
use libcluon.Visitor.{Schema, Vals, field, end, message, int8, uint64, string, double}
use libcluon.Proto.ZigZag.{to_zig_zag, zig_zag, to_zig_zag-zig_zag}
use libcluon.Proto.VarInt.{to_var_int, from_var_int}
use libcluon.Proto.VarInt.Bytes.{from_var_int-to_var_int}
use libcluon.Proto.Encode.{encoded_data, accept, visit, var_int_of, encode_key}
use libcluon.Proto.Encode.Records.{AreEncodable, records, records_bytes, encoded_data-records_bytes}
use libcluon.Proto.Decode.{new_decoder, read_field, read_payload}
use libcluon.Proto.Decode.Direct.{accept_field, decode_into}
use libcluon.Proto.Decode.Rounds.{loop_outcome_rounds}
use libcluon.Proto.Decode.Returns.{
  loop_outcome, loop_returns, field_returns, payload_returns, visit_returns, fields_return,
}
use libcluon.Proto.Decode.Map.{extract_message}
use libcluon.Proto.RoundTrip.{decode_into-encoded_data}
use libcluon.Proto.MapRoundTrip.{extract_message-encoded_data}

abbrev no_memory : ℕ → ℕ
no_memory i = 0

-- A message with an int8, a string and a nested message with a uint64 and a double.
abbrev inner : Schema
inner = field 1 (codes "count") uint64 (field 7 (codes "ratio") double end)

abbrev outer : Schema
outer =
    field 2 (codes "level") int8
      (field 1 (codes "name") string (field 3 (codes "in") (message inner) end))

-- The level is -3.
abbrev sample : Vals outer
sample = (253, (codes "abc", ((300, (4, tt)), tt)))

abbrev zeros : Vals outer
zeros = (0, ([], ((0, (0, tt)), tt)))

sample-AreEncodable : AreEncodable outer sample
unfolding accept visit to_var_int var_int_of encode_key to_zig_zag le_bytes
sample-AreEncodable = omega arith

to_zig_zag-zig_zag_example : to_zig_zag 8 253 ≡ zig_zag (signed 8 253)
to_zig_zag-zig_zag_example = to_zig_zag-zig_zag 7 253 (omega arith)

minus_three : to_zig_zag 8 253 ≡ 5
unfolding to_zig_zag
minus_three = refl

from_var_int-to_var_int_example :
    (from_var_int (stream ((to_var_int [] 300).0 ++ (9 ∷ [])))
      ≡ (300, (to_var_int [] 300).1, stream (9 ∷ [])))
    × (1 ≤ (to_var_int [] 300).1)
    × ((to_var_int [] 300).1 ≤ 10)
from_var_int-to_var_int_example = from_var_int-to_var_int 300 (9 ∷ []) (omega arith)

encoded_data-records_bytes_example :
    encoded_data outer sample ≡ records_bytes (records outer sample)
encoded_data-records_bytes_example = encoded_data-records_bytes outer sample sample-AreEncodable

decode_into-encoded_data_example :
    decode_into no_memory outer (encoded_data outer sample) zeros ≡ sample
decode_into-encoded_data_example =
    decode_into-encoded_data no_memory outer sample zeros (omega arith) sample-AreEncodable

extract_message-encoded_data_example :
    extract_message no_memory outer (encoded_data outer sample) zeros ≡ sample
extract_message-encoded_data_example =
    extract_message-encoded_data no_memory outer sample zeros (omega arith) sample-AreEncodable

-- A number that is cut short, and a string of 200 bytes where there is room for 100.
abbrev cut_short : Stream
cut_short = stream (10 ∷ 1 ∷ 97 ∷ 8 ∷ 0x80 ∷ [])

abbrev too_long : Stream
too_long = stream (8 ∷ 1 ∷ 10 ∷ 200 ∷ 1 ∷ 97 ∷ [])

-- The loop on the fields of the outer message.
abbrev outcome : ℕ → Stream → Option (Vals outer)
outcome rounds s =
    loop_outcome 100 (accept_field no_memory outer) (fields_return 100 no_memory outer) rounds
      new_decoder s zeros

too_long_terminates : outcome 7 too_long ≡ none
unfolding loop_outcome loop_returns field_returns payload_returns visit_returns read_field
    read_payload from_var_int
too_long_terminates = refl

loop_outcome_rounds_example : outcome 20 cut_short ≡ outcome 6 cut_short
loop_outcome_rounds_example =
    loop_outcome_rounds 100 (fields_return 100 no_memory outer) (accept_field no_memory outer) 20 6
      new_decoder cut_short zeros (omega arith) (omega arith)
