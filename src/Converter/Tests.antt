-- ===== src/Converter/Tests.antt =====
-- The JSON of an envelope with the message Speed, whose identifier is 30002.
use libcluon.Prelude.{ℕ, ◌^◌, ◌<◌, ◌≡◌, refl, arith, List, [], ◌∷◌, ◌++◌, some, codes, length}
use libcluon.Visitor.{Ty, Schema, end, field, uint32}
use libcluon.Envelope.{Envelope, envelope, serialize_envelope}
use libcluon.Proto.Encode.Records.{AreEncodable}
use libcluon.Proto.Encode.{encoded_data}
use libcluon.Proto.Encode as Encode
use libcluon.Proto.Encode.{var_int_of, encode_key}
use libcluon.Proto.VarInt.{to_var_int}
use libcluon.Proto.ZigZag.{to_zig_zag}
use libcluon.Prelude.Words.{le_bytes}
use libcluon.Generic.Create.{Identity, pre_visit}
use libcluon.Generic.Initial.{described}
use libcluon.MessageParser.{no_messageparser_error}
use libcluon.Json.Print.{shown, value_text}
use libcluon.Prelude.Decimal.{decimal, signed_decimal}
use libcluon.Json.Joined.{joined}
use libcluon.Converter.{
  EnvelopeConverter, scope_at, set_message_specification, underscored, get_json_from_envelope,
  get_json_from_proto_encoded_envelope,
}
use libcluon.Converter.Framed.{get_json_from_proto_encoded_envelope-encoded}
use libcluon.Converter.Printed.{entries_with, get_json_from_envelope-joined}

abbrev no_memory : ℕ → ℕ
no_memory i = 0

-- Neither is printed here.
abbrev no_text : ℕ → List ℕ
no_text n = []

abbrev speed : Schema
speed = field 1 (codes "value") uint32 end

abbrev type_name : Ty → List ℕ
type_name t = codes "uint32"

abbrev identity : Schema → Identity
identity s = record { id = 30002; short_name = codes "car.Speed"; long_name = codes "car.Speed" }

abbrev converter : EnvelopeConverter
converter =
    (set_message_specification (described type_name identity speed ∷ [], no_messageparser_error)).0

abbrev sample : Envelope
sample = (30002, (8 ∷ 123 ∷ [], ((5, (6, tt)), ((0, (0, tt)), ((5, (6, tt)), (300, tt))))))

sample-AreEncodable : AreEncodable envelope sample
unfolding Encode.accept Encode.visit to_var_int var_int_of encode_key to_zig_zag le_bytes
sample-AreEncodable = omega arith

length-sample : length (encoded_data envelope sample) < 2 ^ 24
unfolding Encode.accept Encode.visit to_var_int var_int_of encode_key to_zig_zag le_bytes
length-sample = omega arith

speed_in_scope : scope_at 30002 converter.scope ≡ some (described type_name identity speed)
unfolding scope_at set_message_specification pre_visit
speed_in_scope = refl

one_in_list : 0 < length converter.list
unfolding set_message_specification
one_in_list = omega arith

payload_encoded : 8 ∷ 123 ∷ [] ≡ encoded_data speed (123, tt)
unfolding Encode.accept Encode.visit to_var_int var_int_of encode_key to_zig_zag le_bytes
payload_encoded = refl

get_json_from_envelope-joined_example :
    get_json_from_envelope no_memory no_text no_text 1 converter sample
    ≡ some (
        0x7B
          ∷ joined (
              entries_with no_text no_text
                (underscored (described type_name identity speed).message_name)
                sample
                speed
                (123, tt))
        ++ 0x7D ∷ [])
get_json_from_envelope-joined_example =
    get_json_from_envelope-joined no_text no_text no_memory type_name identity 0 converter sample
      speed (123, tt) one_in_list speed_in_scope payload_encoded (omega arith) (omega arith)
      (omega arith) (omega arith)

get_json_from_proto_encoded_envelope-encoded_example :
    (get_json_from_proto_encoded_envelope no_memory no_text no_text 1 converter
        (serialize_envelope sample)
      ≡ get_json_from_envelope no_memory no_text no_text 1 converter sample)
    × (get_json_from_proto_encoded_envelope no_memory no_text no_text 1 converter
          (encoded_data envelope sample)
        ≡ get_json_from_envelope no_memory no_text no_text 1 converter sample)
get_json_from_proto_encoded_envelope-encoded_example =
    get_json_from_proto_encoded_envelope-encoded no_memory no_text no_text 1 converter sample
      sample-AreEncodable length-sample

-- The values of the payload, behind those of the envelope.
text :
    get_json_from_envelope no_memory no_text no_text 1 converter sample
    ≡ some (
        codes "{\"dataType\":30002,\n\"sent\":{\"seconds\":5,\n\"microseconds\":6},\n"
        ++ codes "\"received\":{\"seconds\":0,\n\"microseconds\":0},\n"
        ++ codes "\"sampleTimeStamp\":{\"seconds\":5,\n\"microseconds\":6},\n\"senderStamp\":300,\n"
        ++ codes "\"car_Speed\":{\"value\":123}}")
unfolding shown value_text decimal signed_decimal underscored pre_visit
text =
    get_json_from_envelope-joined no_text no_text no_memory type_name identity 0 converter sample
      speed (123, tt) one_in_list speed_in_scope payload_encoded (omega arith) (omega arith)
      (omega arith) (omega arith)
