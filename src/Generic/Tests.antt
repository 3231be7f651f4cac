-- ===== src/Generic/Tests.antt =====
-- Generic messages of a message with a nested one.
use libcluon.Prelude.{ℕ, ◌≡◌, refl, arith, [], ◌∷◌, List, some, codes, same}
use libcluon.Visitor.{Ty, Schema, Vals, field, end, message, int8, uint64, string, double}
use libcluon.Lcm.Packet.{lookup, insert, insert_all}
use libcluon.Generic.{rfind, MetaMessage, GenericMessage, meta_of, new_generic_message}
use libcluon.Generic.Create.{Identity, create_from, pre_visit, package_of}
use libcluon.Generic.Accept.{filled_from, accept}
use libcluon.Generic.RoundTrip.{filled_from-create_from, accept-create_from}
use libcluon.Generic.Empty.{scope_of, create_empty}
use libcluon.Generic.Initial.{zeros, described, AreScoped}
use libcluon.Generic.Update.{accept_with}
use libcluon.Generic.Nested.{Created, create_empty-Created}
use libcluon.Generic.Dynamic.{decode_dynamic}
use libcluon.Proto.ZigZag.{to_zig_zag}
use libcluon.Proto.VarInt.{to_var_int}
use libcluon.Proto.Encode.{encoded_data, var_int_of, encode_key}
use libcluon.Proto.Encode as Encode
use libcluon.Proto.Encode.Records.{AreEncodable}
use libcluon.Proto.Decode.Map.{extract_message}
use libcluon.Prelude.Words.{le_bytes}

abbrev inner : Schema
inner = field 1 (codes "count") uint64 (field 7 (codes "ratio") double end)

abbrev outer : Schema
outer =
    field 2 (codes "level") int8
      (field 1 (codes "name") string (field 3 (codes "in") (message inner) end))

abbrev sample : Vals outer
sample = (253, (codes "abc", ((300, (4, tt)), tt)))

abbrev no_memory : ℕ → ℕ
no_memory i = 0

abbrev no_name : Ty → List ℕ
no_name t = codes ""

-- All messages are called demo.Msg, or Msg.
abbrev packaged : Schema → Identity
packaged s = record { id = 5; short_name = codes "Msg"; long_name = codes "demo.Msg" }

filled_from-create_from_example :
    filled_from outer (create_from no_name packaged outer sample new_generic_message) (zeros outer)
    ≡ sample
filled_from-create_from_example =
    filled_from-create_from no_name packaged outer sample (zeros outer) new_generic_message
      (omega arith)

accept-create_from_example :
    accept (create_from no_name packaged outer sample new_generic_message) ≡ (outer, sample)
accept-create_from_example =
    accept-create_from no_name packaged outer sample new_generic_message (omega arith)

-- A message Node with a bool and a Node.

-- All types and messages are called Inner, and only the inner message is in the scope.
abbrev inner_type : Ty → List ℕ
inner_type t = codes "Inner"

abbrev inner_name : Schema → Identity
inner_name s = record { id = 5; short_name = codes "Inner"; long_name = codes "Inner" }

abbrev scope : List MetaMessage
scope = described inner_type inner_name inner ∷ []

outer-AreScoped : AreScoped inner_type inner_name scope outer
unfolding lookup insert insert_all same scope_of pre_visit package_of rfind
outer-AreScoped = (tt, (tt, ((refl, (tt, (tt, tt))), tt)))

sample-AreEncodable : AreEncodable outer sample
unfolding Encode.accept Encode.visit to_var_int var_int_of encode_key to_zig_zag le_bytes
sample-AreEncodable = omega arith

decode_dynamic_example :
    (e : GenericMessage) × (create_empty 2 scope
        (meta_of (create_from inner_type inner_name outer (zeros outer) new_generic_message))
      ≡ some e)
    × (filled_from outer
          (accept_with (λ r. extract_message no_memory r (encoded_data outer sample)) e)
          (zeros outer)
        ≡ sample)
decode_dynamic_example =
    decode_dynamic inner_type inner_name no_memory 1 scope outer (zeros outer) sample (zeros outer)
      new_generic_message (omega arith) (omega arith) outer-AreScoped sample-AreEncodable

create_empty-Created_example : Created inner_type inner_name 2 scope outer
create_empty-Created_example =
    create_empty-Created inner_type inner_name 1 scope outer (omega arith) (omega arith)
      outer-AreScoped
