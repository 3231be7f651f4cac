-- ===== src/Lcm/Tests.antt =====
-- The theorems of the LCM format at concrete messages.
use libcluon.Prelude.{
  ℕ, ◌≡◌, ◌≢◌, refl, arith, false, not, ◌&&◌, ◌==◌, List, [], ◌∷◌, some, codes, same,
}
use libcluon.Stream.{stream}
use libcluon.Visitor.{Ty, Schema, Vals, field, end, message, int8, uint16, string, double}
use libcluon.Lcm.Hash.{encoder_hash, decoder_hash, hash_chars, hash_char, hash_of, field_hash}
use libcluon.Lcm.Fields.{message_hash, fields_hash, fields_hashes, nested_hashes}
use libcluon.Lcm.Encode.{encoded_message}
use libcluon.Lcm.Decode.{new_decoder, decode_from, accept}
use libcluon.Lcm.Primitives.{AreSendable}
use libcluon.Lcm.RoundTrip.{accept-encoded_message}
use libcluon.Lcm.Mismatch.{accept-mismatch}
use libcluon.Lcm.Packet.{Specification, lookup, insert, insert_all, set_message_specification}
use libcluon.Lcm.Dynamic.{generic_message, generic_message-packet}
use libcluon.Generic.{MetaMessage, GenericMessage, rfind}
use libcluon.Generic.Create.{Identity, package_of}
use libcluon.Generic.Create as Create
use libcluon.Generic.Accept.{filled_from}
use libcluon.Generic.Empty.{scope_of}
use libcluon.Generic.Initial.{described}
use libcluon.Lcm.Channels.{packet}

abbrev no_memory : ℕ → ℕ
no_memory i = 0

-- A message with an int8, a string and a nested message with a uint16 and a double.
abbrev inner : Schema
inner = field 1 (codes "count") uint16 (field 7 (codes "ratio") double end)

abbrev outer : Schema
outer =
    field 2 (codes "level") int8
      (field 1 (codes "name") string (field 3 (codes "in") (message inner) end))

abbrev sample : Vals outer
sample = (253, (codes "abc", ((300, (4, tt)), tt)))

abbrev zeros : Vals outer
zeros = (0, ([], ((0, (0, tt)), tt)))

sample-AreSendable : AreSendable outer sample
sample-AreSendable = omega arith

outer_hash : message_hash encoder_hash outer ≢ 0
unfolding encoder_hash hash_chars hash_char hash_of field_hash fields_hash fields_hashes
    nested_hashes
outer_hash = ground arith

accept-encoded_message_example :
    accept no_memory (decode_from new_decoder (stream (encoded_message outer sample))) outer zeros
    ≡ (sample, false)
accept-encoded_message_example =
    accept-encoded_message no_memory new_decoder outer sample zeros outer_hash sample-AreSendable

accept-mismatch_example :
    (accept no_memory (decode_from new_decoder (stream (1 ∷ 2 ∷ []))) outer zeros).1 ≡ (
      not ((decode_from new_decoder (stream (1 ∷ 2 ∷ []))).expected == 0)
      && not (
          (decode_from new_decoder (stream (1 ∷ 2 ∷ []))).expected
          == message_hash decoder_hash outer))
accept-mismatch_example =
    accept-mismatch no_memory (decode_from new_decoder (stream (1 ∷ 2 ∷ []))) outer zeros

-- Meta messages are numbers, named "a" and "b" in turn.
abbrev known : Specification ℕ
known = record { list = 1 ∷ 2 ∷ []; scope = (codes "a", 1) ∷ (codes "b", 2) ∷ [] }

found : lookup (codes "b") known.scope ≡ some 2
unfolding lookup same
found = refl

-- All types and messages are called Inner, and only the inner message is in the scope.
abbrev inner_type : Ty → List ℕ
inner_type t = codes "Inner"

abbrev inner_name : Schema → Identity
inner_name s = record { id = 5; short_name = codes "Inner"; long_name = codes "Inner" }

abbrev scope : List MetaMessage
scope = described inner_type inner_name inner ∷ []

inner-AreScoped :
    lookup (codes "Inner") (scope_of scope) ≡ some (described inner_type inner_name inner)
unfolding lookup insert insert_all same scope_of Create.pre_visit package_of rfind
inner-AreScoped = refl

inner_hash : message_hash encoder_hash inner ≢ 0
unfolding encoder_hash hash_chars hash_char hash_of field_hash fields_hash fields_hashes
    nested_hashes
inner_hash = ground arith

generic_message-packet_example :
    (gm : GenericMessage) × (generic_message no_memory 1
        (set_message_specification (λ mm. mm.message_name) (some scope)).0
        (packet (codes "Inner") (encoded_message inner (300, (4, tt))))
      ≡ some gm)
    × (filled_from inner gm (0, (0, tt)) ≡ (300, (4, tt)))
generic_message-packet_example =
    generic_message-packet no_memory inner_type inner_name 0 scope (codes "Inner") inner
      (300, (4, tt)) (0, (0, tt)) (omega arith) (omega arith) (omega arith) inner-AreScoped
      (omega arith) (omega arith) (omega arith) inner_hash (omega arith)
