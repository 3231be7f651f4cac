-- ===== src/Envelope/Tests.antt =====
-- Envelopes that are written and read, and the framing theorems at them.
use libcluon.Prelude.{ℕ, ◌^◌, ◌<◌, ◌≡◌, refl, arith, true, List, [], ◌∷◌, ◌++◌, length}
use libcluon.Prelude.Words.{le_bytes}
use libcluon.Stream.{Stream, stream}
use libcluon.Proto.Encode.{encoded_data, accept, visit, var_int_of, encode_key}
use libcluon.Proto.ZigZag.{to_zig_zag}
use libcluon.Proto.Encode.Records.{AreEncodable}
use libcluon.Proto.VarInt.{to_var_int}
use libcluon.Envelope.{Envelope, envelope, serialize_envelope, extract_envelope}
use libcluon.Envelope.Framing.{extract_envelope-serialize_envelope}

abbrev no_memory : ℕ → ℕ
no_memory i = 0

-- An envelope of a message 30002 with one field, sent at 5.000006 s, and the stamp 300.
abbrev sample : Envelope
sample = (30002, (8 ∷ 123 ∷ [], ((5, (6, tt)), ((0, (0, tt)), ((5, (6, tt)), (300, tt))))))

serialized :
    serialize_envelope sample
    ≡ 0x0D ∷ 0xA4 ∷ 29 ∷ 0 ∷ 0 ∷ 8 ∷ 228 ∷ 212 ∷ 3 ∷ 18 ∷ 2 ∷ 8 ∷ 123 ∷ 26 ∷ 4 ∷ 8 ∷ 10 ∷ 16 ∷ 12
      ∷ 34 ∷ 4 ∷ 8 ∷ 0 ∷ 16 ∷ 0 ∷ 42 ∷ 4 ∷ 8 ∷ 10 ∷ 16 ∷ 12 ∷ 48 ∷ 172 ∷ 2 ∷ []
unfolding serialize_envelope accept visit to_var_int var_int_of encode_key to_zig_zag le_bytes
serialized = refl

sample-AreEncodable : AreEncodable envelope sample
unfolding accept visit to_var_int var_int_of encode_key to_zig_zag le_bytes
sample-AreEncodable = omega arith

length-sample : length (encoded_data envelope sample) < 2 ^ 24
unfolding accept visit to_var_int var_int_of encode_key to_zig_zag le_bytes
length-sample = omega arith

extract_envelope-serialize_envelope_example :
    extract_envelope no_memory (stream (serialize_envelope sample ++ (1 ∷ 2 ∷ [])))
    ≡ (true, sample, stream (1 ∷ 2 ∷ []))
extract_envelope-serialize_envelope_example =
    extract_envelope-serialize_envelope no_memory sample (1 ∷ 2 ∷ []) sample-AreEncodable
      length-sample

-- A frame of one field, and what is extracted from it.
abbrev framed : List ℕ
framed = 0x0D ∷ 0xA4 ∷ 2 ∷ 0 ∷ 0 ∷ 8 ∷ 2 ∷ []
