-- ===== src/Converter/Framed.antt =====
-- libcluon/src/EnvelopeConverter.cpp: envelopes with and without the OD4 header.
use libcluon.Prelude.{
  ℕ, ◌^◌, ◌<◌, ◌≡◌, ◌==◌, refl, ap, ◌∙◌, sym, arith, true, List, [], ◌∷◌, ◌++◌, length,
  length-append, append-nil, drop, if_true, if_false, Bool-cases, inl, inr,
}
use libcluon.Prelude.Words.{from_le}
use libcluon.Stream.{stream}
use libcluon.Proto.Encode.{encoded_data}
use libcluon.Proto.Encode.Records.{
  AreEncodable, records, records_bytes, record_bytes, payload_bytes, encoded_data-records_bytes,
}
use libcluon.Proto.VarInt.Bytes.{var_int_bytes}
use libcluon.Proto.Decode.Loop.{decode_loop-records, store_all}
use libcluon.Proto.Decode.{new_decoder}
use libcluon.Proto.Decode.Direct.{accept_field, decode_into}
use libcluon.Proto.RoundTrip.{decode_into-encoded_data}
use libcluon.Envelope.{
  data_type, Envelope, envelope, new_envelope, serialize_envelope, header_length, extract_envelope,
}
use libcluon.Envelope.Framing.{frame, serialize_envelope-frame, extract_envelope-serialize_envelope}
use libcluon.Converter.{
  EnvelopeConverter, is_container, container, extracted, decoded, is_empty, get_json_from_envelope,
  get_json_from_proto_encoded_envelope,
}

length-append_nonempty : (xs : List ℕ) (b : ℕ) (ys : List ℕ) → 0 < length (xs ++ b ∷ ys)
length-append_nonempty xs b ys = omega (arith, length-append xs (b ∷ ys))

-- The encoded envelope begins with the key of the field dataType.
encoded_envelope_begins :
    (env : Envelope)
    → AreEncodable envelope env
    → (rest : List ℕ) × (encoded_data envelope env ≡ 8 ∷ rest) × (0 < length rest)
unfolding records records_bytes record_bytes payload_bytes var_int_bytes
encoded_envelope_begins env h =
    let begins = encoded_data-records_bytes envelope env h in
    (drop 1 (records_bytes (records envelope env)), begins, length-append_nonempty _ _ _)

is_container-frame :
    (n : ℕ) (bytes : List ℕ)
    → length bytes ≡ n
    → 0 < n
    → n < 2 ^ 24
    → is_container (frame n bytes) ≡ true
unfolding is_container header_length from_le
is_container-frame n bytes l h f = ground (arith, l)

decoded_nothing : (memory : ℕ → ℕ) (env : Envelope) → decoded memory (env, stream []) ≡ env
unfolding records_bytes store_all
decoded_nothing memory env = elim (Bool-cases (data_type env == 0)) [
  | inl e ↦
      rw e
        (decode_loop-records (accept_field memory envelope) 1 new_decoder [] env tt (omega arith))
  | inr e ↦ rw e refl
]

module _ (memory : ℕ → ℕ) where
  decoded_framed :
      (env : Envelope)
      → AreEncodable envelope env
      → length (encoded_data envelope env) < 2 ^ 24
      → decoded memory (container memory (serialize_envelope env)) ≡ env
  decoded_framed env h f =
      let (rest, begins, more) = encoded_envelope_begins env h in
      let framed =
        ap is_container (serialize_envelope-frame env)
        ∙ is_container-frame (length (encoded_data envelope env)) (encoded_data envelope env) refl
            (omega (arith, ap length begins)) f in
      ap (decoded memory) (
        if_true (is_container (serialize_envelope env)) _ _ framed
        ∙ ap extracted (
            ap (λ b. extract_envelope memory (stream b)) {x = serialize_envelope env}
              {y = serialize_envelope env ++ []} (sym (append-nil (serialize_envelope env)))
            ∙ extract_envelope-serialize_envelope memory env [] h f))
      ∙ decoded_nothing memory env

  decoded_unframed :
      (env : Envelope)
      → AreEncodable envelope env
      → decoded memory (container memory (encoded_data envelope env)) ≡ env
  unfolding is_container
  decoded_unframed env h =
      let (rest, begins, more) = encoded_envelope_begins env h in
      ap (decoded memory) (
        if_false (is_container (encoded_data envelope env)) _ _
          (ap is_container begins ∙ ground arith))
      ∙ unfold decode_into in
        decode_into-encoded_data memory envelope env new_envelope (omega arith) h

  module _ (float_text double_text : ℕ → List ℕ) where
    of_decoded :
        (depth : ℕ) (c : EnvelopeConverter) (env : Envelope) (bytes : List ℕ)
        → decoded memory (container memory bytes) ≡ env
        → get_json_from_proto_encoded_envelope memory float_text double_text depth c bytes
          ≡ get_json_from_envelope memory float_text double_text depth c env
    unfolding get_json_from_proto_encoded_envelope
    of_decoded depth c env bytes e = elim (Bool-cases (is_empty c.list)) [
      | inl n ↦ unfold get_json_from_envelope in rw n refl
      | inr n ↦
          if_false (is_empty c.list) _ _ n
          ∙ (ap (get_json_from_envelope memory float_text double_text depth c) e)
    ]

    -- For a serialized envelope, and for an encoded one without the OD4 header,
    -- getJSONFromProtoEncodedEnvelope returns what getJSONFromEnvelope returns for the envelope,
    -- for any specification, if the values of the envelope are in range and its encoding is
    -- shorter than 16 MB.
    pub get_json_from_proto_encoded_envelope-encoded :
        (depth : ℕ) (c : EnvelopeConverter) (env : Envelope)
        → AreEncodable envelope env
        → length (encoded_data envelope env) < 2 ^ 24
        → (get_json_from_proto_encoded_envelope memory float_text double_text depth c
              (serialize_envelope env)
            ≡ get_json_from_envelope memory float_text double_text depth c env)
          × (get_json_from_proto_encoded_envelope memory float_text double_text depth c
                (encoded_data envelope env)
              ≡ get_json_from_envelope memory float_text double_text depth c env)
    get_json_from_proto_encoded_envelope-encoded depth c env h f = (
      of_decoded depth c env (serialize_envelope env) (decoded_framed env h f),
      of_decoded depth c env (encoded_data envelope env) (decoded_unframed env h),
    )
