-- ===== src/Lcm/RoundTrip.antt =====
-- Decoding what the encoder writes.
use libcluon.Prelude.{
  ℕ, ◌^◌, ◌<◌, ◌≡◌, ◌≢◌, refl, ap, sym, ◌∙◌, arith, false, ◌==◌, drop-all, List, [], ◌∷◌, ◌++◌,
  append_assoc, append-nil,
}
use libcluon.Prelude.Words.{be_bytes, le_bytes, length-be_bytes, length-le_bytes, from_be-be_bytes}
use libcluon.Stream.{stream, read-be_bytes}
use libcluon.Visitor.{Ty, Schema, Val, Vals, end, field, message}
use libcluon.Visitor.{bool, char, int8, uint8, int16, uint16, int32, uint32, int64, uint64}
use libcluon.Visitor.{float, double, string}
use libcluon.Lcm.Hash.{encoder_hash, decoder_hash, field_hash, field_hash_short, hash_of}
use libcluon.Lcm.Encode.{new_encoder, encoded_data, encoded_message}
use libcluon.Lcm.Fields.{
  value_bytes, fields_bytes, fields_hash, fields_hashes, nested_hashes, message_hash, accept-fields,
}
use libcluon.Lcm.Decode.{
  Decoder, nonempty, decode_from, pre_visit, post_visit, visit, visit_fields, accept,
}
use libcluon.Lcm.Primitives.{IsSendable, AreSendable, decoder, read_primitive-bytes}

module _ (memory : ℕ → ℕ) where
  mutual
    unfolding visit visit_fields fields_bytes value_bytes fields_hash fields_hashes nested_hashes
        pre_visit

    visit-bytes :
        (c e : ℕ) (k : List ℕ) (hs name : List ℕ) (t : Ty) (v old : Val t) (rest : List ℕ)
        → IsSendable t v
        → visit memory (decoder c e k (stream (value_bytes t v ++ rest)) hs) name t old ≡ (
          decoder
              (field_hash decoder_hash c name t)
              e
              k
              (stream rest)
              (hs ++ nested_hashes decoder_hash t),
          v,
        )
    visit-bytes c e k hs name bool v old rest h =
        rw (read_primitive-bytes memory bool v old rest tt h, append-nil hs)
    visit-bytes c e k hs name char v old rest h =
        rw (read_primitive-bytes memory char v old rest tt h, append-nil hs)
    visit-bytes c e k hs name int8 v old rest h =
        rw (read_primitive-bytes memory int8 v old rest tt h, append-nil hs)
    visit-bytes c e k hs name uint8 v old rest h =
        rw (read_primitive-bytes memory uint8 v old rest tt h, append-nil hs)
    visit-bytes c e k hs name int16 v old rest h =
        rw (read_primitive-bytes memory int16 v old rest tt h, append-nil hs)
    visit-bytes c e k hs name uint16 v old rest h =
        rw (read_primitive-bytes memory uint16 v old rest tt h, append-nil hs)
    visit-bytes c e k hs name int32 v old rest h =
        rw (read_primitive-bytes memory int32 v old rest tt h, append-nil hs)
    visit-bytes c e k hs name uint32 v old rest h =
        rw (read_primitive-bytes memory uint32 v old rest tt h, append-nil hs)
    visit-bytes c e k hs name int64 v old rest h =
        rw (read_primitive-bytes memory int64 v old rest tt h, append-nil hs)
    visit-bytes c e k hs name uint64 v old rest h =
        rw (read_primitive-bytes memory uint64 v old rest tt h, append-nil hs)
    visit-bytes c e k hs name float v old rest h =
        rw (read_primitive-bytes memory float v old rest tt h, append-nil hs)
    visit-bytes c e k hs name double v old rest h =
        rw (read_primitive-bytes memory double v old rest tt h, append-nil hs)
    visit-bytes c e k hs name string v old rest h =
        rw (read_primitive-bytes memory string v old rest tt h, append-nil hs)
    visit-bytes c e k hs name (message s) v old rest h =
        rw (visit_fields-bytes 0x12345678 0 k [] s v old rest h)

    visit_fields-bytes :
        (c e : ℕ) (k : List ℕ) (hs : List ℕ) (s : Schema) (v old : Vals s) (rest : List ℕ)
        → AreSendable s v
        → visit_fields memory (decoder c e k (stream (fields_bytes s v ++ rest)) hs) s old ≡ (
          decoder
              (fields_hash decoder_hash c s)
              e
              k
              (stream rest)
              (hs ++ fields_hashes decoder_hash s),
          v,
        )
    visit_fields-bytes c e k hs end v old rest h = rw (append-nil hs)
    visit_fields-bytes c e k hs (field id name t s) v old rest h = rw (
      append_assoc (value_bytes t v.0) (fields_bytes s v.1) rest,
      visit-bytes c e k hs name t v.0 old.0 (fields_bytes s v.1 ++ rest) h.1,
      visit_fields-bytes (field_hash decoder_hash c name t) e k (hs ++ nested_hashes decoder_hash t)
          s v.1 old.1 rest h.2,
      append_assoc hs (nested_hashes decoder_hash t) (fields_hashes decoder_hash s),
    )

-- Both visitors hash short names alike.
mutual
  unfolding fields_hash fields_hashes nested_hashes

  nested_hashes_short :
      (t : Ty) (v : Val t)
      → IsSendable t v
      → nested_hashes encoder_hash t ≡ nested_hashes decoder_hash t
  nested_hashes_short bool v h = refl
  nested_hashes_short char v h = refl
  nested_hashes_short int8 v h = refl
  nested_hashes_short uint8 v h = refl
  nested_hashes_short int16 v h = refl
  nested_hashes_short uint16 v h = refl
  nested_hashes_short int32 v h = refl
  nested_hashes_short uint32 v h = refl
  nested_hashes_short int64 v h = refl
  nested_hashes_short uint64 v h = refl
  nested_hashes_short float v h = refl
  nested_hashes_short double v h = refl
  nested_hashes_short string v h = refl
  nested_hashes_short (message s) v h =
      ap (λ x. x ∷ []) (rw (fields_hash_short 0x12345678 s v h, fields_hashes_short s v h))

  fields_hash_short :
      (c : ℕ) (s : Schema) (v : Vals s)
      → AreSendable s v
      → fields_hash encoder_hash c s ≡ fields_hash decoder_hash c s
  fields_hash_short c end v h = refl
  fields_hash_short c (field id name t s) v h =
      ap (λ x. fields_hash encoder_hash x s) (field_hash_short c name t h.0)
      ∙ fields_hash_short (field_hash decoder_hash c name t) s v.1 h.2

  fields_hashes_short :
      (s : Schema) (v : Vals s)
      → AreSendable s v
      → fields_hashes encoder_hash s ≡ fields_hashes decoder_hash s
  fields_hashes_short end v h = refl
  fields_hashes_short (field id name t s) v h =
      rw (nested_hashes_short t v.0 h.1, fields_hashes_short s v.1 h.2)

message_hash_short :
    (s : Schema) (v : Vals s)
    → AreSendable s v
    → message_hash encoder_hash s ≡ message_hash decoder_hash s
message_hash_short s v h = rw (fields_hash_short 0x12345678 s v h, fields_hashes_short s v h)

-- The hash and the fields, as the decoder takes them.
encoded_message-parts :
    (s : Schema) (v : Vals s)
    → encoded_message s v ≡ be_bytes 8 (message_hash encoder_hash s) ++ fields_bytes s v
unfolding encoded_data
encoded_message-parts s v = rw (accept-fields new_encoder s v)

nonzero : (h : ℕ) → h ≢ 0 → (h == 0) ≡ false
nonzero h k = ground arith

hash_of-bound : (h : ℕ) (hashes : List ℕ) → hash_of h hashes < 2 ^ 64
unfolding hash_of
hash_of-bound h hashes = omega arith

post_visit-same : (d : Decoder) → hash_of d.calculated d.hashes ≡ d.expected → post_visit d ≡ false
unfolding post_visit
post_visit-same d h = ground arith

decode_from-word :
    (d : Decoder) (h : ℕ) (bytes : List ℕ)
    → h < 2 ^ 64
    → decode_from d (stream (be_bytes 8 h ++ bytes))
      ≡ decoder d.calculated h bytes (record { rest = bytes; good = nonempty bytes }) d.hashes
unfolding decode_from
decode_from-word d h bytes l = rw (
  read-be_bytes 8 h bytes,
  length-be_bytes 8 h,
  drop-all 8 (le_bytes 8 d.expected) (omega (arith, length-le_bytes 8 d.expected)),
  append-nil (be_bytes 8 h),
  from_be-be_bytes 8 h l,
)

pre_visit-word :
    (d : Decoder) (h : ℕ) (bytes : List ℕ)
    → h < 2 ^ 64
    → h ≢ 0
    → pre_visit (decode_from d (stream (be_bytes 8 h ++ bytes)))
      ≡ decoder 0x12345678 h bytes (stream bytes) []
unfolding pre_visit
pre_visit-word d h bytes l k = rw (decode_from-word d h bytes l, nonzero h k)

module _ (memory : ℕ → ℕ) where
  -- A decoder in any state that decodes the LCM bytes of a message gives a message that accepts
  -- it the encoded values, nested messages included, whatever it held before, and reports no
  -- mismatch of the hashes, if the hash of the message is not 0, the names have at most 255
  -- characters and the values are in range.
  pub accept-encoded_message :
      (d : Decoder) (s : Schema) (v old : Vals s)
      → message_hash encoder_hash s ≢ 0
      → AreSendable s v
      → accept memory (decode_from d (stream (encoded_message s v))) s old ≡ (v, false)
  unfolding accept
  accept-encoded_message d s v old k h =
      let word = message_hash encoder_hash s in
      let bytes = fields_bytes s v in
      let start = decoder 0x12345678 word bytes (stream bytes) [] in
      let read_all : visit_fields memory start s old ≡ (
        decoder (fields_hash decoder_hash 0x12345678 s) word bytes (stream [])
            (fields_hashes decoder_hash s),
        v,
      ) =
        ap (λ t. visit_fields memory (decoder 0x12345678 word bytes (stream t) []) s old)
          (sym (append-nil bytes))
        ∙ visit_fields-bytes memory 0x12345678 word bytes [] s v old [] h in
      rw (
        encoded_message-parts s v,
        pre_visit-word d word bytes (hash_of-bound _ _) k,
        read_all,
        post_visit-same
            (decoder (fields_hash decoder_hash 0x12345678 s) word bytes (stream [])
              (fields_hashes decoder_hash s))
            (sym (message_hash_short s v h)),
      )
