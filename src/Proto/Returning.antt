-- ===== src/Proto/Returning.antt =====
-- Decoding what the encoder wrote returns (libcluon/include/cluon/FromProtoVisitor.hpp).
use libcluon.Prelude.{
  ℕ, zero, suc, ◌+◌, ◌*◌, ◌≤◌, ◌≡◌, ◌≢◌, refl, ◌∙◌, arith, Bool, true, false, List, [], ◌∷◌, ◌++◌,
  ◌==◌, leb, length, All, ==_iff, length-append, append_assoc, if_true, if_false,
}
use libcluon.Stream.{stream}
use libcluon.Visitor.{Ty, Schema, Val, Vals, end, field, message, string}
use libcluon.Visitor.{bool, char, int8, uint8, int16, uint16, int32, uint32, int64, uint64}
use libcluon.Visitor.{float, double}
use libcluon.Proto.VarInt.{from_var_int}
use libcluon.Proto.VarInt.Bytes.{var_int_bytes, from_var_int-bytes, var_int_bytes_lengths}
use libcluon.Proto.Encode.{encoded_data}
use libcluon.Proto.Encode.Records.{
  Payload, number, word8, word4, text, Record, wire_type, payload_bytes, record_bytes, payload,
  records, records_bytes, IsPayload, IsRecord, IsEncodable, AreEncodable, records-IsRecord,
  encoded_data-records_bytes,
}
use libcluon.Proto.Decode.{Decoder, new_decoder, with_key}
use libcluon.Proto.Decode.Loop.{after, wire_type-lt, key_parts, read_field-record, read_field-nil}
use libcluon.Proto.Decode.Returns.{
  payload_returns, field_returns, loop_returns, visit_returns, fields_return, decode_returns,
}
use libcluon.Proto.RoundTrip.{DistinctIn, Distinct, after_field_id, first_bytes-all, records-Fresh}

module _ (room : ℕ) where
  payload_returns-record :
      (d : Decoder) (p : Payload) (rest : List ℕ)
      → d.proto_type ≡ wire_type p
      → IsPayload p
      → length (payload_bytes p) ≤ room
      → payload_returns room d (stream (payload_bytes p ++ rest)) ≡ true
  unfolding payload_returns payload_bytes
  payload_returns-record d (number v) rest e h f =
      ground (arith, from_var_int-bytes v rest h, var_int_bytes_lengths 9 v)
  payload_returns-record d (word8 v) rest e h f = ground arith
  payload_returns-record d (word4 v) rest e h f = ground arith
  payload_returns-record d (text v) rest e h f = ground (
    arith,
    append_assoc (var_int_bytes 9 (length v)) v rest,
    from_var_int-bytes (length v) (v ++ rest) h,
    var_int_bytes_lengths 9 (length v),
    length-append (var_int_bytes 9 (length v)) v,
  )

  field_returns-record :
      (d : Decoder) (r : Record) (rest : List ℕ)
      → IsRecord r
      → length (record_bytes r) ≤ room
      → field_returns room d (stream (record_bytes r ++ rest)) ≡ true
  unfolding field_returns record_bytes
  field_returns-record d (id, p) rest h f = ground (
    arith,
    append_assoc (var_int_bytes 9 (id * 8 + wire_type p)) (payload_bytes p) rest,
    wire_type-lt p,
    from_var_int-bytes (id * 8 + wire_type p) (payload_bytes p ++ rest),
    var_int_bytes_lengths 9 (id * 8 + wire_type p),
    length-append (var_int_bytes 9 (id * 8 + wire_type p)) (payload_bytes p),
    key_parts d id (wire_type p),
    payload_returns-record (with_key d (id * 8 + wire_type p)) p rest,
  )

  field_returns-nil : (d : Decoder) → field_returns room d (stream []) ≡ true
  unfolding field_returns payload_returns from_var_int
  field_returns-nil d = refl

  text_small : (v : List ℕ) → length (payload_bytes (text v)) ≤ room → length v ≤ room
  unfolding payload_bytes
  text_small v f = omega (arith, length-append (var_int_bytes 9 (length v)) v)

  record_parts :
      (id : ℕ) (p : Payload) (rs : List Record)
      → length (records_bytes ((id, p) ∷ rs)) ≤ room
      → (length (payload_bytes p) ≤ room) × (length (records_bytes rs) ≤ room)
  unfolding records_bytes record_bytes
  record_parts id p rs f =
      let key = var_int_bytes 9 (id * 8 + wire_type p) in
      omega (
        arith,
        length-append (key ++ payload_bytes p) (records_bytes rs),
        length-append key (payload_bytes p),
      )

  text_fits : (v : List ℕ) → length (payload_bytes (text v)) ≤ room → leb (length v) room ≡ true
  text_fits v f = ground (arith, text_small v f)

  -- The visit after each record of a list returns.
  abbrev Passes : (Decoder → Bool) → Decoder → List Record → Type 0
  Passes check d [] = Unit {0}
  Passes check d (r ∷ rs) = (check (after d r) ≡ true) × Passes check (after d r) rs

  loop_returns_failed :
      (check : Decoder → Bool) (k : ℕ) (d : Decoder) (bs : List ℕ)
      → loop_returns room check k d (record { rest = bs; good = false }) ≡ true
  unfolding loop_returns
  loop_returns_failed check zero d bs = refl
  loop_returns_failed check (suc k) d bs = refl

  loop_returns-records :
      (check : Decoder → Bool) (k : ℕ) (d : Decoder) (rs : List Record)
      → All IsRecord rs
      → length (records_bytes rs) ≤ room
      → Passes check d rs
      → loop_returns room check k d (stream (records_bytes rs)) ≡ true
  unfolding loop_returns records_bytes
  loop_returns-records check zero d rs h f p = refl
  loop_returns-records check (suc k) d [] h f p =
      let (d', e) = read_field-nil d in
      rw (e, field_returns-nil d) (loop_returns_failed check k d' [])
  loop_returns-records check (suc k) d (r ∷ rs) h f p =
      let n = length-append (record_bytes r) (records_bytes rs) in
      rw
        (
          read_field-record d r (records_bytes rs) h.0,
          field_returns-record d r (records_bytes rs) h.0 (omega (arith, n)),
          p.0,
        )
        (loop_returns-records check k (after d r) rs h.1 (omega (arith, n)) p.1)

  module _ (memory : ℕ → ℕ) where
    -- The records of the other fields pass.
    Passes-other :
        (id : ℕ) (name : List ℕ) (t : Ty) (s : Schema) (d : Decoder) (rs : List Record)
        → All IsRecord rs
        → All (λ r. id ≢ r.0) rs
        → Passes (fields_return room memory s) d rs
        → Passes (fields_return room memory (field id name t s)) d rs
    unfolding fields_return
    Passes-other id name t s d [] h fresh p = tt
    Passes-other id name t s d (r ∷ rs) h fresh p = (
      if_false ((after d r).field_id == id) _ _ (ground (arith, after_field_id d r h.0, fresh.0))
          ∙ p.0,
      Passes-other id name t s (after d r) rs h.1 fresh.1 p.1,
    )

    Passes-self :
        (id : ℕ) (name : List ℕ) (t : Ty) (s : Schema) (d : Decoder) (p : Payload)
        (rs : List Record)
        → All IsRecord ((id, p) ∷ rs)
        → All (λ r. id ≢ r.0) rs
        → visit_returns room memory t (after d (id, p)) ≡ true
        → Passes (fields_return room memory s) (after d (id, p)) rs
        → Passes (fields_return room memory (field id name t s)) d ((id, p) ∷ rs)
    unfolding fields_return
    Passes-self id name t s d p rs h fresh v q = (
      if_true ((after d (id, p)).field_id == id) _ _
            ((==_iff (after d (id, p)).field_id id).1 (after_field_id d (id, p) h.0))
          ∙ v,
      Passes-other id name t s (after d (id, p)) rs h.1 fresh q,
    )

    mutual
      unfolding visit_returns payload records

      visit_returns-after :
          (t : Ty) (d : Decoder) (id : ℕ) (v : Val t)
          → DistinctIn t
          → IsEncodable t v
          → length (payload_bytes (payload t v)) ≤ room
          → visit_returns room memory t (after d (id, payload t v)) ≡ true
      visit_returns-after bool d id v u h f = refl
      visit_returns-after char d id v u h f = refl
      visit_returns-after int8 d id v u h f = refl
      visit_returns-after uint8 d id v u h f = refl
      visit_returns-after int16 d id v u h f = refl
      visit_returns-after uint16 d id v u h f = refl
      visit_returns-after int32 d id v u h f = refl
      visit_returns-after uint32 d id v u h f = refl
      visit_returns-after int64 d id v u h f = refl
      visit_returns-after uint64 d id v u h f = refl
      visit_returns-after float d id v u h f = refl
      visit_returns-after double d id v u h f = refl
      visit_returns-after string d id v u h f = text_fits v f
      visit_returns-after (message s) d id v u h f =
          rw
            (
              text_fits (records_bytes (records s v)) f,
              first_bytes-all memory (records_bytes (records s v)),
            )
            (loop_returns-records _ _ new_decoder (records s v) (records-IsRecord s v h.1)
              (text_small (records_bytes (records s v)) f)
              (Passes-records s new_decoder v u h.1 (text_small (records_bytes (records s v)) f)))

      Passes-records :
          (s : Schema) (d : Decoder) (v : Vals s)
          → Distinct s
          → AreEncodable s v
          → length (records_bytes (records s v)) ≤ room
          → Passes (fields_return room memory s) d (records s v)
      Passes-records end d v u h f = tt
      Passes-records (field id name t s) d (v, vs) u h f =
          let (one, others) = record_parts id (payload t v) (records s vs) f in
          Passes-self id name t s d (payload t v) (records s vs)
            (records-IsRecord (field id name t s) (v, vs) h) (records-Fresh id s vs u.0)
            (visit_returns-after t d id v u.1 h.1 one)
            (Passes-records s (after d (id, payload t v)) vs u.2 h.2 others)

    -- Decoding what the encoder wrote returns if there is room for as many bytes.
    pub decode_returns-encoded_data :
        (s : Schema) (v : Vals s)
        → Distinct s
        → AreEncodable s v
        → length (encoded_data s v) ≤ room
        → decode_returns room memory s (encoded_data s v) ≡ true
    unfolding decode_returns
    decode_returns-encoded_data s v u h f =
        let small : length (records_bytes (records s v)) ≤ room =
          rw (encoded_data-records_bytes s v h) at f in
        rw (encoded_data-records_bytes s v h) (
          loop_returns-records _ _ new_decoder (records s v) (records-IsRecord s v h) small
            (Passes-records s new_decoder v u h small))
