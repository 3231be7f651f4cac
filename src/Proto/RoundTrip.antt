-- ===== src/Proto/RoundTrip.antt =====
-- Decoding what the encoder wrote, directly into a message.
use libcluon.Prelude.{ℕ, suc, ◌%◌, ◌^◌, ◌<◌, ◌≡◌, ◌≢◌, refl, sym, ap, ◌∙◌, arith}
use libcluon.Prelude.{true, false, List, [], ◌∷◌, ◌++◌, ◌==◌, length, drop, All}
use libcluon.Prelude.{
  append-nil, length-append, length-drop, drop-all, ==_iff, Bool-cases, inl, inr,
}
use native.Mathlib.Nat.{mod-eq_of_lt}
use libcluon.Prelude.Words.{le_bytes, from_le, length-le_bytes, from_le-le_bytes}
use libcluon.Visitor.{Ty, Schema, Val, Vals, end, field, message}
use libcluon.Visitor.{bool, char, int8, uint8, int16, uint16, int32, uint32, int64, uint64}
use libcluon.Visitor.{float, double, string}
use libcluon.Proto.ZigZag.{to_zig_zag, from_zig_zag, from_zig_zag-to_zig_zag}
use libcluon.Proto.Encode.{var_int_of, encoded_data}
use libcluon.Proto.Encode.Records.{
  Payload, number, word8, word4, text, Record, payload, records, records_bytes,
}
use libcluon.Proto.Encode.Records.{
  IsRecord, IsEncodable, AreEncodable, records-IsRecord, encoded_data-records_bytes,
}
use libcluon.Proto.Decode.{Decoder, new_decoder, first_bytes}
use libcluon.Proto.Decode.Direct.{visit_direct, accept_field, decode_into}
use libcluon.Proto.Decode.Loop.{
  after, key_parts, store_all, decode_loop-records, length-records_bytes,
}

-- No two fields of a message, nested ones included, have one identifier.
abbrev pub Fresh : ℕ → Schema → Type 0
Fresh id end = Unit {0}
Fresh id (field j name t s) = (id ≢ j) × Fresh id s

abbrev mutual
  pub DistinctIn : Ty → Type 0
  DistinctIn (message s) = Distinct s
  DistinctIn t = Unit {0}

  pub Distinct : Schema → Type 0
  Distinct end = Unit {0}
  Distinct (field id name t s) = Fresh id s × DistinctIn t × Distinct s

-- The unions of the decoder have eight and four bytes.
abbrev pub IsDecoder : Decoder → Type 0
IsDecoder d = (length d.double_value ≡ 8) × (length d.float_value ≡ 4)

pub after-IsDecoder : (d : Decoder) (r : Record) → IsDecoder d → IsDecoder (after d r)
after-IsDecoder d (id, number v) h = h
after-IsDecoder d (id, text v) h = h
after-IsDecoder d (id, word8 v) h = (
  omega (
    arith,
    length-append (le_bytes 8 v) (drop (length (le_bytes 8 v)) d.double_value),
    length-le_bytes 8 v,
    length-drop (length (le_bytes 8 v)) d.double_value,
  ),
  h.1,
)
after-IsDecoder d (id, word4 v) h = (
  h.0,
  omega (
    arith,
    length-append (le_bytes 4 v) (drop (length (le_bytes 4 v)) d.float_value),
    length-le_bytes 4 v,
    length-drop (length (le_bytes 4 v)) d.float_value,
  ),
)

pub after_field_id : (d : Decoder) (r : Record) → IsRecord r → (after d r).field_id ≡ r.0
after_field_id d (id, number v) h = (key_parts d id 0 h.0 (omega arith)).1
after_field_id d (id, word8 v) h = (key_parts d id 1 h.0 (omega arith)).1
after_field_id d (id, word4 v) h = (key_parts d id 5 h.0 (omega arith)).1
after_field_id d (id, text v) h = (key_parts d id 2 h.0 (omega arith)).1

pub first_bytes-all :
    (memory : ℕ → ℕ) (bytes : List ℕ) → first_bytes memory bytes (length bytes) ≡ bytes
unfolding first_bytes
first_bytes-all memory [] = refl
first_bytes-all memory (b ∷ bytes) = ap (λ t. b ∷ t) (first_bytes-all (λ i. memory (suc i)) bytes)

pub word_read :
    (n v : ℕ) (buffer : List ℕ)
    → length buffer ≡ n
    → v < 256 ^ n
    → from_le (le_bytes n v ++ drop (length (le_bytes n v)) buffer) ≡ v
word_read n v buffer h hv =
    rw (length-le_bytes, drop-all n buffer (omega arith), append-nil) (from_le-le_bytes n v hv)

pub small_read :
    (w v : ℕ) → v < 2 ^ suc w → from_zig_zag (suc w) (to_zig_zag (suc w) v % 2 ^ suc w) ≡ v
small_read w v h = let (e, fits) = from_zig_zag-to_zig_zag w v h in rw (mod-eq_of_lt fits) e

pub records-Fresh :
    (id : ℕ) (s : Schema) (v : Vals s) → Fresh id s → All (λ r. id ≢ r.0) (records s v)
unfolding records
records-Fresh id end v h = tt
records-Fresh id (field j name t s) v h = (h.0, records-Fresh id s v.1 h.1)

module _ (memory : ℕ → ℕ) where
  -- accept(fieldId, visitor) at the first field of a message.
  pub accept_field_self :
      (id : ℕ) (name : List ℕ) (t : Ty) (s : Schema) (d : Decoder) (a : Val t) (v : Vals s)
      → d.field_id ≡ id
      → accept_field memory (field id name t s) d (a, v) ≡ (visit_direct memory t d a, v)
  unfolding accept_field
  accept_field_self id name t s d a v e = rw ((==_iff d.field_id id).1 e)

  accept_field-other :
      (id : ℕ) (name : List ℕ) (t : Ty) (s : Schema) (d : Decoder) (a : Val t) (v : Vals s)
      → d.field_id ≢ id
      → accept_field memory (field id name t s) d (a, v) ≡ (a, accept_field memory s d v)
  unfolding accept_field
  accept_field-other id name t s d a v n = elim (Bool-cases (d.field_id == id)) [
    | inl e ↦ absurd (n ((==_iff d.field_id id).0 e))
    | inr e ↦ rw e
  ]

  -- A field that is not among the records is left as it is.
  store_all-other :
      (id : ℕ) (name : List ℕ) (t : Ty) (s : Schema) (rs : List Record) (d : Decoder) (a : Val t)
      (v : Vals s)
      → All IsRecord rs
      → All (λ r. id ≢ r.0) rs
      → store_all (accept_field memory (field id name t s)) d rs (a, v)
        ≡ (a, store_all (accept_field memory s) d rs v)
  unfolding store_all
  store_all-other id name t s [] d a v h fresh = refl
  store_all-other id name t s (r ∷ rs) d a v h fresh =
      rw
        (accept_field-other id name t s (after d r) a v
          (λ e. fresh.0 (sym e ∙ after_field_id d r h.0)))
        (store_all-other id name t s rs (after d r) a _ h.1 fresh.1)

  -- The record of the first field sets it, and the others do not reach it.
  store_all_self :
      (id : ℕ) (name : List ℕ) (t : Ty) (s : Schema) (p : Payload) (rs : List Record) (d : Decoder)
      (a : Val t) (v : Vals s)
      → All IsRecord ((id, p) ∷ rs)
      → All (λ r. id ≢ r.0) rs
      → store_all (accept_field memory (field id name t s)) d ((id, p) ∷ rs) (a, v) ≡ (
        visit_direct memory t (after d (id, p)) a,
        store_all (accept_field memory s) (after d (id, p)) rs v,
      )
  unfolding store_all
  store_all_self id name t s p rs d a v h fresh =
      rw (accept_field_self id name t s (after d (id, p)) a v (after_field_id d (id, p) h.0))
        (store_all-other id name t s rs (after d (id, p)) _ v h.1 fresh)

  mutual
    unfolding visit_direct payload store_all records var_int_of

    -- After the record of a value the visit gives the value, whatever stood in the field.
    visit_direct-after :
        (t : Ty) (d : Decoder) (id : ℕ) (v old : Val t)
        → DistinctIn t
        → IsEncodable t v
        → IsDecoder d
        → visit_direct memory t (after d (id, payload t v)) old ≡ v
    visit_direct-after bool d id true old u h hd = refl
    visit_direct-after bool d id false old u h hd = refl
    visit_direct-after char d id v old u h hd = omega arith
    visit_direct-after int8 d id v old u h hd = small_read 7 v h
    visit_direct-after uint8 d id v old u h hd = omega arith
    visit_direct-after int16 d id v old u h hd = small_read 15 v h
    visit_direct-after uint16 d id v old u h hd = omega arith
    visit_direct-after int32 d id v old u h hd = small_read 31 v h
    visit_direct-after uint32 d id v old u h hd = omega arith
    visit_direct-after int64 d id v old u h hd = (from_zig_zag-to_zig_zag 63 v h).0
    visit_direct-after uint64 d id v old u h hd = refl
    visit_direct-after float d id v old u h hd = word_read 4 v d.float_value hd.1 h
    visit_direct-after double d id v old u h hd = word_read 8 v d.double_value hd.0 h
    visit_direct-after string d id v old u h hd = first_bytes-all memory v
    visit_direct-after (message s) d id v old u h hd =
        rw (first_bytes-all memory (records_bytes (records s v))) (
          decode_loop-records _ _ new_decoder (records s v) old (records-IsRecord s v h.1)
            (omega (arith, length-records_bytes (records s v)))
          ∙ store_all-records s new_decoder v old u h.1 (refl, refl))

    store_all-records :
        (s : Schema) (d : Decoder) (v old : Vals s)
        → Distinct s
        → AreEncodable s v
        → IsDecoder d
        → store_all (accept_field memory s) d (records s v) old ≡ v
    store_all-records end d v old u h hd = refl
    store_all-records (field id name t s) d (v, vs) (old, olds) u h hd =
        store_all_self id name t s (payload t v) (records s vs) d old olds
          (records-IsRecord (field id name t s) (v, vs) h) (records-Fresh id s vs u.0)
        ∙ (λ i. (
          visit_direct-after t d id v old u.1 h.1 hd i,
          store_all-records s (after d (id, payload t v)) vs olds u.2 h.2
              (after-IsDecoder d (id, payload t v) hd) i,
        ))

  -- Decoding what the encoder wrote directly into a message gives the encoded values, nested
  -- messages included, whatever the message held before and whatever stands in the memory behind
  -- the buffers; for distinct field identifiers below 2^29 and values in range.
  pub decode_into-encoded_data :
      (s : Schema) (v old : Vals s)
      → Distinct s
      → AreEncodable s v
      → decode_into memory s (encoded_data s v) old ≡ v
  unfolding decode_into
  decode_into-encoded_data s v old u h = rw (encoded_data-records_bytes s v h) (
      decode_loop-records _ _ new_decoder (records s v) old (records-IsRecord s v h)
        (omega (arith, length-records_bytes (records s v)))
      ∙ store_all-records s new_decoder v old u h (refl, refl))
