-- ===== src/Proto/Encode/Records.antt =====
-- What the encoder writes as a list of records, a field identifier and a payload each.
use libcluon.Prelude.{ℕ, suc, ◌+◌, ◌*◌, ◌^◌, ◌<◌, ◌≡◌, sym, ap, ◌∙◌, arith, list_laws}
use libcluon.Prelude.{List, [], ◌∷◌, ◌++◌, length}
use libcluon.Prelude.{All, append_assoc, append-nil}
use libcluon.Prelude.Bits.{field-bit_or}
use libcluon.Prelude.Words.{le_bytes}
use libcluon.Visitor.{Ty, Schema, Val, Vals, IsVal, end, field, message}
use libcluon.Visitor.{bool, char, int8, uint8, int16, uint16, int32, uint32, int64, uint64}
use libcluon.Visitor.{float, double, string}
use libcluon.Proto.ZigZag.{to_zig_zag, from_zig_zag-to_zig_zag}
use libcluon.Proto.VarInt.{to_var_int}
use libcluon.Proto.VarInt.Bytes.{var_int_bytes, to_var_int-bytes}
use libcluon.Proto.Encode.{
  varint, eight_bytes, length_delimited, four_bytes, encode_key, var_int_of,
}
use libcluon.Proto.Encode.{
  encoded_data, visit, accept, encode_float, encode_double, encode_string, to_key_value,
}

pub data Payload : Type 0 where
  number word8 word4 : ℕ → Payload
  text : List ℕ → Payload

abbrev pub Record : Type 0
Record = ℕ × Payload

abbrev pub wire_type : Payload → ℕ
wire_type (number v) = varint
wire_type (word8 v) = eight_bytes
wire_type (text v) = length_delimited
wire_type (word4 v) = four_bytes

unfoldable pub payload_bytes : Payload → List ℕ
payload_bytes (number v) = var_int_bytes 9 v
payload_bytes (word8 v) = le_bytes 8 v
payload_bytes (word4 v) = le_bytes 4 v
payload_bytes (text v) = var_int_bytes 9 (length v) ++ v

unfoldable pub record_bytes : Record → List ℕ
record_bytes (id, p) = var_int_bytes 9 (id * 8 + wire_type p) ++ payload_bytes p

unfoldable pub records_bytes : List Record → List ℕ
records_bytes [] = []
records_bytes (r ∷ rs) = record_bytes r ++ records_bytes rs

-- The record of a value, and the records of a message.
unfoldable mutual
  pub payload : (t : Ty) → Val t → Payload
  payload float v = word4 v
  payload double v = word8 v
  payload string v = text v
  payload (message s) v = text (records_bytes (records s v))
  payload t v = number (var_int_of t v)

  pub records : (s : Schema) → Vals s → List Record
  records end v = []
  records (field id name t s) v = (id, payload t v.0) ∷ records s v.1

-- What a well-formed record can hold.
abbrev pub IsPayload : Payload → Type 0
IsPayload (number v) = v < 2 ^ 64
IsPayload (word8 v) = v < 2 ^ 64
IsPayload (word4 v) = v < 2 ^ 32
IsPayload (text v) = length v < 2 ^ 64

abbrev pub IsRecord : Record → Type 0
IsRecord r = (r.0 < 2 ^ 29) × IsPayload r.1

-- Values in the range of their types, field identifiers of at most 29 bits, and nested messages
-- whose encoding has a length that fits a std::size_t.
abbrev mutual
  pub IsEncodable : (t : Ty) → Val t → Type 0
  IsEncodable (message s) v = (length (accept [] s v) < 2 ^ 64) × AreEncodable s v
  IsEncodable t v = IsVal t v

  pub AreEncodable : (s : Schema) → Vals s → Type 0
  AreEncodable end v = Unit {0}
  AreEncodable (field id name t s) v = (id < 2 ^ 29) × IsEncodable t v.0 × AreEncodable s v.1

key_of : (id w : ℕ) → id < 2 ^ 29 → w < 8 → encode_key id w ≡ id * 8 + w
unfolding encode_key
key_of id w h hw = ground (arith, field-bit_or 3 id w)

-- What is written is a key, and then the bytes of the payload.
key_written :
    (out : List ℕ) (id w : ℕ)
    → id < 2 ^ 29
    → w < 8
    → (to_var_int out (encode_key id w)).0 ≡ out ++ var_int_bytes 9 (id * 8 + w)
key_written out id w h hw = rw (key_of id w h hw, to_var_int-bytes out (id * 8 + w) (omega arith))

key_value_written :
    (out : List ℕ) (id : ℕ) (t : Ty) (v : Val t)
    → id < 2 ^ 29
    → var_int_of t v < 2 ^ 64
    → to_key_value out id t v ≡ out ++ record_bytes (id, number (var_int_of t v))
unfolding to_key_value record_bytes payload_bytes
key_value_written out id t v h hv =
    ap (λ o. (to_var_int o (var_int_of t v)).0) (key_written out id varint h (omega arith))
    ∙ rw (to_var_int-bytes _ (var_int_of t v) hv)
        (append_assoc out (var_int_bytes 9 (id * 8 + varint)) (var_int_bytes 9 (var_int_of t v)))

string_written :
    (out : List ℕ) (id : ℕ) (v : List ℕ)
    → id < 2 ^ 29
    → length v < 2 ^ 64
    → encode_string (to_var_int out (encode_key id length_delimited)).0 v
      ≡ out ++ record_bytes (id, text v)
unfolding encode_string record_bytes payload_bytes
string_written out id v h hv =
    rw (key_written out id length_delimited h (omega arith), to_var_int-bytes _ (length v) hv)
      (simp list_laws)

words_written :
    (out : List ℕ) (id v : ℕ)
    → id < 2 ^ 29
    → (encode_float (to_var_int out (encode_key id four_bytes)).0 v
        ≡ out ++ record_bytes (id, word4 v))
      × (encode_double (to_var_int out (encode_key id eight_bytes)).0 v
          ≡ out ++ record_bytes (id, word8 v))
unfolding encode_float encode_double record_bytes payload_bytes
words_written out id v h = (
  rw (key_written out id four_bytes h (omega arith)) (simp append_assoc),
  rw (key_written out id eight_bytes h (omega arith)) (simp append_assoc),
)

zig_zag-lt : (w v : ℕ) → w < 64 → v < 2 ^ suc w → to_zig_zag (suc w) v < 2 ^ suc w
zig_zag-lt w v hw h = (from_zig_zag-to_zig_zag w v h).1

mutual
  unfolding visit payload var_int_of records_bytes

  visit-record :
      (t : Ty) (out : List ℕ) (id : ℕ) (v : Val t)
      → id < 2 ^ 29
      → IsEncodable t v
      → visit out id t v ≡ out ++ record_bytes (id, payload t v)
  visit-record bool out id v h hv = key_value_written out id bool v h (ground arith)
  visit-record char out id v h hv = key_value_written out id char v h (omega arith)
  visit-record int8 out id v h hv =
      key_value_written out id int8 v h (omega (arith, zig_zag-lt 7 v))
  visit-record uint8 out id v h hv = key_value_written out id uint8 v h (omega arith)
  visit-record int16 out id v h hv =
      key_value_written out id int16 v h (omega (arith, zig_zag-lt 15 v))
  visit-record uint16 out id v h hv = key_value_written out id uint16 v h (omega arith)
  visit-record int32 out id v h hv =
      key_value_written out id int32 v h (omega (arith, zig_zag-lt 31 v))
  visit-record uint32 out id v h hv = key_value_written out id uint32 v h (omega arith)
  visit-record int64 out id v h hv =
      key_value_written out id int64 v h (omega (arith, zig_zag-lt 63 v))
  visit-record uint64 out id v h hv = key_value_written out id uint64 v h (omega arith)
  visit-record float out id v h hv = (words_written out id v h).0
  visit-record double out id v h hv = (words_written out id v h).1
  visit-record string out id v h hv = string_written out id v h hv.1
  visit-record (message s) out id v h hv =
      string_written out id (accept [] s v) h hv.0
      ∙ ap (λ b. out ++ record_bytes (id, text b)) (accept-records s [] v hv.1)

  accept-records :
      (s : Schema) (out : List ℕ) (v : Vals s)
      → AreEncodable s v
      → accept out s v ≡ out ++ records_bytes (records s v)
  accept-records end out v h = sym (append-nil out)
  accept-records (field id name t s) out v h =
      accept-records s (visit out id t v.0) v.1 h.2
      ∙ ap (λ o. o ++ records_bytes (records s v.1)) (visit-record t out id v.0 h.0 h.1)
      ∙ append_assoc out (record_bytes (id, payload t v.0)) (records_bytes (records s v.1))

-- The bytes that the encoder writes for a message are the concatenation of one record for each
-- field in order, a key of identifier and wire type and the payload, for values in range and
-- identifiers below 2^29.
pub encoded_data-records_bytes :
    (s : Schema) (v : Vals s) → AreEncodable s v → encoded_data s v ≡ records_bytes (records s v)
encoded_data-records_bytes s v h = accept-records s [] v h

-- The records of encodable values are well formed.
mutual
  unfolding payload records var_int_of

  payload-IsPayload : (t : Ty) (v : Val t) → IsEncodable t v → IsPayload (payload t v)
  payload-IsPayload bool v h = ground arith
  payload-IsPayload char v h = omega arith
  payload-IsPayload int8 v h = omega (arith, zig_zag-lt 7 v)
  payload-IsPayload uint8 v h = omega arith
  payload-IsPayload int16 v h = omega (arith, zig_zag-lt 15 v)
  payload-IsPayload uint16 v h = omega arith
  payload-IsPayload int32 v h = omega (arith, zig_zag-lt 31 v)
  payload-IsPayload uint32 v h = omega arith
  payload-IsPayload int64 v h = omega (arith, zig_zag-lt 63 v)
  payload-IsPayload uint64 v h = h
  payload-IsPayload float v h = h
  payload-IsPayload double v h = h
  payload-IsPayload string v h = h.1
  payload-IsPayload (message s) v h = rw (accept-records s [] v h.1) at h.0

  pub records-IsRecord : (s : Schema) (v : Vals s) → AreEncodable s v → All IsRecord (records s v)
  records-IsRecord end v h = tt
  records-IsRecord (field id name t s) v h =
      ((h.0, payload-IsPayload t v.0 h.1), records-IsRecord s v.1 h.2)
