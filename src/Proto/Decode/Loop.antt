-- ===== src/Proto/Decode/Loop.antt =====
-- The decoder's loop: it ends, and on a list of records it stores each in turn.
use libcluon.Prelude.{ℕ, zero, suc, ◌+◌, ◌*◌, ◌^◌, ◌≤◌, ◌<◌, ◌≡◌, refl, ◌∙◌, arith}
use libcluon.Prelude.{true, false, List, [], ◌∷◌, ◌++◌, length, All}
use libcluon.Prelude.{append_assoc, length-append}
use libcluon.Prelude.Bits.{bit_and-mask}
use libcluon.Prelude.Words.{le_bytes}
use libcluon.Stream.{Stream, stream}
use libcluon.Proto.VarInt.{from_var_int}
use libcluon.Proto.VarInt.Bytes.{var_int_bytes, from_var_int-bytes, var_int_bytes_lengths}
use libcluon.Proto.Encode.Records.{
  Payload, number, word8, word4, text, Record, wire_type, payload_bytes, record_bytes,
  records_bytes, IsPayload, IsRecord,
}
use libcluon.Proto.Decode.Reading.{read_exactly, read_word}
use libcluon.Proto.Decode.{Decoder, overwrite, read_payload, with_key, read_field, decode_loop}

-- The members after a record has been read.
abbrev receive : Decoder → Payload → Decoder
receive d (number v) = record d { value = v }
receive d (word8 v) = record d { double_value = overwrite (le_bytes 8 v) d.double_value }
receive d (word4 v) = record d { float_value = overwrite (le_bytes 4 v) d.float_value }
receive d (text v) = record d { value = length v; string_value = v }

abbrev pub after : Decoder → Record → Decoder
after d (id, p) = receive (with_key d (id * 8 + wire_type p)) p

-- Storing each record of a list in turn.
unfoldable pub store_all {ℓ} : {X : Type ℓ} → (Decoder → X → X) → Decoder → List Record → X → X
store_all store d [] x = x
store_all store d (r ∷ rs) x = store_all store (after d r) rs (store (after d r) x)

read_payload-record :
    (d : Decoder) (p : Payload) (rest : List ℕ)
    → d.proto_type ≡ wire_type p
    → IsPayload p
    → read_payload d (stream (payload_bytes p ++ rest)) ≡ (receive d p, stream rest, true)
unfolding read_payload payload_bytes
read_payload-record d (number v) rest e h = ground (arith, from_var_int-bytes v rest h)
read_payload-record d (word8 v) rest e h = ground (arith, read_word 8 v rest)
read_payload-record d (word4 v) rest e h = ground (arith, read_word 4 v rest)
read_payload-record d (text v) rest e h = ground (
  arith,
  append_assoc (var_int_bytes 9 (length v)) v rest,
  from_var_int-bytes (length v) (v ++ rest) h,
  read_exactly v rest,
)

pub wire_type-lt : (p : Payload) → wire_type p < 8
wire_type-lt (number v) = omega arith
wire_type-lt (word8 v) = omega arith
wire_type-lt (word4 v) = omega arith
wire_type-lt (text v) = omega arith

pub key_parts :
    (d : Decoder) (id w : ℕ)
    → id < 2 ^ 29
    → w < 8
    → ((with_key d (id * 8 + w)).proto_type ≡ w) × ((with_key d (id * 8 + w)).field_id ≡ id)
key_parts d id w h hw = omega (arith, bit_and-mask 3 (id * 8 + w))

pub read_field-record :
    (d : Decoder) (r : Record) (rest : List ℕ)
    → IsRecord r
    → read_field d (stream (record_bytes r ++ rest)) ≡ (after d r, stream rest, true)
unfolding read_field record_bytes
read_field-record d (id, p) rest h = ground (
  arith,
  append_assoc (var_int_bytes 9 (id * 8 + wire_type p)) (payload_bytes p) rest,
  wire_type-lt p,
  from_var_int-bytes (id * 8 + wire_type p) (payload_bytes p ++ rest),
  var_int_bytes_lengths 9 (id * 8 + wire_type p),
  key_parts d id (wire_type p),
  read_payload-record (with_key d (id * 8 + wire_type p)) p rest,
)

-- At the end of the bytes the key that is read is no key of a record, and the loop ends.
pub read_field-nil :
    (d : Decoder)
    → (d' : Decoder) × (read_field d (stream []) ≡ (d', record { rest = []; good = false }, false))
unfolding read_field read_payload from_var_int
read_field-nil d = (with_key d 0x7f, refl)

pub decode_loop-bad {ℓ} :
    {X : Type ℓ} (store : Decoder → X → X) (k : ℕ) (d : Decoder) (bs : List ℕ) (x : X)
    → decode_loop store k d (record { rest = bs; good = false }) x ≡ x
unfolding decode_loop
decode_loop-bad store zero d bs x = refl
decode_loop-bad store (suc k) d bs x = refl

-- One round that reads a known field, an unknown one, and the last one.
decode_loop-stored {ℓ} :
    {X : Type ℓ} (store : Decoder → X → X) (k : ℕ) (d d' : Decoder) (bs : List ℕ) (s : Stream)
    (x : X)
    → read_field d (stream bs) ≡ (d', s, true)
    → decode_loop store (suc k) d (stream bs) x ≡ decode_loop store k d' s (store d' x)
unfolding decode_loop
decode_loop-stored store k d d' bs s x e = rw e

decode_loop-passed {ℓ} :
    {X : Type ℓ} (store : Decoder → X → X) (k : ℕ) (d d' : Decoder) (bs : List ℕ) (s : Stream)
    (x : X)
    → read_field d (stream bs) ≡ (d', s, false)
    → decode_loop store (suc k) d (stream bs) x ≡ decode_loop store k d' s x
unfolding decode_loop
decode_loop-passed store k d d' bs s x e = rw e

-- The loop stores the records in turn, and each round is one record.
pub decode_loop-records {ℓ} :
    {X : Type ℓ} (store : Decoder → X → X) (k : ℕ) (d : Decoder) (rs : List Record) (x : X)
    → All IsRecord rs
    → length rs < k
    → decode_loop store k d (stream (records_bytes rs)) x ≡ store_all store d rs x
unfolding store_all records_bytes
decode_loop-records store zero d rs x h hk = absurd (omega arith)
decode_loop-records store (suc k) d [] x h hk =
    let (d', e) = read_field-nil d in
    decode_loop-passed store k d d' [] _ x e ∙ decode_loop-bad store k d' [] x
decode_loop-records store (suc k) d (r ∷ rs) x h hk =
    decode_loop-stored store k d (after d r) _ _ x (read_field-record d r (records_bytes rs) h.0)
    ∙ decode_loop-records store k (after d r) rs (store (after d r) x) h.1 (omega arith)

-- A list of records has no more records than bytes.
pub length-records_bytes : (rs : List Record) → length rs ≤ length (records_bytes rs)
unfolding records_bytes record_bytes
length-records_bytes [] = omega arith
length-records_bytes ((id, p) ∷ rs) = omega (
  arith,
  length-append (var_int_bytes 9 (id * 8 + wire_type p) ++ payload_bytes p) (records_bytes rs),
  length-append (var_int_bytes 9 (id * 8 + wire_type p)) (payload_bytes p),
  (var_int_bytes_lengths 9 (id * 8 + wire_type p)).0,
  length-records_bytes rs,
)
