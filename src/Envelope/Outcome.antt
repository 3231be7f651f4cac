-- ===== src/Envelope/Outcome.antt =====
-- Whether extractEnvelope (libcluon/include/cluon/Envelope.hpp) returns: it is noexcept, and reserves
-- the payload's length and decodes the payload (Proto/Decode/Returns.antt).
use libcluon.Prelude.{
  ℕ, ◌%◌, ◌^◌, ◌≤◌, ◌<◌, ◌≡◌, refl, ap, ◌∙◌, arith, Bool, true, ◌&&◌, List, [], ◌++◌, Option, none,
  some, ◌==◌, ==_iff, leb, length, if◌then◌else◌,
}
use native.Mathlib.Nat.{mod-eq_of_lt}
use libcluon.Stream.{Stream, stream, read, read-append}
use libcluon.Proto.Encode.{encoded_data}
use libcluon.Proto.Encode.Records.{AreEncodable}
use libcluon.Proto.Decode.Returns.{decode_returns}
use libcluon.Proto.Returning.{decode_returns-encoded_data}
use libcluon.Envelope.{
  Envelope, envelope, byte_at, header_length, serialize_envelope, extract_envelope,
}
use libcluon.Envelope.Framing.{frame, serialize_envelope-frame, header_length-frame}

module _ (room : ℕ) (memory : ℕ → ℕ) where
  -- After a header with the magic bytes.
  unfoldable pub extract_payload_returns : ℕ → Stream → Bool
  extract_payload_returns n s =
      let (bytes, s') = read n s in
      leb n room && (if length bytes == n then decode_returns room memory envelope bytes else true)

  unfoldable pub extract_returns : Stream → Bool
  unfolding extract_payload_returns header_length
  extract_returns s =
      let (header, s') = read 5 s in
      if s.good && (length header == 5)
      then (if (byte_at header 0 == 0x0D) && (byte_at header 1 == 0xA4)
          then extract_payload_returns (header_length header) s'
          else true)
      else true

  -- The result and the stream after it, and `none` where extractEnvelope does not return.
  unfoldable pub extract_outcome : Stream → Option (Bool × Envelope × Stream)
  extract_outcome s = if extract_returns s then some (extract_envelope memory s) else none

  extract_returns-frame :
      (n : ℕ) (bytes : List ℕ)
      → extract_returns (stream (frame n bytes))
        ≡ extract_payload_returns (n % 2 ^ 24) (stream bytes)
  unfolding extract_returns
  extract_returns-frame n bytes =
      rw (read-append (frame n []) bytes)
        (ap (λ k. extract_payload_returns k (stream bytes)) (header_length-frame n))

  extract_payload_returns-all :
      (bytes rest : List ℕ)
      → length bytes ≤ room
      → extract_payload_returns (length bytes) (stream (bytes ++ rest))
        ≡ decode_returns room memory envelope bytes
  unfolding extract_payload_returns
  extract_payload_returns-all bytes rest h =
      rw (read-append bytes rest, (==_iff (length bytes) (length bytes)).1 refl)
        (ap (λ b. b && decode_returns room memory envelope bytes) (small h))
    where
      small : length bytes ≤ room → leb (length bytes) room ≡ true
      small h = ground arith

  pub extract_returns-framed :
      (bytes rest : List ℕ)
      → length bytes < 2 ^ 24
      → length bytes ≤ room
      → extract_returns (stream (frame (length bytes) (bytes ++ rest)))
        ≡ decode_returns room memory envelope bytes
  extract_returns-framed bytes rest fits h =
      extract_returns-frame (length bytes) (bytes ++ rest)
      ∙ ap (λ k. extract_payload_returns k (stream (bytes ++ rest))) (mod-eq_of_lt fits)
      ∙ extract_payload_returns-all bytes rest h

  -- Extracting a serialized envelope, whatever stands behind it, returns.
  pub extract_returns-serialize_envelope :
      (env : Envelope) (rest : List ℕ)
      → AreEncodable envelope env
      → length (encoded_data envelope env) < 2 ^ 24
      → 2 ^ 24 ≤ room
      → extract_returns (stream (serialize_envelope env ++ rest)) ≡ true
  extract_returns-serialize_envelope env rest h fits big =
      ap (λ bytes. extract_returns (stream (bytes ++ rest))) (serialize_envelope-frame env)
      ∙ extract_returns-framed (encoded_data envelope env) rest fits (omega arith)
      ∙ decode_returns-encoded_data room memory envelope env (omega arith) h (omega arith)

  -- A frame whose payload is there in full, and whether decoding the payload returns.
  abbrev pub IsFramedWith : Bool → List ℕ → Type 0
  IsFramedWith returning bytes =
      (payload : List ℕ) × (rest : List ℕ) × (length payload < 2 ^ 24)
      × (bytes ≡ frame (length payload) (payload ++ rest))
      × (decode_returns room memory envelope payload ≡ returning)
