-- ===== src/Envelope/Framing.antt =====
-- The frame that serializeEnvelope writes and that extractEnvelope accepts.
use libcluon.Prelude.{
  ℕ, ◌+◌, ◌*◌, ◌/◌, ◌%◌, ◌^◌, ◌≤◌, ◌<◌, ◌≡◌, refl, ap, ◌∙◌, arith, true, List, [], ◌∷◌, ◌++◌,
}
use libcluon.Prelude.{All, ◌↔◌, ==_iff, length, drop, take, length-take, take-append-drop}
use libcluon.Prelude.Words.{IsByte, le_bytes, from_le}
use native.Mathlib.Nat.{mod-eq_of_lt}
use libcluon.Stream.{stream, read, read-append}
use libcluon.Proto.Encode.{encoded_data}
use libcluon.Proto.Encode.Records.{AreEncodable}
use libcluon.Proto.RoundTrip.{decode_into-encoded_data}
use libcluon.Envelope.{
  Envelope, envelope, new_envelope, serialize_envelope, header_length, decode_envelope,
  extract_payload, extract_envelope,
}

-- The magic bytes, the length in three bytes and the payload.
abbrev pub frame : ℕ → List ℕ → List ℕ
frame n bytes = 0x0D ∷ 0xA4 ∷ n % 256 ∷ n / 256 % 256 ∷ n / 65536 % 256 ∷ bytes

length_bytes :
    (n : ℕ)
    → (n % 2 ^ 32 * 2 ^ 8 % 2 ^ 32 / 256 % 256 ≡ n % 256)
      × (n % 2 ^ 32 * 2 ^ 8 % 2 ^ 32 / 256 / 256 % 256 ≡ n / 256 % 256)
      × (n % 2 ^ 32 * 2 ^ 8 % 2 ^ 32 / 256 / 256 / 256 % 256 ≡ n / 65536 % 256)
length_bytes n = omega arith

-- serializeEnvelope writes a frame around the encoded envelope; three bytes hold the length.
pub serialize_envelope-frame :
    (env : Envelope)
    → serialize_envelope env
      ≡ frame (length (encoded_data envelope env)) (encoded_data envelope env)
unfolding serialize_envelope le_bytes
serialize_envelope-frame env =
    let (b, c, d) = length_bytes (length (encoded_data envelope env)) in
    λ i. 0x0D ∷ 0xA4 ∷ b i ∷ c i ∷ d i ∷ encoded_data envelope env

pub header_length-frame : (n : ℕ) → header_length (frame n []) ≡ n % 2 ^ 24
unfolding header_length from_le
header_length-frame n = omega arith

module _ (memory : ℕ → ℕ) where
  extract_envelope-frame :
      (n : ℕ) (bytes : List ℕ)
      → extract_envelope memory (stream (frame n bytes))
        ≡ extract_payload memory (n % 2 ^ 24) (stream bytes)
  unfolding extract_envelope
  extract_envelope-frame n bytes =
      rw (read-append (frame n []) bytes)
        (ap (λ k. extract_payload memory k (stream bytes)) (header_length-frame n))

  extract_payload-all :
      (bytes rest : List ℕ)
      → extract_payload memory (length bytes) (stream (bytes ++ rest))
        ≡ (true, decode_envelope memory bytes, stream rest)
  unfolding extract_payload
  extract_payload-all bytes rest =
      rw (read-append bytes rest, (==_iff (length bytes) (length bytes)).1 refl)

  pub extract_envelope-framed :
      (bytes rest : List ℕ)
      → length bytes < 2 ^ 24
      → extract_envelope memory (stream (frame (length bytes) (bytes ++ rest)))
        ≡ (true, decode_envelope memory bytes, stream rest)
  extract_envelope-framed bytes rest fits =
      extract_envelope-frame (length bytes) (bytes ++ rest)
      ∙ ap (λ k. extract_payload memory k (stream (bytes ++ rest))) (mod-eq_of_lt fits)
      ∙ extract_payload-all bytes rest

  -- Extracting from a serialized envelope followed by other bytes succeeds with that envelope and
  -- leaves the other bytes in the good stream, if the values are encodable and the encoded
  -- envelope is shorter than 16 MB.
  pub extract_envelope-serialize_envelope :
      (env : Envelope) (rest : List ℕ)
      → AreEncodable envelope env
      → length (encoded_data envelope env) < 2 ^ 24
      → extract_envelope memory (stream (serialize_envelope env ++ rest)) ≡ (true, env, stream rest)
  extract_envelope-serialize_envelope env rest h fits =
      ap (λ bytes. extract_envelope memory (stream (bytes ++ rest))) (serialize_envelope-frame env)
      ∙ extract_envelope-framed (encoded_data envelope env) rest fits
      ∙ ap (λ e. (true, e, stream rest))
          (decode_into-encoded_data memory envelope env new_envelope (omega arith) h)

  -- For an encoded envelope of 16 MB or more, extraction of the serialized envelope reads only as
  -- many of its bytes as the length modulo 2^24 says, and leaves the other ones in the stream.
  pub extract_envelope-oversized :
      (env : Envelope)
      → 2 ^ 24 ≤ length (encoded_data envelope env)
      → (extract_envelope memory (stream (serialize_envelope env))).2
        ≡ stream (drop (length (encoded_data envelope env) % 2 ^ 24) (encoded_data envelope env))
  extract_envelope-oversized env h =
      rw (serialize_envelope-frame env, extract_envelope-frame) (payload_left _ _ (omega arith))
    where
      payload_left :
          (n : ℕ) (bytes : List ℕ)
          → n ≤ length bytes
          → (extract_payload memory n (stream bytes)).2 ≡ stream (drop n bytes)
      payload_left n bytes h = unfold extract_payload read in ground arith

  -- A frame whose payload is there in full.
  abbrev pub IsFramed : List ℕ → Type 0
  IsFramed bytes =
      (payload : List ℕ) × (rest : List ℕ) × (length payload < 2 ^ 24)
      × (bytes ≡ frame (length payload) (payload ++ rest))

  accepted_parts :
      (b c d f g : ℕ) (rest : List ℕ)
      → c < 256
      → (extract_envelope memory (stream (b ∷ c ∷ d ∷ f ∷ g ∷ rest))).0 ≡ true
      → (b ≡ 0x0D) × (c ≡ 0xA4) × (d + 256 * f + 65536 * g ≤ length rest)
  unfolding extract_envelope read from_le
  accepted_parts b c d f g rest hc e = ground arith

  accepted :
      (bytes : List ℕ)
      → All IsByte bytes
      → (extract_envelope memory (stream bytes)).0 ≡ true
      → IsFramed bytes
  unfolding extract_envelope read
  accepted [] h e = cc
  accepted (b ∷ []) h e = cc
  accepted (b ∷ c ∷ []) h e = cc
  accepted (b ∷ c ∷ d ∷ []) h e = cc
  accepted (b ∷ c ∷ d ∷ f ∷ []) h e = cc
  accepted (b ∷ c ∷ d ∷ f ∷ g ∷ rest) h e =
      let n = d + 256 * f + 65536 * g in
      let (hb, hc, hn) = accepted_parts b c d f g rest h.1.0 e in
      (
        take n rest,
        drop n rest,
        omega (arith, length-take n rest),
        ground (arith, length-take n rest, take-append-drop n rest),
      )

  -- The result says success exactly for a frame; Envelope/Outcome.antt has when there is one.
  pub extract_envelope_accepts :
      (bytes : List ℕ)
      → All IsByte bytes
      → ((extract_envelope memory (stream bytes)).0 ≡ true) ↔ IsFramed bytes
  extract_envelope_accepts bytes h = (
    accepted bytes h,
    λ f.
        ap (λ bs. (extract_envelope memory (stream bs)).0) f.3
        ∙ ap (λ r. r.0) (extract_envelope-framed f.0 f.1 f.2),
  )
