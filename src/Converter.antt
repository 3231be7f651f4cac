-- ===== src/Converter.antt =====
-- EnvelopeConverter (libcluon/src/EnvelopeConverter.cpp, libcluon/include/cluon/EnvelopeConverter.hpp):
-- from envelopes to JSON. `none` means that the bound on the depth of createFrom's calls ran out.
pub mod Framed
pub mod Printed
mod Tests
use libcluon.Prelude.{
  ℕ, suc, ◌+◌, ◌%◌, ◌^◌, ◌&&◌, ◌==◌, Bool, true, false, List, [], ◌∷◌, ◌++◌, Option, none, some,
  ltb, length, if◌then◌else◌, same, codes,
}
use libcluon.Prelude.Words.{ℤ, negsuc, signed}
use libcluon.Stream.{Stream, stream}
use libcluon.Envelope.{
  data_type, serialized_data, Envelope, envelope, new_envelope, byte_at, header_length,
  extract_envelope,
}
use libcluon.Proto.Decode.{new_decoder, decode_loop}
use libcluon.Proto.Decode.Direct.{accept_field}
use libcluon.Proto.Decode.Map.{extract_message}
use libcluon.Generic.{MetaMessage, GenericMessage}
use libcluon.Generic.Accept.{accept}
use libcluon.Generic.Update.{accept_with}
use libcluon.Generic.Empty.{create_empty}
use libcluon.MessageParser.{
  MessageParserErrorCodes, no_messageparser_error, syntax_error, duplicate_identifiers,
}
use libcluon.Json.Print.{Mask, json, unbraced}

-- m_listOfMetaMessages and m_scopeOfMetaMessages
pub record EnvelopeConverter : Type 0 where
  pub list : List MetaMessage
  pub scope : List (ℕ × MetaMessage)

-- m_scopeOfMetaMessages[id] = mm, and the entry of an identifier.
unfoldable pub scope_with : ℕ → MetaMessage → List (ℕ × MetaMessage) → List (ℕ × MetaMessage)
scope_with id mm [] = (id, mm) ∷ []
scope_with id mm ((j, e) ∷ m) =
    let rest = scope_with id mm m in if j == id then (id, mm) ∷ m else (j, e) ∷ rest

unfoldable pub scope_at : ℕ → List (ℕ × MetaMessage) → Option MetaMessage
scope_at id [] = none
scope_at id ((j, e) ∷ m) = let rest = scope_at id m in if j == id then some e else rest

unfoldable pub scope_of_all : List MetaMessage → List (ℕ × MetaMessage) → List (ℕ × MetaMessage)
unfolding scope_with
scope_of_all [] m = m
scope_of_all (mm ∷ mms) m = scope_of_all mms (scope_with mm.message_identifier mm m)

-- setMessageSpecification(ms), where the argument is what the parser makes of ms.
unfoldable pub set_message_specification :
    List MetaMessage × MessageParserErrorCodes → EnvelopeConverter × ℤ
unfolding scope_of_all
set_message_specification (mms, no_messageparser_error) =
    (record { list = mms; scope = scope_of_all mms [] }, signed 32 (length mms % 2 ^ 32))
set_message_specification (mms, syntax_error) = (record { list = []; scope = [] }, negsuc 0)
set_message_specification (mms, duplicate_identifiers) =
    (record { list = []; scope = [] }, negsuc 0)

abbrev pub is_empty : List MetaMessage → Bool
is_empty [] = true
is_empty (mm ∷ mms) = false

-- std::replace of '.' by '_'.
unfoldable pub underscored : List ℕ → List ℕ
underscored [] = []
underscored (b ∷ bs) = (if b == 0x2E then 0x5F else b) ∷ underscored bs

-- Field 2 is ignored.
abbrev pub without_payload : Mask
without_payload = (2, false) ∷ []

-- Whether the bytes are an OD4 container with its header.
unfoldable pub is_container : List ℕ → Bool
unfolding header_length
is_container bytes =
    ltb 5 (length bytes)
    && ((byte_at bytes 0 == 0x0D) && (byte_at bytes 1 == 0xA4))
    && (5 + header_length bytes == length bytes)

-- The envelope that is extracted, and the stream behind it.
abbrev pub extracted : Bool × Envelope × Stream → Envelope × Stream
extracted (found, env, s) = (if found then env else new_envelope, s)

module _ (memory : ℕ → ℕ) where
  abbrev pub container : List ℕ → Envelope × Stream
  container bytes =
      if is_container bytes
      then extracted (extract_envelope memory (stream bytes))
      else (new_envelope, stream bytes)

  -- decodeFrom(sstr, envelope)
  abbrev pub decoded : Envelope × Stream → Envelope
  decoded (env, s) =
      if data_type env == 0
      then decode_loop (accept_field memory envelope) (suc (length s.rest)) new_decoder s env
      else env

  -- createFrom() of the meta message, and accept() with a decoder of the payload.
  abbrev pub filled : List ℕ → Option GenericMessage → Option GenericMessage
  filled payload none = none
  filled payload (some gm) = some (accept_with (λ s. extract_message memory s payload) gm)

module _ (float_text double_text : ℕ → List ℕ) where
  abbrev pub payload_json : GenericMessage → List ℕ
  payload_json gm = unbraced (json float_text double_text false [] (accept gm).0 (accept gm).1)

  abbrev pub with_payload : MetaMessage → Envelope → Option GenericMessage → Option (List ℕ)
  with_payload mm env none = none
  with_payload mm env (some gm) = some (
      0x7B ∷ json float_text double_text false without_payload envelope env
      ++ 0x2C ∷ 0x0A ∷ 0x22 ∷ underscored mm.message_name
      ++ 0x22 ∷ 0x3A ∷ 0x7B ∷ payload_json gm
      ++ 0x7D ∷ 0x7D ∷ [])

module _ (memory : ℕ → ℕ) (float_text double_text : ℕ → List ℕ) where
  abbrev pub converted : ℕ → List MetaMessage → Envelope → Option MetaMessage → Option (List ℕ)
  converted depth mms env none = some (codes "{}")
  converted depth mms env (some mm) =
      with_payload float_text double_text mm env
        (filled memory (serialized_data env) (create_empty depth mms mm))

  unfoldable pub get_json_from_envelope : ℕ → EnvelopeConverter → Envelope → Option (List ℕ)
  unfolding scope_at
  get_json_from_envelope depth c env =
      if is_empty c.list
      then some (codes "{}")
      else converted depth c.list env (scope_at (data_type env) c.scope)

  unfoldable pub get_json_from_proto_encoded_envelope :
      ℕ → EnvelopeConverter → List ℕ → Option (List ℕ)
  unfolding is_container get_json_from_envelope
  get_json_from_proto_encoded_envelope depth c bytes =
      if is_empty c.list
      then some (codes "{}")
      else get_json_from_envelope depth c (decoded memory (container memory bytes))
