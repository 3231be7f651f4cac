-- ===== src/Converter/Printed.antt =====
-- libcluon/src/EnvelopeConverter.cpp: the JSON of an envelope with a payload that is known.
use libcluon.Prelude.{
  ℕ, suc, ◌≤◌, ◌<◌, ◌≡◌, refl, sym, ap, ◌∙◌, arith, false, List, [], ◌∷◌, ◌++◌, some, length,
  if_false, list_laws,
}
use libcluon.Visitor.{Ty, Schema, Vals}
use libcluon.Proto.Encode.{encoded_data}
use libcluon.Proto.Encode.Records.{AreEncodable}
use libcluon.Proto.RoundTrip.{Distinct}
use libcluon.Proto.Decode.Map.{extract_message}
use libcluon.Proto.MapRoundTrip.{extract_message-encoded_data}
use libcluon.Envelope.{data_type, serialized_data, Envelope, envelope}
use libcluon.Generic.{MetaMessage}
use libcluon.Generic.Create.{Identity}
use libcluon.Generic.Accept.{accept, Message}
use libcluon.Generic.Update.{accept_with}
use libcluon.Generic.Initial.{zeros, nested_messages, AreScoped, described}
use libcluon.Generic.Nested.{create_empty-Created}
use libcluon.Generic.Shown.{accept-accept_with}
use libcluon.Json.Print.{json, unbraced, entry, shown}
use libcluon.Json.Joined.{joined, joined-append, entries, unbraced-json, json-joined_without_braces}
use libcluon.Converter.{
  EnvelopeConverter, scope_at, is_empty, underscored, without_payload, converted, with_payload,
  filled, get_json_from_envelope,
}

is_empty-false : (mms : List MetaMessage) → 0 < length mms → is_empty mms ≡ false
is_empty-false [] h = absurd (omega arith)
is_empty-false (mm ∷ mms) h = refl

last_entry :
    (e : List ℕ) (es : List (List ℕ)) (name body : List ℕ)
    → joined (e ∷ es) ++ 0x2C ∷ 0x0A ∷ 0x22 ∷ name ++ 0x22 ∷ 0x3A ∷ 0x7B ∷ body ++ 0x7D ∷ 0x7D ∷ []
      ≡ joined (e ∷ es ++ entry name (0x7B ∷ body ++ 0x7D ∷ []) ∷ []) ++ 0x7D ∷ []
last_entry e es name body = sym (
    ap (λ j. j ++ 0x7D ∷ []) (joined-append e es (entry name (0x7B ∷ body ++ 0x7D ∷ [])))
    ∙ simp list_laws)

module _ (float_text double_text : ℕ → List ℕ) where
  -- The entries of an envelope with its payload.
  abbrev pub entries_with : List ℕ → Envelope → (s : Schema) → Vals s → List (List ℕ)
  entries_with name env s v =
      entries float_text double_text without_payload envelope env
      ++ entry name (0x7B ∷ joined (entries float_text double_text [] s v) ++ 0x7D ∷ []) ∷ []

  envelope-entries :
      (env : Envelope)
      → (e : List ℕ) × (es : List (List ℕ)) × (entries float_text double_text without_payload
            envelope env
          ≡ e ∷ es)
  unfolding shown
  envelope-entries env = (_, _, refl)

  texts_joined :
      (name : List ℕ) (env : Envelope) (s : Schema) (v : Vals s)
      → 0x7B ∷ json float_text double_text false without_payload envelope env
          ++ 0x2C ∷ 0x0A ∷ 0x22 ∷ name
          ++ 0x22 ∷ 0x3A ∷ 0x7B ∷ unbraced (json float_text double_text false [] s v)
          ++ 0x7D ∷ 0x7D ∷ []
        ≡ 0x7B ∷ joined (entries_with name env s v) ++ 0x7D ∷ []
  texts_joined name env s v =
      let (e, es, q) = envelope-entries env in
      (λ i.
        0x7B
          ∷ json-joined_without_braces float_text double_text without_payload envelope env e es q i
        ++ 0x2C ∷ 0x0A ∷ 0x22 ∷ name
        ++ 0x22 ∷ 0x3A ∷ 0x7B ∷ unbraced-json float_text double_text [] s v i
        ++ 0x7D ∷ 0x7D ∷ [])
      ∙ ap (λ t. 0x7B ∷ t) (last_entry e es name (joined (entries float_text double_text [] s v)))
      ∙ ap
          (λ (l : List (List ℕ)).
            0x7B
              ∷ joined (
                  l
                  ++ entry name (0x7B ∷ joined (entries float_text double_text [] s v) ++ 0x7D ∷ [])
                    ∷ [])
            ++ 0x7D ∷ [])
          (sym q)

  module _ (memory : ℕ → ℕ) (type_name : Ty → List ℕ) (identity : Schema → Identity) where
    -- For an envelope whose identifier has the meta message of a message in the scope, and whose
    -- payload is the Proto bytes of that message, getJSONFromEnvelope returns the entries of the
    -- envelope, without the payload, and one more entry behind them, with commas between all and
    -- in braces; this entry has the name of the message, with each dot replaced, and the entries
    -- of the message, likewise; if the meta messages of nested messages are in the scope by the
    -- names of their types, the field identifiers are distinct on each level and below 2^29, the
    -- values are in range, and the bound on the depth of calls is above the number of nested
    -- messages.
    pub get_json_from_envelope-joined :
        (depth : ℕ) (c : EnvelopeConverter) (env : Envelope) (s : Schema) (v : Vals s)
        → 0 < length c.list
        → scope_at (data_type env) c.scope ≡ some (described type_name identity s)
        → serialized_data env ≡ encoded_data s v
        → nested_messages s ≤ depth
        → Distinct s
        → AreScoped type_name identity c.list s
        → AreEncodable s v
        → get_json_from_envelope memory float_text double_text (suc depth) c env
          ≡ some (
              0x7B
                ∷ joined (
                    entries_with
                      (underscored (described type_name identity s).message_name)
                      env
                      s
                      v)
              ++ 0x7D ∷ [])
    unfolding get_json_from_envelope
    get_json_from_envelope-joined depth c env s v n e p h d k a =
        let (gm, created, shown, fs, holds) =
          create_empty-Created type_name identity depth c.list s h d k in
        let f = λ (s' : Schema). extract_message memory s' (serialized_data env) in
        let values =
          ap (λ b. extract_message memory s b (zeros s)) p
          ∙ extract_message-encoded_data memory s v (zeros s) d a in
        let kept : accept (accept_with f gm) ≡ (s, v) =
          accept-accept_with type_name identity f s (zeros s) gm shown fs holds d
          ∙ ap (λ w. (s, w)) values in
        if_false (is_empty c.list) _ _ (is_empty-false c.list n)
        ∙ ap (converted memory float_text double_text (suc depth) c.list env) e
        ∙ ap
            (λ o.
              with_payload float_text double_text (described type_name identity s) env
                (filled memory (serialized_data env) o))
            created
        ∙ ap
            (λ (r : Message). some (
              0x7B ∷ json float_text double_text false without_payload envelope env
              ++ 0x2C ∷ 0x0A ∷ 0x22 ∷ underscored (described type_name identity s).message_name
              ++ 0x22 ∷ 0x3A ∷ 0x7B ∷ unbraced (json float_text double_text false [] r.0 r.1)
              ++ 0x7D ∷ 0x7D ∷ []))
            kept
        ∙ ap some (texts_joined (underscored (described type_name identity s).message_name) env s v)
