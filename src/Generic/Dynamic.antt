-- ===== src/Generic/Dynamic.antt =====
-- Decoding bytes into a generic message (libcluon/include/cluon/GenericMessage.hpp), of which only
-- the meta message is known.
use libcluon.Prelude.{ℕ, suc, ◌≤◌, ◌≡◌, ap, ◌∙◌, List, some}
use libcluon.Visitor.{Ty, Schema, Vals}
use libcluon.Proto.RoundTrip.{Distinct}
use libcluon.Proto.Encode.{encoded_data}
use libcluon.Proto.Encode.Records.{AreEncodable}
use libcluon.Proto.Decode.Map.{extract_message}
use libcluon.Proto.MapRoundTrip.{extract_message-encoded_data}
use libcluon.Generic.{MetaMessage, GenericMessage, generic, values_of, meta_of}
use libcluon.Generic.Create.{Identity, create_from}
use libcluon.Generic.Accept.{filled_from, accept, Message, visit_fields}
use libcluon.Generic.RoundTrip.{accept-create_from, fresh_visitor}
use libcluon.Generic.Empty.{create_empty}
use libcluon.Generic.Initial.{zeros, nested_messages, AreScoped, meta_of-create_from}
use libcluon.Generic.Nested.{create_empty-Created}
use libcluon.Generic.Shown.{Described-Holds}
use libcluon.Generic.Update.{
  accept_with, put_fields, Holds, visit_fields-put_fields, Holds-visit_all,
}

-- Where a generic message shows the values v of s, and holds them, it holds f s v when a visitor has
-- made these of them.
pub filled_from-accepted :
    (f : (s : Schema) → Vals s → Vals s) (s : Schema) (v w : Vals s) (g : GenericMessage)
    → accept g ≡ (s, v)
    → Holds s (values_of g)
    → Distinct s
    → filled_from s (accept_with f g) w ≡ f s v
unfolding filled_from accept_with
filled_from-accepted f s v w (generic mm scope name m) e h d =
    ap (λ (r : Message). visit_fields s (put_fields r.0 (f r.0 r.1) m) w) e
    ∙ visit_fields-put_fields s (f s v) w m d h

module _ (type_name : Ty → List ℕ) (identity : Schema → Identity) where
  -- What a visitor makes of the values of a created generic message is what a message gets from it.
  pub filled_from-accept_with :
      (f : (s : Schema) → Vals s → Vals s) (s : Schema) (v w : Vals s) (g : GenericMessage)
      → Distinct s
      → filled_from s (accept_with f (create_from type_name identity s v g)) w ≡ f s v
  unfolding create_from
  filled_from-accept_with f s v w (generic mm scope name m) d =
      filled_from-accepted f s v w (create_from type_name identity s v (generic mm scope name m))
        (accept-create_from type_name identity s v (generic mm scope name m) d)
        (Holds-visit_all type_name identity s v (fresh_visitor type_name identity s) d) d

  -- A generic message made by createFrom from a meta message, and filled with the bytes that the
  -- Proto encoder wrote for a message, hands the values of that message to one that accepts it,
  -- nested messages included, if the meta messages of the nested messages are in the scope by the
  -- names of their types, the field identifiers are distinct on each level and below 2^29, the
  -- values are in range, and the bound on the depth of calls is above the number of nested
  -- messages.
  pub decode_dynamic :
      (memory : ℕ → ℕ) (depth : ℕ) (mms : List MetaMessage) (s : Schema) (u v w : Vals s)
      (g : GenericMessage)
      → nested_messages s ≤ depth
      → Distinct s
      → AreScoped type_name identity mms s
      → AreEncodable s v
      → (e : GenericMessage) × (create_empty
            (suc depth)
            mms
            (meta_of (create_from type_name identity s u g))
          ≡ some e)
        × (filled_from s (accept_with (λ r. extract_message memory r (encoded_data s v)) e) w ≡ v)
  decode_dynamic memory depth mms s u v w g h d c a =
      let (e, created, shown, fs, holds) =
        create_empty-Created type_name identity depth mms s h d c in
      (
        e,
        (ap (create_empty (suc depth) mms) (meta_of-create_from type_name identity s u g)
            ∙ created),
        (filled_from-accepted (λ r. extract_message memory r (encoded_data s v)) s (zeros s) w e
              shown (Described-Holds type_name identity s (values_of e) holds) d
            ∙ extract_message-encoded_data memory s v (zeros s) d a),
      )
