-- ===== src/Generic/Nested.antt =====
-- createFrom(mm, mms) of libcluon/src/GenericMessage.cpp ends and gives initial values, for the meta
-- message of a message where those of the nested messages are in the scope.
use libcluon.Prelude.{
  ℕ, zero, suc, ◌≤◌, ◌≡◌, refl, ap, ◌∙◌, arith, List, some, if_true, if_false, ◌==◌,
}
use libcluon.Visitor.{Ty, Schema, end, field, message}
use libcluon.Visitor.{bool, char, int8, uint8, int16, uint16, int32, uint32, int64, uint64}
use libcluon.Visitor.{float, double, string}
use libcluon.Lcm.Packet.{lookup}
use libcluon.Proto.RoundTrip.{Fresh, DistinctIn, Distinct}
use libcluon.Generic.{
  Any, generic_any, MetaMessage, GenericMessage, generic, Values, values_of, meta_of, nothing, find,
  assign,
}
use libcluon.Generic.Create.{any_of, visit_all, meta_field, Identity, data_type_of}
use libcluon.Generic.Accept.{accept, typed, Message}
use libcluon.Generic.RoundTrip.{metas, find-assign}
use libcluon.Generic.Shown.{Described}
use libcluon.Generic.Empty.{
  create_field, create_fields, scope_of, create_empty, finished, proceed, nested, stored,
}
use libcluon.Generic.Initial.{
  zero_of, zeros, nested_messages, messages_in, IsInitial, AreInitial, AreInitial-Described,
  described, walk-AreInitial, IsScoped, AreScoped,
}

module _ (type_name : Ty → List ℕ) (identity : Schema → Identity) where
  -- createFrom of the fields of s, from the values m.
  abbrev FieldsCreated : ℕ → List MetaMessage → Schema → Values → Type 0
  FieldsCreated depth mms s m =
      (n : Values) × (create_fields (create_empty depth mms) (scope_of mms)
          (metas type_name identity s) m
        ≡ some n)
      × AreInitial type_name identity s n
      × ((k : ℕ) → Fresh k s → find k n ≡ find k m)

  abbrev pub Created : ℕ → List MetaMessage → Schema → Type 0
  Created depth mms s =
      (g : GenericMessage) × (create_empty depth mms (described type_name identity s) ≡ some g)
      × (accept g ≡ (s, zeros s))
      × ((meta_of g).list_of_meta_fields ≡ metas type_name identity s)
      × Described type_name identity s (values_of g)

  abbrev FieldCreated : ℕ → List MetaMessage → ℕ → List ℕ → Ty → Values → Type 0
  FieldCreated depth mms id name t m =
      (a : Any) × (create_field (data_type_of t) (create_empty depth mms) (scope_of mms)
          (meta_field type_name identity id name t) m
        ≡ some (assign id a m))
      × IsInitial type_name identity t a

  FieldsCreated-Created :
      (depth : ℕ) (mms : List MetaMessage) (s : Schema)
      → FieldsCreated depth mms s nothing
      → Created (suc depth) mms s
  unfolding create_empty accept
  FieldsCreated-Created depth mms s (n, e, h, f) = (
    generic (described type_name identity s) mms (described type_name identity s).message_name n,
    ap (finished (described type_name identity s) mms) e,
    walk-AreInitial type_name identity s n h,
    refl,
    AreInitial-Described type_name identity s n h,
  )

  Created-FieldCreated :
      (depth : ℕ) (mms : List MetaMessage) (id : ℕ) (name : List ℕ) (r : Schema) (m : Values)
      → lookup (type_name (message r)) (scope_of mms) ≡ some (described type_name identity r)
      → Created depth mms r
      → FieldCreated depth mms id name (message r) m
  unfolding create_field typed
  Created-FieldCreated depth mms id name r m l (g, e, z, fs, h) = (
    generic_any g,
    (ap (λ o. nested (create_empty depth mms) id o m) l ∙ ap (λ o. stored id o m) e),
    (ap (λ (u : Message). (message u.0, u.1)) z, (fs, h)),
  )

  mutual
    unfolding create_field create_fields typed visit_all

    field_created :
        (depth : ℕ) (mms : List MetaMessage) (id : ℕ) (name : List ℕ) (t : Ty) (m : Values)
        → messages_in t ≤ depth
        → DistinctIn t
        → IsScoped type_name identity mms t
        → FieldCreated depth mms id name t m
    field_created depth mms id name bool m h d c =
        (any_of type_name identity bool (zero_of bool), refl, (refl, tt))
    field_created depth mms id name char m h d c =
        (any_of type_name identity char (zero_of char), refl, (refl, tt))
    field_created depth mms id name int8 m h d c =
        (any_of type_name identity int8 (zero_of int8), refl, (refl, tt))
    field_created depth mms id name uint8 m h d c =
        (any_of type_name identity uint8 (zero_of uint8), refl, (refl, tt))
    field_created depth mms id name int16 m h d c =
        (any_of type_name identity int16 (zero_of int16), refl, (refl, tt))
    field_created depth mms id name uint16 m h d c =
        (any_of type_name identity uint16 (zero_of uint16), refl, (refl, tt))
    field_created depth mms id name int32 m h d c =
        (any_of type_name identity int32 (zero_of int32), refl, (refl, tt))
    field_created depth mms id name uint32 m h d c =
        (any_of type_name identity uint32 (zero_of uint32), refl, (refl, tt))
    field_created depth mms id name int64 m h d c =
        (any_of type_name identity int64 (zero_of int64), refl, (refl, tt))
    field_created depth mms id name uint64 m h d c =
        (any_of type_name identity uint64 (zero_of uint64), refl, (refl, tt))
    field_created depth mms id name float m h d c =
        (any_of type_name identity float (zero_of float), refl, (refl, tt))
    field_created depth mms id name double m h d c =
        (any_of type_name identity double (zero_of double), refl, (refl, tt))
    field_created depth mms id name string m h d c =
        (any_of type_name identity string (zero_of string), refl, (refl, tt))
    field_created zero mms id name (message r) m h d c = absurd (omega arith)
    field_created (suc depth) mms id name (message r) m h d (l, c) =
        Created-FieldCreated (suc depth) mms id name r m l
          (FieldsCreated-Created depth mms r (fields_created depth mms r nothing (omega arith) d c))

    fields_created :
        (depth : ℕ) (mms : List MetaMessage) (s : Schema) (m : Values)
        → nested_messages s ≤ depth
        → Distinct s
        → AreScoped type_name identity mms s
        → FieldsCreated depth mms s m
    fields_created depth mms end m h d c = (m, refl, tt, λ k f. refl)
    fields_created depth mms (field id name t s) m h d c =
        let (a, e, z) = field_created depth mms id name t m (omega arith) d.1 c.0 in
        let (n, g, r, f) = fields_created depth mms s (assign id a m) (omega arith) d.2 c.1 in
        (
          n,
          (ap
                (λ o. proceed o (
                  create_fields (create_empty depth mms) (scope_of mms)
                    (metas type_name identity s)))
                e
              ∙ g),
          ((a, (f id d.0 ∙ find-assign id id a m ∙ if_true (id == id) _ _ (ground arith)), z), r),
          λ k u. f k u.1 ∙ find-assign id k a m ∙ if_false (id == k) _ _ (ground arith),
        )

  -- CreateFrom of the meta message of a message ends, and the generic message that it gives shows
  -- visitors fields of exactly the identifiers, names and types of the message, in their order
  -- and with their initial values, nested messages included; if the meta messages of the nested
  -- messages are in the scope by the names of their types, the field identifiers are distinct on
  -- each level, and the bound on the depth of calls is above the number of nested messages.
  pub create_empty-Created :
      (depth : ℕ) (mms : List MetaMessage) (s : Schema)
      → nested_messages s ≤ depth
      → Distinct s
      → AreScoped type_name identity mms s
      → Created (suc depth) mms s
  create_empty-Created depth mms s h d c =
      FieldsCreated-Created depth mms s (fields_created depth mms s nothing h d c)
