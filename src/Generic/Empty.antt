-- ===== src/Generic/Empty.antt =====
-- createFrom(mm, mms) of libcluon/src/GenericMessage.cpp: a generic message with the initial values
-- of a meta message. The function calls itself for the fields that are messages; the fuel bounds the
-- depth of these calls, and `none` means that it ran out.
use libcluon.Prelude.{
  ℕ, zero, suc, ◌≡◌, refl, ap, ◌∙◌, false, List, [], ◌∷◌, ◌++◌, Option, none, some, Option-cases,
  inl, inr,
}
use libcluon.Lcm.Packet.{lookup, insert_all}
use libcluon.Generic.{
  DataType, MetaField, MetaMessage, GenericMessage, generic, Values, nothing, assign,
}
use libcluon.Generic.{bool_any, char_any, int8_any, uint8_any, int16_any, uint16_any, int32_any}
use libcluon.Generic.{
  uint32_any, int64_any, uint64_any, float_any, double_any, string_any, generic_any,
}
use libcluon.Generic.{
  bool_t, uint8_t, int8_t, uint16_t, int16_t, uint32_t, int32_t, uint64_t, int64_t, char_t, float_t,
  double_t, bytes_t, string_t, message_t, undefined_t,
}

abbrev pub Scope : Type 0
Scope = List (List ℕ × MetaMessage)

-- One field, where `call` is createFrom for a nested message. A message that is not in the scope is
-- left out.
abbrev pub stored : ℕ → Option GenericMessage → Values → Option Values
stored id none m = none
stored id (some g) m = some (assign id (generic_any g) m)

abbrev pub nested :
    (MetaMessage → Option GenericMessage) → ℕ → Option MetaMessage → Values → Option Values
nested call id none m = some m
nested call id (some mm) m = stored id (call mm) m

unfoldable pub create_field :
    DataType → (MetaMessage → Option GenericMessage) → Scope → MetaField → Values → Option Values
create_field bool_t call scope f m = some (assign f.field_identifier (bool_any false) m)
create_field char_t call scope f m = some (assign f.field_identifier (char_any 0) m)
create_field uint8_t call scope f m = some (assign f.field_identifier (uint8_any 0) m)
create_field int8_t call scope f m = some (assign f.field_identifier (int8_any 0) m)
create_field uint16_t call scope f m = some (assign f.field_identifier (uint16_any 0) m)
create_field int16_t call scope f m = some (assign f.field_identifier (int16_any 0) m)
create_field uint32_t call scope f m = some (assign f.field_identifier (uint32_any 0) m)
create_field int32_t call scope f m = some (assign f.field_identifier (int32_any 0) m)
create_field uint64_t call scope f m = some (assign f.field_identifier (uint64_any 0) m)
create_field int64_t call scope f m = some (assign f.field_identifier (int64_any 0) m)
create_field float_t call scope f m = some (assign f.field_identifier (float_any 0) m)
create_field double_t call scope f m = some (assign f.field_identifier (double_any 0) m)
create_field string_t call scope f m = some (assign f.field_identifier (string_any []) m)
create_field bytes_t call scope f m = some (assign f.field_identifier (string_any []) m)
create_field message_t call scope f m =
    nested call f.field_identifier (lookup f.field_data_type_name scope) m
create_field undefined_t call scope f m = some m

abbrev pub proceed : Option Values → (Values → Option Values) → Option Values
proceed none next = none
proceed (some m) next = next m

-- The loop over the fields.
unfoldable pub create_fields :
    (MetaMessage → Option GenericMessage) → Scope → List MetaField → Values → Option Values
unfolding create_field
create_fields call scope [] m = some m
create_fields call scope (f ∷ fs) m =
    proceed (create_field f.field_data_type call scope f m) (create_fields call scope fs)

-- m_mapForScopeOfMetaMessages
unfoldable pub scope_of : List MetaMessage → Scope
scope_of mms = insert_all (λ mm. mm.message_name) mms []

-- createFrom(mm, mms)
abbrev pub finished : MetaMessage → List MetaMessage → Option Values → Option GenericMessage
finished mm mms none = none
finished mm mms (some m) = some (generic mm mms mm.message_name m)

unfoldable pub create_empty : ℕ → List MetaMessage → MetaMessage → Option GenericMessage
create_empty zero mms mm = none
create_empty (suc depth) mms mm =
    finished mm mms
      (create_fields (create_empty depth mms) (scope_of mms) mm.list_of_meta_fields nothing)

fields_fail :
    (call : MetaMessage → Option GenericMessage) (scope : Scope) (pre post : List MetaField)
    (f : MetaField) (mm : MetaMessage) (m : Values)
    → f.field_data_type ≡ message_t
    → lookup f.field_data_type_name scope ≡ some mm
    → call mm ≡ none
    → create_fields call scope (pre ++ f ∷ post) m ≡ none
unfolding create_fields
fields_fail call scope [] post f mm m e l c =
    (λ i. proceed (create_field (e i) call scope f m) (create_fields call scope post))
    ∙ (λ i. proceed (nested call f.field_identifier (l i) m) (create_fields call scope post))
    ∙ ap (λ o. proceed (stored f.field_identifier o m) (create_fields call scope post)) c
fields_fail call scope (g ∷ pre) post f mm m e l c =
    elim (Option-cases (create_field g.field_data_type call scope g m)) [
      | inl d ↦ ap (λ o. proceed o (create_fields call scope (pre ++ f ∷ post))) d
      | inr (n, d) ↦
          ap (λ o. proceed o (create_fields call scope (pre ++ f ∷ post))) d
          ∙ fields_fail call scope pre post f mm n e l c
    ]

-- CreateFrom of a meta message with a field of message type whose type name is that of the meta
-- message itself in the scope has no depth of calls at which it ends.
pub create_empty_endless :
    (depth : ℕ) (mms : List MetaMessage) (mm : MetaMessage) (pre post : List MetaField)
    (f : MetaField)
    → mm.list_of_meta_fields ≡ pre ++ f ∷ post
    → f.field_data_type ≡ message_t
    → lookup f.field_data_type_name (scope_of mms) ≡ some mm
    → create_empty depth mms mm ≡ none
unfolding create_empty
create_empty_endless zero mms mm pre post f s e l = refl
create_empty_endless (suc depth) mms mm pre post f s e l =
    ap (λ fs. finished mm mms (create_fields (create_empty depth mms) (scope_of mms) fs nothing)) s
    ∙ ap (finished mm mms) (
        fields_fail (create_empty depth mms) (scope_of mms) pre post f mm nothing e l
          (create_empty_endless depth mms mm pre post f s e l))
