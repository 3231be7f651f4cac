-- ===== src/MessageParser/Transform.antt =====
-- transform2MetaMessages and parse of libcluon/src/MessageParser.cpp. `none` is an exception of
-- std::stoi.
use libcluon.Prelude.{
  ℕ, ◌+◌, ◌%◌, ◌^◌, Bool, true, false, List, [], ◌∷◌, ◌++◌, Option, none, some, codes,
}
use libcluon.Lcm.Packet.{lookup}
use libcluon.Generic.{DataType, MetaField, MetaMessage, new_meta_message, message_t}
use libcluon.Generic.{
  bool_t, uint8_t, int8_t, uint16_t, int16_t, uint32_t, int32_t, uint64_t, int64_t, char_t, float_t,
  double_t, bytes_t, string_t,
}
use libcluon.MessageParser.{
  Default, string_default, character_default, other_default, FieldNode, primitive_type_node,
  name_node, default_node, identifier_node, DeclarationNode, message_name_node,
  message_identifier_node, field_node, SpecificationNode, package_name_node,
  message_declaration_node, Ast, messages_specification, message_declaration, package_name_only,
  stoi, MessageParserErrorCodes, no_messageparser_error, syntax_error, duplicate_identifiers,
}
use libcluon.MessageParser.Check.{check4_unique_field_names}

-- _fieldDataType, _fieldName, _fieldDefaultInitializerValue and _fieldIdentifier
pub record FieldTexts : Type 0 where
  pub data_type_text : List ℕ
  pub name_text : List ℕ
  pub default_text : List ℕ
  pub identifier_text : List ℕ

abbrev pub no_texts : FieldTexts
no_texts = record { data_type_text = []; name_text = []; default_text = []; identifier_text = [] }

abbrev pub quoted : Default → List ℕ → List ℕ
quoted string_default t = 0x22 ∷ t ++ 0x22 ∷ []
quoted character_default t = 0x27 ∷ t ++ 0x27 ∷ []
quoted other_default t = t

-- The loop over the children of a FIELD: a later one replaces an earlier one.
unfoldable pub field_texts : List FieldNode → FieldTexts → FieldTexts
field_texts [] f = f
field_texts (primitive_type_node t ∷ ns) f = field_texts ns (record f { data_type_text = t })
field_texts (name_node t ∷ ns) f = field_texts ns (record f { name_text = t })
field_texts (default_node d t ∷ ns) f = field_texts ns (record f { default_text = quoted d t })
field_texts (identifier_node t ∷ ns) f = field_texts ns (record f { identifier_text = t })

-- STRING_TO_DATATYPE_MAP
abbrev pub string_to_datatype_map : List (List ℕ × DataType)
string_to_datatype_map =
    (codes "bool", bool_t)
    ∷ (codes "char", char_t)
    ∷ (codes "uint8", uint8_t)
    ∷ (codes "int8", int8_t)
    ∷ (codes "uint16", uint16_t)
    ∷ (codes "int16", int16_t)
    ∷ (codes "uint32", uint32_t)
    ∷ (codes "int32", int32_t)
    ∷ (codes "uint64", uint64_t)
    ∷ (codes "int64", int64_t)
    ∷ (codes "float", float_t)
    ∷ (codes "double", double_t)
    ∷ (codes "string", string_t)
    ∷ (codes "bytes", bytes_t)
    ∷ []

abbrev pub or_message : Option DataType → DataType
or_message none = message_t
or_message (some d) = d

unfoldable pub field_data_type_of : List ℕ → DataType
field_data_type_of t = or_message (lookup t string_to_datatype_map)

-- fieldIdentifierCounter, for a field without an identifier.
abbrev pub counted : List ℕ → ℕ → ℕ
counted [] c = (c + 1) % 2 ^ 32
counted (b ∷ bs) c = c

module _ (trim : List ℕ → List ℕ) where
  abbrev pub identifier_of : List ℕ → ℕ → Option ℕ
  identifier_of [] c = some c
  identifier_of (b ∷ bs) c = stoi (trim (b ∷ bs))

  abbrev pub meta_field_of : FieldTexts → ℕ → MetaField
  meta_field_of f id = record {
    field_identifier = id;
    field_data_type = field_data_type_of f.data_type_text;
    field_data_type_name = trim f.data_type_text;
    field_name = trim f.name_text;
    default_initialization_value = f.default_text;
  }

  abbrev pub add_field : FieldTexts → MetaMessage → ℕ → Option ℕ → Option (MetaMessage × ℕ)
  add_field f mm c none = none
  add_field f mm c (some id) =
      some
        (record mm { list_of_meta_fields = mm.list_of_meta_fields ++ meta_field_of f id ∷ [] }, c)

  abbrev pub with_field_texts : FieldTexts → MetaMessage → ℕ → Option (MetaMessage × ℕ)
  with_field_texts f mm c =
      let d = counted f.identifier_text c in add_field f mm d (identifier_of f.identifier_text d)

  abbrev pub with_identifier : MetaMessage → ℕ → Option ℕ → Option (MetaMessage × ℕ)
  with_identifier mm c none = none
  with_identifier mm c (some n) = some (record mm { message_identifier = n }, c)

  -- One round of the loop of createMetaMessage, with fieldIdentifierCounter.
  unfoldable pub create_node : DeclarationNode → MetaMessage → ℕ → Option (MetaMessage × ℕ)
  create_node (message_name_node t) mm c = some (record mm { message_name = trim t }, c)
  create_node (message_identifier_node t) mm c = with_identifier mm c (stoi t)
  create_node (field_node ns) mm c = with_field_texts (field_texts ns no_texts) mm c

  abbrev pub then_create :
      Option (MetaMessage × ℕ)
      → (MetaMessage → ℕ → Option (MetaMessage × ℕ))
      → Option (MetaMessage × ℕ)
  then_create none next = none
  then_create (some (mm, c)) next = next mm c

  unfoldable pub create_nodes : List DeclarationNode → MetaMessage → ℕ → Option (MetaMessage × ℕ)
  create_nodes [] mm c = some (mm, c)
  create_nodes (n ∷ ns) mm c = then_create (create_node n mm c) (create_nodes ns)

  abbrev pub only_message : Option (MetaMessage × ℕ) → Option MetaMessage
  only_message none = none
  only_message (some (mm, c)) = some mm

  unfoldable pub create_meta_message : List DeclarationNode → List ℕ → Option MetaMessage
  create_meta_message ns pack =
      only_message (create_nodes ns (record new_meta_message { package_name = trim pack }) 0)

  unfoldable pub package_name_of : List SpecificationNode → List ℕ
  package_name_of [] = []
  package_name_of (package_name_node t ∷ ns) = t
  package_name_of (message_declaration_node d ∷ ns) = package_name_of ns

  abbrev pub listed : Option MetaMessage → Option (List MetaMessage) → Option (List MetaMessage)
  listed none mms = none
  listed (some mm) none = none
  listed (some mm) (some mms) = some (mm ∷ mms)

  unfoldable pub create_meta_messages : List SpecificationNode → List ℕ → Option (List MetaMessage)
  create_meta_messages [] pack = some []
  create_meta_messages (package_name_node t ∷ ns) pack = create_meta_messages ns pack
  create_meta_messages (message_declaration_node d ∷ ns) pack =
      listed (create_meta_message d pack) (create_meta_messages ns pack)

  unfoldable pub transform2_meta_messages : Ast → Option (List MetaMessage)
  transform2_meta_messages (messages_specification ns) =
      create_meta_messages ns (package_name_of ns)
  transform2_meta_messages (message_declaration ns) = listed (create_meta_message ns []) (some [])
  transform2_meta_messages (package_name_only t) = listed (create_meta_message [] []) (some [])

  abbrev pub transformed :
      Option (List MetaMessage) → Option (List MetaMessage × MessageParserErrorCodes)
  transformed none = none
  transformed (some mms) = some (mms, no_messageparser_error)

  abbrev pub checked : Ast → Option Bool → Option (List MetaMessage × MessageParserErrorCodes)
  checked a none = none
  checked a (some true) = transformed (transform2_meta_messages a)
  checked a (some false) = some ([], duplicate_identifiers)

  -- parse(), from what peg::parser makes of the input.
  unfoldable pub parse : Option Ast → Option (List MetaMessage × MessageParserErrorCodes)
  parse none = some ([], syntax_error)
  parse (some a) = checked a (check4_unique_field_names trim a)
