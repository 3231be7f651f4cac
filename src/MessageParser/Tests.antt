-- ===== src/MessageParser/Tests.antt =====
-- The specification
--   package demo;
--   message Msg [id = 5] { int32 a [id = 7]; string b [id = 3]; }
-- and a message with one field that has an identifier and one that has none.
use libcluon.Prelude.{ℕ, ◌≡◌, refl, List, [], ◌∷◌, true, some, codes, same}
use libcluon.Generic.{MetaMessage}
use libcluon.MessageParser.{
  Ast, messages_specification, package_name_node, message_declaration_node, message_name_node,
  message_identifier_node, field_node, primitive_type_node, name_node, identifier_node, stoi,
  digits, no_messageparser_error,
}
use libcluon.MessageParser.Check.{
  check4_unique_field_names, check_declarations, check_declaration, check_nodes, check_node,
  check_field, first_name, first_identifier, last_duplicate, member,
}
use libcluon.MessageParser.Transform.{parse, field_texts}
use libcluon.MessageParser.Messages.{AllDistinct, IsExplicit, parse-AllDistinct}

-- The tokens have no blanks around them.
abbrev no_trim : List ℕ → List ℕ
no_trim t = t

abbrev demo : Ast
demo = messages_specification (
    package_name_node (codes "demo")
    ∷ message_declaration_node (
        message_name_node (codes "Msg")
        ∷ message_identifier_node (codes "5")
        ∷ field_node (
            primitive_type_node (codes "int32")
            ∷ name_node (codes "a")
            ∷ identifier_node (codes "7")
            ∷ [])
        ∷ field_node (
            primitive_type_node (codes "string")
            ∷ name_node (codes "b")
            ∷ identifier_node (codes "3")
            ∷ [])
        ∷ [])
    ∷ [])

demo-IsExplicit : IsExplicit demo
unfolding first_identifier field_texts
demo-IsExplicit = (((codes "7", refl, refl), ((codes "3", refl, refl), tt)), tt)

demo_passes : check4_unique_field_names no_trim demo ≡ some true
unfolding check4_unique_field_names check_declarations check_declaration check_nodes check_node
    check_field first_name first_identifier last_duplicate member stoi digits same
demo_passes = refl

parse-AllDistinct_example :
    (mms : List MetaMessage) × (parse no_trim (some demo) ≡ some (mms, no_messageparser_error))
    × AllDistinct mms
parse-AllDistinct_example = parse-AllDistinct no_trim demo (λ t. refl) demo-IsExplicit demo_passes
