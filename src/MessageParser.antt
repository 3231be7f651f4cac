-- ===== src/MessageParser.antt =====
-- MessageParser (libcluon/src/MessageParser.cpp, libcluon/include/cluon/MessageParser.hpp): the checks
-- on the syntax tree of a specification, and the meta messages that are made of it. The tree is what
-- peg::parser and peg::AstOptimizer give; `trim` is stringtoolbox::trim.
pub mod Check
pub mod Transform
pub mod Identifiers
pub mod Messages
pub mod Counter
mod Tests
use libcluon.Prelude.{
  ℕ, ◌+◌, ◌-◌, ◌*◌, ◌^◌, ◌&&◌, Bool, true, false, List, [], ◌∷◌, Option, none, some, ltb, ◌==◌,
  if◌then◌else◌,
}

pub data Default : Type 0 where
  string_default character_default other_default : Default

-- The children of a FIELD, of a MESSAGE_DECLARATION and of a MESSAGES_SPECIFICATION, with their tokens.
pub data FieldNode : Type 0 where
  primitive_type_node : List ℕ → FieldNode
  name_node : List ℕ → FieldNode
  default_node : Default → List ℕ → FieldNode
  identifier_node : List ℕ → FieldNode

pub data DeclarationNode : Type 0 where
  message_name_node : List ℕ → DeclarationNode
  message_identifier_node : List ℕ → DeclarationNode
  field_node : List FieldNode → DeclarationNode

pub data SpecificationNode : Type 0 where
  package_name_node : List ℕ → SpecificationNode
  message_declaration_node : List DeclarationNode → SpecificationNode

-- The optimizer puts a single child in the place of its parent.
pub data Ast : Type 0 where
  messages_specification : List SpecificationNode → Ast
  message_declaration : List DeclarationNode → Ast
  package_name_only : List ℕ → Ast

pub data MessageParserErrorCodes : Type 0 where
  no_messageparser_error syntax_error duplicate_identifiers : MessageParserErrorCodes

-- std::stoi, where `none` is an exception. The tokens have no sign.
abbrev is_digit : ℕ → Bool
is_digit b = ltb 47 b && ltb b 58

abbrev is_space : ℕ → Bool
is_space b = if b == 32 then true else ltb 8 b && ltb b 14

unfoldable pub digits : ℕ → List ℕ → ℕ
digits n [] = n
digits n (b ∷ bs) = let rest = digits (n * 10 + (b - 48)) bs in if is_digit b then rest else n

abbrev in_int : ℕ → Option ℕ
in_int n = if ltb n (2 ^ 31) then some n else none

unfoldable pub stoi : List ℕ → Option ℕ
stoi [] = none
stoi (b ∷ bs) =
    let rest = stoi bs in
    if is_space b then rest else if is_digit b then in_int (digits 0 (b ∷ bs)) else none
