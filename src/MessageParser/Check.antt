-- ===== src/MessageParser/Check.antt =====
-- check4UniqueFieldNames of libcluon/src/MessageParser.cpp. `none` is an exception of std::stoi.
use libcluon.Prelude.{
  ℕ, ◌&&◌, ◌==◌, Bool, true, false, List, [], ◌∷◌, ◌++◌, Option, none, some, if◌then◌else◌, same,
}
use libcluon.MessageParser.{
  FieldNode, name_node, identifier_node, DeclarationNode, message_name_node,
  message_identifier_node, field_node, SpecificationNode, package_name_node,
  message_declaration_node, Ast, messages_specification, message_declaration, package_name_only,
  stoi,
}

-- The lists that the check gathers.
pub record Gathered : Type 0 where
  pub message_names : List (List ℕ)
  pub field_names : List (List ℕ)
  pub numerical_message_identifiers : List ℕ
  pub numerical_field_identifiers : List ℕ

abbrev pub no_names : Gathered
no_names = record {
  message_names = [];
  field_names = [];
  numerical_message_identifiers = [];
  numerical_field_identifiers = [];
}

-- std::find_if among the children of a FIELD.
unfoldable pub first_name : List FieldNode → Option (List ℕ)
first_name [] = none
first_name (name_node t ∷ ns) = some t
first_name (n ∷ ns) = first_name ns

unfoldable pub first_identifier : List FieldNode → Option (List ℕ)
first_identifier [] = none
first_identifier (identifier_node t ∷ ns) = some t
first_identifier (n ∷ ns) = first_identifier ns

abbrev pub push_name : Option (List ℕ) → Gathered → Gathered
push_name none g = g
push_name (some t) g = record g { field_names = g.field_names ++ t ∷ [] }

abbrev pub push_field_identifier : Gathered → Option ℕ → Option Gathered
push_field_identifier g none = none
push_field_identifier g (some n) =
    some (record g { numerical_field_identifiers = g.numerical_field_identifiers ++ n ∷ [] })

abbrev pub push_message_identifier : Gathered → Option ℕ → Option Gathered
push_message_identifier g none = none
push_message_identifier g (some n) =
    some (record g { numerical_message_identifiers = g.numerical_message_identifiers ++ n ∷ [] })

abbrev pub push_identifier : Option (List ℕ) → Gathered → Option Gathered
push_identifier none g = some g
push_identifier (some t) g = push_field_identifier g (stoi t)

unfoldable pub check_field : List FieldNode → Gathered → Option Gathered
check_field ns g = push_identifier (first_identifier ns) (push_name (first_name ns) g)

-- The loop for duplicates, which keeps the last one. Sorting the list before makes no difference to
-- whether there is one.
unfoldable pub member {ℓ} : {A : Type ℓ} → (A → A → Bool) → A → List A → Bool
member eq x [] = false
member eq x (y ∷ ys) = let rest = member eq x ys in if eq x y then true else rest

abbrev pub later_or {ℓ} : {A : Type ℓ} → Option A → Option A → Option A
later_or (some y) o = some y
later_or none o = o

unfoldable pub last_duplicate {ℓ} : {A : Type ℓ} → (A → A → Bool) → List A → Option A
last_duplicate eq [] = none
last_duplicate eq (x ∷ xs) =
    later_or (last_duplicate eq xs) (if member eq x xs then some x else none)

abbrev pub is_none : Option ℕ → Bool
is_none none = true
is_none (some n) = false

-- The duplicated name is empty, as it is to begin with.
abbrev pub is_unnamed : Option (List ℕ) → Bool
is_unnamed none = true
is_unnamed (some []) = true
is_unnamed (some (b ∷ bs)) = false

module _ (trim : List ℕ → List ℕ) where
  abbrev pub then_check : Option Gathered → (Gathered → Option Gathered) → Option Gathered
  then_check none next = none
  then_check (some g) next = next g

  -- check4UniqueFieldNames on the children of a MESSAGE_DECLARATION, on the declaration and on a
  -- MESSAGES_SPECIFICATION.
  unfoldable pub check_node : DeclarationNode → Gathered → Option Gathered
  check_node (message_name_node t) g =
      some (record g { message_names = g.message_names ++ trim t ∷ [] })
  check_node (message_identifier_node t) g = push_message_identifier g (stoi t)
  check_node (field_node ns) g = check_field ns g

  unfoldable pub check_nodes : List DeclarationNode → Gathered → Option Gathered
  check_nodes [] g = some g
  check_nodes (n ∷ ns) g = then_check (check_node n g) (check_nodes ns)

  abbrev pub no_fields : Gathered → Gathered
  no_fields g = record g { field_names = []; numerical_field_identifiers = [] }

  abbrev pub unique_fields : Option Gathered → Option (Bool × Gathered)
  unique_fields none = none
  unique_fields (some g) = some (
    is_none (last_duplicate ◌==◌ g.numerical_field_identifiers)
        && is_unnamed (last_duplicate same g.field_names),
    g,
  )

  unfoldable pub check_declaration : List DeclarationNode → Gathered → Option (Bool × Gathered)
  check_declaration ns g = unique_fields (check_nodes ns (no_fields g))

  abbrev pub also : Bool → Option (Bool × Gathered) → Option (Bool × Gathered)
  also ok none = none
  also ok (some (more, g)) = some (ok && more, g)

  abbrev pub next_declaration :
      Option (Bool × Gathered) → (Gathered → Option (Bool × Gathered)) → Option (Bool × Gathered)
  next_declaration none next = none
  next_declaration (some (ok, g)) next = also ok (next g)

  unfoldable pub check_declarations : List SpecificationNode → Gathered → Option (Bool × Gathered)
  check_declarations [] g = some (true, g)
  check_declarations (package_name_node t ∷ ns) g = check_declarations ns g
  check_declarations (message_declaration_node d ∷ ns) g =
      next_declaration (check_declaration d g) (check_declarations ns)

  abbrev pub unique_messages : Option (Bool × Gathered) → Option Bool
  unique_messages none = none
  unique_messages (some (ok, g)) = some (
      ok
      && is_none (last_duplicate ◌==◌ g.numerical_message_identifiers)
      && is_unnamed (last_duplicate same g.message_names))

  abbrev pub passed : Option (Bool × Gathered) → Option Bool
  passed none = none
  passed (some (ok, g)) = some ok

  unfoldable pub check4_unique_field_names : Ast → Option Bool
  check4_unique_field_names (messages_specification ns) =
      unique_messages (check_declarations ns no_names)
  check4_unique_field_names (message_declaration ns) = passed (check_declaration ns no_names)
  check4_unique_field_names (package_name_only t) = some true
