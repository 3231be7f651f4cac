-- ===== src/MessageParser/Counter.antt =====
-- Fields with and without an identifier in one message, which libcluon/src/MessageParser.cpp numbers.
use libcluon.Prelude.{ℕ, ◌≡◌, refl, ap, ◌∙◌, true, false, List, [], ◌∷◌, some, same}
use libcluon.Generic.{MetaMessage}
use libcluon.MessageParser.{
  primitive_type_node, name_node, identifier_node, DeclarationNode, message_name_node,
  message_identifier_node, field_node, message_declaration, stoi, no_messageparser_error,
}
use libcluon.MessageParser.Check.{
  first_name, first_identifier, check_field, member, last_duplicate, check_node, check_nodes,
  check_declaration, check4_unique_field_names,
}
use libcluon.MessageParser.Transform.{
  field_texts, create_node, create_nodes, create_meta_message, transform2_meta_messages, parse,
  transformed, checked, listed, meta_field_of,
}
use libcluon.MessageParser.Identifiers.{identifiers}

-- A message with a field that has an identifier and one that has none.
abbrev pub mixed : (m i t a b : List ℕ) (c : ℕ) (u : List ℕ) → List DeclarationNode
mixed m i t a b c u =
    message_name_node m
    ∷ message_identifier_node i
    ∷ field_node (primitive_type_node t ∷ name_node a ∷ identifier_node (c ∷ u) ∷ [])
    ∷ field_node (primitive_type_node t ∷ name_node b ∷ [])
    ∷ []

module _ (trim : List ℕ → List ℕ) where
  check4-mixed :
      (m i t a b : List ℕ) (c : ℕ) (u : List ℕ) (n : ℕ)
      → same a b ≡ false
      → stoi i ≡ some n
      → stoi (c ∷ u) ≡ some 1
      → check4_unique_field_names trim (message_declaration (mixed m i t a b c u)) ≡ some true
  unfolding check4_unique_field_names check_declaration check_nodes check_node check_field
      first_name first_identifier last_duplicate member
  check4-mixed m i t a b c u n d e f = rw e (rw f (rw d refl))

  abbrev mixed_meta_message : (m t a b : List ℕ) (c : ℕ) (u : List ℕ) (n : ℕ) → MetaMessage
  mixed_meta_message m t a b c u n = record {
    package_name = trim [];
    message_name = trim m;
    message_identifier = n;
    list_of_meta_fields =
        meta_field_of trim
          (record { data_type_text = t; name_text = a; default_text = []; identifier_text = c ∷ u })
          1
        ∷ meta_field_of trim
            (record { data_type_text = t; name_text = b; default_text = []; identifier_text = [] })
            1
        ∷ [];
  }

  create_meta_message-mixed :
      (m i t a b : List ℕ) (c : ℕ) (u : List ℕ) (n : ℕ)
      → ((v : List ℕ) → stoi (trim v) ≡ stoi v)
      → stoi i ≡ some n
      → stoi (c ∷ u) ≡ some 1
      → create_meta_message trim (mixed m i t a b c u) [] ≡ some (mixed_meta_message m t a b c u n)
  unfolding create_meta_message create_nodes create_node field_texts
  create_meta_message-mixed m i t a b c u n k e f = rw e (rw (k (c ∷ u)) (rw f refl))

  -- Parse succeeds for a message with a field that has the identifier 1 and, behind it, one that
  -- has another name and no identifier, and gives both fields the identifier 1, if the identifier
  -- of the message is a number below 2^31, and std::stoi reads the same from a text and from what
  -- trim leaves of it.
  pub parse-mixed :
      (m i t a b : List ℕ) (c : ℕ) (u : List ℕ) (n : ℕ)
      → ((v : List ℕ) → stoi (trim v) ≡ stoi v)
      → same a b ≡ false
      → stoi i ≡ some n
      → stoi (c ∷ u) ≡ some 1
      → (mm : MetaMessage) × (parse trim (some (message_declaration (mixed m i t a b c u)))
          ≡ some (mm ∷ [], no_messageparser_error))
        × (identifiers mm.list_of_meta_fields ≡ 1 ∷ 1 ∷ [])
  unfolding parse transform2_meta_messages
  parse-mixed m i t a b c u n k d e f = (
    mixed_meta_message m t a b c u n,
    (ap (checked trim (message_declaration (mixed m i t a b c u)))
          (check4-mixed m i t a b c u n d e f)
        ∙ ap (λ o. transformed trim (listed trim o (some [])))
            (create_meta_message-mixed m i t a b c u n k e f)),
    refl,
  )
