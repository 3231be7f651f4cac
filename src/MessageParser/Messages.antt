-- ===== src/MessageParser/Messages.antt =====
-- A specification that passes the checks of libcluon/src/MessageParser.cpp, and what is made of it.
use mathlib.Core.Bool.{true≢false}
use mathlib.Core.Option.{some-injective}
use libcluon.Prelude.{
  ℕ, ◌≡◌, refl, sym, ap, ◌∙◌, Bool, true, false, ◌&&◌, List, [], ◌∷◌, Option, none, some,
}
use libcluon.Generic.{MetaMessage}
use libcluon.MessageParser.{
  SpecificationNode, package_name_node, message_declaration_node, Ast, messages_specification,
  message_declaration, package_name_only, stoi, no_messageparser_error,
}
use libcluon.MessageParser.Check.{
  Gathered, no_names, check_declaration, also, next_declaration, check_declarations,
  unique_messages, passed, check4_unique_field_names,
}
use libcluon.MessageParser.Transform.{
  create_nodes, create_meta_message, package_name_of, create_meta_messages, listed,
  transform2_meta_messages, transformed, checked, parse,
}
use libcluon.MessageParser.Identifiers.{
  none≢some, identifiers, AreDistinct, AreExplicit, create_meta_message-AreDistinct,
}

abbrev pub AllDistinct : List MetaMessage → Type 0
AllDistinct [] = Unit {0}
AllDistinct (mm ∷ mms) = AreDistinct (identifiers mm.list_of_meta_fields) × AllDistinct mms

-- Each field has an identifier, and no other one.
abbrev AllExplicit : List SpecificationNode → Type 0
AllExplicit [] = Unit {0}
AllExplicit (package_name_node t ∷ ns) = AllExplicit ns
AllExplicit (message_declaration_node d ∷ ns) = AreExplicit d × AllExplicit ns

abbrev pub IsExplicit : Ast → Type 0
IsExplicit (messages_specification ns) = AllExplicit ns
IsExplicit (message_declaration ns) = AreExplicit ns
IsExplicit (package_name_only t) = Unit {0}

and_left : (a b : Bool) → (a && b) ≡ true → a ≡ true
and_left true b h = refl
and_left false b h = absurd (true≢false (sym h))

and_right : (a b : Bool) → (a && b) ≡ true → b ≡ true
and_right true b h = h
and_right false b h = absurd (true≢false (sym h))

module _ (trim : List ℕ → List ℕ) where
  also-true :
      (ok : Bool) (o : Option (Bool × Gathered)) (h : Gathered)
      → also trim ok o ≡ some (true, h)
      → (ok ≡ true) × (o ≡ some (true, h))
  also-true ok none h e = absurd (none≢some e)
  also-true ok (some (more, g)) h e =
      let both = some-injective _ _ e in
      let ands = ap (λ (r : Bool × Gathered). r.0) both in
      (and_left ok more ands, λ i. some (and_right ok more ands i, (both i).1))

  next_declaration-true :
      (o : Option (Bool × Gathered)) (next : Gathered → Option (Bool × Gathered)) (h : Gathered)
      → next_declaration trim o next ≡ some (true, h)
      → (g : Gathered) × (o ≡ some (true, g)) × (next g ≡ some (true, h))
  next_declaration-true none next h e = absurd (none≢some e)
  next_declaration-true (some (ok, g)) next h e =
      let (p, q) = also-true ok (next g) h e in (g, (λ i. some (p i, g)), q)

  unique_messages-true :
      (o : Option (Bool × Gathered))
      → unique_messages trim o ≡ some true
      → (h : Gathered) × (o ≡ some (true, h))
  unique_messages-true none e = absurd (none≢some e)
  unique_messages-true (some (ok, h)) e =
      (h, λ i. some (and_left ok _ (and_left _ _ (some-injective _ _ e)) i, h))

  passed-true :
      (o : Option (Bool × Gathered))
      → passed trim o ≡ some true
      → (h : Gathered) × (o ≡ some (true, h))
  passed-true none e = absurd (none≢some e)
  passed-true (some (ok, h)) e = (h, λ i. some (some-injective _ _ e i, h))

  create_meta_messages-AllDistinct :
      (ns : List SpecificationNode) (g h : Gathered) (package_name : List ℕ)
      → ((t : List ℕ) → stoi (trim t) ≡ stoi t)
      → AllExplicit ns
      → check_declarations trim ns g ≡ some (true, h)
      → (mms : List MetaMessage) × (create_meta_messages trim ns package_name ≡ some mms)
        × AllDistinct mms
  unfolding check_declarations create_meta_messages
  create_meta_messages-AllDistinct [] g h package_name k x e = ([], refl, tt)
  create_meta_messages-AllDistinct (package_name_node t ∷ ns) g h package_name k x e =
      create_meta_messages-AllDistinct ns g h package_name k x e
  create_meta_messages-AllDistinct (message_declaration_node d ∷ ns) g h package_name k (x, y) e =
      let (f, p, q) =
        next_declaration-true (check_declaration trim d g) (check_declarations trim ns) h e in
      let (mm, a, u) = create_meta_message-AreDistinct trim d g f package_name k x p in
      let (mms, b, v) = create_meta_messages-AllDistinct ns f h package_name k y q in
      (mm ∷ mms, (λ i. listed trim (a i) (b i)), (u, v))

  transform2_meta_messages-AllDistinct :
      (a : Ast)
      → ((t : List ℕ) → stoi (trim t) ≡ stoi t)
      → IsExplicit a
      → check4_unique_field_names trim a ≡ some true
      → (mms : List MetaMessage) × (transform2_meta_messages trim a ≡ some mms) × AllDistinct mms
  unfolding check4_unique_field_names transform2_meta_messages create_meta_message create_nodes
  transform2_meta_messages-AllDistinct (messages_specification ns) k x e =
      let (h, p) = unique_messages-true (check_declarations trim ns no_names) e in
      create_meta_messages-AllDistinct ns no_names h (package_name_of trim ns) k x p
  transform2_meta_messages-AllDistinct (message_declaration ns) k x e =
      let (h, p) = passed-true (check_declaration trim ns no_names) e in
      let (mm, a, u) = create_meta_message-AreDistinct trim ns no_names h [] k x p in
      (mm ∷ [], (λ i. listed trim (a i) (some [])), (u, tt))
  transform2_meta_messages-AllDistinct (package_name_only t) k x e = (_, refl, (tt, tt))

  -- Where the checks pass for a syntax tree in which each field has one identifier, parse
  -- succeeds, and in each of its meta messages the fields have distinct identifiers, if std::stoi
  -- reads the same from a text and from what trim leaves of it.
  pub parse-AllDistinct :
      (a : Ast)
      → ((t : List ℕ) → stoi (trim t) ≡ stoi t)
      → IsExplicit a
      → check4_unique_field_names trim a ≡ some true
      → (mms : List MetaMessage) × (parse trim (some a) ≡ some (mms, no_messageparser_error))
        × AllDistinct mms
  unfolding parse
  parse-AllDistinct a k x e =
      let (mms, t, u) = transform2_meta_messages-AllDistinct a k x e in
      (mms, ap (checked trim a) e ∙ ap (transformed trim) t, u)
