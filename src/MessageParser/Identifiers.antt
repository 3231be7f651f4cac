-- ===== src/MessageParser/Identifiers.antt =====
-- The identifiers of the fields in what libcluon/src/MessageParser.cpp makes of a message that passes
-- its checks.
use mathlib.Core.Bool.{true≢false}
use mathlib.Core.Path.{subst}
use mathlib.Core.Option.{some-injective}
use libcluon.Prelude.{
  ℕ, ◌≡◌, ◌≢◌, refl, sym, ap, ◌∙◌, arith, Bool, true, false, ◌&&◌, ◌==◌, List, [], ◌∷◌, ◌++◌,
  Option, none, some, append_assoc, append-nil, Option-cases, Bool-cases, inl, inr, if◌then◌else◌,
  if_true, if_false,
}
use libcluon.Generic.{MetaField, MetaMessage, new_meta_message}
use libcluon.MessageParser.{
  FieldNode, DeclarationNode, message_name_node, message_identifier_node, field_node, stoi,
}
use libcluon.MessageParser.Check.{
  Gathered, first_name, first_identifier, push_name, push_identifier, push_field_identifier,
  check_field, member, last_duplicate, later_or, is_none, then_check, check_node, check_nodes,
  no_fields, unique_fields, check_declaration, push_message_identifier,
}
use libcluon.MessageParser.Transform.{
  FieldTexts, no_texts, field_texts, counted, identifier_of, add_field, with_field_texts,
  with_identifier, create_node, meta_field_of, then_create, create_nodes, only_message,
  create_meta_message,
}

abbrev pub IsNone {ℓ} : {A : Type ℓ} → Option A → Type 0
IsNone none = Unit {0}
IsNone (some a) = ⊥

pub none≢some {ℓ} : {A : Type ℓ} {a : A} → none ≢ some a
none≢some p = subst IsNone p tt

abbrev pub identifiers : List MetaField → List ℕ
identifiers [] = []
identifiers (f ∷ fs) = f.field_identifier ∷ identifiers fs

identifiers-append :
    (fs gs : List MetaField) → identifiers (fs ++ gs) ≡ identifiers fs ++ identifiers gs
identifiers-append [] gs = refl
identifiers-append (f ∷ fs) gs = ap (λ l. f.field_identifier ∷ l) (identifiers-append fs gs)

abbrev pub IsNew : ℕ → List ℕ → Type 0
IsNew n [] = Unit {0}
IsNew n (m ∷ ms) = (n ≢ m) × IsNew n ms

abbrev pub AreDistinct : List ℕ → Type 0
AreDistinct [] = Unit {0}
AreDistinct (n ∷ ns) = IsNew n ns × AreDistinct ns

-- Each field has an identifier, and no other one.
abbrev pub IsExplicit : List FieldNode → Type 0
IsExplicit ns =
    (t : List ℕ) × (first_identifier ns ≡ some t) × ((field_texts ns no_texts).identifier_text ≡ t)

abbrev pub AreExplicit : List DeclarationNode → Type 0
AreExplicit [] = Unit {0}
AreExplicit (message_name_node t ∷ ns) = AreExplicit ns
AreExplicit (message_identifier_node t ∷ ns) = AreExplicit ns
AreExplicit (field_node f ∷ ns) = IsExplicit f × AreExplicit ns

member-IsNew : (n : ℕ) (ms : List ℕ) → member ◌==◌ n ms ≡ false → IsNew n ms
unfolding member
member-IsNew n [] h = tt
member-IsNew n (m ∷ ms) h = elim (Bool-cases (n == m)) [
  | inl e ↦ absurd (true≢false (sym (if_true (n == m) _ _ e) ∙ h))
  | inr e ↦ (ground arith, member-IsNew n ms (sym (if_false (n == m) _ _ e) ∙ h))
]

last_duplicate-AreDistinct : (ns : List ℕ) → last_duplicate ◌==◌ ns ≡ none → AreDistinct ns
unfolding last_duplicate
last_duplicate-AreDistinct [] h = tt
last_duplicate-AreDistinct (n ∷ ns) h = elim (Option-cases (last_duplicate ◌==◌ ns)) [
  | inr (m, e) ↦
      absurd
        (none≢some (sym h ∙ ap (λ o. later_or o (if member ◌==◌ n ns then some n else none)) e))
  | inl e ↦
      let found = sym (ap (λ o. later_or o (if member ◌==◌ n ns then some n else none)) e) ∙ h in
      elim (Bool-cases (member ◌==◌ n ns)) [
        | inl b ↦ absurd (none≢some (sym found ∙ if_true (member ◌==◌ n ns) _ _ b))
        | inr b ↦ (member-IsNew n ns b, last_duplicate-AreDistinct ns e)
      ]
]

is_none-true : (o : Option ℕ) (b : Bool) → (is_none o && b) ≡ true → o ≡ none
is_none-true none b h = refl
is_none-true (some n) b h = absurd (true≢false (sym h))

push_name_identifiers :
    (o : Option (List ℕ)) (g : Gathered)
    → (push_name o g).numerical_field_identifiers ≡ g.numerical_field_identifiers
push_name_identifiers none g = refl
push_name_identifiers (some t) g = refl

module _ (trim : List ℕ → List ℕ) where
  -- An explicit identifier, which the counter is not used for.
  pub with_explicit :
      (f : FieldTexts) (t : List ℕ) (n : ℕ) (mm : MetaMessage) (c : ℕ)
      → ((u : List ℕ) → stoi (trim u) ≡ stoi u)
      → f.identifier_text ≡ t
      → stoi t ≡ some n
      → with_field_texts trim f mm c ≡ add_field trim f mm c (some n)
  unfolding stoi
  with_explicit f [] n mm c k q z = absurd (none≢some z)
  with_explicit f (b ∷ t) n mm c k q z =
      (λ i. add_field trim f mm (counted (q i) c) (identifier_of trim (q i) (counted (q i) c)))
      ∙ ap (add_field trim f mm c) (k (b ∷ t) ∙ z)

  -- What the check gathers are the identifiers that the fields get.
  abbrev Gets : List DeclarationNode → Gathered → Gathered → MetaMessage → ℕ → Type 0
  Gets ns g h mm c =
      (new : List ℕ) × (nn : MetaMessage) × (h.numerical_field_identifiers
        ≡ g.numerical_field_identifiers ++ new)
      × (create_nodes trim ns mm c ≡ some (nn, c))
      × (identifiers nn.list_of_meta_fields ≡ identifiers mm.list_of_meta_fields ++ new)

  check_nodes-create_nodes :
      (ns : List DeclarationNode) (g h : Gathered) (mm : MetaMessage) (c : ℕ)
      → ((t : List ℕ) → stoi (trim t) ≡ stoi t)
      → AreExplicit ns
      → check_nodes trim ns g ≡ some h
      → Gets ns g h mm c
  unfolding check_nodes create_nodes check_node create_node check_field
  check_nodes-create_nodes [] g h mm c k x e = (
    [],
    mm,
    (ap (λ (g : Gathered). g.numerical_field_identifiers) (sym (some-injective g h e))
        ∙ sym (append-nil g.numerical_field_identifiers)),
    refl,
    sym (append-nil (identifiers mm.list_of_meta_fields)),
  )
  check_nodes-create_nodes (message_name_node t ∷ ns) g h mm c k x e =
      check_nodes-create_nodes ns (record g { message_names = g.message_names ++ trim t ∷ [] }) h
        (record mm { message_name = trim t }) c k x e
  check_nodes-create_nodes (message_identifier_node t ∷ ns) g h mm c k x e =
      elim (Option-cases (stoi t)) [
        | inl z ↦ absurd (
            none≢some (
              sym (ap (λ o. then_check trim (push_message_identifier g o) (check_nodes trim ns)) z)
              ∙ e))
        | inr (n, z) ↦
            let (new, nn, a, b, i) =
              check_nodes-create_nodes ns
                (record g {
                  numerical_message_identifiers = g.numerical_message_identifiers ++ n ∷ [];
                })
                h (record mm { message_identifier = n }) c k x
                (sym (
                    ap (λ o. then_check trim (push_message_identifier g o) (check_nodes trim ns)) z)
                  ∙ e) in
            (
              new,
              nn,
              a,
              (ap (λ o. then_create trim (with_identifier trim mm c o) (create_nodes trim ns)) z
                  ∙ b),
              i,
            )
      ]
  check_nodes-create_nodes (field_node f ∷ ns) g h mm c k ((t, p, q), x) e =
      let named = push_name (first_name f) g in
      let texts = field_texts f no_texts in
      let checks =
        λ (o : Option ℕ). then_check trim (push_field_identifier named o) (check_nodes trim ns) in
      let passes =
        sym (ap (λ o. then_check trim (push_identifier o named) (check_nodes trim ns)) p) ∙ e in
      elim (Option-cases (stoi t)) [
        | inl z ↦ absurd (none≢some (sym (ap checks z) ∙ passes))
        | inr (n, z) ↦
            let mf = meta_field_of trim texts n in
            let (new, nn, a, b, i) =
              check_nodes-create_nodes ns
                (record named {
                  numerical_field_identifiers = named.numerical_field_identifiers ++ n ∷ [];
                })
                h (record mm { list_of_meta_fields = mm.list_of_meta_fields ++ mf ∷ [] }) c k x
                (sym (ap checks z) ∙ passes) in
            (
              n ∷ new,
              nn,
              (a
                  ∙ append_assoc named.numerical_field_identifiers (n ∷ []) new
                  ∙ ap (λ l. l ++ n ∷ new) (push_name_identifiers (first_name f) g)),
              (ap (λ o. then_create trim o (create_nodes trim ns))
                    (with_explicit texts t n mm c k q z)
                  ∙ b),
              (i
                  ∙ ap (λ l. l ++ new) (identifiers-append mm.list_of_meta_fields (mf ∷ []))
                  ∙ append_assoc (identifiers mm.list_of_meta_fields) (n ∷ []) new),
            )
      ]

  unique_fields-none :
      (o : Option Gathered) (h : Gathered)
      → unique_fields trim o ≡ some (true, h)
      → (o ≡ some h) × (last_duplicate ◌==◌ h.numerical_field_identifiers ≡ none)
  unique_fields-none none h e = absurd (none≢some e)
  unique_fields-none (some g) h e =
      let both = some-injective _ _ e in
      (
        ap (λ (r : Bool × Gathered). some r.1) both,
        (ap (λ (r : Bool × Gathered). last_duplicate ◌==◌ r.1.numerical_field_identifiers)
              (sym both)
            ∙ is_none-true (last_duplicate ◌==◌ g.numerical_field_identifiers) _
                (ap (λ (r : Bool × Gathered). r.0) both)),
      )

  -- The fields of a message that passes the check get distinct identifiers, if each has one.
  pub create_meta_message-AreDistinct :
      (ns : List DeclarationNode) (g h : Gathered) (package_name : List ℕ)
      → ((t : List ℕ) → stoi (trim t) ≡ stoi t)
      → AreExplicit ns
      → check_declaration trim ns g ≡ some (true, h)
      → (mm : MetaMessage) × (create_meta_message trim ns package_name ≡ some mm)
        × AreDistinct (identifiers mm.list_of_meta_fields)
  unfolding check_declaration create_meta_message
  create_meta_message-AreDistinct ns g h package_name k x e =
      let (passes, unique) = unique_fields-none (check_nodes trim ns (no_fields trim g)) h e in
      let (new, mm, a, b, i) =
        check_nodes-create_nodes ns (no_fields trim g) h
          (record new_meta_message { package_name = trim package_name }) 0 k x passes in
      (
        mm,
        ap (only_message trim) b,
        subst AreDistinct (a ∙ sym i)
            (last_duplicate-AreDistinct h.numerical_field_identifiers unique),
      )
