-- ===== src/Odvd/Ordered.antt =====
-- The specification that ToODVDVisitor (libcluon/src/ToODVDVisitor.cpp) writes, message by message.
use libcluon.Prelude.{
  ℕ, ◌≡◌, refl, sym, ap, ◌∙◌, List, [], ◌∷◌, ◌++◌, map, codes, append_assoc, append-nil, list_laws,
}
use mathlib.Core.List.{map-append}
use libcluon.Visitor.{Ty, Schema, end, field, message}
use libcluon.Visitor.{bool, char, int8, uint8, int16, uint16, int32, uint32, int64, uint64}
use libcluon.Visitor.{float, double, string}
use libcluon.Generic.Create.{Identity}
use libcluon.Odvd.{
  OdvdVisitor, new_odvd_visitor, texts, message_specification, pre_visit, post_visit, field_line,
  visit, visit_fields, accept,
}
use libcluon.Odvd.Declared.{
  nested_in, nested_in_order, in_order, AreDeclared, AreDeclared-behind,
  AreDeclared-nested_in_order,
}

texts-append : (xs ys : List (List ℕ)) → texts (xs ++ ys) ≡ texts xs ++ texts ys
texts-append [] ys = refl
texts-append (x ∷ xs) ys = simp (texts-append xs ys, list_laws)

module _ (type_name : Ty → List ℕ) (identity : Schema → Identity) where
  -- The lines of the fields, and of a message.
  abbrev lines_of : Schema → List ℕ
  lines_of end = []
  lines_of (field id name t s) = field_line type_name identity id name t ++ lines_of s

  abbrev pub declaration : Schema → List ℕ
  declaration s = (pre_visit (identity s) new_odvd_visitor).buffer ++ (lines_of s ++ codes "}\n")

  abbrev declarations : List Schema → List ℕ
  declarations ss = texts (map declaration ss)

  declarations-append :
      (xs ys : List Schema) → declarations (xs ++ ys) ≡ declarations xs ++ declarations ys
  declarations-append xs ys =
      ap texts (map-append declaration xs ys)
      ∙ texts-append (map declaration xs) (map declaration ys)

  mutual
    unfolding visit

    visit-buffer :
        (t : Ty) (id : ℕ) (name : List ℕ) (o : OdvdVisitor)
        → (visit type_name identity id name t o).buffer
          ≡ o.buffer ++ field_line type_name identity id name t
    visit-buffer (message r) id name o = refl
    visit-buffer bool id name o = refl
    visit-buffer char id name o = refl
    visit-buffer int8 id name o = refl
    visit-buffer uint8 id name o = refl
    visit-buffer int16 id name o = refl
    visit-buffer uint16 id name o = refl
    visit-buffer int32 id name o = refl
    visit-buffer uint32 id name o = refl
    visit-buffer int64 id name o = refl
    visit-buffer uint64 id name o = refl
    visit-buffer float id name o = refl
    visit-buffer double id name o = refl
    visit-buffer string id name o = refl

    visit_fields-buffer :
        (s : Schema) (o : OdvdVisitor)
        → (visit_fields type_name identity s o).buffer ≡ o.buffer ++ lines_of s
    visit_fields-buffer end o = sym (append-nil o.buffer)
    visit_fields-buffer (field id name t s) o =
        visit_fields-buffer s (visit type_name identity id name t o)
        ∙ ap (λ b. b ++ lines_of s) (visit-buffer t id name o)
        ∙ append_assoc o.buffer (field_line type_name identity id name t) (lines_of s)

  specified :
      (s : Schema) (o : OdvdVisitor)
      → texts o.forward_declarations ≡ declarations (nested_in_order s)
      → o.buffer ≡ (pre_visit (identity s) new_odvd_visitor).buffer ++ lines_of s
      → message_specification (post_visit o) ≡ declarations (in_order s)
  specified s o e b =
      (λ i. e i ++ (b i ++ codes "}\n"))
      ∙ ap (λ t. declarations (nested_in_order s) ++ t)
          (append_assoc (pre_visit (identity s) new_odvd_visitor).buffer (lines_of s) (codes "}\n")
            ∙ sym (append-nil (declaration s)))
      ∙ sym (declarations-append (nested_in_order s) (s ∷ []))

  mutual
    unfolding visit

    visit-nested_in :
        (t : Ty) (id : ℕ) (name : List ℕ) (o : OdvdVisitor)
        → texts (visit type_name identity id name t o).forward_declarations
          ≡ declarations (nested_in t) ++ texts o.forward_declarations
    visit-nested_in (message r) id name o =
        ap (λ t. t ++ texts o.forward_declarations)
          (specified r (visit_fields type_name identity r (pre_visit (identity r) new_odvd_visitor))
            (visit_fields-nested_in_order r (pre_visit (identity r) new_odvd_visitor)
              ∙ append-nil (declarations (nested_in_order r)))
            (visit_fields-buffer r (pre_visit (identity r) new_odvd_visitor)))
    visit-nested_in bool id name o = refl
    visit-nested_in char id name o = refl
    visit-nested_in int8 id name o = refl
    visit-nested_in uint8 id name o = refl
    visit-nested_in int16 id name o = refl
    visit-nested_in uint16 id name o = refl
    visit-nested_in int32 id name o = refl
    visit-nested_in uint32 id name o = refl
    visit-nested_in int64 id name o = refl
    visit-nested_in uint64 id name o = refl
    visit-nested_in float id name o = refl
    visit-nested_in double id name o = refl
    visit-nested_in string id name o = refl

    visit_fields-nested_in_order :
        (s : Schema) (o : OdvdVisitor)
        → texts (visit_fields type_name identity s o).forward_declarations
          ≡ declarations (nested_in_order s) ++ texts o.forward_declarations
    visit_fields-nested_in_order end o = refl
    visit_fields-nested_in_order (field id name t s) o =
        visit_fields-nested_in_order s (visit type_name identity id name t o)
        ∙ ap (λ b. declarations (nested_in_order s) ++ b) (visit-nested_in t id name o)
        ∙ sym (
            append_assoc (declarations (nested_in_order s)) (declarations (nested_in t))
              (texts o.forward_declarations))
        ∙ ap (λ b. b ++ texts o.forward_declarations)
            (sym (declarations-append (nested_in_order s) (nested_in t)))

  -- The specification that ToODVDVisitor gives for a message is one declaration for each message,
  -- nested ones included, one after the other, in an order in which every message comes behind
  -- those that are nested in it.
  pub message_specification-in_order :
      (s : Schema)
      → (message_specification (accept type_name identity s new_odvd_visitor)
          ≡ texts (map declaration (in_order s)))
        × AreDeclared [] (in_order s)
  unfolding accept
  message_specification-in_order s = (
    specified s (visit_fields type_name identity s (pre_visit (identity s) new_odvd_visitor))
        (visit_fields-nested_in_order s (pre_visit (identity s) new_odvd_visitor)
          ∙ append-nil (declarations (nested_in_order s)))
        (visit_fields-buffer s (pre_visit (identity s) new_odvd_visitor)),
    AreDeclared-behind s [] (AreDeclared-nested_in_order s []),
  )
