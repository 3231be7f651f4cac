-- ===== src/Generic/Names.antt =====
-- LongName() of a generic message, after GenericMessageVisitor::preVisit of
-- libcluon/src/GenericMessage.cpp has taken the long name of the message apart.
use libcluon.Prelude.{
  append_assoc, ℕ, suc, ◌+◌, ◌-◌, ◌<◌, ◌≡◌, refl, sym, ap, ◌∙◌, arith, true, false, ◌==◌, List, [],
  ◌∷◌, ◌++◌, none, some, if_true, if_false, length, length-append, take, take-append_length,
}
use libcluon.Visitor.{end, field, Ty, Schema, Vals}
use libcluon.Generic.{GenericMessage, generic, with_package, long_name, rfind, starts_with}
use libcluon.Generic.Create.{
  Identity, Visitor, any_of, visit_all, create_from, pre_visit, new_visitor, before, package_of,
}
use libcluon.Generic.Create as Create

starts_with_self : (t : List ℕ) → starts_with t t ≡ true
starts_with_self [] = refl
starts_with_self (b ∷ t) = ground (arith, starts_with_self t)

starts_with_short : (t u : List ℕ) → length u < length t → starts_with t u ≡ false
starts_with_short [] u h = absurd (omega arith)
starts_with_short (a ∷ t) [] h = refl
starts_with_short (a ∷ t) (b ∷ u) h = ground (arith, starts_with_short t u)

rfind_short : (t u : List ℕ) → length u < length t → rfind t u ≡ none
unfolding rfind
rfind_short t [] h = if_false (starts_with t []) _ _ (starts_with_short t [] h)
rfind_short t (b ∷ u) h =
    rw (rfind_short t u (omega arith))
      (if_false (starts_with t (b ∷ u)) _ _ (starts_with_short t (b ∷ u) h))

rfind_self : (b : ℕ) (t : List ℕ) → rfind (b ∷ t) (b ∷ t) ≡ some 0
unfolding rfind
rfind_self b t =
    rw (rfind_short (b ∷ t) t (omega arith))
      (if_true (starts_with (b ∷ t) (b ∷ t)) _ _ (starts_with_self (b ∷ t)))

-- A text is last found at the end, where it stands there.
rfind-append : (b : ℕ) (t pre : List ℕ) → rfind (b ∷ t) (pre ++ b ∷ t) ≡ some (length pre)
unfolding rfind
rfind-append b t [] = rfind_self b t
rfind-append b t (a ∷ pre) = rw (rfind-append b t pre) (ap some (omega arith))

before-append :
    (a : ℕ) (pre t : List ℕ) → before (suc (length pre) + 1) ((a ∷ pre) ++ 0x2E ∷ t) ≡ a ∷ pre
before-append a pre t =
    if_false (suc (length pre) + 1 == 0) _ _ (ground arith)
    ∙ ap (λ (n : ℕ). take n ((a ∷ pre) ++ 0x2E ∷ t)) {x = suc (length pre) + 1 - 1}
        {y = suc (length pre)} (omega arith)
    ∙ take-append_length (a ∷ pre) (0x2E ∷ t)

-- The name of a message is found behind the dot.
rfind-dot :
    (a b : ℕ) (pre t : List ℕ)
    → rfind (b ∷ t) ((a ∷ pre) ++ 0x2E ∷ b ∷ t) ≡ some (suc (length pre) + 1)
rfind-dot a b pre t =
    ap (rfind (b ∷ t)) (sym (append_assoc (a ∷ pre) (0x2E ∷ []) (b ∷ t)))
    ∙ rfind-append b t ((a ∷ pre) ++ 0x2E ∷ [])
    ∙ ap some (length-append (a ∷ pre) (0x2E ∷ []))

package_of-long :
    (a b : ℕ) (pre t old : List ℕ) → package_of old (b ∷ t) ((a ∷ pre) ++ 0x2E ∷ b ∷ t) ≡ a ∷ pre
unfolding package_of
package_of-long a b pre t old = rw (rfind-dot a b pre t) (before-append a pre (b ∷ t))

package_of-short : (b : ℕ) (t old : List ℕ) → package_of old (b ∷ t) (b ∷ t) ≡ b ∷ t
unfolding package_of
package_of-short b t old = rw (rfind_self b t)

module _ (type_name : Ty → List ℕ) (identity : Schema → Identity) where
  visit_all_names :
      (s : Schema) (v : Vals s) (g : Visitor)
      → let mm = (visit_all type_name identity s v g).meta_message in
        (mm.package_name ≡ g.meta_message.package_name)
        × (mm.message_name ≡ g.meta_message.message_name)
  unfolding visit_all Create.visit
  visit_all_names end v g = (refl, refl)
  visit_all_names (field id name t s) (a, v) g =
      visit_all_names s v
        (Create.visit type_name identity id name t (any_of type_name identity t a) g)

  long_name_of :
      (s : Schema) (v : Vals s) (g : GenericMessage) (a : ℕ) (pre : List ℕ)
      → package_of [] (identity s).short_name (identity s).long_name ≡ a ∷ pre
      → long_name (create_from type_name identity s v g)
        ≡ (a ∷ pre) ++ 0x2E ∷ (identity s).short_name
  unfolding create_from pre_visit long_name
  long_name_of s v (generic mm scope long m) a pre e =
      let (pack, name) = visit_all_names s v (pre_visit (identity s) new_visitor) in
      λ i. with_package ((pack ∙ e) i) (name i)

  -- LongName() of the generic message created from a message is the long name of the message,
  -- where that is a package, a dot and the short name, neither of them empty.
  pub long_name-create_from :
      (s : Schema) (v : Vals s) (g : GenericMessage) (a b : ℕ) (pre t : List ℕ)
      → (identity s).short_name ≡ b ∷ t
      → (identity s).long_name ≡ (a ∷ pre) ++ 0x2E ∷ b ∷ t
      → long_name (create_from type_name identity s v g) ≡ (identity s).long_name
  long_name-create_from s v g a b pre t e f =
      long_name_of s v g a pre ((λ i. package_of [] (e i) (f i)) ∙ package_of-long a b pre t [])
      ∙ ap (λ u. (a ∷ pre) ++ 0x2E ∷ u) e
      ∙ sym f

  -- LongName() of the generic message created from a message without a package, whose long name
  -- is its short name, is this name twice with a dot between.
  pub long_name-create_from_twice :
      (s : Schema) (v : Vals s) (g : GenericMessage) (b : ℕ) (t : List ℕ)
      → (identity s).short_name ≡ b ∷ t
      → (identity s).long_name ≡ b ∷ t
      → long_name (create_from type_name identity s v g) ≡ (b ∷ t) ++ 0x2E ∷ b ∷ t
  long_name-create_from_twice s v g b t e f =
      long_name_of s v g b t ((λ i. package_of [] (e i) (f i)) ∙ package_of-short b t [])
      ∙ ap (λ u. (b ∷ t) ++ 0x2E ∷ u) e
