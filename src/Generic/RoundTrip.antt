-- ===== src/Generic/RoundTrip.antt =====
-- A generic message that is created from a message (libcluon/include/cluon/GenericMessage.hpp)
-- shows visitors that message, and fills another one with its values.
use libcluon.Prelude.{
  Bool-cases, inl, inr, if_false, ℕ, ◌≡◌, refl, sym, ap, ◌∙◌, arith, true, List, [], ◌∷◌, ◌++◌,
  some, ◌==◌, if◌then◌else◌, if_true, append_assoc, append-nil,
}
use libcluon.Visitor.{Ty, Schema, Val, Vals, end, field, message}
use libcluon.Visitor.{bool, char, int8, uint8, int16, uint16, int32, uint32, int64, uint64}
use libcluon.Visitor.{float, double, string}
use libcluon.Proto.RoundTrip.{Fresh, DistinctIn, Distinct}
use libcluon.Generic.{MetaField, GenericMessage, generic, Any, Values, nothing, value, assign, find}
use libcluon.Generic.Create.{
  Identity, Visitor, data_type_of, meta_field, any_of, visit_all, create_from, pre_visit,
  new_visitor,
}
use libcluon.Generic.Create as Create
use libcluon.Generic.Accept.{
  visit, visit_fields, filled_from, Message, find_typed, casts, with_field, walk, typed,
  typed_values, accept,
}

pub find-assign :
    (k j : ℕ) (a : Any) (m : Values) → find j (assign k a m) ≡ (if k == j then some a else find j m)
unfolding find assign
find-assign k j a nothing = refl
find-assign k j a (value i b m) = ground (arith, find-assign k j a m)

find_typed-typed_values :
    (k j : ℕ) (a : Any) (m : Values)
    → find_typed j (typed_values (assign k a m))
      ≡ (if k == j then some (typed a) else find_typed j (typed_values m))
unfolding assign typed
find_typed-typed_values k j a nothing = refl
find_typed-typed_values k j a (value i b m) = elim (Bool-cases (i == k)) [
  | inl c ↦ rw c (ground arith)
  | inr c ↦ rw c (ground (arith, find_typed-typed_values k j a m))
]

module _ (type_name : Ty → List ℕ) (identity : Schema → Identity) where
  -- The fields of a message as meta fields.
  abbrev pub metas : Schema → List MetaField
  metas end = []
  metas (field id name t s) = meta_field type_name identity id name t ∷ metas s

  abbrev pub visited : ℕ → List ℕ → (t : Ty) → Val t → Visitor → Visitor
  visited id name t a g =
      Create.visit type_name identity id name t (any_of type_name identity t a) g

  -- The fields leave the values of other identifiers alone.
  pub visit_all-find :
      (s : Schema) (v : Vals s) (g : Visitor) (k : ℕ)
      → Fresh k s
      → find k (visit_all type_name identity s v g).representation ≡ find k g.representation
  unfolding visit_all Create.visit
  visit_all-find end v g k h = refl
  visit_all-find (field id name t s) (a, v) g k h =
      visit_all-find s v (visited id name t a g) k h.1
      ∙ find-assign id k (any_of type_name identity t a) g.representation
      ∙ if_false (id == k) _ _ (ground arith)

  visit_all-find_typed :
      (s : Schema) (v : Vals s) (g : Visitor) (k : ℕ)
      → Fresh k s
      → find_typed k (typed_values (visit_all type_name identity s v g).representation)
        ≡ find_typed k (typed_values g.representation)
  unfolding visit_all Create.visit
  visit_all-find_typed end v g k h = refl
  visit_all-find_typed (field id name t s) (a, v) g k h =
      visit_all-find_typed s v (visited id name t a g) k h.1
      ∙ find_typed-typed_values id k (any_of type_name identity t a) g.representation
      ∙ if_false (id == k) _ _ (ground arith)

  pub visit_all-list :
      (s : Schema) (v : Vals s) (g : Visitor)
      → (visit_all type_name identity s v g).meta_message.list_of_meta_fields
        ≡ g.meta_message.list_of_meta_fields ++ metas s
  unfolding visit_all Create.visit
  visit_all-list end v g = sym (append-nil g.meta_message.list_of_meta_fields)
  visit_all-list (field id name t s) (a, v) g =
      visit_all-list s v (visited id name t a g)
      ∙ append_assoc g.meta_message.list_of_meta_fields
          (meta_field type_name identity id name t ∷ []) (metas s)

  pub casts-data_type_of : (t : Ty) → casts (data_type_of t) t ≡ true
  casts-data_type_of bool = refl
  casts-data_type_of char = refl
  casts-data_type_of int8 = refl
  casts-data_type_of uint8 = refl
  casts-data_type_of int16 = refl
  casts-data_type_of uint16 = refl
  casts-data_type_of int32 = refl
  casts-data_type_of uint32 = refl
  casts-data_type_of int64 = refl
  casts-data_type_of uint64 = refl
  casts-data_type_of float = refl
  casts-data_type_of double = refl
  casts-data_type_of string = refl
  casts-data_type_of (message s) = refl

  abbrev pub fresh_visitor : Schema → Visitor
  fresh_visitor s = pre_visit (identity s) new_visitor

  pub no_fields : (s : Schema) → (fresh_visitor s).meta_message.list_of_meta_fields ≡ []
  unfolding pre_visit
  no_fields s = refl

  mutual
    unfolding visit visit_all Create.visit

    -- A value comes back out of its any.
    visit-any_of :
        (t : Ty) (v w : Val t) → DistinctIn t → visit t (some (any_of type_name identity t v)) w ≡ v
    visit-any_of bool v w d = refl
    visit-any_of char v w d = refl
    visit-any_of int8 v w d = refl
    visit-any_of uint8 v w d = refl
    visit-any_of int16 v w d = refl
    visit-any_of uint16 v w d = refl
    visit-any_of int32 v w d = refl
    visit-any_of uint32 v w d = refl
    visit-any_of int64 v w d = refl
    visit-any_of uint64 v w d = refl
    visit-any_of float v w d = refl
    visit-any_of double v w d = refl
    visit-any_of string v w d = refl
    visit-any_of (message s) v w d = visit_fields-visit_all s v w (fresh_visitor s) d

    visit_fields-visit_all :
        (s : Schema) (v w : Vals s) (g : Visitor)
        → Distinct s
        → visit_fields s (visit_all type_name identity s v g).representation w ≡ v
    visit_fields-visit_all end v w g d = refl
    visit_fields-visit_all (field id name t s) (a, v) (b, w) g d =
        let there =
          visit_all-find s v (visited id name t a g) id d.0
          ∙ find-assign id id (any_of type_name identity t a) g.representation
          ∙ if_true (id == id) _ _ (ground arith) in
        λ i. (
          (ap (λ o. visit t o b) there ∙ visit-any_of t a b d.1) i,
          visit_fields-visit_all s v w (visited id name t a g) d.2 i,
        )

  -- The walk over the fields of a message gives the message.
  mutual
    unfolding typed walk visit_all Create.visit

    typed-any_of :
        (t : Ty) (v : Val t) → DistinctIn t → typed (any_of type_name identity t v) ≡ (t, v)
    typed-any_of bool v d = refl
    typed-any_of char v d = refl
    typed-any_of int8 v d = refl
    typed-any_of uint8 v d = refl
    typed-any_of int16 v d = refl
    typed-any_of uint16 v d = refl
    typed-any_of int32 v d = refl
    typed-any_of uint32 v d = refl
    typed-any_of int64 v d = refl
    typed-any_of uint64 v d = refl
    typed-any_of float v d = refl
    typed-any_of double v d = refl
    typed-any_of string v d = refl
    typed-any_of (message s) v d =
        ap (λ (r : Message). (message r.0, r.1))
          (ap
              (λ l.
                walk l (
                  typed_values (visit_all type_name identity s v (fresh_visitor s)).representation))
              (visit_all-list s v (fresh_visitor s) ∙ ap (λ l. l ++ metas s) (no_fields s))
            ∙ walk-visit_all s v (fresh_visitor s) d)

    pub walk-visit_all :
        (s : Schema) (v : Vals s) (g : Visitor)
        → Distinct s
        → walk (metas s) (typed_values (visit_all type_name identity s v g).representation) ≡ (s, v)
    walk-visit_all end v g d = refl
    walk-visit_all (field id name t s) (a, v) g d =
        let there =
          visit_all-find_typed s v (visited id name t a g) id d.0
          ∙ find_typed-typed_values id id (any_of type_name identity t a) g.representation
          ∙ if_true (id == id) _ _ (ground arith)
          ∙ ap some (typed-any_of t a d.1) in
        (λ i.
          with_field (meta_field type_name identity id name t) (there i)
            (walk-visit_all s v (visited id name t a g) d.2 i))
        ∙ if_true (casts (data_type_of t) t) _ _ (casts-data_type_of t)

  -- A message that accepts the generic message created from a message of its type gets the values
  -- of that, nested messages included, whatever it held before, if the field identifiers are
  -- distinct on each level.
  pub filled_from-create_from :
      (s : Schema) (v w : Vals s) (g : GenericMessage)
      → Distinct s
      → filled_from s (create_from type_name identity s v g) w ≡ v
  unfolding filled_from create_from
  filled_from-create_from s v w (generic mm scope name m) d =
      visit_fields-visit_all s v w (fresh_visitor s) d

  -- The generic message created from a message shows visitors the fields of the message, with
  -- their identifiers, names, types and values, in their order, nested messages included, if the
  -- field identifiers are distinct on each level.
  pub accept-create_from :
      (s : Schema) (v : Vals s) (g : GenericMessage)
      → Distinct s
      → accept (create_from type_name identity s v g) ≡ (s, v)
  unfolding accept create_from
  accept-create_from s v (generic mm scope name m) d =
      ap
        (λ l.
          walk l (typed_values (visit_all type_name identity s v (fresh_visitor s)).representation))
        (visit_all-list s v (fresh_visitor s) ∙ ap (λ l. l ++ metas s) (no_fields s))
      ∙ walk-visit_all s v (fresh_visitor s) d
