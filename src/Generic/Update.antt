-- ===== src/Generic/Update.antt =====
-- A visitor that changes the values of a generic message:
-- libcluon/include/cluon/GenericMessage.hpp, where accept() hands out references to them.
use libcluon.Prelude.{
  List, ℕ, ◌≡◌, ◌≢◌, refl, ap, ◌∙◌, arith, Option, none, some, ◌==◌, if_true, if_false,
}
use libcluon.Visitor.{Ty, Schema, Val, Vals, end, field, message}
use libcluon.Visitor.{bool, char, int8, uint8, int16, uint16, int32, uint32, int64, uint64}
use libcluon.Visitor.{float, double, string}
use libcluon.Proto.RoundTrip.{Fresh, DistinctIn, Distinct}
use libcluon.Generic.{GenericMessage, generic, Any, Values, assign, find, values_of}
use libcluon.Generic.{bool_any, char_any, int8_any, uint8_any, int16_any, uint16_any, int32_any}
use libcluon.Generic.{
  uint32_any, int64_any, uint64_any, float_any, double_any, string_any, generic_any,
}
use libcluon.Generic.Create.{Visitor, any_of, visit_all, Identity}
use libcluon.Generic.Create as Create
use libcluon.Generic.Accept.{visit, visit_fields, accept}
use libcluon.Generic.RoundTrip.{find-assign, visit_all-find, visited, fresh_visitor}

abbrev pub with_values : GenericMessage → Values → GenericMessage
with_values (generic mm scope name m) n = generic mm scope name n

abbrev pub put_field : ℕ → (Any → Any) → Values → Option Any → Values
put_field id change m none = m
put_field id change m (some a) = assign id (change a) m

-- The values of the fields, stored where the references point to.
unfoldable mutual
  pub put : (t : Ty) → Val t → Any → Any
  put bool v a = bool_any v
  put char v a = char_any v
  put int8 v a = int8_any v
  put uint8 v a = uint8_any v
  put int16 v a = int16_any v
  put uint16 v a = uint16_any v
  put int32 v a = int32_any v
  put uint32 v a = uint32_any v
  put int64 v a = int64_any v
  put uint64 v a = uint64_any v
  put float v a = float_any v
  put double v a = double_any v
  put string v a = string_any v
  put (message s) v (generic_any g) = generic_any (with_values g (put_fields s v (values_of g)))
  put (message s) v a = a

  pub put_fields : (s : Schema) → Vals s → Values → Values
  put_fields end v m = m
  put_fields (field id name t s) (a, v) m = put_fields s v (put_field id (put t a) m (find id m))

-- gm.accept(visitor), where the visitor makes the values f s v of the fields of s with the values v.
-- The fields of a meta message have different identifiers.
unfoldable pub accept_with : ((s : Schema) → Vals s → Vals s) → GenericMessage → GenericMessage
unfolding accept
accept_with f g =
    with_values g (put_fields (accept g).0 (f (accept g).0 (accept g).1) (values_of g))

-- A map has a value of the right type for each field.
abbrev mutual
  pub HoldsAny : Ty → Any → Type 0
  HoldsAny (message s) (generic_any g) = Holds s (values_of g)
  HoldsAny (message s) a = ⊥
  HoldsAny t a = Unit {0}

  pub Holds : Schema → Values → Type 0
  Holds end m = Unit {0}
  Holds (field id name t s) m = ((a : Any) × (find id m ≡ some a) × HoldsAny t a) × Holds s m

Holds-assign :
    (s : Schema) (k : ℕ) (a : Any) (m : Values) → Fresh k s → Holds s m → Holds s (assign k a m)
Holds-assign end k a m f h = tt
Holds-assign (field id name t s) k a m f ((b, e, h), r) = (
  (b, find-assign k id a m ∙ if_false (k == id) _ _ (ground arith) ∙ e, h),
  Holds-assign s k a m f.1 r,
)

pub find-put_field :
    (change : Any → Any) (id k : ℕ) (m : Values) (o : Option Any)
    → id ≢ k
    → find k (put_field id change m o) ≡ find k m
find-put_field change id k m none h = refl
find-put_field change id k m (some a) h =
    find-assign id k (change a) m ∙ if_false (id == k) _ _ (ground arith)

pub find-put_fields :
    (s : Schema) (k : ℕ) (v : Vals s) (m : Values)
    → Fresh k s
    → find k (put_fields s v m) ≡ find k m
unfolding put_fields
find-put_fields end k v m h = refl
find-put_fields (field id name t s) k (a, v) m h =
    find-put_fields s k v (put_field id (put t a) m (find id m)) h.1
    ∙ find-put_field (put t a) id k m (find id m) (ground arith)

mutual
  unfolding visit put

  visit-put :
      (t : Ty) (a : Any) (v w : Val t)
      → DistinctIn t
      → HoldsAny t a
      → visit t (some (put t v a)) w ≡ v
  visit-put bool a v w d h = refl
  visit-put char a v w d h = refl
  visit-put int8 a v w d h = refl
  visit-put uint8 a v w d h = refl
  visit-put int16 a v w d h = refl
  visit-put uint16 a v w d h = refl
  visit-put int32 a v w d h = refl
  visit-put uint32 a v w d h = refl
  visit-put int64 a v w d h = refl
  visit-put uint64 a v w d h = refl
  visit-put float a v w d h = refl
  visit-put double a v w d h = refl
  visit-put string a v w d h = refl
  visit-put (message s) (generic_any (generic mm scope name m)) v w d h =
      visit_fields-put_fields s v w m d h
  visit-put (message s) a v w d h = absurd h

  -- The values that are stored come out again.
  pub visit_fields-put_fields :
      (s : Schema) (v w : Vals s) (m : Values)
      → Distinct s
      → Holds s m
      → visit_fields s (put_fields s v m) w ≡ v
  visit_fields-put_fields end v w m d h = refl
  visit_fields-put_fields (field id name t s) (a, v) (b, w) m d ((old, e, h), r) =
      let n = assign id (put t a old) m in
      let there =
        find-put_fields s id v n d.0
        ∙ find-assign id id (put t a old) m
        ∙ if_true (id == id) _ _ (ground arith) in
      ap
        (λ o. visit_fields (field id name t s) (put_fields s v (put_field id (put t a) m o)) (b, w))
        e
      ∙ (λ i. (
        (ap (λ o. visit t o b) there ∙ visit-put t old a b d.1 h) i,
        visit_fields-put_fields s v w n d.2 (Holds-assign s id (put t a old) m d.0 r) i,
      ))

module _ (type_name : Ty → List ℕ) (identity : Schema → Identity) where
  mutual
    unfolding visit_all Create.visit

    HoldsAny-any_of :
        (t : Ty) (v : Val t) → DistinctIn t → HoldsAny t (any_of type_name identity t v)
    HoldsAny-any_of bool v d = tt
    HoldsAny-any_of char v d = tt
    HoldsAny-any_of int8 v d = tt
    HoldsAny-any_of uint8 v d = tt
    HoldsAny-any_of int16 v d = tt
    HoldsAny-any_of uint16 v d = tt
    HoldsAny-any_of int32 v d = tt
    HoldsAny-any_of uint32 v d = tt
    HoldsAny-any_of int64 v d = tt
    HoldsAny-any_of uint64 v d = tt
    HoldsAny-any_of float v d = tt
    HoldsAny-any_of double v d = tt
    HoldsAny-any_of string v d = tt
    HoldsAny-any_of (message s) v d = Holds-visit_all s v (fresh_visitor type_name identity s) d

    -- The fields that were visited hold values.
    pub Holds-visit_all :
        (s : Schema) (v : Vals s) (g : Visitor)
        → Distinct s
        → Holds s (visit_all type_name identity s v g).representation
    Holds-visit_all end v g d = tt
    Holds-visit_all (field id name t s) (a, v) g d = (
      (
        any_of type_name identity t a,
        (visit_all-find type_name identity s v (visited type_name identity id name t a g) id d.0
            ∙ find-assign id id (any_of type_name identity t a) g.representation
            ∙ if_true (id == id) _ _ (ground arith)),
        HoldsAny-any_of t a d.1,
      ),
      Holds-visit_all s v (visited type_name identity id name t a g) d.2,
    )
