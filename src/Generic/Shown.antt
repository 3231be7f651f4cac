-- ===== src/Generic/Shown.antt =====
-- What a generic message shows visitors (accept of libcluon/include/cluon/GenericMessage.hpp) after a
-- visitor has changed its values.
use libcluon.Prelude.{
  ℕ, ◌≡◌, refl, ap, ◌∙◌, arith, List, Option, none, some, ◌==◌, if_true, if_false, Bool-cases, inl,
  inr,
}
use libcluon.Visitor.{Ty, Schema, Val, Vals, end, field, message}
use libcluon.Visitor.{bool, char, int8, uint8, int16, uint16, int32, uint32, int64, uint64}
use libcluon.Visitor.{float, double, string}
use libcluon.Proto.RoundTrip.{Fresh, DistinctIn, Distinct}
use libcluon.Generic.{
  GenericMessage, generic, Any, Values, nothing, value, assign, find, values_of, meta_of,
  generic_any,
}
use libcluon.Generic.Create.{Identity, meta_field, data_type_of}
use libcluon.Generic.Accept.{
  accept, walk, typed, typed_values, Typed, Message, find_typed, with_field, casts,
}
use libcluon.Generic.RoundTrip.{metas, find-assign, casts-data_type_of}
use libcluon.Generic.Update.{
  put, put_field, put_fields, accept_with, Holds, HoldsAny, find-put_fields,
}

abbrev pub typed_option : Option Any → Option Typed
typed_option none = none
typed_option (some a) = some (typed a)

pub find_typed-typed_values :
    (k : ℕ) (m : Values) → find_typed k (typed_values m) ≡ typed_option (find k m)
unfolding typed find
find_typed-typed_values k nothing = refl
find_typed-typed_values k (value j a m) = elim (Bool-cases (j == k)) [
  | inl c ↦ rw c refl
  | inr c ↦ rw c (find_typed-typed_values k m)
]

module _ (type_name : Ty → List ℕ) (identity : Schema → Identity) where
  -- A map has a value of the right type for each field, and the nested messages have the meta
  -- fields of their types.
  abbrev mutual
    pub DescribedAny : Ty → Any → Type 0
    DescribedAny (message s) (generic_any g) =
        ((meta_of g).list_of_meta_fields ≡ metas type_name identity s) × Described s (values_of g)
    DescribedAny (message s) a = ⊥
    DescribedAny t a = Unit {0}

    pub Described : Schema → Values → Type 0
    Described end m = Unit {0}
    Described (field id name t s) m =
        ((a : Any) × (find id m ≡ some a) × DescribedAny t a) × Described s m

  mutual
    DescribedAny-HoldsAny : (t : Ty) (a : Any) → DescribedAny t a → HoldsAny t a
    DescribedAny-HoldsAny bool a h = tt
    DescribedAny-HoldsAny char a h = tt
    DescribedAny-HoldsAny int8 a h = tt
    DescribedAny-HoldsAny uint8 a h = tt
    DescribedAny-HoldsAny int16 a h = tt
    DescribedAny-HoldsAny uint16 a h = tt
    DescribedAny-HoldsAny int32 a h = tt
    DescribedAny-HoldsAny uint32 a h = tt
    DescribedAny-HoldsAny int64 a h = tt
    DescribedAny-HoldsAny uint64 a h = tt
    DescribedAny-HoldsAny float a h = tt
    DescribedAny-HoldsAny double a h = tt
    DescribedAny-HoldsAny string a h = tt
    DescribedAny-HoldsAny (message s) (generic_any (generic mm scope name m)) h =
        Described-Holds s m h.1
    DescribedAny-HoldsAny (message s) a h = absurd h

    pub Described-Holds : (s : Schema) (m : Values) → Described s m → Holds s m
    Described-Holds end m h = tt
    Described-Holds (field id name t s) m ((a, e, h), r) =
        ((a, e, DescribedAny-HoldsAny t a h), Described-Holds s m r)

  Described-assign :
      (s : Schema) (k : ℕ) (a : Any) (m : Values)
      → Fresh k s
      → Described s m
      → Described s (assign k a m)
  Described-assign end k a m f h = tt
  Described-assign (field id name t s) k a m f ((b, e, h), r) = (
    (b, find-assign k id a m ∙ if_false (k == id) _ _ (ground arith) ∙ e, h),
    Described-assign s k a m f.1 r,
  )

  -- The walk meets a value of the type for each field.
  pub walk_field :
      (id : ℕ) (name : List ℕ) (t : Ty) (v : Val t) (s : Schema) (w : Vals s) (a : Any) (m : Values)
      → find id m ≡ some a
      → typed a ≡ (t, v)
      → walk (metas type_name identity s) (typed_values m) ≡ (s, w)
      → walk (metas type_name identity (field id name t s)) (typed_values m)
        ≡ (field id name t s, (v, w))
  unfolding walk
  walk_field id name t v s w a m e z r =
      (λ i.
        with_field (meta_field type_name identity id name t)
          ((find_typed-typed_values id m ∙ ap typed_option e ∙ ap some z) i) (r i))
      ∙ if_true (casts (data_type_of t) t) _ _ (casts-data_type_of type_name identity t)

  mutual
    unfolding put typed

    typed-put :
        (t : Ty) (a : Any) (v : Val t)
        → DistinctIn t
        → DescribedAny t a
        → typed (put t v a) ≡ (t, v)
    typed-put bool a v d h = refl
    typed-put char a v d h = refl
    typed-put int8 a v d h = refl
    typed-put uint8 a v d h = refl
    typed-put int16 a v d h = refl
    typed-put uint16 a v d h = refl
    typed-put int32 a v d h = refl
    typed-put uint32 a v d h = refl
    typed-put int64 a v d h = refl
    typed-put uint64 a v d h = refl
    typed-put float a v d h = refl
    typed-put double a v d h = refl
    typed-put string a v d h = refl
    typed-put (message s) (generic_any (generic mm scope name m)) v d (l, h) =
        ap (λ (r : Message). (message r.0, r.1))
          (ap (λ fs. walk fs (typed_values (put_fields s v m))) l ∙ walk-put_fields s v m d h)
    typed-put (message s) a v d h = absurd h

    -- The walk shows what has been stored.
    pub walk-put_fields :
        (s : Schema) (v : Vals s) (m : Values)
        → Distinct s
        → Described s m
        → walk (metas type_name identity s) (typed_values (put_fields s v m)) ≡ (s, v)
    walk-put_fields end v m d h = refl
    walk-put_fields (field id name t s) (a, v) m d ((old, e, h), r) =
        let n = assign id (put t a old) m in
        let there =
          find-put_fields s id v n d.0
          ∙ find-assign id id (put t a old) m
          ∙ if_true (id == id) _ _ (ground arith) in
        ap
          (λ o.
            walk (metas type_name identity (field id name t s))
              (typed_values (put_fields s v (put_field id (put t a) m o))))
          e
        ∙ walk_field id name t a s v (put t a old) (put_fields s v n) there
            (typed-put t old a d.1 h)
            (walk-put_fields s v n d.2 (Described-assign s id (put t a old) m d.0 r))

  -- After a visitor has made the values f s v of v, these are shown.
  pub accept-accept_with :
      (f : (s : Schema) → Vals s → Vals s) (s : Schema) (v : Vals s) (g : GenericMessage)
      → accept g ≡ (s, v)
      → (meta_of g).list_of_meta_fields ≡ metas type_name identity s
      → Described s (values_of g)
      → Distinct s
      → accept (accept_with f g) ≡ (s, f s v)
  unfolding accept accept_with
  accept-accept_with f s v (generic mm scope name m) e l h d =
      ap
        (λ (r : Message). walk mm.list_of_meta_fields (typed_values (put_fields r.0 (f r.0 r.1) m)))
        e
      ∙ ap (λ fs. walk fs (typed_values (put_fields s (f s v) m))) l
      ∙ walk-put_fields s (f s v) m d h
