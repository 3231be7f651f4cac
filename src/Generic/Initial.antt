-- ===== src/Generic/Initial.antt =====
-- What createFrom(mm, mms) of libcluon/src/GenericMessage.cpp is to make of the meta message of a
-- message: its initial values.
use libcluon.Prelude.{
  ℕ, suc, ◌+◌, ◌≡◌, refl, sym, ap, ◌∙◌, false, List, [], ◌∷◌, ◌++◌, append_assoc, append-nil, some,
}
use libcluon.Visitor.{Ty, Schema, Val, Vals, end, field, message}
use libcluon.Visitor.{bool, char, int8, uint8, int16, uint16, int32, uint32, int64, uint64}
use libcluon.Visitor.{float, double, string}
use libcluon.Lcm.Packet.{lookup}
use libcluon.Generic.{Any, MetaMessage, GenericMessage, generic, Values, find, meta_of}
use libcluon.Generic.Create.{
  any_of, visit_all, create_from, meta_field, pre_visit, Identity, Visitor, data_type_of,
}
use libcluon.Generic.Create as Create
use libcluon.Generic.Accept.{walk, typed, typed_values}
use libcluon.Generic.RoundTrip.{metas, fresh_visitor, visited}
use libcluon.Generic.Shown.{DescribedAny, Described, walk_field}
use libcluon.Generic.Empty.{scope_of}

-- The initial values.
abbrev mutual
  pub zero_of : (t : Ty) → Val t
  zero_of bool = false
  zero_of char = 0
  zero_of int8 = 0
  zero_of uint8 = 0
  zero_of int16 = 0
  zero_of uint16 = 0
  zero_of int32 = 0
  zero_of uint32 = 0
  zero_of int64 = 0
  zero_of uint64 = 0
  zero_of float = 0
  zero_of double = 0
  zero_of string = []
  zero_of (message s) = zeros s

  pub zeros : (s : Schema) → Vals s
  zeros end = tt
  zeros (field id name t s) = (zero_of t, zeros s)

-- How many messages are nested in a message.
abbrev mutual
  pub messages_in : Ty → ℕ
  messages_in (message s) = suc (nested_messages s)
  messages_in t = 0

  pub nested_messages : Schema → ℕ
  nested_messages end = 0
  nested_messages (field id name t s) = messages_in t + nested_messages s

module _ (type_name : Ty → List ℕ) (identity : Schema → Identity) where
  -- A map has an initial value for each field.
  abbrev pub IsInitial : Ty → Any → Type 0
  IsInitial t a = (typed a ≡ (t, zero_of t)) × DescribedAny type_name identity t a

  abbrev pub AreInitial : Schema → Values → Type 0
  AreInitial end m = Unit {0}
  AreInitial (field id name t s) m =
      ((a : Any) × (find id m ≡ some a) × IsInitial t a) × AreInitial s m

  pub AreInitial-Described :
      (s : Schema) (m : Values) → AreInitial s m → Described type_name identity s m
  AreInitial-Described end m h = tt
  AreInitial-Described (field id name t s) m ((a, e, (z, h)), r) =
      ((a, e, h), AreInitial-Described s m r)

  -- The meta message of a message.
  abbrev pub described : Schema → MetaMessage
  described s = record (fresh_visitor type_name identity s).meta_message {
    list_of_meta_fields = metas type_name identity s;
  }

  visit_all-meta_message :
      (s : Schema) (v : Vals s) (g : Visitor)
      → (visit_all type_name identity s v g).meta_message ≡ record g.meta_message {
        list_of_meta_fields = g.meta_message.list_of_meta_fields ++ metas type_name identity s;
      }
  unfolding visit_all Create.visit
  visit_all-meta_message end v g =
      ap (λ l. record g.meta_message { list_of_meta_fields = l })
        (sym (append-nil g.meta_message.list_of_meta_fields))
  visit_all-meta_message (field id name t s) (a, v) g =
      visit_all-meta_message s v (visited type_name identity id name t a g)
      ∙ ap (λ l. record g.meta_message { list_of_meta_fields = l })
          (append_assoc g.meta_message.list_of_meta_fields
            (meta_field type_name identity id name t ∷ []) (metas type_name identity s))

  -- The meta message of a created generic message does not depend on the values.
  pub meta_of-create_from :
      (s : Schema) (v : Vals s) (g : GenericMessage)
      → meta_of (create_from type_name identity s v g) ≡ described s
  unfolding create_from pre_visit
  meta_of-create_from s v (generic mm scope name m) =
      visit_all-meta_message s v (fresh_visitor type_name identity s)

  pub walk-AreInitial :
      (s : Schema) (m : Values)
      → AreInitial s m
      → walk (metas type_name identity s) (typed_values m) ≡ (s, zeros s)
  unfolding walk
  walk-AreInitial end m h = refl
  walk-AreInitial (field id name t s) m ((a, e, (z, h)), r) =
      walk_field type_name identity id name t (zero_of t) s (zeros s) a m e z
        (walk-AreInitial s m r)

  -- The meta messages of the nested messages are in the scope, by the names of their types.
  abbrev mutual
    pub IsScoped : List MetaMessage → Ty → Type 0
    IsScoped mms (message r) =
        (lookup (type_name (message r)) (scope_of mms) ≡ some (described r)) × AreScoped mms r
    IsScoped mms t = Unit {0}

    pub AreScoped : List MetaMessage → Schema → Type 0
    AreScoped mms end = Unit {0}
    AreScoped mms (field id name t s) = IsScoped mms t × AreScoped mms s
