-- ===== src/Generic/Create.antt =====
-- createFrom<T>(msg) of libcluon/include/cluon/GenericMessage.hpp, by GenericMessageVisitor of
-- libcluon/src/GenericMessage.cpp. The names that a generated class gives for a type and for a
-- message are parameters.
use libcluon.Prelude.{ℕ, ◌-◌, List, [], ◌∷◌, ◌++◌, Option, none, some, ◌==◌, if◌then◌else◌, take}
use libcluon.Visitor.{Ty, Schema, Val, Vals, end, field, message}
use libcluon.Visitor.{bool, char, int8, uint8, int16, uint16, int32, uint32, int64, uint64}
use libcluon.Visitor.{float, double, string}
use libcluon.Generic.{
  DataType, MetaField, MetaMessage, new_meta_message, GenericMessage, generic, Any, Values, nothing,
  assign, rfind,
}
use libcluon.Generic.{bool_any, char_any, int8_any, uint8_any, int16_any, uint16_any, int32_any}
use libcluon.Generic.{
  uint32_any, int64_any, uint64_any, float_any, double_any, string_any, generic_any,
}

-- ID(), ShortName() and LongName() of a generated class.
pub record Identity : Type 0 where
  pub id : ℕ
  pub short_name : List ℕ
  pub long_name : List ℕ

-- The state of a GenericMessageVisitor.
pub record Visitor : Type 0 where
  pub meta_message : MetaMessage
  pub representation : Values

abbrev pub new_visitor : Visitor
new_visitor = record { meta_message = new_meta_message; representation = nothing }

-- substr(0, pos - 1), where pos - 1 is a size_t: from pos 0 it is the whole text.
abbrev pub before : ℕ → List ℕ → List ℕ
before pos text = if pos == 0 then text else take (pos - 1) text

abbrev pub package_at : List ℕ → List ℕ → Option ℕ → List ℕ
package_at old long none = old
package_at old long (some pos) = before pos long

-- The package name, which stays as it is for an empty long name or one without the short name.
unfoldable pub package_of : List ℕ → List ℕ → List ℕ → List ℕ
package_of old short [] = old
package_of old short (b ∷ bs) = package_at old (b ∷ bs) (rfind short (b ∷ bs))

-- GenericMessageVisitor::preVisit
unfoldable pub pre_visit : Identity → Visitor → Visitor
pre_visit i g = record g {
  meta_message = record g.meta_message {
    message_identifier = i.id;
    message_name = i.short_name;
    package_name = package_of g.meta_message.package_name i.short_name i.long_name;
  };
}

abbrev pub data_type_of : Ty → DataType
data_type_of bool = DataType.bool_t
data_type_of char = DataType.char_t
data_type_of int8 = DataType.int8_t
data_type_of uint8 = DataType.uint8_t
data_type_of int16 = DataType.int16_t
data_type_of uint16 = DataType.uint16_t
data_type_of int32 = DataType.int32_t
data_type_of uint32 = DataType.uint32_t
data_type_of int64 = DataType.int64_t
data_type_of uint64 = DataType.uint64_t
data_type_of float = DataType.float_t
data_type_of double = DataType.double_t
data_type_of string = DataType.string_t
data_type_of (message s) = DataType.message_t

module _ (type_name : Ty → List ℕ) (identity : Schema → Identity) where
  abbrev pub meta_field : ℕ → List ℕ → Ty → MetaField
  meta_field id name t = record {
    field_identifier = id;
    field_data_type = data_type_of t;
    field_data_type_name = type_name t;
    field_name = name;
    default_initialization_value = [];
  }

  -- What each visit() does with the value in its any.
  unfoldable pub visit : ℕ → List ℕ → Ty → Any → Visitor → Visitor
  visit id name t a g = record {
    meta_message = record g.meta_message {
      list_of_meta_fields = g.meta_message.list_of_meta_fields ++ meta_field id name t ∷ [];
    };
    representation = assign id a g.representation;
  }

  -- The any for a value, the visits of all fields, and createFrom.
  unfoldable mutual
    unfolding visit

    pub any_of : (t : Ty) → Val t → Any
    any_of bool v = bool_any v
    any_of char v = char_any v
    any_of int8 v = int8_any v
    any_of uint8 v = uint8_any v
    any_of int16 v = int16_any v
    any_of uint16 v = uint16_any v
    any_of int32 v = int32_any v
    any_of uint32 v = uint32_any v
    any_of int64 v = int64_any v
    any_of uint64 v = uint64_any v
    any_of float v = float_any v
    any_of double v = double_any v
    any_of string v = string_any v
    any_of (message s) v =
        let g = visit_all s v (pre_visit (identity s) new_visitor) in
        generic_any (generic g.meta_message [] [] g.representation)

    pub visit_all : (s : Schema) → Vals s → Visitor → Visitor
    visit_all end v g = g
    visit_all (field id name t s) (a, v) g = visit_all s v (visit id name t (any_of t a) g)

  -- createFrom(msg) keeps the scope and m_longName of the generic message.
  unfoldable pub create_from : (s : Schema) → Vals s → GenericMessage → GenericMessage
  unfolding visit_all
  create_from s v (generic mm scope name m) =
      let g = visit_all s v (pre_visit (identity s) new_visitor) in
      generic g.meta_message scope name g.representation
