-- ===== src/Generic/Accept.antt =====
-- A generic message as a visitor and as what is visited: libcluon/src/GenericMessage.cpp and
-- libcluon/include/cluon/GenericMessage.hpp.
use libcluon.Prelude.{ℕ, Bool, true, false, List, [], ◌∷◌, Option, none, some, ◌==◌, if◌then◌else◌}
use libcluon.Visitor.{Ty, Schema, Val, Vals, end, field, message}
use libcluon.Visitor.{bool, char, int8, uint8, int16, uint16, int32, uint32, int64, uint64}
use libcluon.Visitor.{float, double, string}
use libcluon.Generic.{
  DataType, MetaField, GenericMessage, generic, Any, Values, nothing, value, find, values_of,
}
use libcluon.Generic.{bool_any, char_any, int8_any, uint8_any, int16_any, uint16_any, int32_any}
use libcluon.Generic.{
  uint32_any, int64_any, uint64_any, float_any, double_any, string_any, generic_any,
}
use libcluon.Generic.{
  bool_t, uint8_t, int8_t, uint16_t, int16_t, uint32_t, int32_t, uint64_t, int64_t, char_t, float_t,
  double_t, bytes_t, string_t, message_t,
}

-- GenericMessage::visit: the value of the field, if the map has one and any_cast gives the very type.
unfoldable mutual
  pub visit : (t : Ty) → Option Any → Val t → Val t
  visit bool (some (bool_any a)) v = a
  visit bool _ v = v
  visit char (some (char_any a)) v = a
  visit char _ v = v
  visit int8 (some (int8_any a)) v = a
  visit int8 _ v = v
  visit uint8 (some (uint8_any a)) v = a
  visit uint8 _ v = v
  visit int16 (some (int16_any a)) v = a
  visit int16 _ v = v
  visit uint16 (some (uint16_any a)) v = a
  visit uint16 _ v = v
  visit int32 (some (int32_any a)) v = a
  visit int32 _ v = v
  visit uint32 (some (uint32_any a)) v = a
  visit uint32 _ v = v
  visit int64 (some (int64_any a)) v = a
  visit int64 _ v = v
  visit uint64 (some (uint64_any a)) v = a
  visit uint64 _ v = v
  visit float (some (float_any a)) v = a
  visit float _ v = v
  visit double (some (double_any a)) v = a
  visit double _ v = v
  visit string (some (string_any a)) v = a
  visit string _ v = v
  visit (message s) (some (generic_any g)) v = visit_fields s (values_of g) v
  visit (message s) _ v = v

  pub visit_fields : (s : Schema) → Values → Vals s → Vals s
  visit_fields end m v = v
  visit_fields (field id name t s) m (a, v) = (visit t (find id m) a, visit_fields s m v)

-- msg.accept(gm)
unfoldable pub filled_from : (s : Schema) → GenericMessage → Vals s → Vals s
unfolding visit_fields
filled_from s g v = visit_fields s (values_of g) v

-- A value with its type, as accept() hands it to a visitor.
abbrev pub Typed : Type 0
Typed = (t : Ty) × Val t

-- The message as accept() hands it to a visitor: the fields with their values.
abbrev pub Message : Type 0
Message = (s : Schema) × Vals s

abbrev pub find_typed : ℕ → List (ℕ × Typed) → Option Typed
find_typed k [] = none
find_typed k ((j, a) ∷ m) = if j == k then some a else find_typed k m

-- any_cast to the type that the meta field has: whether it gives a value of this type.
abbrev pub casts : DataType → Ty → Bool
casts bool_t bool = true
casts char_t char = true
casts int8_t int8 = true
casts uint8_t uint8 = true
casts int16_t int16 = true
casts uint16_t uint16 = true
casts int32_t int32 = true
casts uint32_t uint32 = true
casts int64_t int64 = true
casts uint64_t uint64 = true
casts float_t float = true
casts double_t double = true
casts string_t string = true
casts bytes_t string = true
casts message_t (message s) = true
casts d t = false

-- One field: it is visited, or left out.
abbrev pub with_field : MetaField → Option Typed → Message → Message
with_field f none r = r
with_field f (some (t, a)) (s, v) =
    if casts f.field_data_type t
    then (field f.field_identifier f.field_name t s, (a, v))
    else (s, v)

-- The loop over the meta fields.
unfoldable pub walk : List MetaField → List (ℕ × Typed) → Message
walk [] m = (end, tt)
walk (f ∷ fs) m = with_field f (find_typed f.field_identifier m) (walk fs m)

unfoldable mutual
  unfolding walk

  pub typed : Any → Typed
  typed (bool_any v) = (bool, v)
  typed (char_any v) = (char, v)
  typed (int8_any v) = (int8, v)
  typed (uint8_any v) = (uint8, v)
  typed (int16_any v) = (int16, v)
  typed (uint16_any v) = (uint16, v)
  typed (int32_any v) = (int32, v)
  typed (uint32_any v) = (uint32, v)
  typed (int64_any v) = (int64, v)
  typed (uint64_any v) = (uint64, v)
  typed (float_any v) = (float, v)
  typed (double_any v) = (double, v)
  typed (string_any v) = (string, v)
  typed (generic_any g) = (message (accept g).0, (accept g).1)

  pub typed_values : Values → List (ℕ × Typed)
  typed_values nothing = []
  typed_values (value k a m) = (k, typed a) ∷ typed_values m

  pub accept : GenericMessage → Message
  accept (generic mm scope name m) = walk mm.list_of_meta_fields (typed_values m)
