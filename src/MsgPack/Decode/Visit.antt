-- ===== src/MsgPack/Decode/Visit.antt =====
-- The visit() methods of FromMsgPackVisitor. `none` is the end of the program: the exception of
-- std::string::at leaves a noexcept method.
use libcluon.Prelude.{ℕ, ◌%◌, ◌^◌, Bool, List, [], ◌∷◌, Option, none, some}
use libcluon.Visitor.{Ty, Schema, Val, Vals, end, field, message}
use libcluon.Visitor.{bool, char, int8, uint8, int16, uint16, int32, uint32, int64, uint64}
use libcluon.Visitor.{float, double, string}
use libcluon.MsgPack.Decode.{AnyValue, KeyValues, bool_any, uint64_any, int64_any, float_any}
use libcluon.MsgPack.Decode.{double_any, string_any, map_any, value_at, decode}

-- any_cast to each type, or the old value.
unfoldable pub visit_bool : Option AnyValue → Bool → Bool
visit_bool (some (bool_any b)) v = b
visit_bool _ v = v

unfoldable pub visit_unsigned : Option AnyValue → ℕ → ℕ → ℕ
visit_unsigned (some (uint64_any n)) w v = n % 2 ^ w
visit_unsigned _ w v = v

-- A positive value was stored as a uint64_t.
unfoldable pub visit_signed : Option AnyValue → ℕ → ℕ → ℕ
visit_signed (some (int64_any n)) w v = n % 2 ^ w
visit_signed (some (uint64_any n)) w v = n % 2 ^ w
visit_signed _ w v = v

unfoldable pub visit_float : Option AnyValue → ℕ → ℕ
visit_float (some (float_any n)) v = n
visit_float _ v = v

unfoldable pub visit_double : Option AnyValue → ℕ → ℕ
visit_double (some (double_any n)) v = n
visit_double _ v = v

unfoldable pub visit_string : Option AnyValue → List ℕ → List ℕ
visit_string (some (string_any s)) v = s
visit_string _ v = v

-- at(0)
unfoldable pub visit_char : Option AnyValue → ℕ → Option ℕ
visit_char (some (string_any [])) v = none
visit_char (some (string_any (c ∷ s))) v = some c
visit_char _ v = some v

unfoldable pub visit_message {ℓ} :
    {X : Type ℓ} → Option AnyValue → X → (KeyValues → X → Option X) → Option X
visit_message (some (map_any m)) v accept = accept m v
visit_message _ v accept = some v

abbrev both {ℓ κ} : {A : Type ℓ} {B : Type κ} → Option A → Option B → Option (A × B)
both none y = none
both (some a) none = none
both (some a) (some b) = some (a, b)

unfoldable mutual
  unfolding visit_bool visit_unsigned visit_signed visit_float visit_double visit_string visit_char
      visit_message

  pub visit : (t : Ty) → Option AnyValue → Val t → Option (Val t)
  visit bool a v = some (visit_bool a v)
  visit char a v = visit_char a v
  visit int8 a v = some (visit_signed a 8 v)
  visit uint8 a v = some (visit_unsigned a 8 v)
  visit int16 a v = some (visit_signed a 16 v)
  visit uint16 a v = some (visit_unsigned a 16 v)
  visit int32 a v = some (visit_signed a 32 v)
  visit uint32 a v = some (visit_unsigned a 32 v)
  visit int64 a v = some (visit_signed a 64 v)
  visit uint64 a v = some (visit_unsigned a 64 v)
  visit float a v = some (visit_float a v)
  visit double a v = some (visit_double a v)
  visit string a v = some (visit_string a v)
  visit (message s) a v = visit_message a v (accept s)

  pub accept : (s : Schema) → KeyValues → Vals s → Option (Vals s)
  accept end m v = some v
  accept (field id name t s) m (a, v) = both (visit t (value_at name m) a) (accept s m v)

-- Decoding bytes and letting a message accept the visitor.
unfoldable pub decode_message : (ℕ → ℕ) → (s : Schema) → List ℕ → Vals s → Option (Vals s)
decode_message memory s bytes v = accept s (decode memory bytes) v
