-- ===== src/Visitor.antt =====
-- The visitable types of messages: the overloads of the visitors' methods visit(), and what the
-- generated method accept() walks over. Integers are their two's complement patterns, float and
-- double the bit patterns that the code copies by memmove, strings their bytes.
use libcluon.Prelude.{ℕ, ◌^◌, ◌<◌, List, Bool, All, length}
use libcluon.Prelude.Words.{IsByte}

mutual
  -- One constructor for each overload of visit(); `message` is the template for nested types.
  pub data Ty : Type 0 where
    bool char int8 uint8 int16 uint16 int32 uint32 int64 uint64 float double string : Ty
    message : Schema → Ty

  -- The fields of a message in their order: identifier, name and type.
  pub data Schema : Type 0 where
    end : Schema
    field : ℕ → List ℕ → Ty → Schema → Schema

-- The C++ values of a type, and of the fields of a message.
abbrev mutual
  pub Val : Ty → Type 0
  Val bool = Bool
  Val char = ℕ
  Val int8 = ℕ
  Val uint8 = ℕ
  Val int16 = ℕ
  Val uint16 = ℕ
  Val int32 = ℕ
  Val uint32 = ℕ
  Val int64 = ℕ
  Val uint64 = ℕ
  Val float = ℕ
  Val double = ℕ
  Val string = List ℕ
  Val (message s) = Vals s

  pub Vals : Schema → Type 0
  Vals end = Unit {0}
  Vals (field id name t s) = Val t × Vals s

-- The values are in the range of their types.
abbrev mutual
  pub IsVal : (t : Ty) → Val t → Type 0
  IsVal bool v = Unit {0}
  IsVal char v = v < 2 ^ 8
  IsVal int8 v = v < 2 ^ 8
  IsVal uint8 v = v < 2 ^ 8
  IsVal int16 v = v < 2 ^ 16
  IsVal uint16 v = v < 2 ^ 16
  IsVal int32 v = v < 2 ^ 32
  IsVal uint32 v = v < 2 ^ 32
  IsVal int64 v = v < 2 ^ 64
  IsVal uint64 v = v < 2 ^ 64
  IsVal float v = v < 2 ^ 32
  IsVal double v = v < 2 ^ 64
  IsVal string v = All IsByte v × (length v < 2 ^ 64)
  IsVal (message s) v = AreVals s v

  pub AreVals : (s : Schema) → Vals s → Type 0
  AreVals end v = Unit {0}
  AreVals (field id name t s) v = IsVal t v.0 × AreVals s v.1
