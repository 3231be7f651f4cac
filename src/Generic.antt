-- ===== src/Generic.antt =====
-- Generic messages: libcluon/src/GenericMessage.cpp and libcluon/include/cluon/GenericMessage.hpp,
-- with the meta messages of libcluon/include/cluon/MetaMessage.hpp that describe them.
pub mod Create
pub mod Accept
pub mod RoundTrip
pub mod Names
pub mod Empty
pub mod Initial
pub mod Nested
pub mod Update
pub mod Shown
pub mod Dynamic
mod Tests
use libcluon.Prelude.{
  ℕ, suc, ◌+◌, ◌-◌, ◌&&◌, Bool, true, false, List, [], ◌∷◌, ◌++◌, Option, none, some, ◌==◌,
  if◌then◌else◌, take,
}

-- MetaMessage::MetaField::MetaFieldDataTypes
pub data DataType : Type 0 where
  bool_t uint8_t int8_t uint16_t int16_t uint32_t int32_t uint64_t int64_t char_t float_t : DataType
  double_t bytes_t string_t message_t undefined_t : DataType

-- MetaMessage::MetaField and MetaMessage. Texts are lists of bytes.
pub record MetaField : Type 0 where
  pub field_identifier : ℕ
  pub field_data_type : DataType
  pub field_data_type_name : List ℕ
  pub field_name : List ℕ
  pub default_initialization_value : List ℕ

pub record MetaMessage : Type 0 where
  pub package_name : List ℕ
  pub message_name : List ℕ
  pub message_identifier : ℕ
  pub list_of_meta_fields : List MetaField

abbrev pub new_meta_message : MetaMessage
new_meta_message = record {
  package_name = [];
  message_name = [];
  message_identifier = 0;
  list_of_meta_fields = [];
}

mutual
  -- m_metaMessage, m_scopeOfMetaMessages, m_longName and m_intermediateDataRepresentation
  pub data GenericMessage : Type 0 where
    generic : MetaMessage → List MetaMessage → List ℕ → Values → GenericMessage

  -- What the code puts into a linb::any.
  pub data Any : Type 0 where
    bool_any : Bool → Any
    char_any int8_any uint8_any int16_any uint16_any int32_any uint32_any : ℕ → Any
    int64_any uint64_any float_any double_any : ℕ → Any
    string_any : List ℕ → Any
    generic_any : GenericMessage → Any

  -- std::unordered_map<uint32_t, linb::any>
  pub data Values : Type 0 where
    nothing : Values
    value : ℕ → Any → Values → Values

abbrev pub new_generic_message : GenericMessage
new_generic_message = generic new_meta_message [] [] nothing

abbrev pub values_of : GenericMessage → Values
values_of (generic mm scope long_name m) = m

abbrev pub meta_of : GenericMessage → MetaMessage
meta_of (generic mm scope long_name m) = mm

-- m[k] = a, and the entry of a key.
unfoldable pub assign : ℕ → Any → Values → Values
assign k a nothing = value k a nothing
assign k a (value j b m) = if j == k then value k a m else value j b (assign k a m)

unfoldable pub find : ℕ → Values → Option Any
find k nothing = none
find k (value j a m) = if j == k then some a else find k m

abbrev pub with_package : List ℕ → List ℕ → List ℕ
with_package [] name = name
with_package (b ∷ bs) name = (b ∷ bs) ++ 0x2E ∷ name

-- LongName()
unfoldable pub long_name : GenericMessage → List ℕ
long_name (generic mm scope name m) = with_package mm.package_name mm.message_name

abbrev pub starts_with : List ℕ → List ℕ → Bool
starts_with [] bs = true
starts_with (a ∷ needle) [] = false
starts_with (a ∷ needle) (b ∷ bs) = (a == b) && starts_with needle bs

-- std::string::rfind: the last place of a text.
unfoldable pub rfind : List ℕ → List ℕ → Option ℕ
rfind needle [] = if starts_with needle [] then some 0 else none
rfind needle (b ∷ bs) = elim (rfind needle bs) [
  | some n ↦ some (n + 1)
  | none ↦ if starts_with needle (b ∷ bs) then some 0 else none
]
