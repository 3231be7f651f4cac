-- ===== src/Json/Print.antt =====
-- ToJSONVisitor (libcluon/src/ToJSONVisitor.cpp, libcluon/include/cluon/ToJSONVisitor.hpp): the text of
-- a message. What a std::ostream writes for a float or a double is a parameter.
use libcluon.Prelude.{
  ℕ, ◌-◌, ◌==◌, Bool, true, List, [], ◌∷◌, ◌++◌, Option, none, some, ltb, if◌then◌else◌, length,
  take, codes, same,
}
use libcluon.Prelude.Decimal.{decimal, signed_decimal}
use libcluon.Visitor.{Ty, Schema, Val, Vals, end, field, message}
use libcluon.Visitor.{bool, char, int8, uint8, int16, uint16, int32, uint32, int64, uint64}
use libcluon.Visitor.{float, double, string}
use libcluon.Json.Base64.{encode_base64}

-- m_mask, and whether it shows a field.
abbrev pub Mask : Type 0
Mask = List (ℕ × Bool)

unfoldable pub shown : Mask → ℕ → Bool
shown [] id = true
shown ((j, b) ∷ m) id = let rest = shown m id in if j == id then b else rest

abbrev pub quoted : List ℕ → List ℕ
quoted t = 0x22 ∷ t ++ 0x22 ∷ []

-- Name and value of a field, and what the stream gets of it.
abbrev pub entry : List ℕ → List ℕ → List ℕ
entry name value = quoted name ++ 0x3A ∷ value

abbrev pub line : List ℕ → List ℕ → List ℕ
line name value = entry name value ++ 0x2C ∷ 0x0A ∷ []

-- encodeBase64 gives a text for all bytes.
abbrev pub text_of : Option (List ℕ) → List ℕ
text_of none = []
text_of (some t) = t

-- json(), from what is in m_buffer.
abbrev pub opening : Bool → List ℕ
opening with_braces = if with_braces then 0x7B ∷ [] else []

abbrev pub closing : Bool → List ℕ
closing with_braces = if with_braces then 0x7D ∷ [] else []

unfoldable pub json_of : Bool → List ℕ → List ℕ
json_of with_braces buffer =
    if ltb 2 (length buffer)
    then opening with_braces ++ (take (length buffer - 2) buffer ++ closing with_braces)
    else codes "{}"

-- EnvelopeConverter::getJSONFromEnvelope takes {} for no text.
abbrev pub unbraced : List ℕ → List ℕ
unbraced t = if same t (codes "{}") then [] else t

module _ (float_text double_text : ℕ → List ℕ) where
  unfoldable mutual
    unfolding json_of

    -- What visit() writes behind the colon.
    pub value_text : (t : Ty) → Val t → List ℕ
    value_text bool v = if v then codes "1" else codes "0"
    value_text char v = quoted (v ∷ [])
    value_text int8 v = signed_decimal 8 v
    value_text uint8 v = decimal v
    value_text int16 v = signed_decimal 16 v
    value_text uint16 v = decimal v
    value_text int32 v = signed_decimal 32 v
    value_text uint32 v = decimal v
    value_text int64 v = signed_decimal 64 v
    value_text uint64 v = decimal v
    value_text float v = float_text v
    value_text double v = double_text v
    value_text string v = quoted (text_of (encode_base64 v))
    value_text (message s) v = json_of true (visit_all [] s v)

    -- m_buffer after the visits of the fields.
    pub visit_all : Mask → (s : Schema) → Vals s → List ℕ
    visit_all mask end v = []
    visit_all mask (field id name t s) (a, v) =
        (if shown mask id then line name (value_text t a) else []) ++ visit_all mask s v

  -- json() after accept().
  unfoldable pub json : Bool → Mask → (s : Schema) → Vals s → List ℕ
  unfolding visit_all json_of
  json with_braces mask s v = json_of with_braces (visit_all mask s v)
