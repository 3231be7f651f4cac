-- ===== src/Json/Tests.antt =====
-- Base64 and the JSON of a message at concrete values.
use libcluon.Prelude.{ℕ, ◌≡◌, refl, arith, List, [], ◌∷◌, ◌++◌, true, false, some, codes, All}
use libcluon.Prelude.Words.{IsByte}
use libcluon.Json.Base64.{
  at, letters, indices, encode_base64, search, decoded_of, decode_loop, decode_base64,
}
use libcluon.Prelude.Decimal.{decimal, signed_decimal}
use libcluon.Visitor.{Schema, Vals, end, field, int8, uint16, string}
use libcluon.Json.Print.{json, value_text, shown}
use libcluon.Json.Joined.{joined, entries, json-joined}
use libcluon.Json.RoundTrip.{Decodes, encode_base64-Decodes}

abbrev bytes : List ℕ
bytes = 77 ∷ 97 ∷ 110 ∷ 0 ∷ 255 ∷ []

bytes-IsByte : All IsByte bytes
bytes-IsByte = omega arith

encode_base64-Decodes_example : Decodes (encode_base64 bytes) bytes
encode_base64-Decodes_example = encode_base64-Decodes bytes bytes-IsByte

man : encode_base64 (codes "Man") ≡ some (codes "TWFu")
unfolding encode_base64 letters indices at
man = refl

many : decode_base64 (codes "TWFueQ==") ≡ codes "Many"
unfolding decode_base64 decode_loop decoded_of search
many = refl

-- Neither is printed here.
abbrev no_text : ℕ → List ℕ
no_text n = []

abbrev point : Schema
point =
    field 1 (codes "x") int8 (field 2 (codes "hidden") uint16 (field 3 (codes "name") string end))

abbrev values : Vals point
values = (253, (7, (codes "Man", tt)))

json-joined_example :
    json no_text no_text true ((2, false) ∷ []) point values
    ≡ 0x7B ∷ joined (entries no_text no_text ((2, false) ∷ []) point values) ++ 0x7D ∷ []
json-joined_example = json-joined no_text no_text ((2, false) ∷ []) point values

text :
    json no_text no_text true ((2, false) ∷ []) point values
    ≡ codes "{\"x\":-3,\n\"name\":\"TWFu\"}"
unfolding shown json value_text decimal signed_decimal encode_base64 letters indices at
text = refl
