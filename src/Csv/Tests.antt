-- ===== src/Csv/Tests.antt =====
-- Two messages, one below the other.
use libcluon.Prelude.{
  ℕ, ◌≡◌, refl, true, false, List, [], ◌∷◌, ◌++◌, codes, length, map, if◌then◌else◌,
}
use libcluon.Prelude.Decimal.{decimal, signed_decimal}
use libcluon.Visitor.{Schema, Vals, end, field, message, char, int8, uint16, string}
use libcluon.Json.Base64.{at, letters, indices, encode_base64}
use libcluon.Json.Print.{Mask, shown, value_text}
use libcluon.Csv.{new_csv_visitor, csv, accept_all}
use libcluon.Csv.Table.{lines, columns, cells, csv-lines}

-- Neither is printed here.
abbrev no_text : ℕ → List ℕ
no_text n = []

abbrev inner : Schema
inner = field 1 (codes "low") int8 (field 2 (codes "high") uint16 end)

abbrev outer : Schema
outer = field 1 (codes "kind") char (
    field 2 (codes "hidden") uint16
      (field 3 (codes "range") (message inner) (field 4 (codes "name") string end)))

abbrev mask : Mask
mask = (2, false) ∷ []

abbrev first : Vals outer
first = (97, (7, ((253, (300, tt)), (codes "Man", tt))))

abbrev second : Vals outer
second = (98, (7, ((1, (2, tt)), ([], tt))))

csv-lines_example :
    (csv (accept_all no_text no_text outer (new_csv_visitor 0x3B true mask) (first ∷ second ∷ []))
      ≡ lines 0x3B (
          (if true then columns mask [] outer ∷ [] else [])
          ++ map (cells no_text no_text mask outer) (first ∷ second ∷ [])))
    × ((w : Vals outer)
        → length (cells no_text no_text mask outer w) ≡ length (columns mask [] outer))
csv-lines_example = csv-lines no_text no_text 0x3B true mask outer first (second ∷ [])

text :
    csv (accept_all no_text no_text outer (new_csv_visitor 0x3B true mask) (first ∷ second ∷ []))
    ≡ codes "kind;range.low;range.high;name;\na;-3;300;\"TWFu\";\nb;1;2;\"\";\n"
unfolding csv accept_all shown value_text decimal signed_decimal encode_base64 letters indices at
text = refl
