-- ===== src/Csv.antt =====
-- ToCSVVisitor (libcluon/src/ToCSVVisitor.cpp, libcluon/include/cluon/ToCSVVisitor.hpp). What a
-- std::ostream writes for a float or a double is a parameter.
pub mod Table
mod Tests
use libcluon.Prelude.{ℕ, Bool, true, false, List, [], ◌∷◌, ◌++◌, if◌then◌else◌}
use libcluon.Visitor.{Ty, Schema, Val, Vals, end, field, message, char}
use libcluon.Json.Print.{Mask, shown, value_text}

-- The members; a text buffer is what was written to it.
pub record CsvVisitor : Type 0 where
  pub mask : Mask
  pub prefix : List ℕ
  pub delimiter : ℕ
  pub with_header : Bool
  pub is_nested : Bool
  pub fill_header : Bool
  pub buffer_header : List ℕ
  pub buffer_values : List ℕ

-- The two constructors.
abbrev pub new_csv_visitor : ℕ → Bool → Mask → CsvVisitor
new_csv_visitor delimiter with_header mask = record {
  mask = mask;
  prefix = [];
  delimiter = delimiter;
  with_header = with_header;
  is_nested = false;
  fill_header = true;
  buffer_header = [];
  buffer_values = [];
}

abbrev pub nested_csv_visitor : List ℕ → ℕ → Bool → CsvVisitor
nested_csv_visitor prefix delimiter with_header = record {
  mask = [];
  prefix = prefix;
  delimiter = delimiter;
  with_header = with_header;
  is_nested = true;
  fill_header = true;
  buffer_header = [];
  buffer_values = [];
}

unfoldable pub clear : CsvVisitor → CsvVisitor
clear c = record c { fill_header = true; buffer_header = []; buffer_values = [] }

unfoldable pub csv : CsvVisitor → List ℕ
csv c = if c.with_header then c.buffer_header ++ c.buffer_values else c.buffer_values

abbrev pub end_of_line : CsvVisitor → List ℕ
end_of_line c = if c.is_nested then [] else 0x0A ∷ []

unfoldable pub post_visit : CsvVisitor → CsvVisitor
post_visit c = record c {
  fill_header = false;
  buffer_header = if c.fill_header then c.buffer_header ++ end_of_line c else c.buffer_header;
  buffer_values = c.buffer_values ++ end_of_line c;
}

-- The name of a column.
abbrev pub column : List ℕ → List ℕ → List ℕ
column [] name = name
column (b ∷ prefix) name = (b ∷ prefix) ++ 0x2E ∷ name

-- What is put into the two buffers for a field.
abbrev pub written : CsvVisitor → List ℕ → List ℕ → CsvVisitor
written c head values = record c {
  buffer_header = if c.fill_header then c.buffer_header ++ head else c.buffer_header;
  buffer_values = c.buffer_values ++ values;
}

abbrev pub cell_written : CsvVisitor → List ℕ → List ℕ → CsvVisitor
cell_written c name text =
    written c (column c.prefix name ++ c.delimiter ∷ []) (text ++ c.delimiter ∷ [])

module _ (float_text double_text : ℕ → List ℕ) where
  unfoldable mutual
    unfolding post_visit

    -- A field that the mask shows.
    pub visit_shown : (t : Ty) → CsvVisitor → List ℕ → Val t → CsvVisitor
    visit_shown char c name v = cell_written c name (v ∷ [])
    visit_shown (message s) c name v =
        let nested =
          post_visit (visit_fields s (nested_csv_visitor name c.delimiter c.with_header) v) in
        written c nested.buffer_header nested.buffer_values
    visit_shown t c name v = cell_written c name (value_text float_text double_text t v)

    pub visit_fields : (s : Schema) → CsvVisitor → Vals s → CsvVisitor
    visit_fields end c v = c
    visit_fields (field id name t s) c (a, v) =
        visit_fields s (if shown c.mask id then visit_shown t c name a else c) v

  unfoldable pub accept : (s : Schema) → CsvVisitor → Vals s → CsvVisitor
  unfolding visit_fields post_visit
  accept s c v = post_visit (visit_fields s c v)

  -- One message after the other.
  unfoldable pub accept_all : (s : Schema) → CsvVisitor → List (Vals s) → CsvVisitor
  unfolding accept
  accept_all s c [] = c
  accept_all s c (v ∷ vs) = accept_all s (accept s c v) vs
