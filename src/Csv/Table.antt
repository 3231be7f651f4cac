-- ===== src/Csv/Table.antt =====
-- The text that ToCSVVisitor (libcluon/src/ToCSVVisitor.cpp) gives, as the rows of a table.
use libcluon.Prelude.{
  ℕ, ◌+◌, ◌≡◌, refl, sym, ap, ◌∙◌, Bool, true, false, List, [], ◌∷◌, ◌++◌, if◌then◌else◌, length,
  length-append, append_assoc, append-nil, Bool-cases, inl, inr, map, list_laws,
}
use libcluon.Visitor.{Ty, Schema, Val, Vals, end, field, message}
use libcluon.Visitor.{bool, char, int8, uint8, int16, uint16, int32, uint32, int64, uint64}
use libcluon.Visitor.{float, double, string}
use libcluon.Json.Print.{Mask, shown, value_text}
use libcluon.Csv.{
  CsvVisitor, new_csv_visitor, nested_csv_visitor, csv, post_visit, column, written, visit_shown,
  visit_fields, accept, accept_all,
}

-- Each cell with a delimiter behind it.
abbrev pub row : ℕ → List (List ℕ) → List ℕ
row d [] = []
row d (c ∷ cs) = c ++ d ∷ row d cs

row-append : (d : ℕ) (cs es : List (List ℕ)) → row d (cs ++ es) ≡ row d cs ++ row d es
row-append d [] es = refl
row-append d (c ∷ cs) es = simp (row-append d cs es, list_laws)

-- The lines of a table: each row and a new line.
abbrev pub lines : ℕ → List (List (List ℕ)) → List ℕ
lines d [] = []
lines d (r ∷ rs) = row d r ++ 0x0A ∷ lines d rs

-- The names of the columns; a nested message has those of its fields, behind the name of its field.
abbrev mutual
  pub columns_of : List ℕ → List ℕ → Ty → List (List ℕ)
  columns_of prefix name (message s) = columns [] name s
  columns_of prefix name t = column prefix name ∷ []

  pub columns : Mask → List ℕ → Schema → List (List ℕ)
  columns mask prefix end = []
  columns mask prefix (field id name t s) =
      if shown mask id
      then columns_of prefix name t ++ columns mask prefix s
      else columns mask prefix s

added_nothing : (b : Bool) (xs : List ℕ) → xs ≡ (if b then xs ++ [] else xs)
added_nothing true xs = sym (append-nil xs)
added_nothing false xs = refl

added_twice :
    (b : Bool) (xs : List ℕ) (d : ℕ) (cs es : List (List ℕ))
    → (if b
        then (if b then xs ++ row d cs else xs) ++ row d es
        else (if b then xs ++ row d cs else xs))
      ≡ (if b then xs ++ row d (cs ++ es) else xs)
added_twice true xs d cs es = simp (row-append, list_laws)
added_twice false xs d cs es = refl

module _ (float_text double_text : ℕ → List ℕ) where
  abbrev mutual
    pub cells_of : (t : Ty) → Val t → List (List ℕ)
    cells_of char v = (v ∷ []) ∷ []
    cells_of (message s) v = cells [] s v
    cells_of t v = value_text float_text double_text t v ∷ []

    pub cells : Mask → (s : Schema) → Vals s → List (List ℕ)
    cells mask end v = []
    cells mask (field id name t s) (a, v) =
        if shown mask id then cells_of t a ++ cells mask s v else cells mask s v

  mutual
    length-cells_of :
        (prefix name : List ℕ) (t : Ty) (v : Val t)
        → length (cells_of t v) ≡ length (columns_of prefix name t)
    length-cells_of prefix name bool v = refl
    length-cells_of prefix name char v = refl
    length-cells_of prefix name int8 v = refl
    length-cells_of prefix name uint8 v = refl
    length-cells_of prefix name int16 v = refl
    length-cells_of prefix name uint16 v = refl
    length-cells_of prefix name int32 v = refl
    length-cells_of prefix name uint32 v = refl
    length-cells_of prefix name int64 v = refl
    length-cells_of prefix name uint64 v = refl
    length-cells_of prefix name float v = refl
    length-cells_of prefix name double v = refl
    length-cells_of prefix name string v = refl
    length-cells_of prefix name (message s) v = length-cells [] name s v

    -- As many cells as columns.
    length-cells :
        (mask : Mask) (prefix : List ℕ) (s : Schema) (v : Vals s)
        → length (cells mask s v) ≡ length (columns mask prefix s)
    length-cells mask prefix end v = refl
    length-cells mask prefix (field id name t s) (a, v) = elim (Bool-cases (shown mask id)) [
      | inl e ↦ rw e (
          length-append (cells_of t a) (cells mask s v)
          ∙ (λ i. length-cells_of prefix name t a i + length-cells mask prefix s v i)
          ∙ sym (length-append (columns_of prefix name t) (columns mask prefix s)))
      | inr e ↦ rw e (length-cells mask prefix s v)
    ]

  -- The buffers get a row each.
  abbrev rows_written : CsvVisitor → List (List ℕ) → List (List ℕ) → CsvVisitor
  rows_written c heads values = written c (row c.delimiter heads) (row c.delimiter values)

  rows_written-nil : (c : CsvVisitor) → c ≡ rows_written c [] []
  rows_written-nil c = λ i. record c {
    buffer_header = added_nothing c.fill_header c.buffer_header i;
    buffer_values = sym (append-nil c.buffer_values) i;
  }

  rows_written_twice :
      (c : CsvVisitor) (heads heads' values values' : List (List ℕ))
      → rows_written (rows_written c heads values) heads' values'
        ≡ rows_written c (heads ++ heads') (values ++ values')
  rows_written_twice c heads heads' values values' = λ i. record c {
    buffer_header = added_twice c.fill_header c.buffer_header c.delimiter heads heads' i;
    buffer_values =
        (append_assoc c.buffer_values (row c.delimiter values) (row c.delimiter values')
            ∙ ap (λ r. c.buffer_values ++ r) (sym (row-append c.delimiter values values')))
          i;
  }

  mutual
    unfolding visit_shown

    visit_shown-rows_written :
        (t : Ty) (c : CsvVisitor) (name : List ℕ) (v : Val t)
        → visit_shown float_text double_text t c name v
          ≡ rows_written c (columns_of c.prefix name t) (cells_of t v)
    visit_shown-rows_written bool c name v = refl
    visit_shown-rows_written char c name v = refl
    visit_shown-rows_written int8 c name v = refl
    visit_shown-rows_written uint8 c name v = refl
    visit_shown-rows_written int16 c name v = refl
    visit_shown-rows_written uint16 c name v = refl
    visit_shown-rows_written int32 c name v = refl
    visit_shown-rows_written uint32 c name v = refl
    visit_shown-rows_written int64 c name v = refl
    visit_shown-rows_written uint64 c name v = refl
    visit_shown-rows_written float c name v = refl
    visit_shown-rows_written double c name v = refl
    visit_shown-rows_written string c name v = refl
    visit_shown-rows_written (message s) c name v =
        ap (λ (n : CsvVisitor). written c (post_visit n).buffer_header (post_visit n).buffer_values)
          (visit_fields-rows_written s (nested_csv_visitor name c.delimiter c.with_header) v)
        ∙ (λ i.
            written c (append-nil (row c.delimiter (columns [] name s)) i)
              (append-nil (row c.delimiter (cells [] s v)) i))

    visit_fields-rows_written :
        (s : Schema) (c : CsvVisitor) (v : Vals s)
        → visit_fields float_text double_text s c v
          ≡ rows_written c (columns c.mask c.prefix s) (cells c.mask s v)
    visit_fields-rows_written end c v = rows_written-nil c
    visit_fields-rows_written (field id name t s) c (a, v) = elim (Bool-cases (shown c.mask id)) [
      | inl e ↦ rw e (
          ap (λ n. visit_fields float_text double_text s n v) (visit_shown-rows_written t c name a)
          ∙ visit_fields-rows_written s (rows_written c (columns_of c.prefix name t) (cells_of t a))
              v
          ∙ rows_written_twice c (columns_of c.prefix name t) (columns c.mask c.prefix s)
              (cells_of t a) (cells c.mask s v))
      | inr e ↦ rw e (visit_fields-rows_written s c v)
    ]

  -- The visitor behind the first message.
  abbrev filled : ℕ → Bool → Mask → List ℕ → List ℕ → CsvVisitor
  filled d h mask head values = record (new_csv_visitor d h mask) {
    fill_header = false;
    buffer_header = head;
    buffer_values = values;
  }

  accept-new :
      (d : ℕ) (h : Bool) (mask : Mask) (s : Schema) (v : Vals s)
      → accept float_text double_text s (new_csv_visitor d h mask) v
        ≡ filled d h mask
            (row d (columns mask [] s) ++ 0x0A ∷ [])
            (row d (cells mask s v) ++ 0x0A ∷ [])
  unfolding accept
  accept-new d h mask s v = ap post_visit (visit_fields-rows_written s (new_csv_visitor d h mask) v)

  accept-filled :
      (d : ℕ) (h : Bool) (mask : Mask) (head values : List ℕ) (s : Schema) (v : Vals s)
      → accept float_text double_text s (filled d h mask head values) v
        ≡ filled d h mask head ((values ++ row d (cells mask s v)) ++ 0x0A ∷ [])
  unfolding accept
  accept-filled d h mask head values s v =
      ap post_visit (visit_fields-rows_written s (filled d h mask head values) v)

  accept_all-filled :
      (d : ℕ) (h : Bool) (mask : Mask) (head : List ℕ) (s : Schema) (values : List ℕ)
      (vs : List (Vals s))
      → accept_all float_text double_text s (filled d h mask head values) vs
        ≡ filled d h mask head (values ++ lines d (map (cells mask s) vs))
  unfolding accept_all
  accept_all-filled d h mask head s values [] = ap (filled d h mask head) (sym (append-nil values))
  accept_all-filled d h mask head s values (v ∷ vs) =
      ap (λ c. accept_all float_text double_text s c vs) (accept-filled d h mask head values s v)
      ∙ accept_all-filled d h mask head s ((values ++ row d (cells mask s v)) ++ 0x0A ∷ []) vs
      ∙ ap (filled d h mask head) (simp list_laws)

  -- After one or more messages of a type, one after the other, the text of ToCSVVisitor is one
  -- line for each message, in their order, behind a line with the names of the columns if the
  -- header is asked for; each line has its cells with a delimiter behind each, and every message
  -- gives as many cells as there are columns, for the fields that the mask shows and those of
  -- nested messages.
  pub csv-lines :
      (d : ℕ) (h : Bool) (mask : Mask) (s : Schema) (v : Vals s) (vs : List (Vals s))
      → (csv (accept_all float_text double_text s (new_csv_visitor d h mask) (v ∷ vs))
          ≡ lines d ((if h then columns mask [] s ∷ [] else []) ++ map (cells mask s) (v ∷ vs)))
        × ((w : Vals s) → length (cells mask s w) ≡ length (columns mask [] s))
  unfolding accept_all csv
  csv-lines d h mask s v vs = (
    ap (λ c. csv (accept_all float_text double_text s c vs)) (accept-new d h mask s v)
        ∙ ap csv (
            accept_all-filled d h mask (row d (columns mask [] s) ++ 0x0A ∷ []) s
              (row d (cells mask s v) ++ 0x0A ∷ []) vs)
        ∙ with_header h,
    length-cells mask [] s,
  )
    where
      with_header :
          (b : Bool)
          → (if b
              then (row d (columns mask [] s) ++ 0x0A ∷ [])
                ++ ((row d (cells mask s v) ++ 0x0A ∷ []) ++ lines d (map (cells mask s) vs))
              else (row d (cells mask s v) ++ 0x0A ∷ []) ++ lines d (map (cells mask s) vs))
            ≡ lines d ((if b then columns mask [] s ∷ [] else []) ++ map (cells mask s) (v ∷ vs))
      with_header true = simp list_laws
      with_header false = simp list_laws
