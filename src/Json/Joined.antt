-- ===== src/Json/Joined.antt =====
-- The text that ToJSONVisitor (libcluon/src/ToJSONVisitor.cpp) gives, as entries with commas between.
use libcluon.Prelude.{
  ℕ, ◌-◌, ◌<◌, ◌≡◌, refl, ap, ◌∙◌, arith, Bool, true, false, List, [], ◌∷◌, ◌++◌, ltb,
  if◌then◌else◌, length, take, append-nil, list_laws, length-append, take-append_length, if_true,
  same, Bool-cases, inl, inr,
}
use libcluon.Visitor.{Schema, Vals, end, field}
use libcluon.Json.Print.{
  Mask, shown, entry, line, opening, closing, json_of, value_text, visit_all, json, unbraced,
}

-- Texts with a comma and a new line between each two.
abbrev pub joined : List (List ℕ) → List ℕ
joined [] = []
joined (e ∷ []) = e
joined (e ∷ f ∷ es) = e ++ 0x2C ∷ 0x0A ∷ joined (f ∷ es)

pub joined-append :
    (e : List ℕ) (es : List (List ℕ)) (f : List ℕ)
    → joined (e ∷ es ++ f ∷ []) ≡ joined (e ∷ es) ++ 0x2C ∷ 0x0A ∷ f
joined-append e [] f = refl
joined-append e (d ∷ es) f = simp (joined-append d es f, list_laws)

abbrev lines : List (List ℕ) → List ℕ
lines [] = []
lines (e ∷ es) = (e ++ 0x2C ∷ 0x0A ∷ []) ++ lines es

lines-joined :
    (e : List ℕ) (es : List (List ℕ)) → lines (e ∷ es) ≡ joined (e ∷ es) ++ 0x2C ∷ 0x0A ∷ []
lines-joined e [] = simp list_laws
lines-joined e (f ∷ es) = simp (lines-joined f es, list_laws)

length-joined : (e : List ℕ) (es : List (List ℕ)) → 0 < length e → 0 < length (joined (e ∷ es))
length-joined e [] h = h
length-joined e (f ∷ es) h = omega (arith, length-append e (0x2C ∷ 0x0A ∷ joined (f ∷ es)))

-- The last two characters are cut off.
json_of_line :
    (with_braces : Bool) (text : List ℕ)
    → 0 < length text
    → json_of with_braces (text ++ 0x2C ∷ 0x0A ∷ [])
      ≡ opening with_braces ++ (text ++ closing with_braces)
unfolding json_of
json_of_line with_braces text h =
    let buffer = text ++ 0x2C ∷ 0x0A ∷ [] in
    let n = length-append text (0x2C ∷ 0x0A ∷ []) in
    if_true (ltb 2 (length buffer)) _ _ (ground (arith, n))
    ∙ ap (λ (k : ℕ). opening with_braces ++ (take k buffer ++ closing with_braces))
        {x = length buffer - 2} {y = length text} (omega (arith, n))
    ∙ ap (λ t. opening with_braces ++ (t ++ closing with_braces))
        (take-append_length text (0x2C ∷ 0x0A ∷ []))

module _ (float_text double_text : ℕ → List ℕ) where
  -- The entries of the fields that the mask shows.
  abbrev pub entries : Mask → (s : Schema) → Vals s → List (List ℕ)
  entries mask end v = []
  entries mask (field id name t s) (a, v) =
      if shown mask id
      then entry name (value_text float_text double_text t a) ∷ entries mask s v
      else entries mask s v

  visit_all-lines :
      (mask : Mask) (s : Schema) (v : Vals s)
      → visit_all float_text double_text mask s v ≡ lines (entries mask s v)
  unfolding visit_all
  visit_all-lines mask end v = refl
  visit_all-lines mask (field id name t s) (a, v) = elim (Bool-cases (shown mask id)) [
    | inl e ↦ rw e (
        ap (λ l. line name (value_text float_text double_text t a) ++ l) (visit_all-lines mask s v))
    | inr e ↦ rw e (visit_all-lines mask s v)
  ]

  -- The first entry begins with a quotation mark.
  abbrev IsQuoted : List (List ℕ) → Type 0
  IsQuoted [] = Unit {0}
  IsQuoted (e ∷ es) = (rest : List ℕ) × (e ≡ 0x22 ∷ rest)

  entries-IsQuoted : (mask : Mask) (s : Schema) (v : Vals s) → IsQuoted (entries mask s v)
  entries-IsQuoted mask end v = tt
  entries-IsQuoted mask (field id name t s) (a, v) = elim (Bool-cases (shown mask id)) [
    | inl e ↦ rw e (_, refl)
    | inr e ↦ rw e (entries-IsQuoted mask s v)
  ]

  json_of-lines :
      (with_braces : Bool) (es : List (List ℕ))
      → IsQuoted es
      → 0 < length es
      → json_of with_braces (lines es) ≡ opening with_braces ++ (joined es ++ closing with_braces)
  json_of-lines with_braces [] h n = absurd (omega arith)
  json_of-lines with_braces (e ∷ es) h n =
      ap (json_of with_braces) (lines-joined e es)
      ∙ json_of_line with_braces (joined (e ∷ es))
          (length-joined e es (omega (arith, ap length h.1)))

  -- Without braces, and with {} for no text at all.
  pub unbraced-json :
      (mask : Mask) (s : Schema) (v : Vals s)
      → unbraced (json float_text double_text false mask s v) ≡ joined (entries mask s v)
  unfolding json
  unbraced-json mask s v =
      ap (λ b. unbraced (json_of false b)) (visit_all-lines mask s v)
      ∙ no_braces (entries mask s v) (entries-IsQuoted mask s v)
    where
      quoted_text :
          (e rest : List ℕ) (es : List (List ℕ))
          → e ≡ 0x22 ∷ rest
          → unbraced (joined (e ∷ es)) ≡ joined (e ∷ es)
      quoted_text e rest [] q = unfold same in rw q refl
      quoted_text e rest (f ∷ es) q = unfold same in rw q refl

      no_braces :
          (es : List (List ℕ)) → IsQuoted es → unbraced (json_of false (lines es)) ≡ joined es
      no_braces [] h = unfold json_of same in refl
      no_braces (e ∷ es) h =
          ap unbraced (json_of-lines false (e ∷ es) h (omega arith) ∙ append-nil (joined (e ∷ es)))
          ∙ quoted_text e h.0 es h.1

  -- Without braces, where there is an entry.
  pub json-joined_without_braces :
      (mask : Mask) (s : Schema) (v : Vals s) (e : List ℕ) (es : List (List ℕ))
      → entries mask s v ≡ e ∷ es
      → json float_text double_text false mask s v ≡ joined (e ∷ es)
  unfolding json
  json-joined_without_braces mask s v e es q =
      ap (json_of false) (visit_all-lines mask s v ∙ ap lines q)
      ∙ json_of-lines false (e ∷ es) (rw q at (entries-IsQuoted mask s v)) (omega arith)
      ∙ append-nil (joined (e ∷ es))

  -- The text that ToJSONVisitor gives, into which every field is written with a comma and a new
  -- line behind it, is that of the entries of the fields that the mask shows, with a comma and a
  -- new line between each two, in braces.
  pub json-joined :
      (mask : Mask) (s : Schema) (v : Vals s)
      → json float_text double_text true mask s v ≡ 0x7B ∷ joined (entries mask s v) ++ 0x7D ∷ []
  unfolding json
  json-joined mask s v =
      ap (json_of true) (visit_all-lines mask s v)
      ∙ braces (entries mask s v) (entries-IsQuoted mask s v)
    where
      braces :
          (es : List (List ℕ))
          → IsQuoted es
          → json_of true (lines es) ≡ 0x7B ∷ joined es ++ 0x7D ∷ []
      braces [] h = unfold json_of in refl
      braces (e ∷ es) h = json_of-lines true (e ∷ es) h (omega arith)
