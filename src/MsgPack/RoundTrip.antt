-- ===== src/MsgPack/RoundTrip.antt =====
-- Decoding what the encoder writes, with the whole visitors.
use libcluon.Prelude.{same_self, ℕ, zero, suc, ◌%◌, ◌^◌, ◌≤◌, ◌≡◌, refl, ap, sym, ◌∙◌, arith}
use libcluon.Prelude.{List, [], ◌++◌, length, length-append, some}
use libcluon.Visitor.{Ty, Schema, Val, Vals, end, field, message}
use libcluon.Visitor.{bool, char, int8, uint8, int16, uint16, int32, uint32, int64, uint64}
use libcluon.Visitor.{float, double, string}
use libcluon.MsgPack.Constants.{Format}
use libcluon.MsgPack.Encode.{encode, encoded_message}
use libcluon.MsgPack.Written.{encoded_message-tree}
use libcluon.MsgPack.Tree.{
  format_of, count, count-trees, map_header, value_bytes, entries_bytes, tree, trees, Absent,
  Distinct, IsMessage, IsPackable, ArePackable,
}
use libcluon.MsgPack.Decode.{AnyValue, KeyValues, pair, map_any, value_at, decode}
use libcluon.MsgPack.Decode.Maps.{decode-value_bytes}
use libcluon.MsgPack.Decode.Entries.{IsReadable, AreReadable}
use libcluon.MsgPack.Decode.Visit.{
  visit, visit_bool, visit_char, visit_float, visit_double, visit_string, accept, decode_message,
  visit_signed, visit_unsigned, visit_message,
}
use libcluon.MsgPack.Names.{puts-trees}

-- The tree of a message is one that the decoder gives back.
length-map_header : (n : ℕ) (bytes : List ℕ) → suc (length bytes) ≤ length (map_header n ++ bytes)
length-map_header n bytes = ground (arith, length-append (map_header n) bytes)

map_any-IsReadable :
    (d : ℕ) (s : Schema) (v : Vals s)
    → IsMessage s
    → AreReadable d (trees s v)
    → IsReadable (suc d) (map_any (trees s v))
unfolding IsReadable
map_any-IsReadable d s v m h = (
  omega (arith, m.0, count-trees s v),
  (λ e. m.1 (sym (count-trees s v) ∙ e)),
  h,
  puts-trees s v m.2,
)

mutual
  unfolding IsReadable AreReadable tree trees value_bytes entries_bytes

  tree-IsReadable :
      (d : ℕ) (t : Ty) (v : Val t)
      → IsPackable t v
      → length (value_bytes (tree t v)) ≤ d
      → IsReadable d (tree t v)
  tree-IsReadable d bool v h l = tt
  tree-IsReadable d char v h l = (omega arith, λ e. absurd (omega arith))
  tree-IsReadable d int8 v h l = ground arith
  tree-IsReadable d uint8 v h l = omega arith
  tree-IsReadable d int16 v h l = ground arith
  tree-IsReadable d uint16 v h l = omega arith
  tree-IsReadable d int32 v h l = ground arith
  tree-IsReadable d uint32 v h l = omega arith
  tree-IsReadable d int64 v h l = ground arith
  tree-IsReadable d uint64 v h l = h
  tree-IsReadable d float v h l = h
  tree-IsReadable d double v h l = h
  tree-IsReadable d string v h l = h
  tree-IsReadable zero (message s) v h l =
      absurd (omega (arith, length-map_header (count (trees s v)) (entries_bytes (trees s v))))
  tree-IsReadable (suc d) (message s) v h l = map_any-IsReadable d s v h.1 (
      trees-AreReadable d s v h.2
        (omega (arith, length-map_header (count (trees s v)) (entries_bytes (trees s v)))))

  trees-AreReadable :
      (d : ℕ) (s : Schema) (v : Vals s)
      → ArePackable s v
      → length (entries_bytes (trees s v)) ≤ d
      → AreReadable d (trees s v)
  trees-AreReadable d end v h l = tt
  trees-AreReadable d (field id name t s) v h l = (
    h.0,
    refl,
    tree-IsReadable d t v.0 h.1 (
        omega (
          arith,
          length-append (encode [] name) (value_bytes (tree t v.0) ++ entries_bytes (trees s v.1)),
          length-append (value_bytes (tree t v.0)) (entries_bytes (trees s v.1)),
        )),
    trees-AreReadable d s v.1 h.2 (
        omega (
          arith,
          length-append (encode [] name) (value_bytes (tree t v.0) ++ entries_bytes (trees s v.1)),
          length-append (value_bytes (tree t v.0)) (entries_bytes (trees s v.1)),
        )),
  )

-- The map has the tree of each field under its name.
HasAll : (s : Schema) → Vals s → KeyValues → Type 0
HasAll end v m = Unit {0}
HasAll (field id name t s) v m = (value_at name m ≡ some (tree t v.0)) × HasAll s v.1 m

pair-HasAll :
    (s : Schema) (v : Vals s) (k : List ℕ) (f : Format) (a : AnyValue) (m : KeyValues)
    → Absent k s
    → HasAll s v m
    → HasAll s v (pair k f a m)
unfolding HasAll value_at
pair-HasAll end v k f a m d h = tt
pair-HasAll (field id name t s) v k f a m d h = (rw (d.0) h.0, pair-HasAll s v.1 k f a m d.1 h.1)

trees-HasAll : (s : Schema) (v : Vals s) → Distinct s → HasAll s v (trees s v)
unfolding HasAll trees value_at
trees-HasAll end v d = tt
trees-HasAll (field id name t s) v d = (
  rw (same_self name),
  pair-HasAll s v.1 name (format_of (tree t v.0)) (tree t v.0) (trees s v.1) d.0
      (trees-HasAll s v.1 d.1),
)

-- Each field gets its value back, whatever it held before.
mutual
  unfolding visit accept tree HasAll visit_signed visit_unsigned visit_message visit_char visit_bool
      visit_float visit_double visit_string

  visit-tree : (t : Ty) (v old : Val t) → IsPackable t v → visit t (some (tree t v)) old ≡ some v
  visit-tree bool v old h = refl
  visit-tree char v old h = refl
  visit-tree int8 v old h = ground arith
  visit-tree uint8 v old h = ap (λ t. some t) {x = v % 2 ^ 8} (omega arith)
  visit-tree int16 v old h = ground arith
  visit-tree uint16 v old h = ap (λ t. some t) {x = v % 2 ^ 16} (omega arith)
  visit-tree int32 v old h = ground arith
  visit-tree uint32 v old h = ap (λ t. some t) {x = v % 2 ^ 32} (omega arith)
  visit-tree int64 v old h = ground arith
  visit-tree uint64 v old h = ap (λ t. some t) {x = v % 2 ^ 64} (omega arith)
  visit-tree float v old h = refl
  visit-tree double v old h = refl
  visit-tree string v old h = refl
  visit-tree (message s) v old h = accept-HasAll s v old (trees s v) h.2 (trees-HasAll s v h.1.2)

  accept-HasAll :
      (s : Schema) (v old : Vals s) (m : KeyValues)
      → ArePackable s v
      → HasAll s v m
      → accept s m old ≡ some v
  accept-HasAll end v old m h a = refl
  accept-HasAll (field id name t s) v old m h a =
      rw (a.0, visit-tree t v.0 old.0 h.1, accept-HasAll s v.1 old.1 m h.2 a.1)

pub decode-trees :
    (memory : ℕ → ℕ) (s : Schema) (v : Vals s)
    → IsMessage s
    → ArePackable s v
    → decode memory (encoded_message s v) ≡ trees s v
unfolding value_bytes
decode-trees memory s v m h =
    let d = length (value_bytes (map_any (trees s v))) in
    ap (λ t. decode memory t) (encoded_message-tree s v m.0 h)
    ∙ decode-value_bytes memory (trees s v) (
        map_any-IsReadable d s v m (
          trees-AreReadable d s v h
            (omega (arith, length-map_header (count (trees s v)) (entries_bytes (trees s v))))))

-- Decoding the MsgPack bytes of a message into a message gives the encoded values, nested
-- messages included, whatever it held before and whatever stands in memory, if on each level the
-- names are distinct, the number of fields is not 15, no name or string has 31 characters, and
-- values and sizes are in range.
pub decode_message-encoded_message :
    (memory : ℕ → ℕ) (s : Schema) (v old : Vals s)
    → IsMessage s
    → ArePackable s v
    → decode_message memory s (encoded_message s v) old ≡ some v
unfolding decode_message
decode_message-encoded_message memory s v old m h =
    ap (λ t. accept s t old) (decode-trees memory s v m h)
    ∙ accept-HasAll s v old (trees s v) h (trees-HasAll s v m.2)
