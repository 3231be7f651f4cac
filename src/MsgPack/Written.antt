-- ===== src/MsgPack/Written.antt =====
-- The encoder writes the tree of a message.
use libcluon.Prelude.{
  ℕ, suc, ◌+◌, ◌-◌, ◌%◌, ◌^◌, ◌<◌, ◌≡◌, refl, ap, sym, ◌∙◌, arith, List, [], ◌∷◌, ◌++◌,
}
use libcluon.Prelude.{
  leb, length, take, append_assoc, append-nil, take-length, Bool-cases, inl, inr,
}
use libcluon.Visitor.{Ty, Schema, Val, Vals, end, field, message}
use libcluon.Visitor.{bool, char, int8, uint8, int16, uint16, int32, uint32, int64, uint64}
use libcluon.Visitor.{float, double, string}
use libcluon.MsgPack.Encode.{
  encode, encode_uint, encode_int, encode_signed, widen, Encoder, pre_visit, encoded_data,
  encode_value, accept, encoded_message,
}
use libcluon.MsgPack.Decode.{map_any}
use libcluon.MsgPack.Tree.{
  count, map_header, value_bytes, entries_bytes, signed_any, tree, trees, fields, count-trees,
  IsPackable, ArePackable,
}

abbrev encoder : ℕ → List ℕ → Encoder
encoder n b = record { number_of_fields = n; buffer = b }

encode-onto : (o s : List ℕ) → encode o s ≡ o ++ encode [] s
unfolding encode
encode-onto o s = refl

encode_uint-onto : (o : List ℕ) (v : ℕ) → encode_uint o v ≡ o ++ encode_uint [] v
unfolding encode_uint
encode_uint-onto o v = refl

encode_int-onto : (o : List ℕ) (v : ℕ) → encode_int o v ≡ o ++ encode_int [] v
unfolding encode_int
encode_int-onto o v = refl

encode_signed-onto :
    (o : List ℕ) (w v : ℕ) → encode_signed o w v ≡ o ++ value_bytes (signed_any w v)
unfolding encode_signed value_bytes
encode_signed-onto o w v = elim (Bool-cases (leb (2 ^ (w - 1)) v)) [
  | inl h ↦ rw (h, encode_int-onto o (widen w v))
  | inr h ↦ rw (h, encode_uint-onto o v)
]

encoded_data-header : (e : Encoder) → encoded_data e ≡ map_header e.number_of_fields ++ e.buffer
unfolding encoded_data
encoded_data-header e = refl

header-trees :
    (s : Schema) (v : Vals s)
    → encoded_data (encoder (0 + fields s) (entries_bytes (trees s v)))
      ≡ value_bytes (map_any (trees s v))
unfolding value_bytes
header-trees s v =
    encoded_data-header (encoder (0 + fields s) (entries_bytes (trees s v)))
    ∙ ap (λ (k : ℕ). map_header k ++ entries_bytes (trees s v)) {x = 0 + fields s}
        {y = count (trees s v)} (omega (arith, count-trees s v))

whole : (xs : List ℕ) → length xs < 2 ^ 32 → take (length xs % 2 ^ 32) xs ≡ xs
whole xs h = ap (λ (k : ℕ). take k xs) {x = length xs % 2 ^ 32} (omega arith) ∙ take-length xs

mutual
  unfolding encode_value tree value_bytes entries_bytes fields count

  encode_value-tree :
      (t : Ty) (o : List ℕ) (v : Val t)
      → IsPackable t v
      → encode_value o t v ≡ o ++ value_bytes (tree t v)
  encode_value-tree bool o v h = refl
  encode_value-tree char o v h = encode-onto o (v ∷ [])
  encode_value-tree int8 o v h = encode_signed-onto o 8 v
  encode_value-tree uint8 o v h = encode_uint-onto o v
  encode_value-tree int16 o v h = encode_signed-onto o 16 v
  encode_value-tree uint16 o v h = encode_uint-onto o v
  encode_value-tree int32 o v h = encode_signed-onto o 32 v
  encode_value-tree uint32 o v h = encode_uint-onto o v
  encode_value-tree int64 o v h = encode_signed-onto o 64 v
  encode_value-tree uint64 o v h = encode_uint-onto o v
  encode_value-tree float o v h = refl
  encode_value-tree double o v h = refl
  encode_value-tree string o v h = encode-onto o v
  encode_value-tree (message s) o v h =
      ap (λ t. o ++ t)
        (whole (encoded_message s v) h.0
          ∙ ap (λ e. encoded_data e) (accept-trees s pre_visit v (omega (arith, h.1.0)) h.2)
          ∙ header-trees s v)

  accept-trees :
      (s : Schema) (e : Encoder) (v : Vals s)
      → e.number_of_fields + fields s < 2 ^ 32
      → ArePackable s v
      → accept e s v ≡ record {
        number_of_fields = e.number_of_fields + fields s;
        buffer = e.buffer ++ entries_bytes (trees s v);
      }
  accept-trees end e v n h =
      ap (λ (k : ℕ). encoder k e.buffer) {x = e.number_of_fields} (omega arith)
      ∙ ap (λ b. encoder (e.number_of_fields + 0) b) (sym (append-nil e.buffer))
  accept-trees (field id name t s) e v n h =
      accept-trees s
        (encoder ((e.number_of_fields + 1) % 2 ^ 32) (encode_value (encode e.buffer name) t v.0))
        v.1 (omega arith) h.2
      ∙ ap
          (λ (k : ℕ).
            encoder k (encode_value (encode e.buffer name) t v.0 ++ entries_bytes (trees s v.1)))
          {x = (e.number_of_fields + 1) % 2 ^ 32 + fields s} (omega arith)
      ∙ ap (λ b. encoder (e.number_of_fields + suc (fields s)) b)
          (ap (λ b. b ++ entries_bytes (trees s v.1))
              (encode_value-tree t (encode e.buffer name) v.0 h.1
                ∙ ap (λ b. b ++ value_bytes (tree t v.0)) (encode-onto e.buffer name))
            ∙ cc (
              append_assoc (e.buffer ++ encode [] name) (value_bytes (tree t v.0))
                  (entries_bytes (trees s v.1)),
              append_assoc e.buffer (encode [] name)
                  (value_bytes (tree t v.0) ++ entries_bytes (trees s v.1)),
            ))

pub encoded_message-tree :
    (s : Schema) (v : Vals s)
    → fields s < 2 ^ 32
    → ArePackable s v
    → encoded_message s v ≡ value_bytes (map_any (trees s v))
encoded_message-tree s v n h =
    ap (λ e. encoded_data e) (accept-trees s pre_visit v (omega arith) h) ∙ header-trees s v
