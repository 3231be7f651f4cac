-- ===== src/Proto/FieldMap.antt =====
-- Decoding into a map of the fields: what the map holds.
use libcluon.Prelude.{ℕ, suc, ◌≡◌, ◌≢◌, refl, sym, ap, ◌∙◌, arith}
use libcluon.Prelude.{List, [], ◌∷◌, ◌==◌, if◌then◌else◌, length, All}
use libcluon.Prelude.{==_iff, Option, none, some}
use native.Mathlib.Decide.{ℕ_discrete}
use libcluon.Proto.Encode.Records.{Payload, number, word8, word4, text, Record, records_bytes}
use libcluon.Proto.Encode.Records.{IsRecord}
use libcluon.Proto.Decode.{Decoder}
use libcluon.Proto.Decode.Map.{
  Any, uint64_any, float_any, double_any, string_any, FieldMap, find, emplace, store_any,
  decode_map,
}
use libcluon.Proto.Decode.Loop.{
  after, key_parts, store_all, decode_loop-records, length-records_bytes,
}
use libcluon.Proto.RoundTrip.{IsDecoder, after-IsDecoder, first_bytes-all, word_read}

-- What the map holds for a payload.
abbrev pub any_of : Payload → Any
any_of (number v) = uint64_any v
any_of (word8 v) = double_any v
any_of (word4 v) = float_any v
any_of (text v) = string_any v

-- The first record of an identifier.
unfoldable pub find_record : ℕ → List Record → Option Any
find_record k [] = none
find_record k ((id, p) ∷ rs) = if id == k then some (any_of p) else find_record k rs

abbrev or_else : Option Any → Option Any → Option Any
or_else none o = o
or_else (some a) o = some a

or_else_assoc : (a b c : Option Any) → or_else (or_else a b) c ≡ or_else a (or_else b c)
or_else_assoc none b c = refl
or_else_assoc (some a) b c = refl

or_else-none : (a : Option Any) → or_else a none ≡ a
or_else-none none = refl
or_else-none (some a) = refl

find-emplace_self :
    (j : ℕ) (a : Any) (m : FieldMap) → find j (emplace j a m) ≡ or_else (find j m) (some a)
unfolding find emplace
find-emplace_self j a m = ground arith

find-emplace_other : (k j : ℕ) (a : Any) (m : FieldMap) → j ≢ k → find k (emplace j a m) ≡ find k m
unfolding find emplace
find-emplace_other k j a m n = ground arith

find-emplace :
    (k j : ℕ) (a : Any) (m : FieldMap)
    → find k (emplace j a m) ≡ or_else (find k m) (if j == k then some a else none)
find-emplace k j a m = elim (ℕ_discrete j k) [
  | yes e ↦ rw (e, (==_iff k k).1 refl) (find-emplace_self k a m)
  | no n ↦ find-emplace_other k j a m n ∙ ground (arith, or_else-none (find k m))
]

module _ (memory : ℕ → ℕ) where
  store_any-after :
      (d : Decoder) (id : ℕ) (p : Payload) (m : FieldMap)
      → IsDecoder d
      → IsRecord (id, p)
      → store_any memory (after d (id, p)) m ≡ emplace id (any_of p) m
  unfolding store_any
  store_any-after d id (number v) m hd h = ground (arith, key_parts d id 0)
  store_any-after d id (word8 v) m hd h =
      ground (arith, key_parts d id 1, word_read 8 v d.double_value hd.0 h.1)
  store_any-after d id (word4 v) m hd h =
      ground (arith, key_parts d id 5, word_read 4 v d.float_value hd.1 h.1)
  store_any-after d id (text v) m hd h = ground (arith, key_parts d id 2, first_bytes-all memory v)

  -- The map holds the first record of each identifier.
  find-store_all :
      (k : ℕ) (rs : List Record) (d : Decoder) (m : FieldMap)
      → IsDecoder d
      → All IsRecord rs
      → find k (store_all (store_any memory) d rs m) ≡ or_else (find k m) (find_record k rs)
  unfolding store_all find_record
  find-store_all k [] d m hd h = sym (or_else-none (find k m))
  find-store_all k ((id, p) ∷ rs) d m hd h =
      find-store_all k rs (after d (id, p)) _ (after-IsDecoder d (id, p) hd) h.1
      ∙ rw (store_any-after d id p m hd h.0, find-emplace k id (any_of p) m)
          (or_else_assoc (find k m) (if id == k then some (any_of p) else none) (find_record k rs)
            ∙ ap (or_else (find k m)) (first_of id))
    where
      first_of :
          (j : ℕ)
          → or_else (if j == k then some (any_of p) else none) (find_record k rs)
            ≡ (if j == k then some (any_of p) else find_record k rs)
      first_of j = ground arith

  -- Decoding well-formed records into a map, with any earlier contents of the decoder's buffers,
  -- gives under each identifier the payload of the first record of that identifier, and nothing
  -- where there is none.
  pub find-decode_map :
      (k : ℕ) (rs : List Record) (d : Decoder)
      → IsDecoder d
      → All IsRecord rs
      → find k (decode_map memory d (records_bytes rs)) ≡ find_record k rs
  unfolding decode_map
  find-decode_map k rs d hd h =
      rw
        (decode_loop-records (store_any memory) (suc (length (records_bytes rs))) d rs [] h
          (omega (arith, length-records_bytes rs)))
        (find-store_all k rs d [] hd h ∙ nothing)
    where
      nothing : or_else (find k []) (find_record k rs) ≡ find_record k rs
      nothing = unfold find in refl
