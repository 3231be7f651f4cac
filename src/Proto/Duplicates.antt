-- ===== src/Proto/Duplicates.antt =====
-- Two values for one field, with both ways to decode.
use libcluon.Prelude.{ℕ, ◌^◌, ◌<◌, ◌≡◌, refl, ◌∙◌, arith}
use libcluon.Prelude.{List, [], ◌∷◌, All}
use libcluon.Prelude.{==_iff}
use libcluon.Visitor.{Vals, end, field}
use libcluon.Visitor.{uint64}
use libcluon.Proto.Encode.Records.{number, Record, records_bytes}
use libcluon.Proto.Encode.Records.{IsRecord}
use libcluon.Proto.Decode.{new_decoder}
use libcluon.Proto.Decode.Map.{accept_map, extract_message}
use libcluon.Proto.Decode.Direct.{decode_into, visit_direct}
use libcluon.Proto.Decode.Loop.{after, store_all, decode_loop-records, length-records_bytes}
use libcluon.Proto.RoundTrip.{accept_field_self, after_field_id}
use libcluon.Proto.FieldMap.{find_record, find-decode_map}

-- Two numbers for one field.
abbrev pub twice : ℕ → ℕ → ℕ → List Record
twice id a b = (id, number a) ∷ (id, number b) ∷ []

module _ (memory : ℕ → ℕ) where
  twice-direct :
      (id a b : ℕ) (name : List ℕ) (old : Vals (field id name uint64 end))
      → All IsRecord (twice id a b)
      → decode_into memory (field id name uint64 end) (records_bytes (twice id a b)) old ≡ (b, tt)
  unfolding decode_into
  twice-direct id a b name old h =
      decode_loop-records _ _ new_decoder (twice id a b) old h
        (omega (arith, length-records_bytes (twice id a b)))
      ∙ unfold store_all visit_direct in
        rw (
          accept_field_self memory id name uint64 end (after new_decoder (id, number a)) old.0 old.1
              (after_field_id new_decoder (id, number a) h.0),
          accept_field_self memory id name uint64 end
              (after (after new_decoder (id, number a)) (id, number b)) a old.1
              (after_field_id (after new_decoder (id, number a)) (id, number b) h.1.0),
        )

  twice-map :
      (id a b : ℕ) (name : List ℕ) (old : Vals (field id name uint64 end))
      → All IsRecord (twice id a b)
      → extract_message memory (field id name uint64 end) (records_bytes (twice id a b)) old
        ≡ (a, tt)
  unfolding extract_message accept_map find_record
  twice-map id a b name old h =
      rw
        (find-decode_map memory id (twice id a b) new_decoder (refl, refl) h, (==_iff id id).1 refl)

  -- Where the bytes hold two 64-bit numbers for one field, decoding directly gives the last and
  -- decoding through the map the first.
  pub duplicate_fields :
      (id a b : ℕ) (name : List ℕ) (old : Vals (field id name uint64 end))
      → id < 2 ^ 29
      → a < 2 ^ 64
      → b < 2 ^ 64
      → (decode_into memory (field id name uint64 end) (records_bytes (twice id a b)) old ≡ (b, tt))
        × (extract_message memory (field id name uint64 end) (records_bytes (twice id a b)) old
            ≡ (a, tt))
  duplicate_fields id a b name old h ha hb =
      let ok : All IsRecord (twice id a b) = ((h, ha), ((h, hb), tt)) in
      (twice-direct id a b name old ok, twice-map id a b name old ok)
