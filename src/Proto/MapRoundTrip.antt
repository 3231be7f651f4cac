-- ===== src/Proto/MapRoundTrip.antt =====
-- A message that accepts the decoded map gets the values that the encoder wrote.
use libcluon.Prelude.{ℕ, ◌≡◌, ◌≢◌, refl, sym, ap, ◌∙◌, arith}
use libcluon.Prelude.{true, false, List, [], ◌∷◌, ◌==◌, if◌then◌else◌, All}
use libcluon.Prelude.{==_iff, some}
use libcluon.Visitor.{Ty, Schema, Val, Vals, end, field, message}
use libcluon.Visitor.{bool, char, int8, uint8, int16, uint16, int32, uint32, int64, uint64}
use libcluon.Visitor.{float, double, string}
use libcluon.Proto.ZigZag.{from_zig_zag-to_zig_zag}
use libcluon.Proto.Encode.{var_int_of, encoded_data}
use libcluon.Proto.Encode.Records.{payload, records, records_bytes}
use libcluon.Proto.Encode.Records.{
  IsEncodable, AreEncodable, records-IsRecord, encoded_data-records_bytes,
}
use libcluon.Proto.Decode.{new_decoder}
use libcluon.Proto.Decode.Map.{FieldMap, find, decode_map}
use libcluon.Proto.Decode.Map.{visit_map, accept_map, extract_message}
use libcluon.Proto.RoundTrip.{Fresh, DistinctIn, Distinct, small_read}
use libcluon.Proto.FieldMap.{any_of, find_record, find-decode_map}

-- The map holds the payload of every field.
abbrev Finds : (s : Schema) → Vals s → FieldMap → Type 0
Finds end v m = Unit {0}
Finds (field id name t s) v m = (find id m ≡ some (any_of (payload t v.0))) × Finds s v.1 m

Fresh-head :
    (front : List ℕ) (id : ℕ) (name : List ℕ) (t : Ty) (s : Schema)
    → All (λ j. Fresh j (field id name t s)) front
    → All (λ j. id ≢ j) front × All (λ j. Fresh j s) front
Fresh-head [] id name t s h = (tt, tt)
Fresh-head (j ∷ front) id name t s h =
    let (n, f) = Fresh-head front id name t s h.1 in ((λ e. h.0.0 (sym e), n), (h.0.1, f))

-- `front` are the identifiers of the fields before those of `s`.
Finds-records :
    (s : Schema) (v : Vals s) (m : FieldMap) (front : List ℕ)
    → Distinct s
    → All (λ j. Fresh j s) front
    → ((k : ℕ) → All (λ j. k ≢ j) front → find k m ≡ find_record k (records s v))
    → Finds s v m
unfolding records find_record
Finds-records end v m front u f h = tt
Finds-records (field id name t s) v m front u f h =
    let (n, f') = Fresh-head front id name t s f in
    (
      h id n ∙ rw ((==_iff id id).1 refl),
      Finds-records s v.1 m (id ∷ front) u.2 (u.0, f')
          (λ k hk. h k hk.1 ∙ other k (λ e. hk.0 (sym e))),
    )
  where
    other :
        (k : ℕ)
        → id ≢ k
        → (if id == k then some (any_of (payload t v.0)) else find_record k (records s v.1))
          ≡ find_record k (records s v.1)
    other k e = ground arith

module _ (memory : ℕ → ℕ) where
  mutual
    unfolding visit_map payload var_int_of

    visit_map-payload :
        (t : Ty) (v old : Val t)
        → DistinctIn t
        → IsEncodable t v
        → visit_map memory t (some (any_of (payload t v))) old ≡ v
    visit_map-payload bool true old u h = refl
    visit_map-payload bool false old u h = refl
    visit_map-payload char v old u h = omega arith
    visit_map-payload int8 v old u h = small_read 7 v h
    visit_map-payload uint8 v old u h = omega arith
    visit_map-payload int16 v old u h = small_read 15 v h
    visit_map-payload uint16 v old u h = omega arith
    visit_map-payload int32 v old u h = small_read 31 v h
    visit_map-payload uint32 v old u h = omega arith
    visit_map-payload int64 v old u h = (from_zig_zag-to_zig_zag 63 v h).0
    visit_map-payload uint64 v old u h = refl
    visit_map-payload float v old u h = refl
    visit_map-payload double v old u h = refl
    visit_map-payload string v old u h = refl
    visit_map-payload (message s) v old u h =
        accept_map-Finds s (decode_map memory new_decoder (records_bytes (records s v))) v old u h.1
          (Finds-records s v _ [] u tt (λ k _.
            find-decode_map memory k (records s v) new_decoder (refl, refl)
              (records-IsRecord s v h.1)))

    accept_map-Finds :
        (s : Schema) (m : FieldMap) (v old : Vals s)
        → Distinct s
        → AreEncodable s v
        → Finds s v m
        → accept_map memory s m old ≡ v
    accept_map-Finds end m v old u h f = refl
    accept_map-Finds (field id name t s) m (v, vs) (old, olds) u h f = (λ i. (
      (ap (λ o. visit_map memory t o old) f.0 ∙ visit_map-payload t v old u.1 h.1) i,
      accept_map-Finds s m vs olds u.2 h.2 f.1 i,
    ))

  -- A new message that accepts the decoded map of what the encoder wrote gets the encoded values,
  -- nested messages included, whatever it held before; for distinct field identifiers below 2^29
  -- and values in range.
  pub extract_message-encoded_data :
      (s : Schema) (v old : Vals s)
      → Distinct s
      → AreEncodable s v
      → extract_message memory s (encoded_data s v) old ≡ v
  unfolding extract_message
  extract_message-encoded_data s v old u h = rw (encoded_data-records_bytes s v h) (
      accept_map-Finds s _ v old u h (
        Finds-records s v _ [] u tt (λ k _.
          find-decode_map memory k (records s v) new_decoder (refl, refl)
            (records-IsRecord s v h))))
