-- ===== src/Lcm/Mismatch.antt =====
-- The hash that the decoder calculates does not depend on the bytes.
use libcluon.Prelude.{
  ℕ, ◌≡◌, refl, ap, sym, ◌∙◌, not, ◌&&◌, ◌==◌, List, [], ◌∷◌, ◌++◌, append_assoc, append-nil,
  Bool-cases, inl, inr,
}
use libcluon.Stream.{stream}
use libcluon.Visitor.{Ty, Schema, Val, Vals, end, field, message}
use libcluon.Visitor.{bool, char, int8, uint8, int16, uint16, int32, uint32, int64, uint64}
use libcluon.Visitor.{float, double, string}
use libcluon.Lcm.Hash.{decoder_hash, field_hash, hash_of}
use libcluon.Lcm.Fields.{fields_hash, fields_hashes, nested_hashes, message_hash}
use libcluon.Lcm.Decode.{
  Decoder, pre_visit, post_visit, nested_decoder, visit, visit_fields, accept,
}

module _ (memory : ℕ → ℕ) where
  mutual
    unfolding visit visit_fields fields_hash fields_hashes nested_hashes pre_visit

    visit-hashes :
        (d : Decoder) (name : List ℕ) (t : Ty) (old : Val t)
        → ((visit memory d name t old).0.calculated ≡ field_hash decoder_hash d.calculated name t)
          × ((visit memory d name t old).0.hashes ≡ d.hashes ++ nested_hashes decoder_hash t)
          × ((visit memory d name t old).0.expected ≡ d.expected)
    visit-hashes d name bool old = (refl, sym (append-nil d.hashes), refl)
    visit-hashes d name char old = (refl, sym (append-nil d.hashes), refl)
    visit-hashes d name int8 old = (refl, sym (append-nil d.hashes), refl)
    visit-hashes d name uint8 old = (refl, sym (append-nil d.hashes), refl)
    visit-hashes d name int16 old = (refl, sym (append-nil d.hashes), refl)
    visit-hashes d name uint16 old = (refl, sym (append-nil d.hashes), refl)
    visit-hashes d name int32 old = (refl, sym (append-nil d.hashes), refl)
    visit-hashes d name uint32 old = (refl, sym (append-nil d.hashes), refl)
    visit-hashes d name int64 old = (refl, sym (append-nil d.hashes), refl)
    visit-hashes d name uint64 old = (refl, sym (append-nil d.hashes), refl)
    visit-hashes d name float old = (refl, sym (append-nil d.hashes), refl)
    visit-hashes d name double old = (refl, sym (append-nil d.hashes), refl)
    visit-hashes d name string old = (refl, sym (append-nil d.hashes), refl)
    visit-hashes d name (message s) old =
        let h = visit_fields-hashes (nested_decoder memory d) s old in
        (refl, ap (λ x. d.hashes ++ (x ∷ [])) (rw (h.0, h.1)), refl)

    visit_fields-hashes :
        (d : Decoder) (s : Schema) (old : Vals s)
        → ((visit_fields memory d s old).0.calculated ≡ fields_hash decoder_hash d.calculated s)
          × ((visit_fields memory d s old).0.hashes ≡ d.hashes ++ fields_hashes decoder_hash s)
          × ((visit_fields memory d s old).0.expected ≡ d.expected)
    visit_fields-hashes d end old = (refl, sym (append-nil d.hashes), refl)
    visit_fields-hashes d (field id name t s) old =
        let a = visit-hashes d name t old.0 in
        let b = visit_fields-hashes (visit memory d name t old.0).0 s old.1 in
        (
          b.0 ∙ ap (λ h. fields_hash decoder_hash h s) a.0,
          b.1
              ∙ ap (λ h. h ++ fields_hashes decoder_hash s) a.1
              ∙ append_assoc d.hashes (nested_hashes decoder_hash t) (fields_hashes decoder_hash s),
          b.2 ∙ a.2,
        )

  abbrev reset : Decoder → Decoder
  reset d = record d { calculated = 0x12345678; buffer = stream d.contents; hashes = [] }

  visits-mismatch :
      (d : Decoder) (s : Schema) (old : Vals s)
      → post_visit (visit_fields memory d s old).0 ≡ (
          not (d.expected == 0)
          && not (
              d.expected
              == hash_of
                  (fields_hash decoder_hash d.calculated s)
                  (d.hashes ++ fields_hashes decoder_hash s)))
  unfolding post_visit
  visits-mismatch d s old = let h = visit_fields-hashes d s old in rw (h.0, h.1, h.2)

  -- An LCM decoder reports a mismatch exactly when the hash that it read is not 0 and not the
  -- hash of the message, whatever the bytes of the fields are.
  pub accept-mismatch :
      (d : Decoder) (s : Schema) (old : Vals s)
      → (accept memory d s old).1
        ≡ (not (d.expected == 0) && not (d.expected == message_hash decoder_hash s))
  unfolding accept pre_visit
  accept-mismatch d s old = elim (Bool-cases (d.expected == 0)) [
    | inl z ↦ rw (z, visits-mismatch d s old, z)
    | inr z ↦ rw (z, visits-mismatch (reset d) s old, z)
  ]
