-- ===== src/Lcm/Fields.antt =====
-- What the encoder writes, field by field.
use libcluon.Prelude.{ℕ, ◌≡◌, ap, sym, ◌∙◌, List, [], ◌∷◌, ◌++◌, append_assoc, append-nil}
use libcluon.Visitor.{Ty, Schema, Val, Vals, end, field, message}
use libcluon.Visitor.{bool, char, int8, uint8, int16, uint16, int32, uint32, int64, uint64}
use libcluon.Visitor.{float, double, string}
use libcluon.Lcm.Hash.{encoder_hash, field_hash, hash_of}
use libcluon.Lcm.Encode.{
  Encoder, encoder, new_encoder, encoded_data, primitive_bytes, visit, accept,
}

-- The bytes of the fields, and the hashes that they leave: these do not look at the values.
unfoldable mutual
  pub value_bytes : (t : Ty) → Val t → List ℕ
  value_bytes (message s) v = fields_bytes s v
  value_bytes t v = primitive_bytes t v

  pub fields_bytes : (s : Schema) → Vals s → List ℕ
  fields_bytes end v = []
  fields_bytes (field id name t s) v = value_bytes t v.0 ++ fields_bytes s v.1

unfoldable pub fields_hash : (ℕ → List ℕ → ℕ) → ℕ → Schema → ℕ
fields_hash calculate h end = h
fields_hash calculate h (field id name t s) =
    fields_hash calculate (field_hash calculate h name t) s

unfoldable mutual
  pub nested_hashes : (ℕ → List ℕ → ℕ) → Ty → List ℕ
  nested_hashes calculate (message s) =
      hash_of (fields_hash calculate 0x12345678 s) (fields_hashes calculate s) ∷ []
  nested_hashes calculate t = []

  pub fields_hashes : (ℕ → List ℕ → ℕ) → Schema → List ℕ
  fields_hashes calculate end = []
  fields_hashes calculate (field id name t s) =
      nested_hashes calculate t ++ fields_hashes calculate s

-- The hash of a message.
abbrev pub message_hash : (ℕ → List ℕ → ℕ) → Schema → ℕ
message_hash calculate s = hash_of (fields_hash calculate 0x12345678 s) (fields_hashes calculate s)

mutual
  unfolding visit accept fields_bytes fields_hash nested_hashes fields_hashes value_bytes
      encoded_data

  visit-fields :
      (e : Encoder) (name : List ℕ) (t : Ty) (v : Val t)
      → visit e name t v
        ≡ encoder
            (field_hash encoder_hash e.hash name t)
            (e.buffer ++ value_bytes t v)
            (e.hashes ++ nested_hashes encoder_hash t)
  visit-fields e name bool v = rw (append-nil e.hashes)
  visit-fields e name char v = rw (append-nil e.hashes)
  visit-fields e name int8 v = rw (append-nil e.hashes)
  visit-fields e name uint8 v = rw (append-nil e.hashes)
  visit-fields e name int16 v = rw (append-nil e.hashes)
  visit-fields e name uint16 v = rw (append-nil e.hashes)
  visit-fields e name int32 v = rw (append-nil e.hashes)
  visit-fields e name uint32 v = rw (append-nil e.hashes)
  visit-fields e name int64 v = rw (append-nil e.hashes)
  visit-fields e name uint64 v = rw (append-nil e.hashes)
  visit-fields e name float v = rw (append-nil e.hashes)
  visit-fields e name double v = rw (append-nil e.hashes)
  visit-fields e name string v = rw (append-nil e.hashes)
  visit-fields e name (message s) v =
      ap
        (λ n.
          encoder (field_hash encoder_hash e.hash name (message s)) (e.buffer ++ n.buffer)
            (e.hashes ++ (hash_of n.hash n.hashes ∷ [])))
        (accept-fields new_encoder s v)

  pub accept-fields :
      (e : Encoder) (s : Schema) (v : Vals s)
      → accept e s v
        ≡ encoder
            (fields_hash encoder_hash e.hash s)
            (e.buffer ++ fields_bytes s v)
            (e.hashes ++ fields_hashes encoder_hash s)
  accept-fields e end v =
      ap (λ t. encoder e.hash t e.hashes) (sym (append-nil e.buffer))
      ∙ ap (λ t. encoder e.hash (e.buffer ++ []) t) (sym (append-nil e.hashes))
  accept-fields e (field id name t s) v =
      let h = fields_hash encoder_hash (field_hash encoder_hash e.hash name t) s in
      accept-fields (visit e name t v.0) s v.1
      ∙ ap
          (λ n.
            encoder (fields_hash encoder_hash n.hash s) (n.buffer ++ fields_bytes s v.1)
              (n.hashes ++ fields_hashes encoder_hash s))
          (visit-fields e name t v.0)
      ∙ ap
          (λ b.
            encoder h b
              ((e.hashes ++ nested_hashes encoder_hash t) ++ fields_hashes encoder_hash s))
          (append_assoc e.buffer (value_bytes t v.0) (fields_bytes s v.1))
      ∙ ap (λ b. encoder h (e.buffer ++ (value_bytes t v.0 ++ fields_bytes s v.1)) b)
          (append_assoc e.hashes (nested_hashes encoder_hash t) (fields_hashes encoder_hash s))

-- The hash that the LCM encoder has after a message is a function of the names and types of its
-- fields alone, in their order, and of those of nested messages.
pub accept-message_hash :
    (s : Schema) (v : Vals s)
    → hash_of (accept new_encoder s v).hash (accept new_encoder s v).hashes
      ≡ message_hash encoder_hash s
accept-message_hash s v = ap (λ e. hash_of e.hash e.hashes) (accept-fields new_encoder s v)
