-- ===== src/Lcm/Encode.antt =====
-- ToLCMVisitor (libcluon/src/ToLCMVisitor.cpp, libcluon/include/cluon/ToLCMVisitor.hpp).
use libcluon.Prelude.{
  ℕ, ◌+◌, ◌%◌, ◌^◌, Bool, true, false, List, [], ◌∷◌, ◌++◌, if◌then◌else◌, length,
}
use libcluon.Prelude.Words.{be_bytes}
use libcluon.Visitor.{Ty, Schema, Val, Vals, end, field, message}
use libcluon.Visitor.{bool, char, int8, uint8, int16, uint16, int32, uint32, int64, uint64}
use libcluon.Visitor.{float, double, string}
use libcluon.Lcm.Hash.{encoder_hash, field_hash, hash_of}

-- m_hash, m_buffer and m_hashes
pub record Encoder : Type 0 where
  pub hash : ℕ
  pub buffer : List ℕ
  pub hashes : List ℕ

abbrev pub encoder : ℕ → List ℕ → List ℕ → Encoder
encoder h b hs = record { hash = h; buffer = b; hashes = hs }

abbrev pub new_encoder : Encoder
new_encoder = encoder 0x12345678 [] []

-- encodedData(withHash)
unfoldable pub encoded_data : Bool → Encoder → List ℕ
encoded_data with_hash e =
    (if with_hash then be_bytes 8 (hash_of e.hash e.hashes) else []) ++ e.buffer

-- What visit() writes for each type but messages.
unfoldable pub primitive_bytes : (t : Ty) → Val t → List ℕ
primitive_bytes bool v = (if v then 1 else 0) ∷ []
primitive_bytes char v = v ∷ []
primitive_bytes int8 v = v ∷ []
primitive_bytes uint8 v = v ∷ []
primitive_bytes int16 v = be_bytes 2 v
primitive_bytes uint16 v = be_bytes 2 v
primitive_bytes int32 v = be_bytes 4 v
primitive_bytes uint32 v = be_bytes 4 v
primitive_bytes int64 v = be_bytes 8 v
primitive_bytes uint64 v = be_bytes 8 v
primitive_bytes float v = be_bytes 4 v
primitive_bytes double v = be_bytes 8 v
primitive_bytes string v = be_bytes 4 ((length v + 1) % 2 ^ 32) ++ (v ++ (0 ∷ []))
primitive_bytes (message s) v = []

-- visit(), and the accept() of a message.
unfoldable mutual
  pub visit : Encoder → List ℕ → (t : Ty) → Val t → Encoder
  visit e name (message s) v =
      let nested = accept new_encoder s v in
      encoder (field_hash encoder_hash e.hash name (message s))
        (e.buffer ++ encoded_data false nested)
        (e.hashes ++ (hash_of nested.hash nested.hashes ∷ []))
  visit e name t v =
      encoder (field_hash encoder_hash e.hash name t) (e.buffer ++ primitive_bytes t v) e.hashes

  pub accept : Encoder → (s : Schema) → Vals s → Encoder
  accept e end v = e
  accept e (field id name t s) v = accept (visit e name t v.0) s v.1

-- accept() with a new visitor, and encodedData().
abbrev pub encoded_message : (s : Schema) → Vals s → List ℕ
encoded_message s v = encoded_data true (accept new_encoder s v)
