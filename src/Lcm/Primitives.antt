-- ===== src/Lcm/Primitives.antt =====
-- Reading single values as the encoder writes them.
use libcluon.Prelude.{
  ℕ, suc, ◌+◌, ◌-◌, ◌%◌, ◌^◌, ◌≤◌, ◌<◌, ◌≡◌, refl, ap, ◌∙◌, arith, true, false, List, [], ◌∷◌, ◌++◌,
  length, length-append, append_assoc,
}
use libcluon.Prelude.Words.{be_bytes}
use libcluon.Stream.{Stream, stream, read, read-append, read_be-be_bytes}
use libcluon.Visitor.{Ty, Schema, Val, Vals, end, field, message}
use libcluon.Visitor.{bool, char, int8, uint8, int16, uint16, int32, uint32, int64, uint64}
use libcluon.Visitor.{float, double, string}
use libcluon.Proto.Decode.{first_bytes}
use libcluon.Lcm.Encode.{primitive_bytes}
use libcluon.Lcm.Decode.{Decoder, read_primitive, read_byte, read_characters}

-- Values in the range of their types, and names that are hashed in full.
abbrev mutual
  pub IsSendable : (t : Ty) → Val t → Type 0
  IsSendable bool v = Unit {0}
  IsSendable char v = v < 2 ^ 8
  IsSendable int8 v = v < 2 ^ 8
  IsSendable uint8 v = v < 2 ^ 8
  IsSendable int16 v = v < 2 ^ 16
  IsSendable uint16 v = v < 2 ^ 16
  IsSendable int32 v = v < 2 ^ 32
  IsSendable uint32 v = v < 2 ^ 32
  IsSendable int64 v = v < 2 ^ 64
  IsSendable uint64 v = v < 2 ^ 64
  IsSendable float v = v < 2 ^ 32
  IsSendable double v = v < 2 ^ 64
  IsSendable string v = length v + 1 < 2 ^ 31
  IsSendable (message s) v = AreSendable s v

  pub AreSendable : (s : Schema) → Vals s → Type 0
  AreSendable end v = Unit {0}
  AreSendable (field id name t s) v = (length name ≤ 255) × IsSendable t v.0 × AreSendable s v.1

abbrev pub IsPrimitive : Ty → Type 0
IsPrimitive (message s) = 0 < 0
IsPrimitive t = Unit {0}

abbrev pub decoder : ℕ → ℕ → List ℕ → Stream → List ℕ → Decoder
decoder c e k b hs = record { calculated = c; expected = e; contents = k; buffer = b; hashes = hs }

read_byte-cons : (b old : ℕ) (rest : List ℕ) → read_byte (stream (b ∷ rest)) old ≡ (b, stream rest)
unfolding read_byte
read_byte-cons b old rest = rw (read-append (b ∷ []) rest)

module _ (memory : ℕ → ℕ) where
  first_bytes-append : (m : ℕ → ℕ) (xs ys : List ℕ) → first_bytes m (xs ++ ys) (length xs) ≡ xs
  unfolding first_bytes
  first_bytes-append m [] ys = refl
  first_bytes-append m (x ∷ xs) ys = ap (λ t. x ∷ t) (first_bytes-append (λ i. m (suc i)) xs ys)

  read_characters-append :
      (v rest : List ℕ)
      → length v + 1 < 2 ^ 31
      → read_characters memory (length v + 1) (stream ((v ++ (0 ∷ [])) ++ rest)) ≡ (v, stream rest)
  unfolding read_characters
  read_characters-append v rest h =
      let n = length v + 1 in
      let e : read n (stream ((v ++ (0 ∷ [])) ++ rest)) ≡ (v ++ (0 ∷ []), stream rest) =
        ap (λ (k : ℕ). read k (stream ((v ++ (0 ∷ [])) ++ rest))) {x = n}
          {y = length (v ++ (0 ∷ []))} (omega (arith, length-append v (0 ∷ [])))
        ∙ read-append (v ++ (0 ∷ [])) rest in
      let f : first_bytes memory (v ++ (0 ∷ [])) (n - 1) ≡ v =
        ap (λ (k : ℕ). first_bytes memory (v ++ (0 ∷ [])) k) {x = n - 1} {y = length v}
          (omega arith)
        ∙ first_bytes-append memory v (0 ∷ []) in
      ground (arith, e, f)

  string_parts :
      (v rest : List ℕ)
      → length v + 1 < 2 ^ 31
      → (be_bytes 4 ((length v + 1) % 2 ^ 32) ++ (v ++ (0 ∷ []))) ++ rest
        ≡ be_bytes 4 (length v + 1) ++ ((v ++ (0 ∷ [])) ++ rest)
  string_parts v rest h =
      append_assoc (be_bytes 4 ((length v + 1) % 2 ^ 32)) (v ++ (0 ∷ [])) rest
      ∙ ap (λ (k : ℕ). be_bytes 4 k ++ ((v ++ (0 ∷ [])) ++ rest)) {x = (length v + 1) % 2 ^ 32}
          (omega arith)

  pub read_primitive-bytes :
      (t : Ty) (v old : Val t) (rest : List ℕ)
      → IsPrimitive t
      → IsSendable t v
      → read_primitive memory t (stream (primitive_bytes t v ++ rest)) old ≡ (v, stream rest)
  unfolding read_primitive primitive_bytes
  read_primitive-bytes bool true old rest p h = rw (read-append (1 ∷ []) rest)
  read_primitive-bytes bool false old rest p h = rw (read-append (0 ∷ []) rest)
  read_primitive-bytes char v old rest p h = read_byte-cons v old rest
  read_primitive-bytes int8 v old rest p h = read_byte-cons v old rest
  read_primitive-bytes uint8 v old rest p h = read_byte-cons v old rest
  read_primitive-bytes int16 v old rest p h = read_be-be_bytes 2 v rest h
  read_primitive-bytes uint16 v old rest p h = read_be-be_bytes 2 v rest h
  read_primitive-bytes int32 v old rest p h = read_be-be_bytes 4 v rest h
  read_primitive-bytes uint32 v old rest p h = read_be-be_bytes 4 v rest h
  read_primitive-bytes int64 v old rest p h = read_be-be_bytes 8 v rest h
  read_primitive-bytes uint64 v old rest p h = read_be-be_bytes 8 v rest h
  read_primitive-bytes float v old rest p h = read_be-be_bytes 4 v rest h
  read_primitive-bytes double v old rest p h = read_be-be_bytes 8 v rest h
  read_primitive-bytes string v old rest p h =
      rw
        (
          string_parts v rest h,
          read_be-be_bytes 4 (length v + 1) ((v ++ (0 ∷ [])) ++ rest) (omega arith),
        )
        (read_characters-append v rest h)
  read_primitive-bytes (message s) v old rest p h = absurd (omega arith)
