-- ===== src/Lcm/Hash.antt =====
-- The hash of ToLCMVisitor and FromLCMVisitor (libcluon/src/ToLCMVisitor.cpp,
-- libcluon/src/FromLCMVisitor.cpp): patterns of an int64_t, with sums and shifts modulo 2^64.
use libcluon.Prelude.{ℕ, ◌+◌, ◌-◌, ◌*◌, ◌/◌, ◌%◌, ◌^◌, ◌≤◌, ◌≡◌, refl, sym, ap, ◌∙◌, arith}
use libcluon.Prelude.{
  List, [], ◌∷◌, ◌++◌, bit_xor, ltb, if◌then◌else◌, length, take, drop, take-append-drop, drop-all,
  append-nil, Bool-cases, inl, inr, codes,
}
use libcluon.Visitor.{
  Ty, message, bool, char, int8, uint8, int16, uint16, int32, uint32, int64, uint64,
}
use libcluon.Visitor.{float, double, string}

-- m_hash >> 55, and a char as an int64_t
abbrev shift_right_55 : ℕ → ℕ
shift_right_55 h = if ltb h (2 ^ 63) then h / 2 ^ 55 else h / 2 ^ 55 + (2 ^ 64 - 2 ^ 9)

abbrev sign_extend : ℕ → ℕ
sign_extend c = if ltb c 0x80 then c else c + (2 ^ 64 - 2 ^ 8)

-- calculateHash(c)
unfoldable pub hash_char : ℕ → ℕ → ℕ
hash_char h c = (bit_xor (h * 2 ^ 8 % 2 ^ 64) (shift_right_55 h) + sign_extend c) % 2 ^ 64

unfoldable pub hash_chars : ℕ → List ℕ → ℕ
hash_chars h [] = h
hash_chars h (c ∷ s) = hash_chars (hash_char h c) s

-- calculateHash(s) of each visitor. The encoder goes on with s, the decoder with the shortened tmp.
abbrev shortened : List ℕ → List ℕ
shortened s = if ltb 255 (length s) then take 255 s else s

unfoldable pub encoder_hash : ℕ → List ℕ → ℕ
encoder_hash h s = let tmp = shortened s in hash_chars (hash_char h (length tmp % 2 ^ 8)) s

unfoldable pub decoder_hash : ℕ → List ℕ → ℕ
decoder_hash h s = let tmp = shortened s in hash_chars (hash_char h (length tmp % 2 ^ 8)) tmp

-- hash(): the sum with the hashes of nested messages, rotated by a bit.
abbrev sum_of : ℕ → List ℕ → ℕ
sum_of tmp [] = tmp
sum_of tmp (v ∷ hashes) = sum_of ((tmp + v) % 2 ^ 64) hashes

unfoldable pub hash_of : ℕ → List ℕ → ℕ
hash_of h hashes = let tmp = sum_of h hashes in (tmp * 2 % 2 ^ 64 + tmp / 2 ^ 63) % 2 ^ 64

-- The name that visit() adds for each type; there is none for a message.
abbrev type_name : Ty → List ℕ
type_name bool = codes "boolean"
type_name char = codes "int8_t"
type_name int8 = codes "int8_t"
type_name uint8 = codes "int8_t"
type_name int16 = codes "int16_t"
type_name uint16 = codes "int16_t"
type_name int32 = codes "int32_t"
type_name uint32 = codes "int32_t"
type_name int64 = codes "int64_t"
type_name uint64 = codes "int64_t"
type_name float = codes "float"
type_name double = codes "double"
type_name string = codes "string"
type_name (message s) = []

-- What visit() does to the hash before it reads or writes, with calculateHash(s) of the visitor.
unfoldable pub field_hash : (ℕ → List ℕ → ℕ) → ℕ → List ℕ → Ty → ℕ
field_hash calculate h name (message s) = hash_char (calculate h name) 0
field_hash calculate h name t = hash_char (calculate (calculate h name) (type_name t)) 0

hash_chars-append : (h : ℕ) (s t : List ℕ) → hash_chars h (s ++ t) ≡ hash_chars (hash_chars h s) t
unfolding hash_chars
hash_chars-append h [] t = refl
hash_chars-append h (c ∷ s) t = hash_chars-append (hash_char h c) s t

shortened-drop : (s : List ℕ) → shortened s ++ drop 255 s ≡ s
shortened-drop s = elim (Bool-cases (ltb 255 (length s))) [
  | inl h ↦ rw (h, take-append-drop 255 s)
  | inr h ↦ rw (h, drop-all 255 s (ground arith), append-nil s)
]

shortened_short : (s : List ℕ) → length s ≤ 255 → shortened s ≡ s
shortened_short s l = elim (Bool-cases (ltb 255 (length s))) [
  | inl h ↦ absurd (ground arith)
  | inr h ↦ rw (h)
]

-- The hash of a text in the LCM encoder is the one in the decoder, continued by the characters
-- behind the first 255.
pub encoder_hash-decoder_hash :
    (h : ℕ) (s : List ℕ) → encoder_hash h s ≡ hash_chars (decoder_hash h s) (drop 255 s)
unfolding encoder_hash decoder_hash
encoder_hash-decoder_hash h s =
    let start = hash_char h (length (shortened s) % 2 ^ 8) in
    ap (λ t. hash_chars start t) (sym (shortened-drop s))
    ∙ hash_chars-append start (shortened s) (drop 255 s)

pub encoder_hash_short : (h : ℕ) (s : List ℕ) → length s ≤ 255 → encoder_hash h s ≡ decoder_hash h s
unfolding encoder_hash decoder_hash
encoder_hash_short h s l =
    ap (λ t. hash_chars (hash_char h (length (shortened s) % 2 ^ 8)) t) (sym (shortened_short s l))

typed_hash_short :
    (h : ℕ) (name label : List ℕ)
    → length name ≤ 255
    → length label ≤ 255
    → hash_char (encoder_hash (encoder_hash h name) label) 0
      ≡ hash_char (decoder_hash (decoder_hash h name) label) 0
typed_hash_short h name label l k =
    rw (encoder_hash_short h name l, encoder_hash_short (decoder_hash h name) label k)

pub field_hash_short :
    (h : ℕ) (name : List ℕ) (t : Ty)
    → length name ≤ 255
    → field_hash encoder_hash h name t ≡ field_hash decoder_hash h name t
unfolding field_hash
field_hash_short h name bool l = typed_hash_short h name (type_name bool) l (omega arith)
field_hash_short h name char l = typed_hash_short h name (type_name char) l (omega arith)
field_hash_short h name int8 l = typed_hash_short h name (type_name int8) l (omega arith)
field_hash_short h name uint8 l = typed_hash_short h name (type_name uint8) l (omega arith)
field_hash_short h name int16 l = typed_hash_short h name (type_name int16) l (omega arith)
field_hash_short h name uint16 l = typed_hash_short h name (type_name uint16) l (omega arith)
field_hash_short h name int32 l = typed_hash_short h name (type_name int32) l (omega arith)
field_hash_short h name uint32 l = typed_hash_short h name (type_name uint32) l (omega arith)
field_hash_short h name int64 l = typed_hash_short h name (type_name int64) l (omega arith)
field_hash_short h name uint64 l = typed_hash_short h name (type_name uint64) l (omega arith)
field_hash_short h name float l = typed_hash_short h name (type_name float) l (omega arith)
field_hash_short h name double l = typed_hash_short h name (type_name double) l (omega arith)
field_hash_short h name string l = typed_hash_short h name (type_name string) l (omega arith)
field_hash_short h name (message s) l = rw (encoder_hash_short h name l)
