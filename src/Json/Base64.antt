-- ===== src/Json/Base64.antt =====
-- ToJSONVisitor::encodeBase64 (libcluon/src/ToJSONVisitor.cpp) and FromJSONVisitor::decodeBase64
-- (libcluon/src/FromJSONVisitor.cpp).
use libcluon.Prelude.{
  ℕ, zero, suc, ◌+◌, ◌*◌, ◌/◌, ◌%◌, ◌^◌, List, [], ◌∷◌, ◌++◌, Option, none, some, ◌==◌,
  if◌then◌else◌, length, take, codes, bit_and, bit_or,
}

abbrev pub alphabet : List ℕ
alphabet = codes "ABCDEFGHIJKLMNOPQRSTUVWXYZabcdefghijklmnopqrstuvwxyz0123456789+/"

-- std::string::at, which throws out of range.
unfoldable pub at : List ℕ → ℕ → Option ℕ
at [] i = none
at (x ∷ xs) zero = some x
at (x ∷ xs) (suc i) = at xs i

-- retVal += ALPHABET.at(i) for each index, and what is added behind.
unfoldable pub letters : List ℕ → Option (List ℕ) → Option (List ℕ)
letters [] behind = behind
letters (i ∷ is) behind = elim (at alphabet i) [
  | none ↦ none
  | some x ↦ elim (letters is behind) [ none ↦ none | some xs ↦ some (x ∷ xs) ]
]

-- The four indices of a value of 24 bits.
unfoldable pub indices : ℕ → List ℕ
indices value =
    (bit_and value 0xFC0000 / 2 ^ 18)
    ∷ (bit_and value 0x3F000 / 2 ^ 12)
    ∷ (bit_and value 0xFC0 / 2 ^ 6)
    ∷ bit_and value 0x3F
    ∷ []

-- encodeBase64(input): none, if at() throws.
unfoldable pub encode_base64 : List ℕ → Option (List ℕ)
encode_base64 [] = some []
encode_base64 (a ∷ []) = letters (take 2 (indices (a * 2 ^ 16))) (some (codes "=="))
encode_base64 (a ∷ b ∷ []) =
    letters (take 3 (indices (bit_or (a * 2 ^ 16) (b * 2 ^ 8)))) (some (codes "="))
encode_base64 (a ∷ b ∷ c ∷ input) =
    letters (indices (bit_or (bit_or (a * 2 ^ 16) (b * 2 ^ 8)) c)) (encode_base64 input)

-- The loop that looks for a character in the alphabet, from the index c on.
unfoldable pub search : List ℕ → ℕ → ℕ → ℕ
search [] c x = c
search (a ∷ as') c x = let next = search as' (c + 1) x in if a == x then c else next

abbrev pub digit : ℕ → ℕ
digit x = search alphabet 0 x

-- What is decoded from four digits; 64 stands for a character that is not in the alphabet.
unfoldable pub decoded_of : List ℕ → List ℕ
decoded_of (b0 ∷ b1 ∷ b2 ∷ b3 ∷ []) =
    ((b0 * 2 ^ 2 + b1 / 2 ^ 4) % 2 ^ 8)
    ∷ ((if b2 == 64 then [] else ((b1 * 2 ^ 4 + b2 / 2 ^ 2) % 2 ^ 8) ∷ [])
        ++ (if b3 == 64 then [] else ((b2 * 2 ^ 6 + b3) % 2 ^ 8) ∷ []))
decoded_of _ = []

-- The loop of decodeBase64, where `buffer` is as long as counter says.
unfoldable pub decode_loop : List ℕ → List ℕ → List ℕ
decode_loop buffer [] = []
decode_loop buffer (x ∷ input) =
    let filled = buffer ++ (digit x ∷ []) in
    let full = length filled == 4 in
    (if full then decoded_of filled else []) ++ decode_loop (if full then [] else filled) input

-- decodeBase64(input)
unfoldable pub decode_base64 : List ℕ → List ℕ
decode_base64 input = decode_loop [] input
