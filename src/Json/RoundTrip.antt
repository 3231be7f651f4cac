-- ===== src/Json/RoundTrip.antt =====
-- Decoding Base64 gives back what was encoded.
use libcluon.Prelude.{
  append-nil, ℕ, zero, suc, ◌+◌, ◌-◌, ◌*◌, ◌/◌, ◌%◌, ◌^◌, ◌<◌, ◌≡◌, refl, ap, ◌∙◌, arith, Bool,
  true, false, ◌&&◌, List, [], ◌∷◌, ◌++◌, Option, none, some, ◌==◌, ==_iff, take, bit_and, bit_or,
  All, Option-cases, inl, inr, ◌≢◌,
}
use libcluon.Prelude.Bits.{bit_and-mask, bit_and-shifted, field-bit_or}
use libcluon.Prelude.Words.{IsByte}
use native.Mathlib.Decide.{dec_lt}
use libcluon.Json.Base64.{
  alphabet, at, letters, indices, encode_base64, search, digit, decoded_of, decode_loop,
  decode_base64,
}

-- The bits of a value behind each mask.
masked : (k j x : ℕ) → bit_and x ((2 ^ j - 1) * 2 ^ k) ≡ x / 2 ^ k % 2 ^ j * 2 ^ k
masked k j x =
    bit_and-shifted k x (2 ^ j - 1) ∙ ap (λ (t : ℕ). t * 2 ^ k) (bit_and-mask j (x / 2 ^ k))

sextets : ℕ → ℕ → ℕ → List ℕ
sextets a b c = (a / 4) ∷ (a % 4 * 16 + b / 16) ∷ (b % 16 * 4 + c / 64) ∷ (c % 64) ∷ []

indices-sextets :
    (a b c v : ℕ)
    → a < 256
    → b < 256
    → c < 256
    → v ≡ a * 2 ^ 16 + b * 2 ^ 8 + c
    → indices v ≡ sextets a b c
unfolding indices sextets
indices-sextets a b c v ha hb hc e =
    ground (arith, masked 18 6 v, masked 12 6 v, masked 6 6 v, bit_and-mask 6 v)

-- Each index below 64 has a character, and that one has the index.
good : ℕ → Bool
good d = elim (at alphabet d) [ none ↦ false | some x ↦ digit x == d ]

all_good : ℕ → Bool
unfolding good
all_good zero = true
all_good (suc n) = good n && all_good n

all_64 : all_good 64 ≡ true
unfolding all_good at search
all_64 = refl

good-none : (d : ℕ) → at alphabet d ≡ none → good d ≢ true
unfolding good at
good-none d n g = ground (arith, rw n at g)

good-some : (d x : ℕ) → at alphabet d ≡ some x → good d ≡ true → digit x ≡ d
unfolding good at
good-some d x e g = (==_iff (digit x) d).0 (rw e at g)

and_parts : (a b : Bool) → (a && b) ≡ true → (a ≡ true) × (b ≡ true)
and_parts true b h = (refl, h)
and_parts false b h = (h, absurd (ground arith))

all_good-below : (n d : ℕ) → all_good n ≡ true → d < n → good d ≡ true
unfolding all_good
all_good-below zero d h l = absurd (omega arith)
all_good-below (suc n) d h l = elim (dec_lt d n) [
  | yes e ↦ all_good-below n d (and_parts (good n) (all_good n) h).1 e
  | no e ↦
      ap (λ (t : ℕ). good t) {x = d} {y = n} (omega (arith, e))
      ∙ (and_parts (good n) (all_good n) h).0
]

letter_of : (d : ℕ) → d < 64 → (x : ℕ) × (at alphabet d ≡ some x) × (digit x ≡ d)
letter_of d l =
    let g : good d ≡ true = all_good-below 64 d all_64 l in
    elim (Option-cases (at alphabet d)) [
      | inl n ↦ absurd (good-none d n g)
      | inr (x, e) ↦ (x, e, good-some d x e g)
    ]

-- A result of the encoder that is decoded as `s`.
abbrev pub Decodes : Option (List ℕ) → List ℕ → Type 0
Decodes o s = (t : List ℕ) × (o ≡ some t) × (decode_base64 t ≡ s)

letters-cons :
    (d x : ℕ) (ds xs : List ℕ) (behind : Option (List ℕ))
    → at alphabet d ≡ some x
    → letters ds behind ≡ some xs
    → letters (d ∷ ds) behind ≡ some (x ∷ xs)
unfolding letters at
letters-cons d x ds xs behind e f = rw (e, f)

letters-nil : (behind : Option (List ℕ)) → letters [] behind ≡ behind
unfolding letters
letters-nil behind = refl

decode-four :
    (x0 x1 x2 x3 : ℕ) (t : List ℕ)
    → decode_base64 (x0 ∷ x1 ∷ x2 ∷ x3 ∷ t)
      ≡ decoded_of (digit x0 ∷ digit x1 ∷ digit x2 ∷ digit x3 ∷ []) ++ decode_base64 t
unfolding decode_base64 decode_loop
decode-four x0 x1 x2 x3 t = refl

four-Decodes :
    (d0 d1 d2 d3 : ℕ) (behind : Option (List ℕ)) (s : List ℕ)
    → d0 < 64
    → d1 < 64
    → d2 < 64
    → d3 < 64
    → Decodes behind s
    → Decodes (letters (d0 ∷ d1 ∷ d2 ∷ d3 ∷ []) behind) (decoded_of (d0 ∷ d1 ∷ d2 ∷ d3 ∷ []) ++ s)
four-Decodes d0 d1 d2 d3 behind s h0 h1 h2 h3 (t, e, f) =
    let (x0, e0, f0) = letter_of d0 h0 in
    let (x1, e1, f1) = letter_of d1 h1 in
    let (x2, e2, f2) = letter_of d2 h2 in
    let (x3, e3, f3) = letter_of d3 h3 in
    (
      x0 ∷ x1 ∷ x2 ∷ x3 ∷ t,
      letters-cons d0 x0 _ _ behind e0 (
          letters-cons d1 x1 _ _ behind e1 (
            letters-cons d2 x2 _ _ behind e2
              (letters-cons d3 x3 _ _ behind e3 (letters-nil behind ∙ e)))),
      decode-four x0 x1 x2 x3 t ∙ rw (f0, f1, f2, f3, f),
    )

-- With padding for a third and a fourth character, which decodes to nothing.
pad : (digit 61 ≡ 64) × (decode_base64 [] ≡ [])
unfolding search decode_base64 decode_loop
pad = (refl, refl)

three-Decodes :
    (d0 d1 d2 : ℕ)
    → d0 < 64
    → d1 < 64
    → d2 < 64
    → Decodes
        (letters (d0 ∷ d1 ∷ d2 ∷ []) (some (61 ∷ [])))
        (decoded_of (d0 ∷ d1 ∷ d2 ∷ 64 ∷ []) ++ [])
three-Decodes d0 d1 d2 h0 h1 h2 =
    let (x0, e0, f0) = letter_of d0 h0 in
    let (x1, e1, f1) = letter_of d1 h1 in
    let (x2, e2, f2) = letter_of d2 h2 in
    let behind = some (61 ∷ []) in
    (
      x0 ∷ x1 ∷ x2 ∷ 61 ∷ [],
      letters-cons d0 x0 _ _ behind e0 (
          letters-cons d1 x1 _ _ behind e1 (letters-cons d2 x2 _ _ behind e2 (letters-nil behind))),
      decode-four x0 x1 x2 61 [] ∙ rw (f0, f1, f2, pad.0, pad.1),
    )

two-Decodes :
    (d0 d1 : ℕ)
    → d0 < 64
    → d1 < 64
    → Decodes
        (letters (d0 ∷ d1 ∷ []) (some (61 ∷ 61 ∷ [])))
        (decoded_of (d0 ∷ d1 ∷ 64 ∷ 64 ∷ []) ++ [])
two-Decodes d0 d1 h0 h1 =
    let (x0, e0, f0) = letter_of d0 h0 in
    let (x1, e1, f1) = letter_of d1 h1 in
    let behind = some (61 ∷ 61 ∷ []) in
    (
      x0 ∷ x1 ∷ 61 ∷ 61 ∷ [],
      letters-cons d0 x0 _ _ behind e0 (letters-cons d1 x1 _ _ behind e1 (letters-nil behind)),
      decode-four x0 x1 61 61 [] ∙ rw (f0, f1, pad.0, pad.1),
    )

-- What is decoded from the sextets of three bytes, and of fewer.
decoded_of-sextets :
    (a b c : ℕ)
    → a < 256
    → b < 256
    → c < 256
    → (decoded_of (sextets a b c) ≡ a ∷ b ∷ c ∷ [])
      × (decoded_of ((a / 4) ∷ (a % 4 * 16 + b / 16) ∷ (b % 16 * 4 + 0 / 64) ∷ 64 ∷ [])
          ≡ a ∷ b ∷ [])
      × (decoded_of ((a / 4) ∷ (a % 4 * 16 + 0 / 16) ∷ 64 ∷ 64 ∷ []) ≡ a ∷ [])
unfolding decoded_of sextets
decoded_of-sextets a b c ha hb hc = ground arith

value_of :
    (a b c : ℕ)
    → b < 256
    → c < 256
    → (bit_or (a * 2 ^ 16) (b * 2 ^ 8) ≡ a * 2 ^ 16 + b * 2 ^ 8)
      × (bit_or (bit_or (a * 2 ^ 16) (b * 2 ^ 8)) c ≡ a * 2 ^ 16 + b * 2 ^ 8 + c)
value_of a b c hb hc =
    let e : bit_or (a * 2 ^ 16) (b * 2 ^ 8) ≡ a * 2 ^ 16 + b * 2 ^ 8 =
      field-bit_or 16 a (b * 2 ^ 8) (omega arith) in
    (
      e,
      ap (λ (t : ℕ). bit_or t c) (e ∙ omega arith)
          ∙ field-bit_or 8 (a * 2 ^ 8 + b) c hc
          ∙ omega arith,
    )

-- Decodes with equal indices.
re_indexed :
    (is js : List ℕ) (behind : Option (List ℕ)) (s t : List ℕ)
    → is ≡ js
    → s ≡ t
    → Decodes (letters js behind) s
    → Decodes (letters is behind) t
re_indexed is js behind s t e f (x, g, h) = (x, ap (λ d. letters d behind) e ∙ g, h ∙ f)

-- For every string of bytes, encodeBase64 takes no character beyond its alphabet, so it does not
-- throw, and decodeBase64 gives the string back from its result.
pub encode_base64-Decodes : (s : List ℕ) → All IsByte s → Decodes (encode_base64 s) s
unfolding encode_base64 sextets
encode_base64-Decodes [] h = ([], refl, pad.1)
encode_base64-Decodes (a ∷ []) h =
    re_indexed _ _ (some (61 ∷ 61 ∷ [])) _ _
      (ap (λ d. take 2 d)
        (indices-sextets a 0 0 (a * 2 ^ 16) h.0 (omega arith) (omega arith) (omega arith)))
      (append-nil _ ∙ (decoded_of-sextets a 0 0 h.0 (omega arith) (omega arith)).2)
      (two-Decodes (a / 4) (a % 4 * 16 + 0 / 16) (omega (arith, h.0)) (omega arith))
encode_base64-Decodes (a ∷ b ∷ []) h =
    re_indexed _ _ (some (61 ∷ [])) _ _
      (ap (λ d. take 3 d)
        (indices-sextets a b 0 (bit_or (a * 2 ^ 16) (b * 2 ^ 8)) h.0 h.1.0 (omega arith)
          (omega (arith, (value_of a b 0 h.1.0 (omega arith)).0))))
      (append-nil _ ∙ (decoded_of-sextets a b 0 h.0 h.1.0 (omega arith)).1)
      (three-Decodes (a / 4) (a % 4 * 16 + b / 16) (b % 16 * 4 + 0 / 64) (omega (arith, h.0))
        (omega (arith, h.1.0)) (omega arith))
encode_base64-Decodes (a ∷ b ∷ c ∷ s) h =
    re_indexed _ _ (encode_base64 s) _ _
      (indices-sextets a b c (bit_or (bit_or (a * 2 ^ 16) (b * 2 ^ 8)) c) h.0 h.1.0 h.1.1.0
        (value_of a b c h.1.0 h.1.1.0).1)
      (ap (λ d. d ++ s) (decoded_of-sextets a b c h.0 h.1.0 h.1.1.0).0)
      (four-Decodes (a / 4) (a % 4 * 16 + b / 16) (b % 16 * 4 + c / 64) (c % 64) (encode_base64 s) s
        (omega (arith, h.0)) (omega (arith, h.1.0)) (omega (arith, h.1.1.0)) (omega arith)
        (encode_base64-Decodes s h.1.1.1))
