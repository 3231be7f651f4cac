-- ===== src/Player/Index/Reading.antt =====
-- How far extractEnvelope of libcluon/include/cluon/Envelope.hpp moves a stream that stays good.
use libcluon.Prelude.{
  ℕ, ◌+◌, ◌≤◌, ◌≡◌, refl, ap, sym, ◌∙◌, arith, Bool, true, false, ◌⊎◌, inl, inr, if◌then◌else◌,
  length, drop, drop-drop, length-drop, Bool-cases, leb,
}
use libcluon.Stream.{Stream, stream, read}
use libcluon.Envelope.{Envelope, extract_envelope, extract_payload}

read_good :
    (n : ℕ) (s : Stream)
    → (read n s).1.good ≡ true
    → (s.good ≡ true) × (n ≤ length s.rest) × ((read n s).1 ≡ stream (drop n s.rest))
unfolding read
read_good n s g = elim (Bool-cases s.good) [
  | inl e ↦ elim (Bool-cases (leb n (length s.rest))) [
    | inl l ↦ (e, ground arith, rw (e, l))
    | inr l ↦ ground arith
  ]
  | inr e ↦ ground arith
]

module _ (memory : ℕ → ℕ) where
  -- Where the stream stands as extractEnvelope returns.
  data Leaves (s : Stream) : Bool × Envelope × Stream → Type 0 where
    after_header : (valid : Bool) (env : Envelope) → Leaves s (valid, env, (read 5 s).1)
    after_payload :
        (n : ℕ) (valid : Bool) (env : Envelope) → Leaves s (valid, env, (read n (read 5 s).1).1)

  if_Leaves :
      (s : Stream) (b : Bool) (x y : Bool × Envelope × Stream)
      → Leaves s x
      → Leaves s y
      → Leaves s (if b then x else y)
  if_Leaves s true x y h k = h
  if_Leaves s false x y h k = k

  extract_envelope-Leaves : (s : Stream) → Leaves s (extract_envelope memory s)
  unfolding extract_envelope extract_payload
  extract_envelope-Leaves s = search (if_Leaves, after_header, after_payload)

  stream-Leaves :
      (s : Stream) {r : Bool × Envelope × Stream}
      → Leaves s r
      → (r.2 ≡ (read 5 s).1) ⊎ ((n : ℕ) × (r.2 ≡ (read n (read 5 s).1).1))
  stream-Leaves s (after_header valid env) = inl refl
  stream-Leaves s (after_payload n valid env) = inr (n, refl)

  -- A stream that is good after an envelope is extracted from it, or fails to be, has moved on by
  -- five bytes at least.
  pub extract_envelope-moves :
      (s : Stream)
      → (extract_envelope memory s).2.good ≡ true
      → (k : ℕ) × (5 ≤ k)
        × (k ≤ length s.rest)
        × ((extract_envelope memory s).2 ≡ stream (drop k s.rest))
  extract_envelope-moves s g = elim (stream-Leaves s (extract_envelope-Leaves s)) [
    | inl e ↦
        let (good, le, there) = read_good 5 s (ap (λ t. t.good) (sym e) ∙ g) in
        (5, omega arith, le, e ∙ there)
    | inr (n, e) ↦
        let (good', le', there') = read_good n (read 5 s).1 (ap (λ t. t.good) (sym e) ∙ g) in
        let (good, le, there) = read_good 5 s good' in
        let rest = ap (λ t. t.rest) there in
        (
          5 + n,
          omega arith,
          omega (arith, ap length rest, length-drop 5 s.rest),
          e ∙ there' ∙ ap (λ bs. stream (drop n bs)) rest ∙ ap stream (drop-drop 5 n s.rest),
        )
  ]
