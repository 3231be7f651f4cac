-- ===== src/Proto/Decode/Rounds.antt =====
-- The loop of both ways to decode ends: each round but the last takes a byte.
use libcluon.Prelude.{
  if_equal, ℕ, zero, suc, ◌<◌, ◌≡◌, sym, ap, ◌∙◌, arith, true, false, List, ◌==◌, ltb, inl, inr,
  if◌then◌else◌, length, Bool-cases, refl, Bool, ◌&&◌, if_false, some, none,
}
use mathlib.Core.Path.{subst}
use libcluon.Stream.{Stream, stream, read, Within, read-Within, as_record}
use libcluon.Proto.VarInt.{from_var_int}
use libcluon.Proto.VarInt.Progress.{from_var_int-Within, from_var_int_any-Within}
use libcluon.Proto.Decode.{
  Decoder, varint, eight_bytes, four_bytes, length_delimited, read_bytes_from_stream, read_payload,
  with_key, read_field, decode_loop,
}
use libcluon.Proto.Decode.Reading.{read_bytes_from_stream-read, read_bytes_bad}
use libcluon.Proto.Decode.Loop.{decode_loop-bad}
use libcluon.Proto.Decode.Returns.{field_returns, loop_returns, loop_outcome}

read_bytes_from_stream-Within :
    (n m : ℕ) (s : Stream) → Within m s → Within m (read_bytes_from_stream n s).1
read_bytes_from_stream-Within n m s h = elim (Bool-cases s.good) [
  | inl g ↦
      (let e : read_bytes_from_stream n s ≡ read n s =
          ap (λ t. read_bytes_from_stream n t) (as_record s true g)
          ∙ read_bytes_from_stream-read n s.rest
          ∙ ap (λ t. read n t) (sym (as_record s true g)) in
        subst (λ r. Within m r.1) (sym e) (read-Within n m s h))
  | inr g ↦ inl (
      ap (λ r. r.1.good)
        (ap (λ t. read_bytes_from_stream n t) (as_record s false g) ∙ read_bytes_bad n s.rest))
]

read_payload-Within :
    (m : ℕ) (d : Decoder) (s : Stream) → Within m s → Within m (read_payload d s).1
unfolding read_payload
read_payload-Within m d s h = elim (Bool-cases (d.proto_type == varint)) [
  | inl p ↦ rw p (from_var_int_any-Within m s h)
  | inr p ↦ elim (Bool-cases (d.proto_type == eight_bytes)) [
    | inl q ↦ rw (p, q) (read_bytes_from_stream-Within 8 m s h)
    | inr q ↦ elim (Bool-cases (d.proto_type == four_bytes)) [
      | inl r ↦ rw (p, q, r) (read_bytes_from_stream-Within 4 m s h)
      | inr r ↦ elim (Bool-cases (d.proto_type == length_delimited)) [
        | inl t ↦
            rw (p, q, r, t)
              (read_bytes_from_stream-Within (from_var_int s).0 m (from_var_int s).2
                (from_var_int_any-Within m s h))
        | inr t ↦ rw (p, q, r, t) h
      ]
    ]
  ]
]

read_field-Within : (d : Decoder) (bs : List ℕ) → Within (length bs) (read_field d (stream bs)).1
unfolding read_field
read_field-Within d bs = elim (Bool-cases (ltb 0 (from_var_int (stream bs)).1)) [
  | inl p ↦ rw p (
      read_payload-Within (length bs) (with_key d (from_var_int (stream bs)).0)
        (from_var_int (stream bs)).2 (from_var_int-Within bs))
  | inr p ↦ rw p (from_var_int-Within bs)
]

read_field_good-Within :
    (d : Decoder) (s : Stream) → s.good ≡ true → Within (length s.rest) (read_field d s).1
read_field_good-Within d s g =
    subst (λ t. Within (length s.rest) (read_field d t).1) (sym (as_record s true g))
      (read_field-Within d s.rest)

decode_loop_failed {ℓ} :
    {X : Type ℓ} (store : Decoder → X → X) (k : ℕ) (d : Decoder) (s : Stream) (x : X)
    → s.good ≡ false
    → decode_loop store k d s x ≡ x
decode_loop_failed store k d s x g =
    ap (λ t. decode_loop store k d t x) (as_record s false g) ∙ decode_loop-bad store k d s.rest x

decode_loop_rounds {ℓ} :
    {X : Type ℓ} (store : Decoder → X → X) (k n : ℕ) (d : Decoder) (s : Stream) (x : X)
    → length s.rest < k
    → length s.rest < n
    → decode_loop store k d s x ≡ decode_loop store n d s x
unfolding decode_loop
decode_loop_rounds store zero n d s x h l = absurd (omega arith)
decode_loop_rounds store (suc k) zero d s x h l = absurd (omega arith)
decode_loop_rounds store (suc k) (suc n) d s x h l =
    let y = if (read_field d s).2 then store (read_field d s).0 x else x in
    if_equal _ _ x s.good (λ g. elim (read_field_good-Within d s g) [
      | inl b ↦
          decode_loop_failed store k (read_field d s).0 (read_field d s).1 y b
          ∙ sym (decode_loop_failed store n (read_field d s).0 (read_field d s).1 y b)
      | inr w ↦
          decode_loop_rounds store k n (read_field d s).0 (read_field d s).1 y (omega arith)
            (omega arith)
    ])

module _ (room : ℕ) (check : Decoder → Bool) where
  loop_returns_failed :
      (k : ℕ) (d : Decoder) (s : Stream) → s.good ≡ false → loop_returns room check k d s ≡ true
  unfolding loop_returns
  loop_returns_failed zero d s g = refl
  loop_returns_failed (suc k) d s g = if_false s.good _ _ g

  loop_returns_rounds :
      (k n : ℕ) (d : Decoder) (s : Stream)
      → length s.rest < k
      → length s.rest < n
      → loop_returns room check k d s ≡ loop_returns room check n d s
  unfolding loop_returns
  loop_returns_rounds zero n d s h l = absurd (omega arith)
  loop_returns_rounds (suc k) zero d s h l = absurd (omega arith)
  loop_returns_rounds (suc k) (suc n) d s h l =
      let (d', s', known) = read_field d s in
      let round = λ (r : Bool). field_returns room d s && (if known then check d' else true) && r in
      if_equal _ _ true s.good (λ g. ap round (elim (read_field_good-Within d s g) [
        | inl b ↦ loop_returns_failed k d' s' b ∙ sym (loop_returns_failed n d' s' b)
        | inr w ↦ loop_returns_rounds k n d' s' (omega arith) (omega arith)
      ]))

  -- On every stream, whatever its bytes, the loop of decodeFrom comes to the same end with any
  -- two numbers of rounds above the number of bytes that are left: with both it does not return
  -- or is undefined, since a length is larger than the room or a number has more than ten bytes,
  -- or with both it returns, with the same result.
  pub loop_outcome_rounds {ℓ} :
      {X : Type ℓ} (store : Decoder → X → X) (k n : ℕ) (d : Decoder) (s : Stream) (x : X)
      → length s.rest < k
      → length s.rest < n
      → loop_outcome room store check k d s x ≡ loop_outcome room store check n d s x
  unfolding loop_outcome
  loop_outcome_rounds store k n d s x h l = λ i.
      if loop_returns_rounds k n d s h l i
      then some (decode_loop_rounds store k n d s x h l i)
      else none
