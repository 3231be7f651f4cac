-- ===== src/MsgPack/Decode/Depth.antt =====
-- Reading maps ends: each map within a map takes a byte.
use libcluon.Prelude.{
  if_equal, ℕ, zero, suc, ◌≤◌, ◌<◌, ◌≡◌, refl, ap, ◌∙◌, arith, Bool, true, false, if◌then◌else◌,
  length, Option-cases, inl, inr,
}
use libcluon.Stream.{Stream, stream}
use libcluon.MsgPack.Constants.{
  Format, unknown_format, bool_format, uint_format, int_format, float_format, str_format,
  map_format, format_family,
}
use libcluon.MsgPack.Decode.{
  KeyValues, nil, put, get8, unget, read_string, read_value, read_entries, find_map, tokens_behind,
  read_key_values,
}
use libcluon.MsgPack.Decode.Lengths.{
  length-find_map, length-float_value, length-get8, length-read_int, length-read_string,
  length-read_uint, length-tokens_behind, length-unget,
}

module _ (memory : ℕ → ℕ) where
  -- A reader of maps that leaves no more bytes than there were, and what reads by it.
  Shrinks : (Stream → KeyValues × Stream) → Type 0
  Shrinks nested = (t : Stream) → length (nested t).1.rest ≤ length t.rest

  value-Shrinks :
      (nested : Stream → KeyValues × Stream) (n c : ℕ) (s : Stream) (f : Format)
      → Shrinks nested
      → format_family c ≡ f
      → length s.rest ≤ n
      → length (unget c s).rest ≤ n
      → length (read_value memory nested c s).1.rest ≤ n
  unfolding read_value Shrinks
  value-Shrinks nested n c s bool_format h e l u = rw (read_value, e) l
  value-Shrinks nested n c s unknown_format h e l u = rw (read_value, e) l
  value-Shrinks nested n c s uint_format h e l u =
      rw (read_value, e) (omega (arith, length-read_uint (unget c s)))
  value-Shrinks nested n c s int_format h e l u =
      rw (read_value, e) (omega (arith, length-read_int (unget c s)))
  value-Shrinks nested n c s float_format h e l u =
      rw (read_value, e) (omega (arith, length-float_value c s))
  value-Shrinks nested n c s str_format h e l u =
      rw (read_value, e) (omega (arith, length-read_string memory (unget c s)))
  value-Shrinks nested n c s map_format h e l u = rw (read_value, e) (omega (arith, h (unget c s)))

  value-agree :
      (nested other : Stream → KeyValues × Stream) (c : ℕ) (s : Stream) (f : Format)
      → format_family c ≡ f
      → nested (unget c s) ≡ other (unget c s)
      → read_value memory nested c s ≡ read_value memory other c s
  unfolding read_value
  value-agree nested other c s bool_format e h = rw (read_value, e)
  value-agree nested other c s unknown_format e h = rw (read_value, e)
  value-agree nested other c s uint_format e h = rw (read_value, e)
  value-agree nested other c s int_format e h = rw (read_value, e)
  value-agree nested other c s float_format e h = rw (read_value, e)
  value-agree nested other c s str_format e h = rw (read_value, e)
  value-agree nested other c s map_format e h = rw (read_value, e, h)

  entry-Shrinks :
      (nested : Stream → KeyValues × Stream) (s : Stream)
      → Shrinks nested
      → length
          (read_value memory nested
            (get8 (read_string memory s).1).0
            (get8 (read_string memory s).1).1).1.rest
        ≤ length s.rest
  entry-Shrinks nested s h =
      let t = (read_string memory s).1 in
      value-Shrinks nested (length s.rest) (get8 t).0 (get8 t).1 (format_family (get8 t).0) h refl
        (omega (arith, length-read_string memory s, length-get8 t))
        (omega (arith, length-read_string memory s, length-unget t))

  entries-Shrinks :
      (nested : Stream → KeyValues × Stream) (tokens : ℕ) (s : Stream) (m : KeyValues)
      → Shrinks nested
      → length (read_entries memory nested tokens s m).1.rest ≤ length s.rest
  unfolding read_entries
  entries-Shrinks nested zero s m h = omega arith
  entries-Shrinks nested (suc tokens) s m h =
      omega (arith, entry-Shrinks nested s h, entries-Shrinks nested tokens _ _ h)

  entries-agree :
      (nested other : Stream → KeyValues × Stream) (b tokens : ℕ) (s : Stream) (m : KeyValues)
      → Shrinks nested
      → ((t : Stream) → length t.rest ≤ b → nested t ≡ other t)
      → length s.rest ≤ b
      → read_entries memory nested tokens s m ≡ read_entries memory other tokens s m
  unfolding read_entries
  entries-agree nested other b zero s m h e l = refl
  entries-agree nested other b (suc tokens) s m h e l =
      let t = (read_string memory s).1 in
      let c = (get8 t).0 in
      let v = read_value memory nested c (get8 t).1 in
      entries-agree nested other b tokens v.1 (put (read_string memory s).0 (format_family c) v.0 m)
        h e (omega (arith, entry-Shrinks nested s h))
      ∙ ap
          (λ r.
            read_entries memory other tokens r.1
              (put (read_string memory s).0 (format_family c) r.0 m))
          (value-agree nested other c (get8 t).1 (format_family c) refl
            (e (unget c (get8 t).1) (omega (arith, length-read_string memory s, length-unget t))))

  if_shrinks :
      (g : Bool) (n : ℕ) (a b : KeyValues × Stream)
      → length a.1.rest ≤ n
      → length b.1.rest ≤ n
      → length (if g then a else b).1.rest ≤ n
  if_shrinks true n a b h l = h
  if_shrinks false n a b h l = l

  key_values-Shrinks : (depth : ℕ) → Shrinks (read_key_values memory depth)
  unfolding Shrinks read_key_values
  key_values-Shrinks zero s = omega arith
  key_values-Shrinks (suc depth) s =
      if_shrinks s.good (length s.rest) _ (nil, s)
        (elim (Option-cases (find_map s.rest)) [
          | inl o ↦ rw o (omega arith)
          | inr (x, o) ↦ rw o (
              omega (
                arith,
                length-find_map s.rest x.1 x.0 o,
                length-tokens_behind x.0 (stream x.1),
                entries-Shrinks (read_key_values memory depth) (tokens_behind x.0 (stream x.1)).0
                    (tokens_behind x.0 (stream x.1)).1 nil (key_values-Shrinks depth),
              ))
        ])
        (omega arith)

  -- On every stream, whatever its bytes, readKeyValues gives the same with any two bounds on the
  -- depth of maps within maps above the number of bytes that are left.
  pub read_key_values_depth :
      (k n : ℕ) (s : Stream)
      → length s.rest < k
      → length s.rest < n
      → read_key_values memory k s ≡ read_key_values memory n s
  unfolding read_key_values
  read_key_values_depth zero n s h l = absurd (omega arith)
  read_key_values_depth (suc k) zero s h l = absurd (omega arith)
  read_key_values_depth (suc k) (suc n) s h l =
      if_equal _ _ (nil, s) s.good
        (λ g. elim (Option-cases (find_map s.rest)) [
          | inl o ↦ rw o
          | inr (x, o) ↦ rw o (
              entries-agree (read_key_values memory k) (read_key_values memory n) (length x.1)
                (tokens_behind x.0 (stream x.1)).0 (tokens_behind x.0 (stream x.1)).1 nil
                (key_values-Shrinks k)
                (λ t b.
                  read_key_values_depth k n t (omega (arith, length-find_map s.rest x.1 x.0 o))
                    (omega (arith, length-find_map s.rest x.1 x.0 o)))
                (length-tokens_behind x.0 (stream x.1)))
        ])
