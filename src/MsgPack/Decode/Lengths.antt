-- ===== src/MsgPack/Decode/Lengths.antt =====
-- No reader leaves more bytes than there were.
use libcluon.Prelude.{
  ◌⊎◌, ℕ, ◌≤◌, ◌<◌, ◌≡◌, refl, arith, List, [], ◌∷◌, Option, some, length, inl, inr,
}
use libcluon.Stream.{Stream, get, read_be, length-read}
use libcluon.MsgPack.Constants.{
  Format, unknown_format, bool_format, uint_format, int_format, float_format, str_format,
  map_format, format_family,
}
use libcluon.MsgPack.Decode.{
  get8, unget, read_uint, uint_behind, read_int, int_behind, widened, length_behind, characters,
  read_string, float_value, find_map, tokens_behind,
}

pub length-get8 : (s : Stream) → length (get8 s).1.rest ≤ length s.rest
unfolding get8 get
length-get8 s = ground arith

pub length-unget : (s : Stream) → length (unget (get8 s).0 (get8 s).1).rest ≤ length s.rest
unfolding get8 get unget
length-unget s = ground arith

pub length-read_be : (n : ℕ) (s : Stream) → length (read_be n s).1.rest ≤ length s.rest
unfolding read_be
length-read_be n s = length-read n s

pub length-uint_behind : (c : ℕ) (s : Stream) → length (uint_behind c s).1.rest ≤ length s.rest
unfolding uint_behind
length-uint_behind c s =
    ground (arith, length-read_be 1 s, length-read_be 2 s, length-read_be 4 s, length-read_be 8 s)

pub length-int_behind : (c : ℕ) (s : Stream) → length (int_behind c s).1.rest ≤ length s.rest
unfolding int_behind widened
length-int_behind c s =
    ground (arith, length-read_be 1 s, length-read_be 2 s, length-read_be 4 s, length-read_be 8 s)

pub length-length_behind : (c : ℕ) (s : Stream) → length (length_behind c s).1.rest ≤ length s.rest
unfolding length_behind
length-length_behind c s =
    ground (arith, length-read_be 1 s, length-read_be 2 s, length-read_be 4 s)

pub length-tokens_behind : (c : ℕ) (s : Stream) → length (tokens_behind c s).1.rest ≤ length s.rest
unfolding tokens_behind
length-tokens_behind c s = ground (arith, length-read_be 2 s, length-read_be 4 s)

pub length-float_value : (c : ℕ) (s : Stream) → length (float_value c s).1.rest ≤ length s.rest
unfolding float_value
length-float_value c s = ground (arith, length-read_be 4 s, length-read_be 8 s)

pub length-read_uint : (s : Stream) → length (read_uint s).1.rest ≤ length s.rest
unfolding read_uint
length-read_uint s = ground (arith, length-get8 s, length-uint_behind (get8 s).0 (get8 s).1)

pub length-read_int : (s : Stream) → length (read_int s).1.rest ≤ length s.rest
unfolding read_int
length-read_int s = ground (arith, length-get8 s, length-int_behind (get8 s).0 (get8 s).1)

found :
    (b c : ℕ) (bytes rest : List ℕ)
    → ◌≡◌ {A = Option (ℕ × List ℕ)} (some (b, bytes)) (some (c, rest))
    → length bytes ≡ length rest
found b c bytes rest h = ground arith

-- A byte that opens no map is passed over.
find_map-cons :
    (b c : ℕ) (bytes rest : List ℕ) (f : Format)
    → format_family b ≡ f
    → find_map (b ∷ bytes) ≡ some (c, rest)
    → (find_map bytes ≡ some (c, rest)) ⊎ (length bytes ≡ length rest)
unfolding find_map
find_map-cons b c bytes rest unknown_format e h = inl (rw (find_map, e) at h)
find_map-cons b c bytes rest bool_format e h = inl (rw (find_map, e) at h)
find_map-cons b c bytes rest uint_format e h = inl (rw (find_map, e) at h)
find_map-cons b c bytes rest int_format e h = inl (rw (find_map, e) at h)
find_map-cons b c bytes rest float_format e h = inl (rw (find_map, e) at h)
find_map-cons b c bytes rest str_format e h = inl (rw (find_map, e) at h)
find_map-cons b c bytes rest map_format e h = inr (found b c bytes rest (rw (find_map, e) at h))

pub length-find_map :
    (bytes rest : List ℕ) (c : ℕ) → find_map bytes ≡ some (c, rest) → length rest < length bytes
length-find_map [] rest c h = unfold find_map in absurd (ground (arith, h))
length-find_map (b ∷ bytes) rest c h =
    elim (find_map-cons b c bytes rest (format_family b) refl h) [
      | inl g ↦ omega (arith, length-find_map bytes rest c g)
      | inr g ↦ omega (arith, g)
    ]

module _ (memory : ℕ → ℕ) where
  pub length-characters :
      (n : ℕ) (s : Stream) → length (characters memory n s).1.rest ≤ length s.rest
  unfolding characters
  length-characters n s = ground (arith, length-read n s)

  pub length-read_string : (s : Stream) → length (read_string memory s).1.rest ≤ length s.rest
  unfolding read_string
  length-read_string s =
      let b = length_behind (get8 s).0 (get8 s).1 in
      ground (
        arith,
        length-get8 s,
        length-length_behind (get8 s).0 (get8 s).1,
        length-characters b.0 b.1,
      )
