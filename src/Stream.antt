-- ===== src/Stream.antt =====
-- std::istream over a byte string, as far as the decoders use it: good(), get(), read() and
-- gcount(). A stream is what has not been read yet and whether no eofbit or failbit is set.
use libcluon.Prelude.Words.{be_bytes, from_be, length-be_bytes, from_be-be_bytes}
use libcluon.Prelude.{
  ◌⊎◌, inl, inr, ℕ, zero, suc, ◌-◌, ◌^◌, ◌<◌, ap, ◌∙◌, append-nil, ◌≤◌, ◌≡◌, Bool, true, false,
  Option, none, some,
}
use libcluon.Prelude.{List, [], ◌∷◌, ◌++◌, leb, if◌then◌else◌, arith}
use libcluon.Prelude.{length, take, drop, take-append_length, drop-append_length}
use libcluon.Prelude.{length-drop, length-append}

pub record Stream : Type 0 where
  pub rest : List ℕ
  pub good : Bool

abbrev pub stream : List ℕ → Stream
stream bytes = record { rest = bytes; good = true }

-- in.get(): the next byte, or EOF, after which the stream is no longer good.
abbrev get_from : List ℕ → Option ℕ × Stream
get_from [] = (none, record { rest = []; good = false })
get_from (b ∷ bs) = (some b, stream bs)

unfoldable pub get : Stream → Option ℕ × Stream
get s = if s.good then get_from s.rest else (none, s)

-- in.read(p, n): the bytes that are stored; their number is gcount(). With fewer than `n` left, all
-- of them are stored and the stream is no longer good.
unfoldable pub read : ℕ → Stream → List ℕ × Stream
read n s =
    if s.good
    then (if leb n (length s.rest)
        then (take n s.rest, record { rest = drop n s.rest; good = true })
        else (s.rest, record { rest = []; good = false }))
    else ([], s)

pub read-append : (xs ys : List ℕ) → read (length xs) (stream (xs ++ ys)) ≡ (xs, stream ys)
unfolding read
read-append xs ys =
    ground (arith, length-append xs ys, take-append_length xs ys, drop-append_length xs ys)

pub length-read : (n : ℕ) (s : Stream) → length (read n s).1.rest ≤ length s.rest
unfolding read
length-read n s = ground (arith, length-drop n s.rest)

-- A variable of `n` bytes that is 0, read from the stream and converted from big endian.
abbrev zeros : ℕ → List ℕ
zeros zero = []
zeros (suc n) = 0 ∷ zeros n

unfoldable pub read_be : ℕ → Stream → ℕ × Stream
read_be n s = let (bytes, s') = read n s in (from_be (bytes ++ zeros (n - length bytes)), s')

pub read-be_bytes :
    (n v : ℕ) (rest : List ℕ) → read n (stream (be_bytes n v ++ rest)) ≡ (be_bytes n v, stream rest)
read-be_bytes n v rest = rw length-be_bytes at (read-append (be_bytes n v) rest)

append-zeros : (n : ℕ) (bs : List ℕ) → bs ++ zeros (n - n) ≡ bs
append-zeros n bs = ap (λ (k : ℕ). bs ++ zeros k) {x = n - n} {y = 0} (omega arith) ∙ append-nil bs

pub read_be-be_bytes :
    (n v : ℕ) (rest : List ℕ)
    → v < 256 ^ n
    → read_be n (stream (be_bytes n v ++ rest)) ≡ (v, stream rest)
unfolding read_be
read_be-be_bytes n v rest h = rw (
  read-be_bytes n v rest,
  length-be_bytes n v,
  append-zeros n (be_bytes n v),
  from_be-be_bytes n v h,
)

-- ReadUint reads back a 64-bit number that encodeUint wrote, in each of its formats, and leaves
-- the bytes behind it.

-- A stream that has failed, or has fewer bytes than `n` left.
abbrev pub Within : ℕ → Stream → Type 0
Within n s = (s.good ≡ false) ⊎ (length s.rest < n)

pub read-Within : (n m : ℕ) (s : Stream) → Within m s → Within m (read n s).1
unfolding read
read-Within n m s (inl h) = inl (rw h)
read-Within n m s (inr h) = inr (omega (arith, length-read n s))

pub as_record : (s : Stream) (g : Bool) → s.good ≡ g → s ≡ record { rest = s.rest; good = g }
as_record s g h = ap (λ x. record { rest = s.rest; good = x }) h
