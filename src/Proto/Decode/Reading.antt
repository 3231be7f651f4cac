-- ===== src/Proto/Decode/Reading.antt =====
-- The chunked reads of the decoder are plain reads, and no read gives a byte back.
use libcluon.Prelude.{ℕ, zero, suc, ◌+◌, ◌-◌, ◌≤◌, ◌<◌, ◌≡◌, refl, sym, ap, ◌∙◌, arith}
use libcluon.Prelude.{false, List, [], ◌++◌, ltb, if◌then◌else◌, length, drop, take}
use libcluon.Prelude.{
  append-nil, length-take, length-drop, take-append_drop, drop-drop, take-append-drop,
}
use libcluon.Prelude.Words.{le_bytes, length-le_bytes}
use libcluon.Stream.{stream, read, read-append}
use native.Mathlib.Decide.{dec_le}
use libcluon.Proto.Decode.{read_chunks, read_bytes_from_stream}

read_chunks_bad :
    (rounds n : ℕ) (bs : List ℕ)
    → read_chunks rounds n (record { rest = bs; good = false })
      ≡ ([], record { rest = bs; good = false })
unfolding read_chunks
read_chunks_bad zero n bs = refl
read_chunks_bad (suc rounds) n bs = ground arith

read_within :
    (n : ℕ) (bs : List ℕ) → n ≤ length bs → read n (stream bs) ≡ (take n bs, stream (drop n bs))
unfolding read
read_within n bs h = ground arith

read_beyond :
    (n : ℕ) (bs : List ℕ)
    → length bs < n
    → read n (stream bs) ≡ (bs, record { rest = []; good = false })
unfolding read
read_beyond n bs h = ground arith

-- Reading `c` bytes first and then the others is reading at once.
read-split :
    (c d : ℕ) (bs : List ℕ)
    → c ≤ length bs
    → read (c + d) (stream bs)
      ≡ (take c bs ++ (read d (stream (drop c bs))).0, (read d (stream (drop c bs))).1)
read-split c d bs h = elim (dec_le (c + d) (length bs)) [
  | yes p ↦ rw (
    read_within (c + d) bs p,
    read_within d (drop c bs) (omega (arith, length-drop c bs)),
    take-append_drop,
    drop-drop,
  )
  | no p ↦ rw (
    read_beyond (c + d) bs (omega arith),
    read_beyond d (drop c bs) (omega (arith, length-drop c bs)),
    take-append-drop,
  )
]

-- One round of the loop.
chunk_size : ℕ → ℕ
chunk_size n = if ltb 1024 n then 1024 else n

read_chunks-within :
    (rounds n : ℕ) (bs : List ℕ)
    → 0 < n
    → chunk_size n ≤ length bs
    → read_chunks (suc rounds) n (stream bs) ≡ (
      take (chunk_size n) bs
          ++ (read_chunks rounds (n - chunk_size n) (stream (drop (chunk_size n) bs))).0,
      (read_chunks rounds (n - chunk_size n) (stream (drop (chunk_size n) bs))).1,
    )
unfolding read_chunks chunk_size
read_chunks-within rounds n bs hn h =
    ground (arith, read_within (chunk_size n) bs h, length-take (chunk_size n) bs)

read_chunks-beyond :
    (rounds n : ℕ) (bs : List ℕ)
    → 0 < n
    → length bs < chunk_size n
    → read_chunks (suc rounds) n (stream bs) ≡ (bs, record { rest = []; good = false })
unfolding read_chunks chunk_size
read_chunks-beyond rounds n bs hn h = ground (
  arith,
  read_beyond (chunk_size n) bs h,
  read_chunks_bad rounds (n - length bs) [],
  append-nil bs,
)

chunk_size_bounds : (n : ℕ) → (chunk_size n ≤ n) × (0 < n → 0 < chunk_size n)
unfolding chunk_size
chunk_size_bounds n = ground arith

-- Reading in chunks is reading at once, also where the stream ends early.
read_chunks-read :
    (rounds n : ℕ) (bs : List ℕ)
    → n ≤ rounds
    → read_chunks rounds n (stream bs) ≡ read n (stream bs)
read_chunks-read zero zero bs h = unfold read_chunks in rw (read_within 0 bs (omega arith))
read_chunks-read (suc rounds) zero bs h = unfold read_chunks in rw (read_within 0 bs (omega arith))
read_chunks-read zero (suc n) bs h = absurd (omega arith)
read_chunks-read (suc rounds) (suc n) bs h = elim (dec_le (chunk_size (suc n)) (length bs)) [
  | yes p ↦
      read_chunks-within rounds (suc n) bs (omega arith) p
      ∙ rw
          (read_chunks-read rounds (suc n - chunk_size (suc n)) (drop (chunk_size (suc n)) bs)
            (omega (arith, chunk_size_bounds (suc n), (chunk_size_bounds (suc n)).1 (omega arith))))
          (sym (read-split (chunk_size (suc n)) (suc n - chunk_size (suc n)) bs p)
            ∙ ap (λ (t : ℕ). read t (stream bs))
                {x = chunk_size (suc n) + (suc n - chunk_size (suc n))}
                (omega (arith, chunk_size_bounds (suc n))))
  | no p ↦
      read_chunks-beyond rounds (suc n) bs (omega arith) (omega arith)
      ∙ sym (read_beyond (suc n) bs (omega (arith, chunk_size_bounds (suc n))))
]

-- Reading in chunks of at most 1024 bytes stores the same bytes and leaves the same stream as one
-- read, also where the stream ends early.
pub read_bytes_from_stream-read :
    (n : ℕ) (bs : List ℕ) → read_bytes_from_stream n (stream bs) ≡ read n (stream bs)
unfolding read_bytes_from_stream
read_bytes_from_stream-read n bs = read_chunks-read n n bs (omega arith)

pub read_exactly :
    (xs ys : List ℕ) → read_bytes_from_stream (length xs) (stream (xs ++ ys)) ≡ (xs, stream ys)
read_exactly xs ys = read_bytes_from_stream-read (length xs) (xs ++ ys) ∙ read-append xs ys

pub read_word :
    (n v : ℕ) (ys : List ℕ)
    → read_bytes_from_stream n (stream (le_bytes n v ++ ys)) ≡ (le_bytes n v, stream ys)
read_word n v ys = rw length-le_bytes at (read_exactly (le_bytes n v) ys)

pub read_bytes_bad :
    (n : ℕ) (bs : List ℕ)
    → read_bytes_from_stream n (record { rest = bs; good = false })
      ≡ ([], record { rest = bs; good = false })
unfolding read_bytes_from_stream
read_bytes_bad n bs = read_chunks_bad n n bs
