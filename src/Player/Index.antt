-- ===== src/Player/Index.antt =====
-- The index of a recording: initializeIndex() of libcluon/src/Player.cpp. The file is its bytes. A
-- sample time is an int64_t as a two's complement pattern.
pub mod Sorted
pub mod Reading
pub mod Built
pub mod Stopping
use libcluon.Prelude.{
  ℕ, zero, suc, ◌+◌, ◌-◌, ◌%◌, ◌^◌, Bool, true, false, ◌&&◌, List, [], ◌∷◌, ltb, length,
  if◌then◌else◌, Option, none, some,
}
use libcluon.Stream.{Stream, stream}
use libcluon.Envelope.{Envelope, TimeStamp, extract_envelope}
use libcluon.Envelope.Outcome.{extract_returns}
use libcluon.Time.{to_microseconds}

-- The members of an IndexEntry that are read; the flag m_available is a member of the player here.
pub record IndexEntry : Type 0 where
  pub sample_time_stamp : ℕ
  pub file_position : ℕ

-- The order of int64_t.
abbrev pub rank : ℕ → ℕ
rank t = (t + 2 ^ 63) % 2 ^ 64

abbrev pub key : IndexEntry → ℕ
key e = rank e.sample_time_stamp

-- std::multimap::emplace: behind all entries whose key is not larger.
unfoldable pub emplace_entry : IndexEntry → List IndexEntry → List IndexEntry
emplace_entry e [] = e ∷ []
emplace_entry e (x ∷ xs) = if ltb (key e) (key x) then e ∷ x ∷ xs else x ∷ emplace_entry e xs

abbrev pub sample_time : Envelope → ℕ
sample_time env = to_microseconds env.1.1.1.1.0

module _ (memory : ℕ → ℕ) where
  -- The loop over a file of `size` bytes, of which `s` is what has not been read. It ends as the
  -- stream is no longer good; the result is the index, and whether the fuel was enough.
  unfoldable pub index_loop : ℕ → ℕ → Stream → List IndexEntry → List IndexEntry × Bool
  index_loop zero size s index = (index, false)
  index_loop (suc fuel) size s index =
      let pos_before = size - length s.rest in
      let (valid, env, s') = extract_envelope memory s in
      let entry : IndexEntry = record {
        sample_time_stamp = sample_time env;
        file_position = pos_before;
      } in
      let more =
        index_loop fuel size s' (if s'.good && valid then emplace_entry entry index else index) in
      if s.good then more else (index, true)

  -- initializeIndex() for a file that could be opened. A round that leaves the stream good reads
  -- five bytes at least, so the bytes of the file are fuel enough.
  unfoldable pub initialize_index : List ℕ → List IndexEntry
  initialize_index file = (index_loop (suc (suc (length file))) (length file) (stream file) []).0

module _ (room : ℕ) (memory : ℕ → ℕ) where
  -- Whether all extractions of the loop return, as in Envelope/Outcome.antt.
  unfoldable pub index_returns : ℕ → Stream → Bool
  index_returns zero s = true
  index_returns (suc fuel) s =
      let (valid, env, s') = extract_envelope memory s in
      let rest = index_returns fuel s' in
      if s.good then extract_returns room memory s && rest else true

  -- The index, and `none` where the program is terminated before.
  unfoldable pub index_outcome : List ℕ → Option (List IndexEntry)
  index_outcome file =
      if index_returns (suc (suc (length file))) (stream file)
      then some (initialize_index memory file)
      else none
