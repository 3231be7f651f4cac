-- ===== src/Player.antt =====
-- The replay of recordings: libcluon/src/Player.cpp and libcluon/include/cluon/Player.hpp. The
-- iterators into the index are positions in it, and end() is its length. What is written to
-- std::cerr is left out, and so are the starts and joins of the thread that fills the cache; its
-- rounds are those of check_refilling_cache.
pub mod EnvelopeCache
pub mod Index
pub mod Replay
pub mod Filling
pub mod Replaying
pub mod Starting
pub mod Listing
pub mod Recording
pub mod Seeking
pub mod Threads
pub mod Endless
mod Tests
use libcluon.Prelude.{
  ℕ, zero, suc, ◌+◌, ◌-◌, ◌*◌, ◌%◌, ◌^◌, Bool, true, false, not, ◌&&◌, ◌||◌, List, [], ◌∷◌, Option,
  none, some, ◌==◌, ltb, if◌then◌else◌, length, drop, min,
}
use libcluon.Stream.{Stream, stream}
use libcluon.Envelope.{Envelope, new_envelope, extract_envelope}
use Index.{IndexEntry, rank, initialize_index}
use EnvelopeCache.{Cache, find, emplace, at_position, erase}

-- A call returns; or it does not, unless another thread changes the state; or an iterator is moved
-- past the end of the index.
pub data Outcome {ℓ} (A : Type ℓ) : Type ℓ where
  returns : A → Outcome A
  waits : Outcome A
  undefined : Outcome A

infixl 5 ◌>>=◌
abbrev pub ◌>>=◌ {ℓ κ} : {A : Type ℓ} {B : Type κ} → Outcome A → (A → Outcome B) → Outcome B
returns a >>= f = f a
waits >>= f = waits
undefined >>= f = undefined

-- The computations with floats. `rate n d` are the entries per second for `n` entries within `d`
-- microseconds, `third` is the part of the initial level that seekTo fills.
pub record Floats : Type 1 where
  pub rate : ℕ → ℕ → ℕ
  pub third : ℕ → ℕ
  pub Multiplicator : Type 0
  pub is_low : ℕ → ℕ → Bool
  pub refill : Multiplicator → ℕ → ℕ
  pub raise : Multiplicator → Multiplicator

-- What seekTo asks of its argument: ratio < 0, ratio > 1, 0 < ratio, ratio < 1, and the product
-- with a number of entries as a uint32_t.
pub record Ratio : Type 0 where
  pub negative : Bool
  pub above_one : Bool
  pub positive : Bool
  pub below_one : Bool
  pub share : ℕ → ℕ

pub record Player : Type 0 where
  pub threading : Bool
  pub rec_file : List ℕ
  pub rec_file_valid : Bool
  pub auto_rewind : Bool
  pub index : List IndexEntry
  pub available : ℕ → Bool
  pub previous_previous_envelope_already_replayed : ℕ
  pub previous_envelope_already_replayed : ℕ
  pub current_envelope_to_replay : ℕ
  pub next_entry_to_read_from_rec_file : ℕ
  pub desired_initial_level : ℕ
  pub number_of_returned_envelopes_in_total : ℕ
  pub delay_in_microseconds : ℕ
  pub envelope_cache : Cache

-- The entry at an iterator. None is read at end().
abbrev pub entry_at : List IndexEntry → ℕ → IndexEntry
entry_at [] i = record { sample_time_stamp = 0; file_position = 0 }
entry_at (e ∷ es) zero = e
entry_at (e ∷ es) (suc i) = entry_at es i

abbrev pub position_at : List IndexEntry → ℕ → ℕ
position_at index i = (entry_at index i).file_position

-- resetCaches()
unfoldable pub reset_caches : Player → Player
reset_caches p = record p {
  delay_in_microseconds = 0;
  number_of_returned_envelopes_in_total = 0;
  envelope_cache = [];
}

-- resetIterators()
unfoldable pub reset_iterators : Player → Player
reset_iterators p = record p {
  next_entry_to_read_from_rec_file = 0;
  previous_envelope_already_replayed = 0;
  current_envelope_to_replay = 0;
  previous_previous_envelope_already_replayed = length p.index;
}

abbrev write : (ℕ → Bool) → ℕ → Bool → ℕ → Bool
write f i b j = if i == j then b else f j

abbrev is_missing : Option Envelope → Bool
is_missing none = true
is_missing (some env) = false

-- Storing an envelope that was read, and moving on.
unfoldable pub store_next : Player → Envelope → Player
store_next p env =
    let i = p.next_entry_to_read_from_rec_file in
    let k = position_at p.index i in
    record p {
      available = write p.available i (is_missing (find k p.envelope_cache));
      envelope_cache = emplace k env p.envelope_cache;
      next_entry_to_read_from_rec_file = i + 1;
    }

-- The smallest and the largest key of the index, as patterns, from max() and min() of int64_t.
abbrev smaller : ℕ → ℕ → ℕ
smaller a b = if ltb (rank b) (rank a) then b else a

abbrev larger : ℕ → ℕ → ℕ
larger a b = if ltb (rank a) (rank b) then b else a

unfoldable pub smallest_largest : ℕ → ℕ → List IndexEntry → ℕ × ℕ
smallest_largest a b [] = (a, b)
smallest_largest a b (e ∷ es) =
    smallest_largest (smaller a e.sample_time_stamp) (larger b e.sample_time_stamp) es

module _ (memory : ℕ → ℕ) where
  -- Moving to a position of the file and reading there.
  unfoldable pub extract_at : List ℕ → ℕ → Bool × Envelope × Stream
  extract_at file k = extract_envelope memory (stream (drop k file))

  -- The loop of fillEnvelopeCache, with the entries it may still read. If an envelope cannot be
  -- read it tries again, for ever.
  unfoldable pub fill_loop : ℕ → ℕ → Player → Outcome (ℕ × Player)
  unfolding store_next extract_at
  fill_loop zero entries_read p = returns (entries_read, p)
  fill_loop (suc room) entries_read p =
      let (valid, env, s) =
        extract_at p.rec_file (position_at p.index p.next_entry_to_read_from_rec_file) in
      let rest = fill_loop room (entries_read + 1) (store_next p env) in
      if p.next_entry_to_read_from_rec_file == length p.index
      then returns (entries_read, p)
      else if valid
      then rest
      else waits

  -- fillEnvelopeCache(maxNumberOfEntriesToReadFromFile)
  unfoldable pub fill_envelope_cache : ℕ → Player → Outcome (ℕ × Player)
  unfolding fill_loop
  fill_envelope_cache max p =
      if p.rec_file_valid && ltb 0 max then fill_loop max 0 p else returns (0, p)
