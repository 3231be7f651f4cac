-- ===== src/Player/Starting.antt =====
-- A player that starts, or is rewound: initializeIndex and computeInitialCacheLevelAndFillCache of
-- libcluon/src/Player.cpp.
use libcluon.Prelude.{
  ℕ, zero, suc, ◌^◌, ◌≤◌, ◌<◌, ◌≡◌, ◌≢◌, refl, sym, ap, ◌∙◌, arith, Bool, true, ◌&&◌, ltb, List, [],
  ◌∷◌, some, if◌then◌else◌, length, All,
}
use libcluon.Envelope.{Envelope}
use libcluon.Time.{to_microseconds}
use libcluon.Player.Index.{key, sample_time, IndexEntry, initialize_index}
use libcluon.Player.Index.Sorted.{IsSorted, IsDistinct}
use libcluon.Player.Index.Built.{IsExtracted, index_built}
use libcluon.Player.{
  Outcome, returns, ◌>>=◌, Floats, Player, entry_at, position_at, extract_at, reset_caches,
  reset_iterators, fill_envelope_cache,
}
use libcluon.Player.EnvelopeCache.{find}
use libcluon.Player.Replay.{initial_level, rewind, new_player}
use libcluon.Player.Filling.{IsIndexed, IsCached, fill_envelope_cache-Filled}

All-entry_at {κ} :
    (P : IndexEntry → Type κ) (i : ℕ) (xs : List IndexEntry)
    → All P xs
    → i < length xs
    → P (entry_at xs i)
All-entry_at P i [] h lt = absurd (omega arith)
All-entry_at P zero (x ∷ xs) h lt = h.0
All-entry_at P (suc i) (x ∷ xs) h lt = All-entry_at P i xs h.1 (omega arith)

entries_distinct :
    (i j : ℕ) (xs : List IndexEntry)
    → IsDistinct xs
    → i < length xs
    → j < length xs
    → position_at xs i ≡ position_at xs j
    → i ≡ j
entries_distinct i j [] d hi hj e = absurd (omega arith)
entries_distinct zero zero (x ∷ xs) d hi hj e = refl
entries_distinct zero (suc j) (x ∷ xs) d hi hj e =
    absurd (All-entry_at (λ f. x.file_position ≢ f.file_position) j xs d.0 (omega arith) e)
entries_distinct (suc i) zero (x ∷ xs) d hi hj e =
    absurd (All-entry_at (λ f. x.file_position ≢ f.file_position) i xs d.0 (omega arith) (sym e))
entries_distinct (suc i) (suc j) (x ∷ xs) d hi hj e =
    ap suc (entries_distinct i j xs d.1 (omega arith) (omega arith) e)

entries_in_order :
    (i j : ℕ) (xs : List IndexEntry)
    → IsSorted xs
    → i ≤ j
    → j < length xs
    → key (entry_at xs i) ≤ key (entry_at xs j)
entries_in_order i j [] s le lt = absurd (omega arith)
entries_in_order zero zero (x ∷ xs) s le lt = omega arith
entries_in_order zero (suc j) (x ∷ xs) s le lt =
    All-entry_at (λ f. key x ≤ key f) j xs s.0 (omega arith)
entries_in_order (suc i) zero (x ∷ xs) s le lt = absurd (omega arith)
entries_in_order (suc i) (suc j) (x ∷ xs) s le lt =
    entries_in_order i j xs s.1 (omega arith) (omega arith)

sample_time_small : (env : Envelope) → sample_time env < 2 ^ 64
unfolding to_microseconds
sample_time_small env = omega arith

module _ (memory : ℕ → ℕ) where
  initialize_index-IsIndexed :
      (file : List ℕ) → IsIndexed memory file (initialize_index memory file)
  unfolding extract_at
  initialize_index-IsIndexed file =
      let (sorted, distinct, extracted, ended) = index_built memory file in
      record {
        extractable = λ i lt.
            (All-entry_at (IsExtracted memory file) i (initialize_index memory file) extracted
              lt).0;
        small = λ i lt. omega (
          arith,
          (All-entry_at (IsExtracted memory file) i (initialize_index memory file) extracted lt).1,
          sample_time_small
              (extract_at memory file (position_at (initialize_index memory file) i)).1,
        );
        in_order = λ i j le lt. entries_in_order i j (initialize_index memory file) sorted le lt;
        distinct =
            λ i j hi hj e. entries_distinct i j (initialize_index memory file) distinct hi hj e;
      }

  -- A player at the start of its index, with a filled cache, and the rest as it was.
  pub record Rewound (p : Player) (o : Outcome Player) : Type 0 where
    pub after : Player
    pub returned : o ≡ returns after
    pub cached : IsCached memory after
    pub same_file : after.rec_file ≡ p.rec_file
    pub same_index : after.index ≡ p.index
    pub same_rewind : after.auto_rewind ≡ p.auto_rewind
    pub same_threading : after.threading ≡ p.threading
    pub at_start : after.current_envelope_to_replay ≡ 0
    pub nothing_replayed : after.previous_envelope_already_replayed ≡ 0
    pub some_read : 0 < after.next_entry_to_read_from_rec_file
    pub level_least : 5000 ≤ after.desired_initial_level

  module _ (floats : Floats) (p : Player) where
    initial_level_least : (index : List IndexEntry) → 5000 ≤ initial_level memory floats index
    unfolding initial_level
    initial_level_least index = ground arith

    abbrev reset : Player
    reset =
        reset_iterators
          (reset_caches (record p { desired_initial_level = initial_level memory floats p.index }))

    reset-IsCached :
        IsIndexed memory p.rec_file p.index → p.rec_file_valid ≡ true → IsCached memory reset
    unfolding reset_iterators reset_caches find
    reset-IsCached h v = record {
      indexed = h;
      valid = v;
      sound = λ k env e. cc;
      present = λ i low up. absurd (omega arith);
      previous_le = omega arith;
      current_le = omega arith;
      next_le = omega arith;
    }

    abbrev filling : Outcome Player
    filling =
        fill_envelope_cache memory (initial_level memory floats p.index) reset >>= λ r. returns r.1

    opened : p.rec_file_valid ≡ true → 0 < length p.index → rewind memory floats p ≡ filling
    unfolding rewind
    opened v nonempty =
        let positive : ltb 0 (length p.index) ≡ true = ground arith in
        ap (λ b. if b && ltb 0 (length p.index) then filling else returns p) v
        ∙ ap (λ b. if b then filling else returns p) positive

    -- For an index with entries, whose envelopes are in the file, rewinding fills the cache.
    pub rewind-Rewound :
        IsIndexed memory p.rec_file p.index
        → p.rec_file_valid ≡ true
        → 0 < length p.index
        → Rewound p (rewind memory floats p)
    unfolding reset_iterators reset_caches
    rewind-Rewound h v nonempty =
        let f =
          fill_envelope_cache-Filled memory (initial_level memory floats p.index) reset
            (reset-IsCached h v) in
        record {
          after = f.after;
          returned = opened v nonempty ∙ ap (λ o. o >>= λ r. returns r.1) f.returned;
          cached = f.cached;
          same_file = ap (λ q. q.rec_file) f.kept;
          same_index = ap (λ q. q.index) f.kept;
          same_rewind = ap (λ q. q.auto_rewind) f.kept;
          same_threading = ap (λ q. q.threading) f.kept;
          at_start = ap (λ q. q.current_envelope_to_replay) f.kept;
          nothing_replayed = ap (λ q. q.previous_envelope_already_replayed) f.kept;
          some_read = omega (arith, f.reached, initial_level_least p.index);
          level_least =
              omega (arith, ap (λ q. q.desired_initial_level) f.kept, initial_level_least p.index);
        }

  -- A player of a file at its start.
  pub record Started (file : List ℕ) (auto_rewind threading : Bool) (o : Outcome Player)
      : Type 0 where
    pub player : Player
    pub returned : o ≡ returns player
    pub cached : IsCached memory player
    pub file_there : player.rec_file ≡ file
    pub index_there : player.index ≡ initialize_index memory file
    pub rewind_set : player.auto_rewind ≡ auto_rewind
    pub threading_set : player.threading ≡ threading
    pub at_start : player.current_envelope_to_replay ≡ 0
    pub some_read : 0 < player.next_entry_to_read_from_rec_file
    pub level_least : 5000 ≤ player.desired_initial_level

  -- The constructor returns for every file with an envelope that can be extracted, whatever its
  -- other bytes are. The player is then at the start of the file's index, some envelopes are in its
  -- cache, and what is in there is right.
  pub new_player-Started :
      (floats : Floats) (file : List ℕ) (auto_rewind threading : Bool)
      → 0 < length (initialize_index memory file)
      → Started file auto_rewind threading
          (new_player memory floats (some file) auto_rewind threading)
  unfolding new_player
  new_player-Started floats file auto_rewind threading nonempty =
      let r = rewind-Rewound floats _ (initialize_index-IsIndexed file) refl nonempty in
      record {
        player = r.after;
        returned = r.returned;
        cached = r.cached;
        file_there = r.same_file;
        index_there = r.same_index;
        rewind_set = r.same_rewind;
        threading_set = r.same_threading;
        at_start = r.at_start;
        some_read = r.some_read;
        level_least = r.level_least;
      }
