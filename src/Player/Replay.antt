-- ===== src/Player/Replay.antt =====
-- Starting, rewinding, replaying and seeking: the member functions of libcluon/src/Player.cpp that
-- an application calls, and checkRefillingCache(), a round of the thread that fills the cache.
use libcluon.Prelude.{
  ℕ, zero, suc, ◌+◌, ◌-◌, ◌*◌, ◌%◌, ◌^◌, Bool, true, false, not, ◌&&◌, ◌||◌, List, [], Option, none,
  some, ◌==◌, ltb, if◌then◌else◌, length, min,
}
use libcluon.Envelope.{Envelope, new_envelope}
use libcluon.Player.Index.{IndexEntry, initialize_index}
use libcluon.Player.EnvelopeCache.{at_position, erase}
use libcluon.Player.{
  Outcome, returns, waits, undefined, ◌>>=◌, Floats, Ratio, Player, entry_at, reset_caches,
  reset_iterators, smallest_largest, fill_envelope_cache,
}

-- MIN_ENTRIES_FOR_LOOK_AHEAD, LOOK_AHEAD_IN_S and MAX_DELAY_IN_MICROSECONDS
abbrev pub min_entries_for_look_ahead : ℕ
min_entries_for_look_ahead = 5000

abbrev pub look_ahead_in_s : ℕ
look_ahead_in_s = 30

abbrev pub max_delay_in_microseconds : ℕ
max_delay_in_microseconds = 1_000_000

-- The difference of two int64_t, as a pattern.
abbrev pub difference : ℕ → ℕ → ℕ
difference a b = (a + (2 ^ 64 - b)) % 2 ^ 64

abbrev larger_of : ℕ → ℕ → ℕ
larger_of a b = if ltb a b then b else a

-- hasMoreData()
unfoldable pub has_more_data : Player → Bool
has_more_data p =
    p.rec_file_valid && (p.auto_rewind || not (p.current_envelope_to_replay == length p.index))

-- delay()
unfoldable pub delay : Player → ℕ
delay p = min p.delay_in_microseconds max_delay_in_microseconds

-- totalNumberOfEnvelopesInRecFile()
unfoldable pub total_number_of_envelopes_in_rec_file : Player → ℕ
total_number_of_envelopes_in_rec_file p = length p.index % 2 ^ 32

-- The update of the state under the lock of getNextEnvelopeToBeReplayed.
unfoldable pub replay_current : Player → Envelope × Player
replay_current p =
    let current = entry_at p.index p.current_envelope_to_replay in
    let previous = entry_at p.index p.previous_envelope_already_replayed in
    let (envelope, cache) = at_position current.file_position p.envelope_cache in
    (
      envelope,
      record p {
        delay_in_microseconds =
            difference current.sample_time_stamp previous.sample_time_stamp % 2 ^ 32;
        envelope_cache =
            if p.previous_previous_envelope_already_replayed == length p.index
            then cache
            else erase previous.file_position cache;
        previous_previous_envelope_already_replayed = p.previous_envelope_already_replayed;
        previous_envelope_already_replayed = p.current_envelope_to_replay;
        current_envelope_to_replay = p.current_envelope_to_replay + 1;
        number_of_returned_envelopes_in_total =
            (p.number_of_returned_envelopes_in_total + 1) % 2 ^ 64;
      },
    )

module _ (memory : ℕ → ℕ) where
  -- The part of getNextEnvelopeToBeReplayed behind the end of the file.
  -- checkAvailabilityOfNextEnvelopeToBeReplayed waits for an entry in the cache.
  unfoldable pub replay_next : Player → Outcome ((Bool × Envelope) × Player)
  unfolding replay_current
  replay_next p =
      if p.current_envelope_to_replay == length p.index
      then returns ((false, new_envelope), p)
      else if length p.envelope_cache == 0
      then waits
      else (let (envelope, p') = replay_current p in
          if p'.threading
          then returns ((true, envelope), p')
          else (do (n, p'') ← fill_envelope_cache memory 1 p'; returns ((true, envelope), p'')))

  module _ (floats : Floats) where
    -- m_desiredInitialLevel
    unfoldable pub initial_level : List IndexEntry → ℕ
    initial_level index =
        let (smallest, largest) = smallest_largest (2 ^ 63 - 1) (2 ^ 63) index in
        larger_of
          (floats.rate (length index) (difference largest smallest) * look_ahead_in_s % 2 ^ 32)
          min_entries_for_look_ahead

    -- computeInitialCacheLevelAndFillCache(), which is all that rewind() does to the state
    unfoldable pub rewind : Player → Outcome Player
    unfolding initial_level
    rewind p =
        if p.rec_file_valid && ltb 0 (length p.index)
        then (do
          (n, p') ← fill_envelope_cache memory (initial_level p.index) (
              reset_iterators
                (reset_caches (record p { desired_initial_level = initial_level p.index })))
          returns p')
        else returns p

    -- Player(file, autoRewind, threading), for a file with these bytes or for none
    unfoldable pub new_player : Option (List ℕ) → Bool → Bool → Outcome Player
    unfolding rewind
    new_player file auto_rewind threading = rewind (record {
      threading = threading;
      rec_file = elim file [ none ↦ [] | some bytes ↦ bytes ];
      rec_file_valid = elim file [ none ↦ false | some bytes ↦ true ];
      auto_rewind = auto_rewind;
      index = index;
      available = λ i. false;
      previous_previous_envelope_already_replayed = 0;
      previous_envelope_already_replayed = 0;
      current_envelope_to_replay = 0;
      next_entry_to_read_from_rec_file = 0;
      desired_initial_level = 0;
      number_of_returned_envelopes_in_total = 0;
      delay_in_microseconds = 0;
      envelope_cache = [];
    })
      where
        index : List IndexEntry
        index = elim file [ none ↦ [] | some bytes ↦ initialize_index memory bytes ]

    -- getNextEnvelopeToBeReplayed()
    unfoldable pub get_next_envelope_to_be_replayed : Player → Outcome ((Bool × Envelope) × Player)
    unfolding replay_next
    get_next_envelope_to_be_replayed p =
        if p.current_envelope_to_replay == length p.index
        then (if p.auto_rewind
            then (do p' ← rewind p; replay_next p')
            else returns ((false, new_envelope), p))
        else replay_next p

    -- The loop of seekTo, by the rounds that it still makes.
    unfoldable pub fast_forward : ℕ → Player → Outcome Player
    fast_forward zero p = returns p
    fast_forward (suc rounds) p =
        let rest = fast_forward rounds (record p {
          current_envelope_to_replay = p.current_envelope_to_replay + 1;
          number_of_returned_envelopes_in_total = p.number_of_returned_envelopes_in_total + 1;
        }) in
        if p.current_envelope_to_replay == length p.index then undefined else rest

    -- seekTo behind the loop
    unfoldable pub refill_after_seek : Ratio → Player → Outcome Player
    refill_after_seek ratio p = do
      (n, p') ← fill_envelope_cache memory (floats.third p.desired_initial_level) (record p {
        next_entry_to_read_from_rec_file = p.current_envelope_to_replay;
        previous_envelope_already_replayed = p.current_envelope_to_replay;
        envelope_cache = [];
      })
      if ratio.positive && ratio.below_one
          then (do (r, p'') ← get_next_envelope_to_be_replayed p'; returns p'')
          else returns p'

    -- seekTo(ratio). The loop runs while a count from 0 is below the product minus 1, which is a
    -- uint32_t; a ratio for which neither ratio < 0 nor ratio > 1 holds may also be no number.
    unfoldable pub seek_to : Ratio → Player → Outcome Player
    unfolding refill_after_seek
    seek_to ratio p =
        if not ratio.negative && not ratio.above_one
        then (do
          let reset = reset_iterators (reset_caches (record p { threading = false }))
          let rounds = (ratio.share (length p.index % 2 ^ 32) + (2 ^ 32 - 1)) % 2 ^ 32
          p' ← if ratio.positive then fast_forward rounds reset else returns reset
          p'' ← refill_after_seek ratio p'
          returns (record p'' { threading = p.threading }))
        else returns p

    -- checkRefillingCache(numberOfEntries, refillMultiplicator)
    unfoldable pub check_refilling_cache :
        ℕ → floats.Multiplicator → Player → Outcome (floats.Multiplicator × Player)
    check_refilling_cache number_of_entries m p =
        if floats.is_low number_of_entries p.desired_initial_level
        then (do
          (n, p') ← fill_envelope_cache memory (floats.refill m p.desired_initial_level) p
          returns ((if ltb 0 n then floats.raise m else m), p'))
        else returns (m, p)
