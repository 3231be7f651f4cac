-- ===== src/Player/Tests.antt =====
-- A recording of two envelopes, of which the second has the earlier sample time.
use libcluon.Prelude.{
  ℕ, ◌-◌, ◌*◌, ◌/◌, ◌%◌, ◌^◌, ◌<◌, ◌≡◌, refl, ap, ◌∙◌, arith, true, false, List, [], ◌∷◌, some, ltb,
  length, All, min,
}
use libcluon.Proto.Encode.{accept, visit, var_int_of, encode_key}
use libcluon.Proto.VarInt.{to_var_int}
use libcluon.Proto.ZigZag.{to_zig_zag}
use libcluon.Prelude.Words.{le_bytes}
use libcluon.Envelope.{Envelope, header_length, extract_payload, extract_envelope}
use libcluon.Envelope.Outcome.{extract_returns, extract_payload_returns}
use libcluon.Proto.Decode.{decode_loop, read_field, read_payload}
use libcluon.Proto.Decode.Direct.{decode_into, accept_field}
use libcluon.Proto.Decode.Returns.{
  decode_returns, loop_returns, field_returns, payload_returns, fields_return,
}
use libcluon.Proto.VarInt.{from_var_int}
use libcluon.Stream.{read}
use libcluon.Prelude.Words.{from_le}
use libcluon.Time.{to_microseconds}
use libcluon.Player.Index.{
  key, initialize_index, index_loop, index_returns, index_outcome, emplace_entry,
}
use libcluon.Player.EnvelopeCache.{find}
use libcluon.Player.{fill_envelope_cache, entry_at, returns, Floats, Ratio, Player}
use libcluon.Player.Replay.{new_player, delay, seek_to, get_next_envelope_to_be_replayed}
use libcluon.Player.Filling.{envelope_at, IsCached, Filled, fill_envelope_cache-Filled}
use libcluon.Player.Replaying.{
  Replayed, get_next_envelope_to_be_replayed-Replayed, delay-get_next_envelope_to_be_replayed,
}
use libcluon.Player.Starting.{Started, new_player-Started}
use libcluon.Envelope.Recorded.{IsRecordable, recorded}
use libcluon.Player.Recording.{Returns, replay-recorded, length-indexed}
use libcluon.Player.Listing.{replay}
use libcluon.Player.Endless.{in_turn, IsEndless, replay_endless}
use libcluon.Player.Seeking.{Sought, seek_to-Sought}
use libcluon.Player.Threads.{call, round, Action, Gives, StaysAhead, run-in_order}

abbrev no_memory : ℕ → ℕ
no_memory i = 0

abbrev late : Envelope
late = (30002, (8 ∷ 123 ∷ [], ((5, (6, tt)), ((0, (0, tt)), ((5, (6, tt)), (300, tt))))))

abbrev early : Envelope
early = (30003, ([], ((5, (6, tt)), ((0, (0, tt)), ((4, (6, tt)), (0, tt))))))

abbrev two : List Envelope
two = late ∷ early ∷ []

abbrev some_floats : Floats
some_floats = record {
  rate = λ n d. n * 1_000_000 / d;
  third = λ n. n * 3 / 10;
  Multiplicator = ℕ;
  is_low = λ n level. ltb (n * 100) (level * 35);
  refill = λ m level. m * level / 100;
  raise = λ m. m * 5 / 4;
}

two-IsRecordable : All IsRecordable two
unfolding accept visit to_var_int var_int_of encode_key to_zig_zag le_bytes
two-IsRecordable = omega arith

replay-recorded_example : Returns no_memory some_floats two 3
replay-recorded_example =
    replay-recorded no_memory some_floats two 3 two-IsRecordable (omega arith) (omega arith)

-- A file of one envelope, behind which a byte of the magic number is wrong, has one entry.
abbrev damaged : List ℕ
damaged = 0x0D ∷ 0xA4 ∷ 2 ∷ 0 ∷ 0 ∷ 8 ∷ 2 ∷ 0x0D ∷ 0xA5 ∷ 0 ∷ 0 ∷ 0 ∷ []

damaged_outcome :
    index_outcome (2 ^ 24) no_memory damaged
    ≡ some (record { sample_time_stamp = 0; file_position = 0 } ∷ [])
unfolding index_outcome index_returns initialize_index index_loop emplace_entry extract_envelope
    extract_payload extract_returns extract_payload_returns header_length read from_le decode_into
    decode_loop accept_field read_field read_payload decode_returns loop_returns field_returns
    payload_returns fields_return from_var_int to_microseconds
damaged_outcome = refl

abbrev file : List ℕ
file = recorded two

nonempty : 0 < length (initialize_index no_memory file)
nonempty = omega (arith, length-indexed no_memory two two-IsRecordable)

started :
    Started no_memory file false true (new_player no_memory some_floats (some file) false true)
started = new_player-Started no_memory some_floats file false true nonempty

lead : started.player.current_envelope_to_replay < started.player.next_entry_to_read_from_rec_file
lead = omega (arith, started.at_start, started.some_read)

get_next_envelope_to_be_replayed-Replayed_example :
    Replayed no_memory started.player
      (get_next_envelope_to_be_replayed no_memory some_floats started.player)
get_next_envelope_to_be_replayed-Replayed_example =
    get_next_envelope_to_be_replayed-Replayed no_memory started.player started.cached lead
      some_floats

abbrev half : Ratio
half = record {
  negative = false;
  above_one = false;
  positive = true;
  below_one = true;
  share = λ n. n / 2;
}

abbrev tenth : Ratio
tenth = record half { share = λ n. n / 10 }

two_entries : length started.player.index ≡ 2
two_entries =
    omega (arith, ap length started.index_there, length-indexed no_memory two two-IsRecordable)

seek_to-Sought_example :
    Sought no_memory some_floats started.player
      (length started.player.index / 2)
      (seek_to no_memory some_floats half started.player)
seek_to-Sought_example =
    seek_to-Sought no_memory some_floats started.player half refl refl started.cached.indexed
      started.cached.valid (omega (arith, two_entries)) (omega (arith, started.level_least))
      (λ e. omega (arith, two_entries)) (omega (arith, two_entries)) (omega (arith, two_entries))

-- A player of the two entries of which the first one is read.
abbrev unread : Player
unread = record started.player {
  envelope_cache = [];
  previous_envelope_already_replayed = 0;
  current_envelope_to_replay = 0;
  next_entry_to_read_from_rec_file = 0;
  desired_initial_level = 4;
}

unread-IsCached : IsCached no_memory unread
unfolding find
unread-IsCached = record {
  indexed = started.cached.indexed;
  valid = started.cached.valid;
  sound = λ k env e. cc;
  present = λ i low up. absurd (omega arith);
  previous_le = omega arith;
  current_le = omega arith;
  next_le = omega arith;
}

first_read : Filled no_memory unread 1 0 (fill_envelope_cache no_memory 1 unread)
first_read = fill_envelope_cache-Filled no_memory 1 unread unread-IsCached

-- The round between the calls reads the second entry.
abbrev acts_of_both : List (Action no_memory some_floats)
acts_of_both = call ∷ round 0 110 ∷ call ∷ []

acts-StaysAhead : StaysAhead no_memory some_floats acts_of_both first_read.after
acts-StaysAhead =
    rw
      (
        ap (λ q. q.desired_initial_level) first_read.kept,
        ap (λ q. length q.index) first_read.kept,
        ap (λ q. q.current_envelope_to_replay) first_read.kept,
        first_read.reached,
        two_entries,
      )
      (omega arith)

run-in_order_example : Gives no_memory some_floats acts_of_both first_read.after
run-in_order_example =
    run-in_order no_memory some_floats acts_of_both first_read.after first_read.cached
      (ap (λ q. q.threading) first_read.kept ∙ started.threading_set) acts-StaysAhead

-- Two entries, of which the first has been replayed and is in the cache.
abbrev caught_up : Player
caught_up = record {
  threading = true;
  rec_file = [];
  rec_file_valid = true;
  auto_rewind = false;
  index =
      record { sample_time_stamp = 4_000_006; file_position = 34 }
      ∷ record { sample_time_stamp = 5_000_006; file_position = 0 }
      ∷ [];
  available = λ i. false;
  previous_previous_envelope_already_replayed = 0;
  previous_envelope_already_replayed = 0;
  current_envelope_to_replay = 1;
  next_entry_to_read_from_rec_file = 1;
  desired_initial_level = 5000;
  number_of_returned_envelopes_in_total = 1;
  delay_in_microseconds = 0;
  envelope_cache = (34, early) ∷ [];
}

delay-get_next_envelope_to_be_replayed_example :
    (p' : Player) × (get_next_envelope_to_be_replayed no_memory some_floats started.player
      ≡ returns (
        (
          true,
          envelope_at no_memory started.player.rec_file started.player.index
              started.player.current_envelope_to_replay,
        ),
        p',
      ))
    × (delay p'
        ≡ min
            ((key (entry_at started.player.index started.player.current_envelope_to_replay)
                - key (
                    entry_at started.player.index
                      started.player.previous_envelope_already_replayed))
              % 2 ^ 32)
            1_000_000)
delay-get_next_envelope_to_be_replayed_example =
    delay-get_next_envelope_to_be_replayed no_memory started.player started.cached lead some_floats

endless :
    Started no_memory file true false (new_player no_memory some_floats (some file) true false)
endless = new_player-Started no_memory some_floats file true false nonempty

endless-IsEndless : IsEndless no_memory some_floats endless.player
endless-IsEndless = record {
  cached = endless.cached;
  sequential = endless.threading_set;
  rewinding = endless.rewind_set;
  nonempty =
      omega (arith, ap length endless.index_there, length-indexed no_memory two two-IsRecordable);
  ahead = λ lt. omega (arith, endless.at_start, endless.some_read);
}

replay_endless_example :
    (p' : Player) × (replay no_memory some_floats 5 endless.player
      ≡ returns (
        in_turn
            (envelope_at no_memory endless.player.rec_file endless.player.index)
            (length endless.player.index)
            5
            endless.player.current_envelope_to_replay,
        p',
      ))
    × IsEndless no_memory some_floats p'
replay_endless_example = replay_endless no_memory some_floats 5 endless.player endless-IsEndless
