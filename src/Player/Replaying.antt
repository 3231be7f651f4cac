-- ===== src/Player/Replaying.antt =====
-- What getNextEnvelopeToBeReplayed of libcluon/src/Player.cpp returns, and the state that it leaves.
use libcluon.Prelude.{
  ◌-◌, ℕ, ◌+◌, ◌%◌, ◌^◌, ◌≤◌, ◌<◌, ◌≡◌, ◌≢◌, inl, inr, refl, ap, ◌∙◌, arith, Bool, true, false, [],
  ◌∷◌, none, some, ◌==◌, if◌then◌else◌, length, min, Option-cases,
}
use libcluon.Envelope.{Envelope, new_envelope}
use libcluon.Player.Index.{key}
use libcluon.Player.EnvelopeCache.{
  Cache, find, emplace, at_position, or_new, find-emplace, find-erase,
}
use libcluon.Player.{
  Outcome, returns, ◌>>=◌, Floats, Player, entry_at, position_at, fill_envelope_cache,
}
use libcluon.Player.Replay.{
  delay, difference, replay_current, replay_next, get_next_envelope_to_be_replayed,
}
use libcluon.Player.Filling.{envelope_at, IsCached, fill_envelope_cache-Filled}

find-length : (k : ℕ) (m : Cache) → find k m ≢ none → (length m == 0) ≡ false
unfolding find
find-length k [] h = absurd (h refl)
find-length k (x ∷ m) h = ground arith

module _ (memory : ℕ → ℕ) where
  module _ (p : Player) (h : IsCached memory p)
      (ahead : p.current_envelope_to_replay < p.next_entry_to_read_from_rec_file) where
    current_position : ℕ
    current_position = position_at p.index p.current_envelope_to_replay

    current_found :
        find current_position p.envelope_cache
        ≡ some (envelope_at memory p.rec_file p.index p.current_envelope_to_replay)
    unfolding current_position
    current_found = elim (Option-cases (find current_position p.envelope_cache)) [
      | inl e ↦ absurd (h.present p.current_envelope_to_replay (omega arith) ahead e)
      | inr (env, e) ↦ e ∙ ap some (h.sound current_position env e)
    ]

    replay_current-envelope :
        (replay_current p).0 ≡ envelope_at memory p.rec_file p.index p.current_envelope_to_replay
    unfolding replay_current at_position current_position
    replay_current-envelope = ap or_new current_found

    replayed_sound :
        (k : ℕ) (env : Envelope)
        → find k (replay_current p).1.envelope_cache ≡ some env
        → find k p.envelope_cache ≡ some env
    unfolding replay_current at_position current_position
    replayed_sound k env e = ground (
      arith,
      current_found,
      find-emplace current_position k new_envelope p.envelope_cache,
      find-erase (position_at p.index p.previous_envelope_already_replayed) k
          (emplace current_position new_envelope p.envelope_cache),
    )

    replayed_present :
        (i : ℕ)
        → p.current_envelope_to_replay + 1 ≤ i
        → i < p.next_entry_to_read_from_rec_file
        → find (position_at p.index i) (replay_current p).1.envelope_cache ≢ none
    unfolding replay_current at_position current_position
    replayed_present i low up = ground (
      arith,
      h.present i,
      current_found,
      h.next_le,
      h.previous_le,
      h.indexed.distinct p.previous_envelope_already_replayed i,
      find-emplace current_position (position_at p.index i) new_envelope p.envelope_cache,
      find-erase (position_at p.index p.previous_envelope_already_replayed) (position_at p.index i)
          (emplace current_position new_envelope p.envelope_cache),
    )

    replay_current-IsCached : IsCached memory (replay_current p).1
    unfolding replay_current
    replay_current-IsCached = record {
      indexed = h.indexed;
      valid = h.valid;
      sound = λ k env e. h.sound k env (replayed_sound k env e);
      present = replayed_present;
      previous_le = omega arith;
      current_le = omega (arith, h.next_le);
      next_le = h.next_le;
    }

  -- An envelope was returned, the one of the current entry; the state after it.
  pub record Replayed (p : Player) (o : Outcome ((Bool × Envelope) × Player)) : Type 0 where
    pub after : Player
    pub returned :
        o
        ≡ returns
            ((true, envelope_at memory p.rec_file p.index p.current_envelope_to_replay), after)
    pub cached : IsCached memory after
    pub same_file : after.rec_file ≡ p.rec_file
    pub same_index : after.index ≡ p.index
    pub same_level : after.desired_initial_level ≡ p.desired_initial_level
    pub same_rewind : after.auto_rewind ≡ p.auto_rewind
    pub same_threading : after.threading ≡ p.threading
    pub moved : after.current_envelope_to_replay ≡ p.current_envelope_to_replay + 1
    pub left : after.previous_envelope_already_replayed ≡ p.current_envelope_to_replay
    pub read_on : after.next_entry_to_read_from_rec_file ≡ (
        if p.threading
        then p.next_entry_to_read_from_rec_file
        else min (p.next_entry_to_read_from_rec_file + 1) (length p.index))
    pub waited :
        after.delay_in_microseconds
        ≡ difference
            (entry_at p.index p.current_envelope_to_replay).sample_time_stamp
            (entry_at p.index p.previous_envelope_already_replayed).sample_time_stamp
          % 2 ^ 32

  module _ (p : Player) (h : IsCached memory p)
      (ahead : p.current_envelope_to_replay < p.next_entry_to_read_from_rec_file) where
    not_at_end : (p.current_envelope_to_replay == length p.index) ≡ false
    not_at_end = ground (arith, h.next_le)

    some_cached : (length p.envelope_cache == 0) ≡ false
    some_cached =
        find-length (position_at p.index p.current_envelope_to_replay) p.envelope_cache
          (h.present p.current_envelope_to_replay (omega arith) ahead)

    finished :
        (b : Bool)
        → p.threading ≡ b
        → Replayed p (
            if b
            then returns ((true, (replay_current p).0), (replay_current p).1)
            else (fill_envelope_cache memory 1 (replay_current p).1 >>= λ r.
                returns ((true, (replay_current p).0), r.1)))
    unfolding replay_current
    finished true e = record {
      after = (replay_current p).1;
      returned =
          ap (λ env. returns ((true, env), (replay_current p).1))
            (replay_current-envelope p h ahead);
      cached = replay_current-IsCached p h ahead;
      same_file = refl;
      same_index = refl;
      same_level = refl;
      same_rewind = refl;
      same_threading = refl;
      moved = refl;
      left = refl;
      read_on = ground arith;
      waited = refl;
    }
    finished false e =
        let f =
          fill_envelope_cache-Filled memory 1 (replay_current p).1
            (replay_current-IsCached p h ahead) in
        record {
          after = f.after;
          returned =
              ap (λ o. o >>= λ r. returns ((true, (replay_current p).0), r.1)) f.returned
              ∙ ap (λ env. returns ((true, env), f.after)) (replay_current-envelope p h ahead);
          cached = f.cached;
          same_file = ap (λ q. q.rec_file) f.kept;
          same_index = ap (λ q. q.index) f.kept;
          same_level = ap (λ q. q.desired_initial_level) f.kept;
          same_rewind = ap (λ q. q.auto_rewind) f.kept;
          same_threading = ap (λ q. q.threading) f.kept;
          moved = ap (λ q. q.current_envelope_to_replay) f.kept;
          left = ap (λ q. q.previous_envelope_already_replayed) f.kept;
          read_on = ground (arith, f.reached);
          waited = ap (λ q. q.delay_in_microseconds) f.kept;
        }

    pub replay_next-Replayed : Replayed p (replay_next memory p)
    unfolding replay_next
    replay_next-Replayed = rw (not_at_end, some_cached) (finished p.threading refl)

    -- If what holds of the cache holds, and the current entry has been read,
    -- getNextEnvelopeToBeReplayed returns the envelope that the file has for that entry, moves on
    -- to the next entry, sets the delay to the difference of the sample times modulo 2 ^ 32,
    -- reads one more entry if there is no threading, and what holds of the cache still does.
    pub get_next_envelope_to_be_replayed-Replayed :
        (floats : Floats) → Replayed p (get_next_envelope_to_be_replayed memory floats p)
    unfolding get_next_envelope_to_be_replayed
    get_next_envelope_to_be_replayed-Replayed floats =
        rw (not_at_end, some_cached) (finished p.threading refl)

    -- The delay after a call that returns the envelope of the current entry is the time from the
    -- sample time of the entry replayed before to that of the replayed one, modulo 2 ^ 32
    -- microseconds, or one second if that is longer.
    pub delay-get_next_envelope_to_be_replayed :
        (floats : Floats)
        → (p' : Player) × (get_next_envelope_to_be_replayed memory floats p
            ≡ returns
                ((true, envelope_at memory p.rec_file p.index p.current_envelope_to_replay), p'))
          × (delay p'
              ≡ min
                  ((key (entry_at p.index p.current_envelope_to_replay)
                      - key (entry_at p.index p.previous_envelope_already_replayed))
                    % 2 ^ 32)
                  1_000_000)
    unfolding delay
    delay-get_next_envelope_to_be_replayed floats =
        let r = get_next_envelope_to_be_replayed-Replayed floats in
        let lt : p.current_envelope_to_replay < length p.index = omega (arith, h.next_le) in
        (
          r.after,
          r.returned,
          omega (
            arith,
            r.waited,
            h.indexed.small p.current_envelope_to_replay lt,
            h.indexed.small p.previous_envelope_already_replayed (omega (arith, h.previous_le)),
            h.indexed.in_order p.previous_envelope_already_replayed p.current_envelope_to_replay
                h.previous_le lt,
          ),
        )
