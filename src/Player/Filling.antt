-- ===== src/Player/Filling.antt =====
-- What holds of the cache of a player, and that fillEnvelopeCache of libcluon/src/Player.cpp keeps
-- it and ends.
use libcluon.Prelude.{
  ◌^◌, ℕ, zero, suc, ◌+◌, ◌-◌, ◌≤◌, ◌<◌, ◌≡◌, ◌≢◌, ltb, ◌&&◌, inl, inr, refl, ap, ◌∙◌, arith, true,
  Bool-cases, List, none, some, ◌==◌, if◌then◌else◌, length, min,
}
use libcluon.Envelope.{Envelope}
use libcluon.Player.Index.{IndexEntry, key}
use libcluon.Player.EnvelopeCache.{find, find-emplace}
use libcluon.Player.{
  entry_at, Outcome, returns, Player, position_at, extract_at, store_next, fill_loop,
  fill_envelope_cache,
}

module _ (memory : ℕ → ℕ) where
  -- The envelope of the index entry `i`, as it stands in the file.
  abbrev pub envelope_at : List ℕ → List IndexEntry → ℕ → Envelope
  envelope_at file index i = (extract_at memory file (position_at index i)).1

  -- Every entry of the index has an envelope in the file, and no two entries the same one; the
  -- entries are in the order of their sample times, which are 64-bit patterns.
  pub record IsIndexed (file : List ℕ) (index : List IndexEntry) : Type 0 where
    pub extractable :
        (i : ℕ) → i < length index → (extract_at memory file (position_at index i)).0 ≡ true
    pub distinct :
        (i j : ℕ)
        → i < length index
        → j < length index
        → position_at index i ≡ position_at index j
        → i ≡ j
    pub small : (i : ℕ) → i < length index → (entry_at index i).sample_time_stamp < 2 ^ 64
    pub in_order :
        (i j : ℕ) → i ≤ j → j < length index → key (entry_at index i) ≤ key (entry_at index j)

  -- What is in the cache is what the file has there, and all entries are in it from the current
  -- one up to the next one to be read.
  pub record IsCached (p : Player) : Type 0 where
    pub indexed : IsIndexed p.rec_file p.index
    pub valid : p.rec_file_valid ≡ true
    pub sound :
        (k : ℕ) (env : Envelope)
        → find k p.envelope_cache ≡ some env
        → env ≡ (extract_at memory p.rec_file k).1
    pub present :
        (i : ℕ)
        → p.current_envelope_to_replay ≤ i
        → i < p.next_entry_to_read_from_rec_file
        → find (position_at p.index i) p.envelope_cache ≢ none
    pub previous_le : p.previous_envelope_already_replayed ≤ p.current_envelope_to_replay
    pub current_le : p.current_envelope_to_replay ≤ length p.index
    pub next_le : p.next_entry_to_read_from_rec_file ≤ length p.index

  -- A player that has read more entries and is otherwise as it was.
  abbrev pub Reads : Player → Player → Type 0
  Reads p q = q ≡ record p {
    available = q.available;
    envelope_cache = q.envelope_cache;
    next_entry_to_read_from_rec_file = q.next_entry_to_read_from_rec_file;
  }

  module _ (p : Player) (h : IsCached p) where
    next_envelope : Envelope
    next_envelope = envelope_at p.rec_file p.index p.next_entry_to_read_from_rec_file

    stored_sound :
        (k : ℕ) (env : Envelope)
        → find k (store_next p next_envelope).envelope_cache ≡ some env
        → env ≡ (extract_at memory p.rec_file k).1
    unfolding store_next next_envelope
    stored_sound k env e = ground (
      arith,
      find-emplace (position_at p.index p.next_entry_to_read_from_rec_file) k next_envelope
          p.envelope_cache,
      h.sound k env,
    )

    stored_present :
        (i : ℕ)
        → p.current_envelope_to_replay ≤ i
        → i < p.next_entry_to_read_from_rec_file + 1
        → find (position_at p.index i) (store_next p next_envelope).envelope_cache ≢ none
    unfolding store_next next_envelope
    stored_present i low up = ground (
      arith,
      find-emplace (position_at p.index p.next_entry_to_read_from_rec_file) (position_at p.index i)
          next_envelope p.envelope_cache,
      h.present i low,
    )

    store_next-IsCached :
        p.next_entry_to_read_from_rec_file ≢ length p.index → IsCached (store_next p next_envelope)
    unfolding store_next
    store_next-IsCached more = record {
      indexed = h.indexed;
      valid = h.valid;
      sound = stored_sound;
      present = stored_present;
      previous_le = h.previous_le;
      current_le = h.current_le;
      next_le = omega (arith, h.next_le);
    }

  -- The outcome of reading up to `room` entries.
  pub record Filled (p : Player) (room entries_read : ℕ) (o : Outcome (ℕ × Player)) : Type 0 where
    pub after : Player
    pub returned :
        o
        ≡ returns
            (entries_read + min room (length p.index - p.next_entry_to_read_from_rec_file), after)
    pub kept : Reads p after
    pub reached :
        after.next_entry_to_read_from_rec_file
        ≡ min (p.next_entry_to_read_from_rec_file + room) (length p.index)
    pub cached : IsCached after

  -- A filled player that was given one entry before.
  Filled-store_next :
      (room entries_read : ℕ) (p : Player) {o : Outcome (ℕ × Player)}
      → p.next_entry_to_read_from_rec_file ≢ length p.index
      → p.next_entry_to_read_from_rec_file ≤ length p.index
      → Filled
          (store_next p (envelope_at p.rec_file p.index p.next_entry_to_read_from_rec_file))
          room
          (entries_read + 1)
          o
      → Filled p (suc room) entries_read o
  unfolding store_next
  Filled-store_next room entries_read p more le f = record {
    after = f.after;
    returned = f.returned ∙ ap (λ (n : ℕ). returns (n, f.after)) (omega arith);
    kept = f.kept;
    reached = omega (arith, f.reached);
    cached = f.cached;
  }

  none_read :
      (entries_read : ℕ) (p : Player)
      → IsCached p
      → Filled p 0 entries_read (returns (entries_read, p))
  none_read entries_read p h = record {
    after = p;
    returned = ap (λ (n : ℕ). returns (n, p)) (omega arith);
    kept = refl;
    reached = omega (arith, h.next_le);
    cached = h;
  }

  fill_loop-Filled :
      (room entries_read : ℕ) (p : Player)
      → IsCached p
      → Filled p room entries_read (fill_loop memory room entries_read p)
  unfolding fill_loop next_envelope
  fill_loop-Filled zero entries_read p h = none_read entries_read p h
  fill_loop-Filled (suc room) entries_read p h =
      elim (Bool-cases (p.next_entry_to_read_from_rec_file == length p.index)) [
        | inl e ↦ rw e (record {
          after = p;
          returned = ap (λ (n : ℕ). returns (n, p)) (ground arith);
          kept = refl;
          reached = ground (arith, h.next_le);
          cached = h;
        })
        | inr e ↦
            let more : p.next_entry_to_read_from_rec_file ≢ length p.index = ground arith in
            rw
              (
                e,
                h.indexed.extractable p.next_entry_to_read_from_rec_file (omega (arith, h.next_le)),
              )
              (Filled-store_next room entries_read p more h.next_le (
                fill_loop-Filled room (entries_read + 1)
                  (store_next p (envelope_at p.rec_file p.index p.next_entry_to_read_from_rec_file))
                  (store_next-IsCached p h more)))
      ]

  positive : (max : ℕ) → ltb 0 (suc max) ≡ true
  positive max = ground arith

  opened :
      (max : ℕ) (p : Player)
      → IsCached p
      → fill_envelope_cache memory max p
        ≡ (if ltb 0 max then fill_loop memory max 0 p else returns (0, p))
  unfolding fill_envelope_cache
  opened max p h =
      ap (λ b. if b && ltb 0 max then fill_loop memory max 0 p else returns (0, p)) h.valid

  -- fillEnvelopeCache returns as many entries as were asked for or are left, has read these, and
  -- keeps what holds of the cache.
  pub fill_envelope_cache-Filled :
      (max : ℕ) (p : Player) → IsCached p → Filled p max 0 (fill_envelope_cache memory max p)
  unfolding fill_envelope_cache
  fill_envelope_cache-Filled zero p h = rw (opened 0 p h) (none_read 0 p h)
  fill_envelope_cache-Filled (suc max) p h =
      rw (opened (suc max) p h, positive max) (fill_loop-Filled (suc max) 0 p h)
