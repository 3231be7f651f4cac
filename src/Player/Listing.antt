-- ===== src/Player/Listing.antt =====
-- The envelopes that repeated calls of getNextEnvelopeToBeReplayed of libcluon/src/Player.cpp
-- return, without threading and without rewinding at the end.
use libcluon.Prelude.{
  some, ℕ, zero, suc, ◌+◌, ◌<◌, ◌≡◌, refl, sym, ap, ◌∙◌, arith, Bool, false, Bool-cases, ◌==◌, inl,
  inr, List, [], ◌∷◌, map, if◌then◌else◌, length, drop, drop-all, if_true, if_false,
}
use libcluon.Envelope.{Envelope, new_envelope}
use libcluon.Player.Index.{IndexEntry, initialize_index}
use libcluon.Player.{Outcome, returns, ◌>>=◌, Floats, Player, entry_at, extract_at}
use libcluon.Player.Replay.{new_player, get_next_envelope_to_be_replayed, has_more_data}
use libcluon.Player.Filling.{envelope_at, IsCached}
use libcluon.Player.Replaying.{Replayed, get_next_envelope_to_be_replayed-Replayed}
use libcluon.Player.Starting.{new_player-Started}

pub drop-entry_at :
    (i : ℕ) (xs : List IndexEntry) → i < length xs → drop i xs ≡ entry_at xs i ∷ drop (suc i) xs
drop-entry_at i [] lt = absurd (omega arith)
drop-entry_at zero (x ∷ xs) lt = refl
drop-entry_at (suc i) (x ∷ xs) lt = drop-entry_at i xs (omega arith)

module _ (memory : ℕ → ℕ) where
  -- The envelope at an index entry of the file.
  abbrev pub envelope_of : List ℕ → IndexEntry → Envelope
  envelope_of file e = (extract_at memory file e.file_position).1

  -- At most `calls` calls, up to the first that returns no envelope.
  unfoldable pub replay : Floats → ℕ → Player → Outcome (List Envelope × Player)
  replay floats zero p = returns ([], p)
  replay floats (suc calls) p = get_next_envelope_to_be_replayed memory floats p >>= λ r.
      if r.0.0
      then (replay floats calls r.1 >>= λ q. returns (r.0.1 ∷ q.0, q.1))
      else returns ([], r.1)

  -- Each call finds its envelope in the cache, until the end of the index.
  pub record IsAhead (p : Player) : Type 0 where
    pub cached : IsCached memory p
    pub sequential : p.threading ≡ false
    pub once : p.auto_rewind ≡ false
    pub ahead :
        p.current_envelope_to_replay < length p.index
        → p.current_envelope_to_replay < p.next_entry_to_read_from_rec_file

  at_end :
      (floats : Floats) (p : Player)
      → p.auto_rewind ≡ false
      → p.current_envelope_to_replay ≡ length p.index
      → get_next_envelope_to_be_replayed memory floats p ≡ returns ((false, new_envelope), p)
  unfolding get_next_envelope_to_be_replayed
  at_end floats p o e =
      if_true (p.current_envelope_to_replay == length p.index) _ _ (ground arith)
      ∙ if_false p.auto_rewind _ _ o

  Replayed-IsAhead :
      (p : Player) {o : Outcome ((Bool × Envelope) × Player)}
      → IsAhead p
      → p.current_envelope_to_replay < length p.index
      → (r : Replayed memory p o) → IsAhead r.after
  Replayed-IsAhead p h lt r = record {
    cached = r.cached;
    sequential = r.same_threading ∙ h.sequential;
    once = r.same_rewind ∙ h.once;
    ahead = λ k. ground (arith, h.ahead lt, r.moved, r.read_on, ap length r.same_index);
  }

  -- All envelopes from the current entry on.
  abbrev Lists : Floats → ℕ → Player → Type 0
  Lists floats calls p =
      (p' : Player) × (replay floats calls p
        ≡ returns (map (envelope_of p.rec_file) (drop p.current_envelope_to_replay p.index), p'))
      × (has_more_data p' ≡ false)

  abbrev current_of : Player → Envelope
  current_of p = envelope_at memory p.rec_file p.index p.current_envelope_to_replay

  no_more :
      (floats : Floats) (p : Player)
      → IsAhead p
      → p.current_envelope_to_replay ≡ length p.index
      → has_more_data p ≡ false
  unfolding has_more_data
  no_more floats p h over = ground (arith, h.once)

  replay-Lists :
      (floats : Floats) (calls : ℕ) (p : Player)
      → IsAhead p
      → length p.index < calls + p.current_envelope_to_replay
      → Lists floats calls p
  unfolding replay
  replay-Lists floats zero p h enough = absurd (omega (arith, h.cached.current_le))
  replay-Lists floats (suc calls) p h enough =
      elim (Bool-cases (p.current_envelope_to_replay == length p.index)) [
        | inl e ↦
            let over : p.current_envelope_to_replay ≡ length p.index = ground arith in
            (
              p,
              rw (
                at_end floats p h.once over,
                over,
                drop-all (length p.index) p.index (omega arith),
              ),
              no_more floats p h over,
            )
        | inr e ↦
            let lt : p.current_envelope_to_replay < length p.index =
              ground (arith, h.cached.current_le) in
            let r =
              get_next_envelope_to_be_replayed-Replayed memory p h.cached (h.ahead lt) floats in
            let (p', rest, over) =
              replay-Lists floats calls r.after (Replayed-IsAhead p h lt r)
                (omega (arith, r.moved, ap length r.same_index)) in
            let m : r.after.current_envelope_to_replay ≡ suc p.current_envelope_to_replay =
              omega (arith, r.moved) in
            (
              p',
              rw r.returned (
                  ap (λ o. o >>= λ q. returns (current_of p ∷ q.0, q.1)) rest
                  ∙ (λ i. returns (
                    current_of p ∷ map (envelope_of (r.same_file i)) (drop (m i) (r.same_index i)),
                    p',
                  ))
                  ∙ ap (λ l. returns (map (envelope_of p.rec_file) l, p'))
                      (sym (drop-entry_at p.current_envelope_to_replay p.index lt))),
              over,
            )
      ]

  -- The outcome of replaying a whole file.
  pub record ReplaysAll (floats : Floats) (file : List ℕ) (calls : ℕ) : Type 0 where
    pub player : Player
    pub constructed : new_player memory floats (some file) false false ≡ returns player
    pub after : Player
    pub replayed :
        replay floats calls player
        ≡ returns (map (envelope_of file) (initialize_index memory file), after)
    pub over : has_more_data after ≡ false

  -- For a file with any bytes in which an envelope is found, a new player returns, in the order of
  -- the index, the envelope at the position of each entry, if it is called more often than there
  -- are entries. Then it has no more data.
  pub replay-new_player :
      (floats : Floats) (file : List ℕ) (calls : ℕ)
      → 0 < length (initialize_index memory file)
      → length (initialize_index memory file) < calls
      → ReplaysAll floats file calls
  replay-new_player floats file calls nonempty enough =
      let s = new_player-Started memory floats file false false nonempty in
      let (p', listed, over) =
        replay-Lists floats calls s.player
          (record {
            cached = s.cached;
            sequential = s.threading_set;
            once = s.rewind_set;
            ahead = λ lt. omega (arith, s.at_start, s.some_read);
          })
          (omega (arith, s.at_start, ap length s.index_there)) in
      record {
        player = s.player;
        constructed = s.returned;
        after = p';
        replayed = listed ∙ λ i.
            returns
              (map (envelope_of (s.file_there i)) (drop (s.at_start i) (s.index_there i)), p');
        over = over;
      }
