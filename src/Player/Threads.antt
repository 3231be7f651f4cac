-- ===== src/Player/Threads.antt =====
-- A player of libcluon/src/Player.cpp with threading: calls of getNextEnvelopeToBeReplayed between
-- rounds of the thread that fills the cache. Both hold the lock as they touch the cache.
use libcluon.Prelude.{
  ℕ, suc, ◌+◌, ◌<◌, ◌≡◌, ◌≢◌, refl, sym, ap, ◌∙◌, arith, true, ◌==◌, Bool-cases, inl, inr, List, [],
  ◌∷◌, none, map, take, drop, if_true, if_false, length, min, if◌then◌else◌,
}
use libcluon.Envelope.{Envelope, new_envelope}
use libcluon.Player.EnvelopeCache.{find, or_new, at_position}
use libcluon.Player.{Outcome, returns, ◌>>=◌, Floats, Player, position_at}
use libcluon.Player.Replay.{get_next_envelope_to_be_replayed, replay_current, check_refilling_cache}
use libcluon.Player.Filling.{IsCached, envelope_at, Reads, fill_envelope_cache-Filled}
use libcluon.Player.Replaying.{get_next_envelope_to_be_replayed-Replayed}
use libcluon.Player.Listing.{envelope_of, drop-entry_at}

add_one : (n : ℕ) → n + 1 ≡ suc n
add_one n = omega arith

module _ (memory : ℕ → ℕ) (floats : Floats) where
  -- A call of the application, or a round of the thread, with the number of entries that it has
  -- seen before and its multiplicator.
  pub data Action : Type 0 where
    call : Action
    round : ℕ → floats.Multiplicator → Action

  abbrev pub calls : List Action → ℕ
  calls [] = 0
  calls (call ∷ acts) = suc (calls acts)
  calls (round n m ∷ acts) = calls acts

  pub run : List Action → Player → Outcome (List Envelope × Player)
  run [] p = returns ([], p)
  run (call ∷ acts) p = get_next_envelope_to_be_replayed memory floats p >>= λ r.
      run acts r.1 >>= λ q. returns (r.0.1 ∷ q.0, q.1)
  run (round n m ∷ acts) p = check_refilling_cache memory floats n m p >>= λ r. run acts r.1

  -- The next entry to be read after a round.
  abbrev next_after : ℕ → floats.Multiplicator → ℕ → ℕ → ℕ → ℕ
  next_after n m level size next =
      if floats.is_low n level then min (next + floats.refill m level) size else next

  -- Each call finds its entry read, by the rounds before it or before the run: `level` is the
  -- desired level of the cache and `size` the number of entries of the index.
  abbrev pub IsAhead : List Action → ℕ → ℕ → ℕ → ℕ → Type 0
  IsAhead [] level size current next = Unit {0}
  IsAhead (call ∷ acts) level size current next =
      (current < next) × IsAhead acts level size (suc current) next
  IsAhead (round n m ∷ acts) level size current next =
      IsAhead acts level size current (next_after n m level size next)

  abbrev pub StaysAhead : List Action → Player → Type 0
  StaysAhead acts p =
      IsAhead acts p.desired_initial_level (length p.index) p.current_envelope_to_replay
        p.next_entry_to_read_from_rec_file

  -- A round returns, reads on or does nothing, and keeps what holds of the cache.
  pub record Refilled (n : ℕ) (m : floats.Multiplicator) (p : Player)
      (o : Outcome (floats.Multiplicator × Player)) : Type 0 where
    pub multiplicator : floats.Multiplicator
    pub after : Player
    pub returned : o ≡ returns (multiplicator, after)
    pub kept : Reads memory p after
    pub read_on :
        after.next_entry_to_read_from_rec_file
        ≡ next_after n m p.desired_initial_level (length p.index) p.next_entry_to_read_from_rec_file
    pub cached : IsCached memory after

  check_refilling_cache-Refilled :
      (n : ℕ) (m : floats.Multiplicator) (p : Player)
      → IsCached memory p
      → Refilled n m p (check_refilling_cache memory floats n m p)
  unfolding check_refilling_cache
  check_refilling_cache-Refilled n m p h =
      elim (Bool-cases (floats.is_low n p.desired_initial_level)) [
        | inl c ↦
            let f =
              fill_envelope_cache-Filled memory (floats.refill m p.desired_initial_level) p h in
            rw (c, f.returned)
              (record {
                multiplicator = _;
                after = f.after;
                returned = refl;
                kept = f.kept;
                read_on = f.reached ∙ sym (if_true (floats.is_low n p.desired_initial_level) _ _ c);
                cached = f.cached;
              })
        | inr c ↦ rw c (record {
          multiplicator = m;
          after = p;
          returned = refl;
          kept = refl;
          read_on = sym (if_false (floats.is_low n p.desired_initial_level) _ _ c);
          cached = h;
        })
      ]

  -- What the calls of a run return.
  abbrev pub Gives : List Action → Player → Type 0
  Gives acts p =
      (p' : Player) × (run acts p
        ≡ returns (
          map (envelope_of memory p.rec_file)
              (take (calls acts) (drop p.current_envelope_to_replay p.index)),
          p',
        ))
      × IsCached memory p'

  -- With threading, calls return the envelopes of the index in its order, each one once, and what
  -- holds of the cache still does, whenever the thread makes its rounds, if each call finds its
  -- entry read by then: before the run, or in the rounds before the call, of which one that finds
  -- the cache low reads as many entries as its multiplicator says or are left.
  pub run-in_order :
      (acts : List Action) (p : Player)
      → IsCached memory p
      → p.threading ≡ true
      → StaysAhead acts p
      → Gives acts p
  unfolding run
  run-in_order [] p h t lead = (p, refl, h)
  run-in_order (call ∷ acts) p h t lead =
      let lt : p.current_envelope_to_replay < length p.index = omega (arith, lead.0, h.next_le) in
      let r = get_next_envelope_to_be_replayed-Replayed memory p h lead.0 floats in
      let read = r.read_on ∙ if_true p.threading _ _ t in
      let on : StaysAhead acts r.after =
        rw (r.same_level, r.same_index, r.moved, read, add_one p.current_envelope_to_replay)
          lead.1 in
      let (p', rest, cached) = run-in_order acts r.after r.cached (r.same_threading ∙ t) on in
      let m : r.after.current_envelope_to_replay ≡ suc p.current_envelope_to_replay =
        omega (arith, r.moved) in
      (
        p',
        rw r.returned (
            ap
              (λ o. o >>= λ q.
                returns
                  (envelope_at memory p.rec_file p.index p.current_envelope_to_replay ∷ q.0, q.1))
              rest
            ∙ (λ i. returns (
              envelope_at memory p.rec_file p.index p.current_envelope_to_replay
                  ∷ map (envelope_of memory (r.same_file i))
                      (take (calls acts) (drop (m i) (r.same_index i))),
              p',
            ))
            ∙ ap
                (λ l. returns (map (envelope_of memory p.rec_file) (take (suc (calls acts)) l), p'))
                (sym (drop-entry_at p.current_envelope_to_replay p.index lt))),
        cached,
      )
  run-in_order (round n m ∷ acts) p h t lead =
      let r = check_refilling_cache-Refilled n m p h in
      let on : StaysAhead acts r.after =
        rw
          (
            ap (λ q. q.desired_initial_level) r.kept,
            ap (λ q. q.index) r.kept,
            ap (λ q. q.current_envelope_to_replay) r.kept,
            r.read_on,
          )
          lead in
      let (p', rest, cached) =
        run-in_order acts r.after r.cached (ap (λ q. q.threading) r.kept ∙ t) on in
      (
        p',
        rw r.returned (
            rest ∙ λ i. returns (
              map (envelope_of memory ((r.kept i).rec_file))
                  (take (calls acts) (drop (r.kept i).current_envelope_to_replay (r.kept i).index)),
              p',
            )),
        cached,
      )

  -- With threading, if the current entry is not in the cache but another envelope is,
  -- getNextEnvelopeToBeReplayed returns a new envelope as the recorded one and moves on.
  pub get_next_uncached :
      (p : Player)
      → p.threading ≡ true
      → p.current_envelope_to_replay ≢ length p.index
      → length p.envelope_cache ≢ 0
      → find (position_at p.index p.current_envelope_to_replay) p.envelope_cache ≡ none
      → (p' : Player) × (get_next_envelope_to_be_replayed memory floats p
          ≡ returns ((true, new_envelope), p'))
        × (p'.current_envelope_to_replay ≡ p.current_envelope_to_replay + 1)
  unfolding get_next_envelope_to_be_replayed at_position
  get_next_uncached p t more some_left missing = (
    (replay_current p).1,
    if_false (p.current_envelope_to_replay == length p.index) _ _ (ground arith)
        ∙ if_false (p.current_envelope_to_replay == length p.index) _ _ (ground arith)
        ∙ if_false (length p.envelope_cache == 0) _ _ (ground arith)
        ∙ if_true p.threading _ _ t
        ∙ ap (λ o. returns ((true, or_new o), (replay_current p).1)) missing,
    refl,
  )
