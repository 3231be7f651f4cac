-- ===== src/Player/Seeking.antt =====
-- seekTo() of libcluon/src/Player.cpp.
use libcluon.Prelude.{
  ℕ, zero, suc, ◌+◌, ◌-◌, ◌%◌, ◌^◌, ◌≤◌, ◌<◌, ◌≡◌, refl, ap, ◌∙◌, arith, true, false, not, ◌&&◌,
  ◌==◌, Bool-cases, inl, inr, [], if◌then◌else◌, if_true, if_false, length,
}
use libcluon.Player.EnvelopeCache.{find}
use libcluon.Player.{
  Outcome, returns, undefined, ◌>>=◌, Floats, Ratio, Player, reset_caches, reset_iterators,
}
use libcluon.Player.Replay.{fast_forward, refill_after_seek, seek_to}
use libcluon.Player.Filling.{IsIndexed, IsCached, fill_envelope_cache-Filled}
use libcluon.Player.Replaying.{get_next_envelope_to_be_replayed-Replayed}

module _ (memory : ℕ → ℕ) (floats : Floats) where
  abbrev forwarded : ℕ → Player → Player
  forwarded rounds p = record p {
    current_envelope_to_replay = p.current_envelope_to_replay + rounds;
    number_of_returned_envelopes_in_total = p.number_of_returned_envelopes_in_total + rounds;
  }

  -- Within the index, the loop moves by as many entries as it makes rounds.
  fast_forward-forwarded :
      (rounds : ℕ) (p : Player)
      → p.current_envelope_to_replay + rounds ≤ length p.index
      → fast_forward memory floats rounds p ≡ returns (forwarded rounds p)
  unfolding fast_forward
  fast_forward-forwarded zero p le = λ i. returns (record p {
    current_envelope_to_replay = at_same p.current_envelope_to_replay i;
    number_of_returned_envelopes_in_total = at_same p.number_of_returned_envelopes_in_total i;
  })
    where
      at_same : (n : ℕ) → n ≡ n + 0
      at_same n = omega arith
  fast_forward-forwarded (suc rounds) p le =
      if_false (p.current_envelope_to_replay == length p.index) _ _ (ground arith)
      ∙ fast_forward-forwarded rounds (forwarded 1 p) (omega arith)
      ∙ λ i. returns (record p {
        current_envelope_to_replay = one_more p.current_envelope_to_replay i;
        number_of_returned_envelopes_in_total = one_more p.number_of_returned_envelopes_in_total i;
      })
    where
      one_more : (n : ℕ) → n + 1 + rounds ≡ n + suc rounds
      one_more n = omega arith

  -- More rounds than there are entries move an iterator past the end.
  fast_forward_undefined :
      (rounds : ℕ) (p : Player)
      → p.current_envelope_to_replay ≤ length p.index
      → length p.index < p.current_envelope_to_replay + rounds
      → fast_forward memory floats rounds p ≡ undefined
  unfolding fast_forward
  fast_forward_undefined zero p le more = absurd (omega arith)
  fast_forward_undefined (suc rounds) p le more =
      elim (Bool-cases (p.current_envelope_to_replay == length p.index)) [
        | inl e ↦ rw e
        | inr e ↦
            if_false (p.current_envelope_to_replay == length p.index) _ _ e
            ∙ fast_forward_undefined rounds (forwarded 1 p) (ground arith) (omega arith)
      ]

  -- A player at the entry `target`, with a cache that is right and has the entry, and the rest as
  -- it was.
  pub record Sought (p : Player) (target : ℕ) (o : Outcome Player) : Type 0 where
    pub after : Player
    pub returned : o ≡ returns after
    pub cached : IsCached memory after
    pub same_file : after.rec_file ≡ p.rec_file
    pub same_index : after.index ≡ p.index
    pub same_rewind : after.auto_rewind ≡ p.auto_rewind
    pub same_threading : after.threading ≡ p.threading
    pub at_target : after.current_envelope_to_replay ≡ target
    pub ahead :
        after.current_envelope_to_replay < length after.index
        → after.current_envelope_to_replay < after.next_entry_to_read_from_rec_file

  abbrev skips : Ratio → ℕ
  skips ratio = if ratio.positive && ratio.below_one then 1 else 0

  module _ (p : Player) (indexed : IsIndexed memory p.rec_file p.index)
      (valid : p.rec_file_valid ≡ true) (inside : p.current_envelope_to_replay < length p.index)
      (some_filled : 1 ≤ floats.third p.desired_initial_level)
      (sequential : p.threading ≡ false) where
    abbrev cleared : Player
    cleared = record p {
      next_entry_to_read_from_rec_file = p.current_envelope_to_replay;
      previous_envelope_already_replayed = p.current_envelope_to_replay;
      envelope_cache = [];
    }

    cleared-IsCached : IsCached memory cleared
    unfolding find
    cleared-IsCached = record {
      indexed = indexed;
      valid = valid;
      sound = λ k env e. cc;
      present = λ i low up. absurd (omega arith);
      previous_le = omega arith;
      current_le = omega arith;
      next_le = omega arith;
    }

    refill_after_seek-Sought :
        (ratio : Ratio)
        → Sought p
            (p.current_envelope_to_replay + skips ratio)
            (refill_after_seek memory floats ratio p)
    unfolding refill_after_seek
    refill_after_seek-Sought ratio =
        let f =
          fill_envelope_cache-Filled memory (floats.third p.desired_initial_level) cleared
            cleared-IsCached in
        let start = ap (λ q. q.current_envelope_to_replay) f.kept in
        let index = ap (λ q. length q.index) f.kept in
        rw f.returned (elim (Bool-cases (ratio.positive && ratio.below_one)) [
          | inl c ↦
              let r =
                get_next_envelope_to_be_replayed-Replayed memory f.after f.cached
                  (omega (arith, f.reached, start)) floats in
              let calm = ap (λ q. q.threading) f.kept ∙ sequential in
              let read = r.read_on ∙ if_false f.after.threading _ _ calm in
              let same = ap length r.same_index in
              rw (c, r.returned)
                (record {
                  after = r.after;
                  returned = refl;
                  cached = r.cached;
                  same_file = r.same_file ∙ ap (λ q. q.rec_file) f.kept;
                  same_index = r.same_index ∙ ap (λ q. q.index) f.kept;
                  same_rewind = r.same_rewind ∙ ap (λ q. q.auto_rewind) f.kept;
                  same_threading = r.same_threading ∙ ap (λ q. q.threading) f.kept;
                  at_target = omega (arith, r.moved, start);
                  ahead = λ lt. omega (arith, read, r.moved, f.reached, start, index, same);
                })
          | inr c ↦ rw c (record {
            after = f.after;
            returned = refl;
            cached = f.cached;
            same_file = ap (λ q. q.rec_file) f.kept;
            same_index = ap (λ q. q.index) f.kept;
            same_rewind = ap (λ q. q.auto_rewind) f.kept;
            same_threading = ap (λ q. q.threading) f.kept;
            at_target = omega (arith, start);
            ahead = λ lt. omega (arith, f.reached, start);
          })
        ])

  -- The entry to which seekTo moves, for an index with `n` entries.
  abbrev pub target_of : Ratio → ℕ → ℕ
  target_of ratio n =
      if ratio.positive then (if ratio.below_one then ratio.share n else ratio.share n - 1) else 0

  module _ (p : Player) (ratio : Ratio) (not_negative : ratio.negative ≡ false)
      (not_above : ratio.above_one ≡ false) where
    abbrev at_reset : Player
    at_reset = reset_iterators (reset_caches (record p { threading = false }))

    abbrev rounds_of : ℕ
    rounds_of = (ratio.share (length p.index % 2 ^ 32) + (2 ^ 32 - 1)) % 2 ^ 32

    abbrev finish : Player → Outcome Player
    finish q = refill_after_seek memory floats ratio q >>= λ q'.
        returns (record q' { threading = p.threading })

    abbrev forward : Outcome Player
    forward =
        if ratio.positive then fast_forward memory floats rounds_of at_reset else returns at_reset

    accepted : seek_to memory floats ratio p ≡ (forward >>= finish)
    unfolding seek_to
    accepted =
        let both : (not ratio.negative && not ratio.above_one) ≡ true =
          rw (not_negative, not_above) in
        if_true (not ratio.negative && not ratio.above_one) _ _ both

    share_same :
        length p.index < 2 ^ 32
        → ratio.share (length p.index % 2 ^ 32) ≡ ratio.share (length p.index)
    share_same small = ap ratio.share (omega arith)

    -- If a ratio above 0 and not above 1 selects no entry of the index, as one does that is
    -- smaller than one entry, the number of rounds of the loop of seekTo wraps around, and an
    -- iterator is moved past the end of the index; for fewer than 2 ^ 32 - 1 entries.
    pub seek_to_undefined :
        ratio.positive ≡ true
        → ratio.share (length p.index) ≡ 0
        → length p.index < 2 ^ 32 - 1
        → seek_to memory floats ratio p ≡ undefined
    unfolding reset_iterators reset_caches
    seek_to_undefined positive none_selected fits =
        accepted
        ∙ ap (λ o. o >>= finish)
            (if_true ratio.positive _ _ positive
              ∙ fast_forward_undefined rounds_of at_reset (omega arith)
                  (omega (arith, share_same (omega arith), none_selected)))

    module _ (indexed : IsIndexed memory p.rec_file p.index) (valid : p.rec_file_valid ≡ true)
        (nonempty : 0 < length p.index)
        (some_filled : 1 ≤ floats.third p.desired_initial_level) where
      -- From the entry that the loop has moved to.
      finish-Sought :
          (rounds target : ℕ)
          → rounds < length p.index
          → rounds + skips ratio ≡ target
          → Sought p target (finish (forwarded rounds at_reset))
      unfolding reset_iterators reset_caches
      finish-Sought rounds target lt e =
          let s =
            refill_after_seek-Sought (forwarded rounds at_reset) indexed valid (omega arith)
              some_filled refl ratio in
          record {
            after = record s.after { threading = p.threading };
            returned =
                ap
                  (λ (o : Outcome Player).
                    o >>= λ q'. returns (record q' { threading = p.threading }))
                  s.returned;
            cached = record {
              indexed = s.cached.indexed;
              valid = s.cached.valid;
              sound = s.cached.sound;
              present = s.cached.present;
              previous_le = s.cached.previous_le;
              current_le = s.cached.current_le;
              next_le = s.cached.next_le;
            };
            same_file = s.same_file;
            same_index = s.same_index;
            same_rewind = s.same_rewind;
            same_threading = refl;
            at_target = omega (arith, s.at_target, e);
            ahead = s.ahead;
          }

      -- For a ratio from 0 to 1 that selects no more entries than there are, and at least one if
      -- it is above 0, seekTo returns; the next entry to be replayed is then the first for ratio
      -- 0, the one behind the selected entries below 1, and the last of these otherwise, and has
      -- been read if there is one; what holds of the cache does so again, for an index with
      -- entries, fewer than 2 ^ 32, that are all in the file, if the part of the initial level
      -- that is filled is one entry at least.
      pub seek_to-Sought :
          (ratio.positive ≡ true → 1 ≤ ratio.share (length p.index))
          → ratio.share (length p.index) ≤ length p.index
          → length p.index < 2 ^ 32
          → Sought p (target_of ratio (length p.index)) (seek_to memory floats ratio p)
      unfolding reset_iterators reset_caches
      seek_to-Sought least most small = elim (Bool-cases ratio.positive) [
        | inl c ↦
            let bound : rounds_of < length p.index = omega (arith, share_same small, least c) in
            let e =
              if_true ratio.positive _ _ c
              ∙ fast_forward-forwarded rounds_of at_reset (omega arith) in
            rw (accepted ∙ ap (λ o. o >>= finish) e) (
              finish-Sought rounds_of (target_of ratio (length p.index)) bound
                (ground (arith, share_same small, least c)))
        | inr c ↦
            rw (accepted ∙ ap (λ o. o >>= finish) (if_false ratio.positive _ _ c))
              (finish-Sought 0 (target_of ratio (length p.index)) nonempty (ground arith))
      ]
