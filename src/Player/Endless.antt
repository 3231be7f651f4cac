-- ===== src/Player/Endless.antt =====
-- A player of libcluon/src/Player.cpp that rewinds at the end, without threading.
use libcluon.Prelude.{
  ℕ, zero, suc, ◌+◌, ◌%◌, ◌<◌, ◌≡◌, refl, sym, ap, ◌∙◌, arith, true, false, ◌==◌, Bool-cases, inl,
  inr, List, [], ◌∷◌, if◌then◌else◌, if_true, if_false, length,
}
use native.Mathlib.Nat.{mod-eq_of_lt, add-mod, mod-add-mod}
use libcluon.Envelope.{Envelope}
use libcluon.Player.{returns, ◌>>=◌, Floats, Player}
use libcluon.Player.Replay.{get_next_envelope_to_be_replayed, replay_next, rewind}
use libcluon.Player.Filling.{IsCached, envelope_at}
use libcluon.Player.Replaying.{
  Replayed, replay_next-Replayed, get_next_envelope_to_be_replayed-Replayed,
}
use libcluon.Player.Starting.{Rewound, rewind-Rewound}
use libcluon.Player.Listing.{replay}

-- What is at the places from `i` on of a circle of `n`.
abbrev pub in_turn : (ℕ → Envelope) → ℕ → ℕ → ℕ → List Envelope
in_turn at n zero i = []
in_turn at n (suc calls) i = at (i % n) ∷ in_turn at n calls (i + 1)

in_turn-mod :
    (at : ℕ → Envelope) (n calls i j : ℕ)
    → i % n ≡ j % n
    → in_turn at n calls i ≡ in_turn at n calls j
in_turn-mod at n zero i j e = refl
in_turn-mod at n (suc calls) i j e = λ k. at (e k) ∷ in_turn-mod at n calls (i + 1) (j + 1) next k
  where
    next : (i + 1) % n ≡ (j + 1) % n
    next = add-mod i 1 n ∙ ap (λ (m : ℕ). (m + 1 % n) % n) e ∙ sym (add-mod j 1 n)

mod_self : (n : ℕ) → n % n ≡ 0
mod_self n = grind arith

module _ (memory : ℕ → ℕ) (floats : Floats) where
  pub record IsEndless (p : Player) : Type 0 where
    pub cached : IsCached memory p
    pub sequential : p.threading ≡ false
    pub rewinding : p.auto_rewind ≡ true
    pub nonempty : 0 < length p.index
    pub ahead :
        p.current_envelope_to_replay < length p.index
        → p.current_envelope_to_replay < p.next_entry_to_read_from_rec_file

  -- The entry whose envelope the next call returns.
  abbrev next_of : Player → ℕ
  next_of p =
      if p.current_envelope_to_replay == length p.index then 0 else p.current_envelope_to_replay

  -- A call of an endless player, which stays one.
  record Goes (p : Player) : Type 0 where
    after : Player
    returned :
        get_next_envelope_to_be_replayed memory floats p
        ≡ returns ((true, envelope_at memory p.rec_file p.index (next_of p)), after)
    endless : IsEndless after
    same_file : after.rec_file ≡ p.rec_file
    same_index : after.index ≡ p.index
    moved : after.current_envelope_to_replay ≡ next_of p + 1

  advance-Goes :
      (p q : Player)
      → IsEndless p
      → q.rec_file ≡ p.rec_file
      → q.index ≡ p.index
      → q.auto_rewind ≡ p.auto_rewind
      → q.threading ≡ p.threading
      → q.current_envelope_to_replay ≡ next_of p
      → q.current_envelope_to_replay < q.next_entry_to_read_from_rec_file
      → Replayed memory q (get_next_envelope_to_be_replayed memory floats p)
      → Goes p
  advance-Goes p q h file index rewinds threads at lead r =
      let same = r.same_index ∙ index in
      let calm = r.same_threading ∙ threads ∙ h.sequential in
      let read = r.read_on ∙ if_false q.threading _ _ (threads ∙ h.sequential) in
      record {
        after = r.after;
        returned = r.returned ∙ λ i.
            returns ((true, envelope_at memory (file i) (index i) (at i)), r.after);
        endless = record {
          cached = r.cached;
          sequential = calm;
          rewinding = r.same_rewind ∙ rewinds ∙ h.rewinding;
          nonempty = omega (arith, ap length same, h.nonempty);
          ahead = λ lt. omega (arith, read, r.moved, lead, ap length r.same_index);
        };
        same_file = r.same_file ∙ file;
        same_index = same;
        moved = omega (arith, r.moved, at);
      }

  rewound :
      (p : Player)
      → IsEndless p
      → p.current_envelope_to_replay ≡ length p.index
      → (r : Rewound memory p (rewind memory floats p))
      → get_next_envelope_to_be_replayed memory floats p ≡ replay_next memory r.after
  unfolding get_next_envelope_to_be_replayed
  rewound p h over r =
      if_true (p.current_envelope_to_replay == length p.index) _ _ (ground arith)
      ∙ if_true p.auto_rewind _ _ h.rewinding
      ∙ ap (λ o. o >>= λ q. replay_next memory q) r.returned

  call-Goes : (p : Player) → IsEndless p → Goes p
  call-Goes p h = elim (Bool-cases (p.current_envelope_to_replay == length p.index)) [
    | inl e ↦
        let over : p.current_envelope_to_replay ≡ length p.index = ground arith in
        let r = rewind-Rewound memory floats p h.cached.indexed h.cached.valid h.nonempty in
        let lead : r.after.current_envelope_to_replay < r.after.next_entry_to_read_from_rec_file =
          omega (arith, r.at_start, r.some_read) in
        advance-Goes p r.after h r.same_file r.same_index r.same_rewind r.same_threading
          (r.at_start ∙ sym (if_true (p.current_envelope_to_replay == length p.index) _ _ e)) lead
          (rw (rewound p h over r) (replay_next-Replayed memory r.after r.cached lead))
    | inr e ↦
        let lead : p.current_envelope_to_replay < p.next_entry_to_read_from_rec_file =
          h.ahead (ground (arith, h.cached.current_le)) in
        advance-Goes p p h refl refl refl refl
          (sym (if_false (p.current_envelope_to_replay == length p.index) _ _ e)) lead
          (get_next_envelope_to_be_replayed-Replayed memory p h.cached lead floats)
  ]

  next_of-mod :
      (p : Player) → IsEndless p → next_of p ≡ p.current_envelope_to_replay % length p.index
  next_of-mod p h = elim (Bool-cases (p.current_envelope_to_replay == length p.index)) [
    | inl e ↦
        let over : length p.index ≡ p.current_envelope_to_replay = ground arith in
        if_true (p.current_envelope_to_replay == length p.index) _ _ e
        ∙ sym (mod_self (length p.index))
        ∙ ap (λ (n : ℕ). n % length p.index) over
    | inr e ↦
        if_false (p.current_envelope_to_replay == length p.index) _ _ e
        ∙ sym (mod-eq_of_lt (ground (arith, h.cached.current_le)))
  ]

  -- A player without threading that rewinds at the end never stops returning envelopes: however
  -- often it is called, each call returns one, those of the entries in turn from the current one
  -- on, and the first again after the last; if the index has an entry, what holds of the cache
  -- holds, and the current entry has been read.
  pub replay_endless :
      (calls : ℕ) (p : Player)
      → IsEndless p
      → (p' : Player) × (replay memory floats calls p
          ≡ returns (
            in_turn
                (envelope_at memory p.rec_file p.index)
                (length p.index)
                calls
                p.current_envelope_to_replay,
            p',
          ))
        × IsEndless p'
  unfolding replay
  replay_endless zero p h = (p, refl, h)
  replay_endless (suc calls) p h =
      let g = call-Goes p h in
      let (p', rest, endless) = replay_endless calls g.after g.endless in
      let at = next_of-mod p h in
      (
        p',
        rw g.returned (
            ap
              (λ o.
                o >>= λ q. returns (envelope_at memory p.rec_file p.index (next_of p) ∷ q.0, q.1))
              rest
            ∙ (λ i. returns (
              envelope_at memory p.rec_file p.index (at i)
                  ∷ in_turn (envelope_at memory (g.same_file i) (g.same_index i))
                      (length (g.same_index i)) calls (g.moved i),
              p',
            ))
            ∙ ap
                (λ l. returns (
                  envelope_at memory p.rec_file p.index
                        (p.current_envelope_to_replay % length p.index)
                      ∷ l,
                  p',
                ))
                (in_turn-mod (envelope_at memory p.rec_file p.index) (length p.index) calls
                  (next_of p + 1) (p.current_envelope_to_replay + 1)
                  (ap (λ (m : ℕ). (m + 1) % length p.index) at
                    ∙ mod-add-mod p.current_envelope_to_replay (length p.index) 1))),
        endless,
      )
