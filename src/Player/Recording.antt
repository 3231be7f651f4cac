-- ===== src/Player/Recording.antt =====
-- From a recording, serialized envelopes one after the other, to the envelopes that a player of
-- libcluon/src/Player.cpp returns.
use libcluon.Prelude.{
  Bool-cases, inl, inr, ℕ, zero, suc, ◌+◌, ◌≤◌, ◌<◌, ◌≡◌, refl, sym, ap, ◌∙◌, arith, false, ◌==◌,
  List, [], ◌∷◌, ◌++◌, some, map, if◌then◌else◌, length, drop-append_length, append_assoc,
  append-nil, length-append, All,
}
use libcluon.Stream.{stream, read}
use libcluon.Envelope.{Envelope, serialize_envelope, extract_envelope}
use libcluon.Envelope.Recorded.{recorded, IsRecordable, length-recorded, extract_recorded}
use libcluon.Player.Index.{
  IndexEntry, rank, key, sample_time, emplace_entry, index_loop, initialize_index,
}
use libcluon.Player.Index.Sorted.{
  IsSorted, with_key, with_key-emplace_entry, emplace_entry-IsSorted,
}
use libcluon.Player.Index.Built.{IsExtracted, loop_stopped, index_built}
use libcluon.Player.{returns, Floats, Player, extract_at}
use libcluon.Player.Replay.{has_more_data, new_player}
use libcluon.Player.Listing.{envelope_of, replay, replay-new_player}

-- No envelope has a later sample time than one behind it, as an int64_t of microseconds.
abbrev pub IsByTime : List Envelope → Type 0
IsByTime [] = Unit
IsByTime (env ∷ envs) =
    All (λ later. rank (sample_time env) ≤ rank (sample_time later)) envs × IsByTime envs

-- The envelopes with one sample time, in their order.
abbrev pub at_time : ℕ → List Envelope → List Envelope
at_time t [] = []
at_time t (env ∷ envs) =
    let rest = at_time t envs in if rank (sample_time env) == t then env ∷ rest else rest

-- The index entries of a recording that begins at the position `m`, in the order of the file.
abbrev entries : ℕ → List Envelope → List IndexEntry
entries m [] = []
entries m (env ∷ envs) =
    record { sample_time_stamp = sample_time env; file_position = m }
    ∷ entries (m + length (serialize_envelope env)) envs

abbrev emplace_all : List IndexEntry → List IndexEntry → List IndexEntry
emplace_all [] index = index
emplace_all (e ∷ es) index = emplace_all es (emplace_entry e index)

with_key-append :
    (t : ℕ) (xs ys : List IndexEntry) → with_key t (xs ++ ys) ≡ with_key t xs ++ with_key t ys
with_key-append t [] ys = refl
with_key-append t (x ∷ xs) ys = ground (arith, with_key-append t xs ys)

with_key-emplace_all :
    (t : ℕ) (es index : List IndexEntry)
    → IsSorted index
    → with_key t (emplace_all es index) ≡ with_key t index ++ with_key t es
with_key-emplace_all t [] index h = sym (append-nil (with_key t index))
with_key-emplace_all t (e ∷ es) index h =
    with_key-emplace_all t es (emplace_entry e index) (emplace_entry-IsSorted e index h)
    ∙ ap (λ l. l ++ with_key t es) (with_key-emplace_entry t e index h)
    ∙ append_assoc (with_key t index) (with_key t (e ∷ [])) (with_key t es)
    ∙ ap (λ l. with_key t index ++ l) (sym (with_key-append t (e ∷ []) es))

length-emplace_entry :
    (e : IndexEntry) (index : List IndexEntry) → length (emplace_entry e index) ≡ length index + 1
unfolding emplace_entry
length-emplace_entry e [] = omega arith
length-emplace_entry e (x ∷ index) = ground (arith, length-emplace_entry e index)

length-emplace_all :
    (es index : List IndexEntry) → length (emplace_all es index) ≡ length es + length index
length-emplace_all [] index = omega arith
length-emplace_all (e ∷ es) index =
    omega (arith, length-emplace_all es (emplace_entry e index), length-emplace_entry e index)

length-entries : (m : ℕ) (envs : List Envelope) → length (entries m envs) ≡ length envs
length-entries m [] = refl
length-entries m (env ∷ envs) = ap suc (length-entries (m + length (serialize_envelope env)) envs)

module _ (memory : ℕ → ℕ) where
  nothing_left : (extract_envelope memory (stream [])).2 ≡ record { rest = []; good = false }
  unfolding extract_envelope read
  nothing_left = refl

  index_loop-recorded :
      (fuel m size : ℕ) (envs : List Envelope) (index : List IndexEntry)
      → All IsRecordable envs
      → m + length (recorded envs) ≡ size
      → length envs < fuel
      → (index_loop memory fuel size (stream (recorded envs)) index).0
        ≡ emplace_all (entries m envs) index
  unfolding index_loop
  index_loop-recorded zero m size envs index h e enough = absurd (omega arith)
  index_loop-recorded (suc fuel) m size [] index h e enough =
      rw nothing_left
        (loop_stopped memory fuel size (record { rest = []; good = false }) index refl)
  index_loop-recorded (suc fuel) m size (env ∷ envs) index h e enough =
      rw (extract_recorded memory env envs h.0) (
        ap
          (λ (n : ℕ).
            (index_loop memory fuel size (stream (recorded envs)) (
              emplace_entry (record { sample_time_stamp = sample_time env; file_position = n })
                index)).0)
          (omega (arith, e, length-append (serialize_envelope env) (recorded envs)))
        ∙ index_loop-recorded fuel (m + length (serialize_envelope env)) size envs
            (emplace_entry (record { sample_time_stamp = sample_time env; file_position = m })
              index)
            h.1 (omega (arith, e, length-append (serialize_envelope env) (recorded envs)))
            (omega arith))

  -- The entries are those of the envelopes in this file.
  abbrev AreThere : List ℕ → ℕ → List Envelope → Type 0
  AreThere file m envs =
      All (IsExtracted memory file) (entries m envs)
      × (map (envelope_of memory file) (entries m envs) ≡ envs)

  moved :
      (pre : List ℕ) (env : Envelope) (envs : List Envelope)
      → AreThere
          ((pre ++ serialize_envelope env) ++ recorded envs)
          (length (pre ++ serialize_envelope env))
          envs
      → AreThere (pre ++ recorded (env ∷ envs)) (length pre + length (serialize_envelope env)) envs
  moved pre env envs h =
      rw
        (
          length-append pre (serialize_envelope env),
          append_assoc pre (serialize_envelope env) (recorded envs),
        )
        at h

  entries-AreThere :
      (pre : List ℕ) (envs : List Envelope)
      → All IsRecordable envs
      → AreThere (pre ++ recorded envs) (length pre) envs
  unfolding extract_at
  entries-AreThere pre [] h = (tt, refl)
  entries-AreThere pre (env ∷ envs) h =
      let e =
        ap (λ b. extract_envelope memory (stream b))
          (drop-append_length pre (recorded (env ∷ envs)))
        ∙ extract_recorded memory env envs h.0 in
      let (extracted, equal) =
        moved pre env envs (entries-AreThere (pre ++ serialize_envelope env) envs h.1) in
      (((ap (λ r. r.0) e, ap (λ r. sample_time r.1) (sym e)), extracted), λ i. (e i).1 ∷ equal i)

  map-with_key :
      (t : ℕ) (file : List ℕ) (es : List IndexEntry)
      → All (IsExtracted memory file) es
      → at_time t (map (envelope_of memory file) es) ≡ map (envelope_of memory file) (with_key t es)
  unfolding extract_at
  map-with_key t file [] h = refl
  map-with_key t file (e ∷ es) h =
      rw (map-with_key t file es h.1, ← h.0.1)
        (elim (Bool-cases (key e == t)) [ inl c ↦ rw c | inr c ↦ rw c ])

  map-later :
      (file : List ℕ) (a : ℕ) (es : List IndexEntry)
      → All (IsExtracted memory file) es
      → All (λ f. a ≤ key f) es
      → All (λ later. a ≤ rank (sample_time later)) (map (envelope_of memory file) es)
  unfolding extract_at
  map-later file a [] h s = tt
  map-later file a (e ∷ es) h s = (rw h.0.1 at s.0, map-later file a es h.1 s.1)

  map-IsByTime :
      (file : List ℕ) (es : List IndexEntry)
      → All (IsExtracted memory file) es
      → IsSorted es
      → IsByTime (map (envelope_of memory file) es)
  unfolding extract_at
  map-IsByTime file [] h s = tt
  map-IsByTime file (e ∷ es) h s =
      (rw h.0.1 at (map-later file (key e) es h.1 s.0), map-IsByTime file es h.1 s.1)

  initialize_index-recorded :
      (envs : List Envelope)
      → All IsRecordable envs
      → initialize_index memory (recorded envs) ≡ emplace_all (entries 0 envs) []
  unfolding initialize_index
  initialize_index-recorded envs h =
      index_loop-recorded (suc (suc (length (recorded envs)))) 0 (length (recorded envs)) envs [] h
        (omega arith) (omega (arith, length-recorded envs))

  with_key-indexed :
      (t : ℕ) (envs : List Envelope)
      → All IsRecordable envs
      → with_key t (initialize_index memory (recorded envs)) ≡ with_key t (entries 0 envs)
  with_key-indexed t envs h =
      ap (with_key t) (initialize_index-recorded envs h)
      ∙ with_key-emplace_all t (entries 0 envs) [] tt

  pub length-indexed :
      (envs : List Envelope)
      → All IsRecordable envs
      → length (initialize_index memory (recorded envs)) ≡ length envs
  length-indexed envs h = omega (
    arith,
    ap length (initialize_index-recorded envs h),
    length-emplace_all (entries 0 envs) [],
    length-entries 0 envs,
  )

  -- What a player of the recording returns.
  pub record Returns (floats : Floats) (envs : List Envelope) (calls : ℕ) : Type 0 where
    pub player : Player
    pub constructed : new_player memory floats (some (recorded envs)) false false ≡ returns player
    pub after : Player
    pub replayed : List Envelope
    pub returned : replay memory floats calls player ≡ returns (replayed, after)
    pub by_time : IsByTime replayed
    pub same : (t : ℕ) → at_time t replayed ≡ at_time t envs
    pub over : has_more_data after ≡ false

  -- A player without automatic rewinding and without the thread, of a recording of at least one
  -- envelope, returns, if it is called more often than there are envelopes, the recorded
  -- envelopes in the order of their sample times, those with the same sample time in the order of
  -- the recording, and then has no more data; for encodable envelopes whose encoding is shorter
  -- than 16 MB.
  pub replay-recorded :
      (floats : Floats) (envs : List Envelope) (calls : ℕ)
      → All IsRecordable envs
      → 0 < length envs
      → length envs < calls
      → Returns floats envs calls
  replay-recorded floats envs calls h nonempty enough =
      let (sorted, distinct, extracted, ended) = index_built memory (recorded envs) in
      let n = length-indexed envs h in
      let r =
        replay-new_player memory floats (recorded envs) calls (omega (arith, n))
          (omega (arith, n)) in
      record {
        player = r.player;
        constructed = r.constructed;
        after = r.after;
        replayed =
            map (envelope_of memory (recorded envs)) (initialize_index memory (recorded envs));
        returned = r.replayed;
        by_time =
            map-IsByTime (recorded envs) (initialize_index memory (recorded envs)) extracted sorted;
        same = λ t.
            map-with_key t (recorded envs) (initialize_index memory (recorded envs)) extracted
            ∙ ap (map (envelope_of memory (recorded envs))) (with_key-indexed t envs h)
            ∙ sym (map-with_key t (recorded envs) (entries 0 envs) (entries-AreThere [] envs h).0)
            ∙ ap (at_time t) (entries-AreThere [] envs h).1;
        over = r.over;
      }
