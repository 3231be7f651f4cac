-- ===== src/Player/Index/Built.antt =====
-- The index that initializeIndex() of libcluon/src/Player.cpp makes of a file with any bytes.
use libcluon.Prelude.{
  ℕ, zero, suc, ◌+◌, ◌≤◌, ◌<◌, ◌≡◌, refl, ap, ◌∙◌, arith, Bool, true, false, ◌&&◌, inl, inr, List,
  [], ◌∷◌, if◌then◌else◌, length, drop, drop-drop, length-drop, Bool-cases, All,
}
use libcluon.Stream.{Stream, stream}
use libcluon.Envelope.{extract_envelope}
use libcluon.Player.Index.{IndexEntry, emplace_entry, sample_time, index_loop, initialize_index}
use libcluon.Player.Index.Sorted.{
  IsSorted, IsDistinct, All-emplace_entry, emplace_entry-IsSorted, emplace_entry-IsDistinct,
}
use libcluon.Player.Index.Reading.{extract_envelope-moves}

module _ (memory : ℕ → ℕ) where
  -- At the position of the entry the file has an envelope, with its sample time.
  abbrev pub IsExtracted : List ℕ → IndexEntry → Type 0
  IsExtracted file e =
      let r = extract_envelope memory (stream (drop e.file_position file)) in
      (r.0 ≡ true) × (e.sample_time_stamp ≡ sample_time r.1)

  -- An index of the part of the file before `bound`.
  record IsBuilt (file : List ℕ) (bound : ℕ) (index : List IndexEntry) : Type 0 where
    sorted : IsSorted index
    distinct : IsDistinct index
    below : All (λ e. e.file_position < bound) index
    extracted : All (IsExtracted file) index

  pub loop_stopped :
      (fuel size : ℕ) (s : Stream) (index : List IndexEntry)
      → s.good ≡ false
      → (index_loop memory fuel size s index).0 ≡ index
  unfolding index_loop
  loop_stopped zero size s index g = refl
  loop_stopped (suc fuel) size s index g = rw g

  loop_ended :
      (fuel size : ℕ) (s : Stream) (index : List IndexEntry)
      → s.good ≡ false
      → 0 < fuel
      → (index_loop memory fuel size s index).1 ≡ true
  unfolding index_loop
  loop_ended zero size s index g h = absurd (omega arith)
  loop_ended (suc fuel) size s index g h = rw g

  All-below :
      (a b : ℕ) (xs : List IndexEntry)
      → a ≤ b
      → All (λ e. e.file_position < a) xs
      → All (λ e. e.file_position < b) xs
  All-below a b [] le h = tt
  All-below a b (x ∷ xs) le h = (omega (arith, h.0), All-below a b xs le h.1)

  module _ (file : List ℕ) where
    abbrev entry_of : ℕ → IndexEntry
    entry_of m = record {
      sample_time_stamp = sample_time (extract_envelope memory (stream (drop m file))).1;
      file_position = m;
    }

    emplace_entry-IsBuilt :
        (m k : ℕ) (index : List IndexEntry)
        → (extract_envelope memory (stream (drop m file))).0 ≡ true
        → 1 ≤ k
        → IsBuilt file m index
        → IsBuilt file (m + k) (emplace_entry (entry_of m) index)
    emplace_entry-IsBuilt m k index valid le h = record {
      sorted = emplace_entry-IsSorted (entry_of m) index h.sorted;
      distinct = emplace_entry-IsDistinct (entry_of m) index h.below h.distinct;
      below =
          All-emplace_entry (λ e. e.file_position < m + k) (entry_of m) index (omega arith)
            (All-below m (m + k) index (omega arith) h.below);
      extracted = All-emplace_entry (IsExtracted file) (entry_of m) index (valid, refl) h.extracted;
    }

    -- The stream and the index after a round at the position `m`.
    abbrev pub next_stream : ℕ → Stream
    next_stream m = (extract_envelope memory (stream (drop m file))).2

    abbrev next_index : ℕ → List IndexEntry → List IndexEntry
    next_index m index =
        if (next_stream m).good && (extract_envelope memory (stream (drop m file))).0
        then emplace_entry (entry_of m) index
        else index

    index_loop_round :
        (fuel m : ℕ) (index : List IndexEntry)
        → m ≤ length file
        → index_loop memory (suc fuel) (length file) (stream (drop m file)) index
          ≡ index_loop memory fuel (length file) (next_stream m) (next_index m index)
    unfolding index_loop
    index_loop_round fuel m index le =
        ap
          (λ (n : ℕ). index_loop memory fuel (length file) (next_stream m) (
            if (next_stream m).good && (extract_envelope memory (stream (drop m file))).0
            then emplace_entry (record (entry_of m) { file_position = n }) index
            else index))
          (omega (arith, length-drop m file))

    next_index-IsBuilt :
        (m k : ℕ) (index : List IndexEntry)
        → 1 ≤ k
        → IsBuilt file m index
        → IsBuilt file (m + k) (next_index m index)
    next_index-IsBuilt m k index le h =
        elim (Bool-cases
          ((next_stream m).good && (extract_envelope memory (stream (drop m file))).0)) [
            | inl c ↦ rw c (emplace_entry-IsBuilt m k index (ground arith) le h)
            | inr c ↦ rw c (record {
              sorted = h.sorted;
              distinct = h.distinct;
              below = All-below m (m + k) index (omega arith) h.below;
              extracted = h.extracted;
            })
          ]

    next_index_same :
        (m : ℕ) (index : List IndexEntry)
        → (next_stream m).good ≡ false
        → next_index m index ≡ index
    next_index_same m index g = rw g

    -- What holds of the loop from the position `m` on: with enough fuel it also ends.
    abbrev Builds : ℕ → ℕ → List IndexEntry × Bool → Type 0
    Builds fuel m r = (b : ℕ) × IsBuilt file b r.0 × (length file + 2 ≤ m + fuel → r.1 ≡ true)

    moved_on :
        (fuel m k : ℕ) (index : List IndexEntry) (s : Stream)
        → s ≡ stream (drop (m + k) file)
        → 1 ≤ k
        → Builds fuel
            (m + k)
            (index_loop memory fuel (length file) (stream (drop (m + k) file)) index)
        → Builds (suc fuel) m (index_loop memory fuel (length file) s index)
    moved_on fuel m k index s e le (b, built, ended) = rw e (b, built, λ f. ended (omega arith))

    index_loop-Builds :
        (fuel m : ℕ) (index : List IndexEntry)
        → m ≤ length file
        → IsBuilt file m index
        → Builds fuel m (index_loop memory fuel (length file) (stream (drop m file)) index)
    index_loop-Builds zero m index le h = unfold index_loop in (m, h, λ f. absurd (omega arith))
    index_loop-Builds (suc fuel) m index le h =
        rw (index_loop_round fuel m index le) (elim (Bool-cases (next_stream m).good) [
          | inl g ↦
              let (k, five, inside, there) =
                extract_envelope-moves memory (stream (drop m file)) g in
              let on = there ∙ ap stream (drop-drop m k file) in
              moved_on fuel m k (next_index m index) (next_stream m) on (omega arith) (
                index_loop-Builds fuel (m + k) (next_index m index)
                  (omega (arith, length-drop m file))
                  (next_index-IsBuilt m k index (omega arith) h))
          | inr g ↦ (
            m,
            rw
                (
                  loop_stopped fuel (length file) (next_stream m) (next_index m index) g,
                  next_index_same m index g,
                )
                h,
            λ f. loop_ended fuel (length file) (next_stream m) (next_index m index) g (omega arith),
          )
        ])

    pub index_built :
        (IsSorted (initialize_index memory file))
        × IsDistinct (initialize_index memory file)
        × All (IsExtracted file) (initialize_index memory file)
        × ((index_loop memory (suc (suc (length file))) (length file) (stream file) []).1 ≡ true)
    unfolding initialize_index
    index_built =
        let (b, built, ended) =
          index_loop-Builds (suc (suc (length file))) 0 [] (omega arith)
            (record { sorted = tt; distinct = tt; below = tt; extracted = tt }) in
        (built.sorted, built.distinct, built.extracted, ended (omega arith))
