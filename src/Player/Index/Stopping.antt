-- ===== src/Player/Index/Stopping.antt =====
-- What initializeIndex() of libcluon/src/Player.cpp comes to on a file with any bytes: the index, or
-- bytes from which extractEnvelope does not return.
use libcluon.Prelude.{
  ℕ, suc, ◌≤◌, ◌≡◌, true, false, List, [], length, drop, All, ◌⊎◌, Option, none, some,
}
use libcluon.Stream.{Stream, stream}
use libcluon.Envelope.Outcome.{extract_returns}
use libcluon.Player.Index.{IndexEntry, index_loop}
use libcluon.Player.Index.Sorted.{IsSorted, IsDistinct}
use libcluon.Player.Index.Built.{IsExtracted}

module _ (memory : ℕ → ℕ) (file : List ℕ) (room : ℕ) where
  -- At bytes of the file extractEnvelope does not return.
  abbrev pub Stops : Type 0
  Stops = (k : ℕ) × (k ≤ length file) × (extract_returns room memory (stream (drop k file)) ≡ false)

  -- The index of the whole file, or none at all.
  abbrev pub Indexes : Option (List IndexEntry) → Type 0
  Indexes outcome =
      ((outcome ≡ none) × Stops)
      ⊎ ((index : List IndexEntry) × (outcome ≡ some index)
          × IsSorted index
          × IsDistinct index
          × All (IsExtracted memory file) index
          × ((index_loop memory (suc (suc (length file))) (length file) (stream file) []).1 ≡ true))
