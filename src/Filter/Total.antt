-- ===== src/Filter/Total.antt =====
-- The loop of cluon-filter (libcluon/tools/cluon-filter.hpp) ends on every input.
use libcluon.Prelude.{ℕ, ◌≤◌, ◌≡◌, false, List, Option, some, length, drop, ◌⊎◌}
use libcluon.Stream.{stream}
use libcluon.Envelope.Outcome.{extract_returns}
use libcluon.Filter.{Options, Ending, ended, terminated}

module _ (room : ℕ) (memory : ℕ → ℕ) (o : Options) where
  -- The program ends with an output, or is terminated at bytes from which extractEnvelope does not
  -- return.
  abbrev pub Ends : List ℕ → Option Ending → Type 0
  Ends bytes e =
      ((out : List ℕ) × (e ≡ some (ended out)))
      ⊎ ((e ≡ some terminated)
          × ((k : ℕ) × (k ≤ length bytes)
              × (extract_returns room memory (stream (drop k bytes)) ≡ false)))
