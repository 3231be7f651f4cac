-- ===== src/Player/EnvelopeCache.antt =====
-- The envelope cache of a player: std::map<uint64_t, Envelope> by the file position, as an
-- association list.
use libcluon.Prelude.{ℕ, ◌≡◌, refl, arith, Option, none, some, List, [], ◌∷◌, ◌==◌, if◌then◌else◌}
use libcluon.Envelope.{Envelope, new_envelope}

abbrev pub Cache : Type 0
Cache = List (ℕ × Envelope)

-- find()
unfoldable pub find : ℕ → Cache → Option Envelope
find k [] = none
find k ((j, env) ∷ m) = if j == k then some env else find k m

-- emplace(): an entry that is there stays.
unfoldable pub emplace : ℕ → Envelope → Cache → Cache
emplace k env [] = (k, env) ∷ []
emplace k env ((j, e) ∷ m) = if j == k then (j, e) ∷ m else (j, e) ∷ emplace k env m

abbrev pub or_new : Option Envelope → Envelope
or_new none = new_envelope
or_new (some env) = env

-- operator[] as a read: a missing entry is inserted with a new envelope.
unfoldable pub at_position : ℕ → Cache → Envelope × Cache
unfolding find emplace
at_position k m = (or_new (find k m), emplace k new_envelope m)

-- erase(find()): nothing if there is no entry.
unfoldable pub erase : ℕ → Cache → Cache
erase k [] = []
erase k ((j, env) ∷ m) = if j == k then erase k m else (j, env) ∷ erase k m

pub find-emplace :
    (k j : ℕ) (env : Envelope) (m : Cache)
    → find j (emplace k env m)
      ≡ (if k == j then (elim (find k m) [ none ↦ some env | some e ↦ some e ]) else find j m)
unfolding find emplace
find-emplace k j env [] = refl
find-emplace k j env ((i, e) ∷ m) = ground (arith, find-emplace k j env m)

pub find-erase : (k j : ℕ) (m : Cache) → find j (erase k m) ≡ (if k == j then none else find j m)
unfolding find erase
find-erase k j [] = ground arith
find-erase k j ((i, e) ∷ m) = ground (arith, find-erase k j m)
