-- ===== src/Player/Index/Sorted.antt =====
-- The index of a player, std::multimap in libcluon/src/Player.cpp: its order, and what emplace does
-- to the entries of one key.
use libcluon.Prelude.{
  ℕ, ◌≤◌, ◌<◌, ◌≡◌, ◌≢◌, refl, arith, Bool-cases, inl, inr, List, [], ◌∷◌, ◌++◌, ltb, ◌==◌,
  if◌then◌else◌, All, append-nil,
}
use libcluon.Player.Index.{IndexEntry, key, emplace_entry}

-- No entry has a larger key than one behind it.
abbrev pub IsSorted : List IndexEntry → Type 0
IsSorted [] = Unit
IsSorted (e ∷ es) = All (λ f. key e ≤ key f) es × IsSorted es

-- No two entries have the same file position.
abbrev pub IsDistinct : List IndexEntry → Type 0
IsDistinct [] = Unit
IsDistinct (e ∷ es) = All (λ f. e.file_position ≢ f.file_position) es × IsDistinct es

-- The entries of one key, in their order.
abbrev pub with_key : ℕ → List IndexEntry → List IndexEntry
with_key t [] = []
with_key t (e ∷ es) = let rest = with_key t es in if key e == t then e ∷ rest else rest

pub All-emplace_entry {κ} :
    (P : IndexEntry → Type κ) (e : IndexEntry) (xs : List IndexEntry)
    → P e
    → All P xs
    → All P (emplace_entry e xs)
unfolding emplace_entry
All-emplace_entry P e [] h hs = (h, tt)
All-emplace_entry P e (x ∷ xs) h hs = elim (Bool-cases (ltb (key e) (key x))) [
  | inl c ↦ rw c (h, hs)
  | inr c ↦ rw c (hs.0, All-emplace_entry P e xs h hs.1)
]

All-weaken :
    (a b : ℕ) (xs : List IndexEntry) → a ≤ b → All (λ f. b ≤ key f) xs → All (λ f. a ≤ key f) xs
All-weaken a b [] le hs = tt
All-weaken a b (x ∷ xs) le hs = (omega (arith, hs.0), All-weaken a b xs le hs.1)

pub emplace_entry-IsSorted :
    (e : IndexEntry) (xs : List IndexEntry) → IsSorted xs → IsSorted (emplace_entry e xs)
unfolding emplace_entry
emplace_entry-IsSorted e [] h = (tt, tt)
emplace_entry-IsSorted e (x ∷ xs) h = elim (Bool-cases (ltb (key e) (key x))) [
  | inl c ↦
      let le : key e ≤ key x = ground arith in rw c ((le, All-weaken (key e) (key x) xs le h.0), h)
  | inr c ↦ rw c (
    All-emplace_entry (λ f. key x ≤ key f) e xs (ground arith) h.0,
    emplace_entry-IsSorted e xs h.1,
  )
]

pub emplace_entry-IsDistinct :
    (e : IndexEntry) (xs : List IndexEntry)
    → All (λ f. f.file_position < e.file_position) xs
    → IsDistinct xs
    → IsDistinct (emplace_entry e xs)
unfolding emplace_entry
emplace_entry-IsDistinct e [] fresh h = (tt, tt)
emplace_entry-IsDistinct e (x ∷ xs) fresh h = elim (Bool-cases (ltb (key e) (key x))) [
  | inl c ↦ rw c ((ground arith, apart xs fresh.1), h)
  | inr c ↦ rw c (
    All-emplace_entry (λ f. x.file_position ≢ f.file_position) e xs (ground arith) h.0,
    emplace_entry-IsDistinct e xs fresh.1 h.1,
  )
]
  where
    apart :
        (ys : List IndexEntry)
        → All (λ f. f.file_position < e.file_position) ys
        → All (λ f. e.file_position ≢ f.file_position) ys
    apart [] k = tt
    apart (y ∷ ys) k = (ground arith, apart ys k.1)

-- Behind a key, sorted entries have no smaller one.
no_smaller : (t a : ℕ) (xs : List IndexEntry) → t < a → All (λ f. a ≤ key f) xs → with_key t xs ≡ []
no_smaller t a [] lt hs = refl
no_smaller t a (x ∷ xs) lt hs = ground (arith, no_smaller t a xs lt hs.1)

-- An entry comes last among those of its key; the others stay as they are.
pub with_key-emplace_entry :
    (t : ℕ) (e : IndexEntry) (xs : List IndexEntry)
    → IsSorted xs
    → with_key t (emplace_entry e xs) ≡ with_key t xs ++ with_key t (e ∷ [])
unfolding emplace_entry
with_key-emplace_entry t e [] h = refl
with_key-emplace_entry t e (x ∷ xs) h = elim (Bool-cases (ltb (key e) (key x))) [
  | inl c ↦ rw c (ground (arith, append-nil (with_key t (x ∷ xs)), no_smaller t (key x) xs _ h.0))
  | inr c ↦ rw c (ground (arith, with_key-emplace_entry t e xs h.1))
]
