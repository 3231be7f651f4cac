-- ===== src/Pipeline/Draining.antt =====
-- The thread of processPipeline() in libcluon/include/cluon/NotifyingPipeline.hpp by itself: it
-- gives away all that has been added.
use libcluon.Prelude.{
  ℕ, zero, suc, ◌+◌, ◌-◌, ◌*◌, ◌%◌, ◌^◌, ◌≤◌, ◌<◌, ◌≡◌, ◌≢◌, refl, sym, ap, ◌∙◌, arith, Bool, true,
  false, inl, inr, Bool-cases, List, [], ◌∷◌, ◌++◌, ◌==◌, append-nil, ltb, length, if◌then◌else◌,
  if_true, ◌⊎◌, not, ◌||◌,
}
use libcluon.Pipeline.{
  Consumer, looking, testing, locked, asleep, counting, iterating, holding, called, finished,
  undefined, Pipeline, front, pop_front, move, may_go_on, process_step, Reach, process, later,
}
use libcluon.Pipeline.Invariant.{HasEntries, not_called, IsOrdered, Reach-IsOrdered}

-- Entries that the loop has not counted cost another round.
abbrev extra : ℕ → ℕ → ℕ → ℕ
extra i entries n = if entries == i + n then 0 else 4

if_true_or : (a b : Bool) → b ≡ true → (a || b) ≡ true
if_true_or true b h = refl
if_true_or false b h = h

positive : (n : ℕ) → 0 < n → ltb 0 n ≡ true
positive n h = ground arith

module _ {ℓ} {A : Type ℓ} where
  -- That many steps of the thread.
  unfoldable pub process_steps : ℕ → Pipeline A → Pipeline A
  process_steps zero p = p
  process_steps (suc k) p = process_steps k (process_step p)

  -- The thread neither sleeps, or is about to, nor has ended.
  abbrev pub IsAwake : Consumer A → Type 0
  IsAwake locked = ⊥
  IsAwake asleep = ⊥
  IsAwake finished = ⊥
  IsAwake c = Unit

  -- The steps until all entries have been given away, at most.
  abbrev pub steps_left : Consumer A → List A → ℕ
  steps_left looking xs = 3 * length xs + 3
  steps_left testing xs = 3 * length xs + 2
  steps_left counting xs = 3 * length xs + 1
  steps_left (iterating i entries) xs = 3 * length xs + extra i entries (length xs)
  steps_left (holding i entries entry) xs = 3 * length xs + extra i entries (length xs) - 1
  steps_left (called i entries) xs = 3 * length xs + extra i entries (length xs) - 2
  steps_left c xs = 0

  record Closer (n m : ℕ) (has_delegate : Bool) (added : List A) (q : Pipeline A) : Type ℓ where
    lower : steps_left q.consumer q.pipeline < n
    awake : IsAwake q.consumer
    goes_on : q.running ≡ true
    shorter : length q.pipeline ≤ m
    same : q.added ≡ added
    kept : q.has_delegate ≡ has_delegate

  nonempty : (xs : List A) → xs ≢ [] → 0 < length xs
  nonempty [] h = absurd (h refl)
  nonempty (x ∷ xs) h = omega arith

  iterating-Closer :
      (i entries : ℕ) (xs : List A) (p : Pipeline A)
      → p.pipeline ≡ xs
      → p.running ≡ true
      → entries ≤ i + length xs
      → 0 < length xs
      → Closer
          (steps_left (iterating i entries) xs)
          (length xs)
          p.has_delegate
          p.added
          (record p { consumer = if ltb i entries then front i entries xs else looking })
  unfolding front
  iterating-Closer i entries [] p e g le some_left = absurd (omega arith)
  iterating-Closer i entries (x ∷ xs) p e g le some_left = elim (Bool-cases (ltb i entries)) [
    | inl c ↦
        rw (c, e)
          record {
            lower = ground arith;
            awake = tt;
            goes_on = g;
            shorter = omega arith;
            same = refl;
            kept = refl;
          }
    | inr c ↦
        rw (c, e)
          record {
            lower = ground arith;
            awake = tt;
            goes_on = g;
            shorter = omega arith;
            same = refl;
            kept = refl;
          }
  ]

  called-Closer :
      (i entries : ℕ) (xs : List A) (p : Pipeline A)
      → p.running ≡ true
      → not_called (called i entries) xs ≢ []
      → Closer
          (steps_left (called i entries) xs)
          (length xs)
          p.has_delegate
          p.added
          (pop_front i entries xs p)
  unfolding pop_front
  called-Closer i entries [] p g some_left = absurd (some_left refl)
  called-Closer i entries (x ∷ xs) p g some_left = record {
    lower = ground arith;
    awake = tt;
    goes_on = g;
    shorter = omega arith;
    same = refl;
    kept = refl;
  }

  move-Closer :
      (c : Consumer A) (p : Pipeline A)
      → HasEntries c p.pipeline
      → IsAwake c
      → p.running ≡ true
      → length p.pipeline < 2 ^ 32
      → not_called c p.pipeline ≢ []
      → Closer (steps_left c p.pipeline) (length p.pipeline) p.has_delegate p.added (move c p)
  unfolding move
  move-Closer looking p h a g small some_left =
      rw (if_true {X = Consumer A} p.running testing finished g) (record {
        lower = omega arith;
        awake = tt;
        goes_on = g;
        shorter = omega arith;
        same = refl;
        kept = refl;
      })
  move-Closer testing p h a g small some_left =
      let ready : may_go_on p ≡ true =
        if_true_or (not p.running) (ltb 0 (length p.pipeline))
          (positive (length p.pipeline) (nonempty p.pipeline some_left)) in
      rw (if_true {X = Consumer A} (may_go_on p) counting locked ready) (record {
        lower = omega arith;
        awake = tt;
        goes_on = g;
        shorter = omega arith;
        same = refl;
        kept = refl;
      })
  move-Closer locked p h a g small some_left = absurd a
  move-Closer asleep p h a g small some_left = absurd a
  move-Closer counting p h a g small some_left =
      let all_counted : length p.pipeline % 2 ^ 32 ≡ length p.pipeline = omega arith in
      rw all_counted (record {
        lower = ground arith;
        awake = tt;
        goes_on = g;
        shorter = omega arith;
        same = refl;
        kept = refl;
      })
  move-Closer (iterating i entries) p h a g small some_left =
      iterating-Closer i entries p.pipeline p refl g h.0 (nonempty p.pipeline some_left)
  move-Closer (holding i entries entry) p h a g small some_left = record {
    lower = ground (arith, ap length h.1);
    awake = tt;
    goes_on = g;
    shorter = omega arith;
    same = refl;
    kept = refl;
  }
  move-Closer (called i entries) p h a g small some_left =
      called-Closer i entries p.pipeline p g some_left
  move-Closer finished p h a g small some_left = absurd a
  move-Closer undefined p h a g small some_left = absurd h.0

  process_step-Closer :
      (p : Pipeline A)
      → IsOrdered p
      → IsAwake p.consumer
      → p.running ≡ true
      → length p.pipeline < 2 ^ 32
      → not_called p.consumer p.pipeline ≢ []
      → Closer
          (steps_left p.consumer p.pipeline)
          (length p.pipeline)
          p.has_delegate
          p.added
          (process_step p)
  unfolding process_step
  process_step-Closer p h a g small some_left =
      move-Closer p.consumer p h.has_entries a g small some_left

  list_cases : (xs : List A) → (xs ≡ []) ⊎ (xs ≢ [])
  list_cases [] = inl refl
  list_cases (x ∷ xs) = inr (λ e. cc)

  -- The delegate has been called with all that was added before, after some steps.
  abbrev pub Drains : ℕ → Pipeline A → Type ℓ
  Drains n p = (k : ℕ) × (k ≤ n) × ((process_steps k p).calls ≡ p.added)

  all_called :
      (p : Pipeline A)
      → IsOrdered p
      → p.has_delegate ≡ true
      → not_called p.consumer p.pipeline ≡ []
      → p.calls ≡ p.added
  all_called p h d e = sym (append-nil p.calls) ∙ ap (λ xs. p.calls ++ xs) (sym e) ∙ h.in_order d

  drains :
      (n : ℕ) (b : Bool) (p : Pipeline A)
      → Reach b p
      → p.has_delegate ≡ true
      → IsAwake p.consumer
      → p.running ≡ true
      → length p.pipeline < 2 ^ 32
      → steps_left p.consumer p.pipeline ≤ n
      → Drains n p
  unfolding process_steps
  drains zero b p r d a g small le = elim (list_cases (not_called p.consumer p.pipeline)) [
    | inl e ↦ (0, omega arith, all_called p (Reach-IsOrdered r) d e)
    | inr e ↦ absurd (omega (arith, (process_step-Closer p (Reach-IsOrdered r) a g small e).lower))
  ]
  drains (suc n) b p r d a g small le = elim (list_cases (not_called p.consumer p.pipeline)) [
    | inl e ↦ (0, omega arith, all_called p (Reach-IsOrdered r) d e)
    | inr e ↦
        let c = process_step-Closer p (Reach-IsOrdered r) a g small e in
        let (k, few, given) =
          drains n b (process_step p) (later r process) (c.kept ∙ d) c.awake c.goes_on
            (omega (arith, c.shorter)) (omega (arith, c.lower)) in
        (suc k, omega (arith, few), given ∙ c.same)
  ]

  -- While it is not stopped and no entry is added, a thread that is awake calls the delegate with
  -- all entries that have been added, after at most 3 * n + 7 of its steps for n entries in the
  -- deque, fewer than 2 ^ 32, in any reachable state of a pipeline with a delegate.
  pub process_steps_drain :
      (b : Bool) (p : Pipeline A)
      → Reach b p
      → p.has_delegate ≡ true
      → IsAwake p.consumer
      → p.running ≡ true
      → length p.pipeline < 2 ^ 32
      → Drains (3 * length p.pipeline + 7) p
  process_steps_drain b p r d a g small =
      drains (3 * length p.pipeline + 7) b p r d a g small (few_steps p.consumer p.pipeline)
    where
      few_steps : (c : Consumer A) (xs : List A) → steps_left c xs ≤ 3 * length xs + 7
      few_steps looking xs = omega arith
      few_steps testing xs = omega arith
      few_steps locked xs = omega arith
      few_steps asleep xs = omega arith
      few_steps counting xs = omega arith
      few_steps (iterating i entries) xs = ground arith
      few_steps (holding i entries entry) xs = ground arith
      few_steps (called i entries) xs = ground arith
      few_steps finished xs = omega arith
      few_steps undefined xs = omega arith
