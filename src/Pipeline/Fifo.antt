-- ===== src/Pipeline/Fifo.antt =====
-- The promise of libcluon/include/cluon/NotifyingPipeline.hpp: a first-in, first-out queue whose
-- entries are given to the delegate.
use libcluon.Prelude.{
  ℕ, ◌≡◌, refl, sym, ap, ◌∙◌, arith, Bool, true, false, List, [], ◌∷◌, ◌++◌, ltb, if◌then◌else◌,
  if_true,
}
use libcluon.Pipeline.{
  Consumer, looking, testing, locked, asleep, counting, iterating, holding, called, finished,
  undefined, Pipeline, front, pop_front, move, may_go_on, process_step, notify_all, add, Step,
  process, adds, notifies, stores, notifies_last, wakes_up, Reach,
}
use libcluon.Pipeline.Invariant.{HasEntries, not_called, not_called-append, woken, Reach-IsOrdered}

-- What is in the queue and what has been given.
pub record Fifo {ℓ} (A : Type ℓ) : Type ℓ where
  pub waiting : List A
  pub given : List A

module _ {ℓ} {A : Type ℓ} where
  pub data FifoStep (q : Fifo A) (r : Fifo A) : Type ℓ where
    stays : r.waiting ≡ q.waiting → r.given ≡ q.given → FifoStep q r
    takes : (entry : A) → r.waiting ≡ q.waiting ++ entry ∷ [] → r.given ≡ q.given → FifoStep q r
    gives :
        (entry : A) → q.waiting ≡ entry ∷ r.waiting → r.given ≡ q.given ++ entry ∷ [] → FifoStep q r

  abbrev pub view : Pipeline A → Fifo A
  view p = record { waiting = not_called p.consumer p.pipeline; given = p.calls }

  either_same :
      (b : Bool) (c d : Consumer A) (xs : List A)
      → not_called c xs ≡ xs
      → not_called d xs ≡ xs
      → not_called (if b then c else d) xs ≡ xs
  either_same true c d xs h k = h
  either_same false c d xs h k = k

  front_same : (i entries : ℕ) (xs ys : List A) → not_called (front i entries xs) ys ≡ ys
  unfolding front
  front_same i entries [] ys = refl
  front_same i entries (x ∷ xs) ys = refl

  pop_front-step :
      (i entries : ℕ) (xs : List A) (p : Pipeline A)
      → HasEntries (called i entries) xs
      → FifoStep
          (record { waiting = not_called (called i entries) xs; given = p.calls })
          (view (pop_front i entries xs p))
  unfolding pop_front
  pop_front-step i entries [] p h = absurd (ground arith)
  pop_front-step i entries (x ∷ xs) p h = stays refl refl

  move-step :
      (c : Consumer A) (p : Pipeline A)
      → p.has_delegate ≡ true
      → HasEntries c p.pipeline
      → FifoStep (record { waiting = not_called c p.pipeline; given = p.calls }) (view (move c p))
  unfolding move
  move-step looking p d h = stays (either_same p.running testing finished p.pipeline refl refl) refl
  move-step testing p d h =
      stays (either_same (may_go_on p) counting locked p.pipeline refl refl) refl
  move-step locked p d h = stays refl refl
  move-step asleep p d h = stays refl refl
  move-step counting p d h = stays refl refl
  move-step (iterating i entries) p d h =
      stays
        (either_same (ltb i entries) (front i entries p.pipeline) looking p.pipeline
          (front_same i entries p.pipeline p.pipeline) refl)
        refl
  move-step (holding i entries entry) p d h =
      gives entry (h.1 ∙ ap (λ xs. entry ∷ xs) (ap (not_called (called i entries)) (sym h.1)))
        (if_true p.has_delegate _ _ d)
  move-step (called i entries) p d h = pop_front-step i entries p.pipeline p h
  move-step finished p d h = stays refl refl
  move-step undefined p d h = stays refl refl

  -- Every step of any thread, in a reachable state of a pipeline with a delegate, is one of a
  -- first-in, first-out queue or leaves that as it is: an entry is taken at its end, or its first
  -- entry is given to the delegate.
  pub Step-FifoStep :
      {b : Bool} {p q : Pipeline A}
      → Reach b p
      → p.has_delegate ≡ true
      → Step p q
      → FifoStep (view p) (view q)
  unfolding process_step notify_all add
  Step-FifoStep {p = p} r d process = move-step p.consumer p d (Reach-IsOrdered r).has_entries
  Step-FifoStep {p = p} r d (adds entry u f) =
      takes entry (not_called-append p.consumer p.pipeline entry (Reach-IsOrdered r).has_entries)
        refl
  Step-FifoStep {p = p} r d (notifies u) =
      stays (woken p.consumer p.pipeline (Reach-IsOrdered r).has_entries).1 refl
  Step-FifoStep r d (stores u) = stays refl refl
  Step-FifoStep {p = p} r d (notifies_last u) =
      stays (woken p.consumer p.pipeline (Reach-IsOrdered r).has_entries).1 refl
  Step-FifoStep {p = p} r d wakes_up =
      stays (woken p.consumer p.pipeline (Reach-IsOrdered r).has_entries).1 refl
