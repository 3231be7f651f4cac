-- ===== src/Pipeline.antt =====
-- The queue between a receiver and its delegate, of
-- libcluon/include/cluon/NotifyingPipeline.hpp, after the constructor has seen the thread run. The
-- steps of the thread of processPipeline() interleave with the calls of the other threads. What a
-- thread does while it holds the mutex is one step, but for the wait: there the mutex is held from
-- the test of the condition until the thread sleeps.
pub mod Invariant
pub mod Fifo
pub mod Draining
pub mod LostWakeup
mod Tests
use libcluon.Prelude.{
  ℕ, zero, suc, ◌+◌, ◌%◌, ◌^◌, ◌≡◌, Bool, true, false, not, ◌||◌, List, [], ◌∷◌, ◌++◌, ltb, length,
  if◌then◌else◌,
}

-- Where the thread of processPipeline() stands. The index and the number of entries are those of
-- the for loop.
pub data Consumer {ℓ} (A : Type ℓ) : Type ℓ where
  looking : Consumer A  -- the head of the while loop
  testing : Consumer A  -- in wait(), at the test of the condition
  locked : Consumer A  -- in wait(), after a failed test
  asleep : Consumer A
  counting : Consumer A  -- before size()
  iterating : (i entries : ℕ) → Consumer A  -- the head of the for loop
  holding : (i entries : ℕ) (entry : A) → Consumer A  -- before the call of the delegate
  called : (i entries : ℕ) → Consumer A  -- before pop_front()
  finished : Consumer A
  undefined : Consumer A  -- after front() or pop_front() of an empty deque

-- How far the destructor is.
pub data Closing : Type 0 where
  in_use : Closing
  stored : Closing  -- m_pipelineThreadRunning is false
  joining : Closing  -- all are notified

-- `calls` are the calls of the delegate and `added` the entries that were added, from the first on:
-- the past of the pipeline, which the code does not keep.
pub record Pipeline {ℓ} (A : Type ℓ) : Type ℓ where
  pub has_delegate : Bool
  pub running : Bool
  pub pipeline : List A
  pub consumer : Consumer A
  pub closing : Closing
  pub calls : List A
  pub added : List A

module _ {ℓ} {A : Type ℓ} where
  -- NotifyingPipeline(delegate)
  unfoldable pub new_pipeline : Bool → Pipeline A
  new_pipeline has_delegate = record {
    has_delegate = has_delegate;
    running = true;
    pipeline = [];
    consumer = looking;
    closing = in_use;
    calls = [];
    added = [];
  }

  -- The condition of the wait.
  abbrev pub may_go_on : Pipeline A → Bool
  may_go_on p = not p.running || ltb 0 (length p.pipeline)

  pub front : ℕ → ℕ → List A → Consumer A
  front i entries [] = undefined
  front i entries (x ∷ xs) = holding i entries x

  pub pop_front : ℕ → ℕ → List A → Pipeline A → Pipeline A
  pop_front i entries [] p = record p { consumer = undefined }
  pop_front i entries (x ∷ xs) p = record p { pipeline = xs; consumer = iterating (i + 1) entries }

  pub move : Consumer A → Pipeline A → Pipeline A
  unfolding front pop_front
  move looking p = record p { consumer = if p.running then testing else finished }
  move testing p = record p { consumer = if may_go_on p then counting else locked }
  move locked p = record p { consumer = asleep }
  move asleep p = record p { consumer = asleep }
  move counting p = record p { consumer = iterating 0 (length p.pipeline % 2 ^ 32) }
  move (iterating i entries) p = record p {
    consumer = if ltb i entries then front i entries p.pipeline else looking;
  }
  move (holding i entries entry) p = record p {
    consumer = called i entries;
    calls = if p.has_delegate then p.calls ++ entry ∷ [] else p.calls;
  }
  move (called i entries) p = pop_front i entries p.pipeline p
  move finished p = record p { consumer = finished }
  move undefined p = record p { consumer = undefined }

  -- A step of processPipeline().
  unfoldable pub process_step : Pipeline A → Pipeline A
  unfolding move
  process_step p = move p.consumer p

  -- A sleeping thread is woken, and tests the condition again.
  abbrev pub wake : Consumer A → Consumer A
  wake asleep = testing
  wake c = c

  -- notifyAll()
  unfoldable pub notify_all : Pipeline A → Pipeline A
  notify_all p = record p { consumer = wake p.consumer }

  -- add(entry)
  unfoldable pub add : A → Pipeline A → Pipeline A
  add entry p = record p { pipeline = p.pipeline ++ entry ∷ []; added = p.added ++ entry ∷ [] }

  -- The mutex is held across steps.
  abbrev pub holds_mutex : Consumer A → Bool
  holds_mutex locked = true
  holds_mutex c = false

  -- A step of any thread. add() waits for the mutex; notifying and the store of the destructor do
  -- not. A thread may also wake up with no notification.
  pub data Step (p : Pipeline A) : Pipeline A → Type ℓ where
    process : Step p (process_step p)
    adds : (entry : A) → p.closing ≡ in_use → holds_mutex p.consumer ≡ false → Step p (add entry p)
    notifies : p.closing ≡ in_use → Step p (notify_all p)
    stores : p.closing ≡ in_use → Step p (record p { running = false; closing = stored })
    notifies_last : p.closing ≡ stored → Step p (record (notify_all p) { closing = joining })
    wakes_up : Step p (notify_all p)

  pub data Reach (b : Bool) : Pipeline A → Type ℓ where
    start : Reach b (new_pipeline b)
    later : {p q : Pipeline A} → Reach b p → Step p q → Reach b q
