-- ===== src/Pipeline/Tests.antt =====
-- A pipeline of numbers, to which two are added as the thread sleeps.
use libcluon.Prelude.{ℕ, ◌+◌, ◌*◌, ◌≡◌, ◌⊎◌, refl, arith, true, false, [], ◌∷◌, length}
use libcluon.Pipeline.{
  asleep, joining, Pipeline, new_pipeline, process_step, notify_all, add, Step, process, adds,
  notifies, Reach, start, later,
}
use libcluon.Pipeline.Invariant.{IsOrdered, Reach-IsOrdered}
use libcluon.Pipeline.Fifo.{FifoStep, view, Step-FifoStep}
use libcluon.Pipeline.Draining.{process_steps, Drains, process_steps_drain}
use libcluon.Pipeline.LostWakeup.{joins_for_ever}

abbrev sleeping : Pipeline ℕ
sleeping = process_step (process_step (process_step (new_pipeline true)))

abbrev filled : Pipeline ℕ
filled = notify_all (add 8 (add 7 sleeping))

filled-Reach : Reach true filled
unfolding new_pipeline process_step notify_all add
filled-Reach =
    later
      (later (later (later (later (later start process) process) process) (adds 7 refl refl))
        (adds 8 refl refl))
      (notifies refl)

-- Eight steps later both have been given to the delegate.
delivered : (process_steps 8 filled).calls ≡ 7 ∷ 8 ∷ []
unfolding new_pipeline process_step notify_all add process_steps
delivered = refl

Reach-IsOrdered_example : IsOrdered filled
Reach-IsOrdered_example = Reach-IsOrdered filled-Reach

Step-FifoStep_example : FifoStep (view filled) (view (add 9 filled))
unfolding new_pipeline process_step notify_all add
Step-FifoStep_example = Step-FifoStep filled-Reach refl (adds 9 refl refl)

process_steps_drain_example : Drains (3 * length filled.pipeline + 7) filled
unfolding new_pipeline process_step notify_all add
process_steps_drain_example =
    process_steps_drain true filled filled-Reach refl tt refl (omega arith)

joins_for_ever_example :
    (p : Pipeline ℕ) × Reach true p
    × (p.running ≡ false)
    × (p.consumer ≡ asleep)
    × (p.closing ≡ joining)
    × ((q : Pipeline ℕ) → Step p q → (q ≡ p) ⊎ (q ≡ notify_all p))
joins_for_ever_example = joins_for_ever true
