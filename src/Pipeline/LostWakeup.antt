-- ===== src/Pipeline/LostWakeup.antt =====
-- The destructor of libcluon/include/cluon/NotifyingPipeline.hpp stores false and notifies without
-- the mutex.
use libcluon.Prelude.{◌≡◌, ◌∙◌, ◌⊎◌, inl, inr, refl, sym, ap, Bool, false}
use libcluon.Pipeline.{
  asleep, joining, Pipeline, new_pipeline, move, process_step, notify_all, Step, process, adds,
  notifies, stores, notifies_last, wakes_up, Reach, start, later,
}

module _ {ℓ} {A : Type ℓ} where
  -- The thread sleeps, the destructor has notified and joins it.
  forgotten : Bool → Pipeline A
  unfolding new_pipeline
  forgotten b = record (new_pipeline b) { running = false; consumer = asleep; closing = joining }

  forgotten-Reach : (b : Bool) → Reach b (forgotten b)
  unfolding forgotten new_pipeline process_step move notify_all
  forgotten-Reach b =
      later (later (later (later (later start process) process) (stores refl)) (notifies_last refl))
        process

  asleep-Step :
      {p q : Pipeline A}
      → p.consumer ≡ asleep
      → p.closing ≡ joining
      → Step p q
      → (q ≡ p) ⊎ (q ≡ notify_all p)
  unfolding process_step move
  asleep-Step {p} e c process =
      inl (ap (λ k. move k p) e ∙ ap (λ k. record p { consumer = k }) (sym e))
  asleep-Step e c (adds entry u f) = cc
  asleep-Step e c (notifies u) = cc
  asleep-Step e c (stores u) = cc
  asleep-Step e c (notifies_last u) = cc
  asleep-Step e c wakes_up = inr refl

  -- The destructor can wait for ever: a state is reachable in which the thread sleeps, the
  -- destructor has stored false, has notified for the last time and joins the thread, and every
  -- further step leaves the state as it is, or is a wake-up of the thread without a notification.
  pub joins_for_ever :
      (b : Bool)
      → (p : Pipeline A) × Reach b p
        × (p.running ≡ false)
        × (p.consumer ≡ asleep)
        × (p.closing ≡ joining)
        × ((q : Pipeline A) → Step p q → (q ≡ p) ⊎ (q ≡ notify_all p))
  unfolding forgotten
  joins_for_ever b =
      (forgotten b, forgotten-Reach b, refl, refl, refl, λ q s. asleep-Step refl refl s)
