-- ===== src/Pipeline/Invariant.antt =====
-- What holds of a pipeline of libcluon/include/cluon/NotifyingPipeline.hpp between any two steps.
use libcluon.Prelude.{
  ℕ, ◌+◌, ◌≤◌, ◌≡◌, refl, sym, ap, ◌∙◌, arith, Bool, true, false, Bool-cases, inl, inr, List, [],
  ◌∷◌, ◌++◌, ltb, length, length-append, append_assoc, if◌then◌else◌, if_true,
}
use libcluon.Pipeline.{
  front, pop_front, move, may_go_on, Consumer, looking, testing, locked, asleep, counting,
  iterating, holding, called, finished, undefined, Pipeline, new_pipeline, process_step, notify_all,
  add, wake, Step, process, adds, notifies, stores, notifies_last, wakes_up, Reach, start, later,
}

module _ {ℓ} {A : Type ℓ} where
  -- The entries left to the for loop are in the deque, and the copied one is its first.
  abbrev pub HasEntries : Consumer A → List A → Type ℓ
  HasEntries (iterating i entries) xs = entries ≤ i + length xs × Unit {ℓ}
  HasEntries (holding i entries entry) xs =
      (rest : List A) × (xs ≡ entry ∷ rest) × (entries ≤ i + length xs)
  HasEntries (called i entries) xs =
      (entry : A) × (rest : List A) × (xs ≡ entry ∷ rest) × (entries ≤ i + length xs)
  HasEntries undefined xs = ⊥ × Unit {ℓ}
  HasEntries c xs = Unit {ℓ}

  -- The entries of the deque for which the delegate has not been called.
  abbrev pub not_called : Consumer A → List A → List A
  not_called (called i entries) [] = []
  not_called (called i entries) (x ∷ xs) = xs
  not_called c xs = xs

  pub record IsOrdered (p : Pipeline A) : Type ℓ where
    pub has_entries : HasEntries p.consumer p.pipeline
    pub in_order : p.has_delegate ≡ true → p.calls ++ not_called p.consumer p.pipeline ≡ p.added

  new_pipeline-IsOrdered : (b : Bool) → IsOrdered (new_pipeline b)
  unfolding new_pipeline
  new_pipeline-IsOrdered b = record { has_entries = tt; in_order = λ h. refl }

  either :
      (b : Bool) (c d : Consumer A) (p : Pipeline A)
      → IsOrdered (record p { consumer = c })
      → IsOrdered (record p { consumer = d })
      → IsOrdered (record p { consumer = if b then c else d })
  either true c d p h k = h
  either false c d p h k = k

  -- The deque of a pipeline is taken apart as the thread looks at it.
  iterated :
      (i entries : ℕ) (xs : List A) (p : Pipeline A)
      → p.pipeline ≡ xs
      → entries ≤ i + length xs
      → (p.has_delegate ≡ true → p.calls ++ xs ≡ p.added)
      → IsOrdered (record p { consumer = if ltb i entries then front i entries xs else looking })
  unfolding front
  iterated i entries [] p e le o = elim (Bool-cases (ltb i entries)) [
    | inl c ↦ absurd (ground arith)
    | inr c ↦ rw (c, e) (record { has_entries = tt; in_order = o })
  ]
  iterated i entries (x ∷ xs) p e le o = elim (Bool-cases (ltb i entries)) [
    | inl c ↦ rw (c, e) (record { has_entries = (xs, refl, le); in_order = o })
    | inr c ↦ rw (c, e) (record { has_entries = tt; in_order = o })
  ]

  popped :
      (i entries : ℕ) (xs : List A) (p : Pipeline A)
      → (entry : A) × (rest : List A) × (xs ≡ entry ∷ rest) × (entries ≤ i + length xs)
      → (p.has_delegate ≡ true → p.calls ++ not_called (called i entries) xs ≡ p.added)
      → IsOrdered (pop_front i entries xs p)
  unfolding pop_front
  popped i entries [] p h o = absurd (ground arith)
  popped i entries (x ∷ xs) p h o = record { has_entries = (omega (arith, h.3), tt); in_order = o }

  move-IsOrdered :
      (c : Consumer A) (p : Pipeline A)
      → HasEntries c p.pipeline
      → (p.has_delegate ≡ true → p.calls ++ not_called c p.pipeline ≡ p.added)
      → IsOrdered (move c p)
  unfolding move
  move-IsOrdered looking p h o =
      either p.running testing finished p (record { has_entries = tt; in_order = o })
        (record { has_entries = tt; in_order = o })
  move-IsOrdered testing p h o =
      either (may_go_on p) counting locked p (record { has_entries = tt; in_order = o })
        (record { has_entries = tt; in_order = o })
  move-IsOrdered locked p h o = record { has_entries = tt; in_order = o }
  move-IsOrdered asleep p h o = record { has_entries = tt; in_order = o }
  move-IsOrdered counting p h o = record { has_entries = (omega arith, tt); in_order = o }
  move-IsOrdered (iterating i entries) p h o = iterated i entries p.pipeline p refl h.0 o
  move-IsOrdered (holding i entries entry) p h o = record {
    has_entries = (entry, h.0, h.1, h.2);
    in_order = λ d.
        (λ k.
          if_true {X = List A} p.has_delegate (p.calls ++ entry ∷ []) p.calls d k
          ++ not_called (called i entries) (h.1 k))
        ∙ append_assoc p.calls (entry ∷ []) h.0
        ∙ ap (λ xs. p.calls ++ xs) (sym h.1)
        ∙ o d;
  }
  move-IsOrdered (called i entries) p h o = popped i entries p.pipeline p h o
  move-IsOrdered finished p h o = record { has_entries = tt; in_order = o }
  move-IsOrdered undefined p h o = absurd h.0

  process_step-IsOrdered : (p : Pipeline A) → IsOrdered p → IsOrdered (process_step p)
  unfolding process_step
  process_step-IsOrdered p h = move-IsOrdered p.consumer p h.has_entries h.in_order

  HasEntries-append :
      (c : Consumer A) (xs : List A) (entry : A) → HasEntries c xs → HasEntries c (xs ++ entry ∷ [])
  HasEntries-append (iterating i entries) xs entry h =
      (omega (arith, length-append xs (entry ∷ []), h.0), tt)
  HasEntries-append (holding i entries front') xs entry h = (
    h.0 ++ entry ∷ [],
    ap (λ ys. ys ++ entry ∷ []) h.1,
    omega (arith, length-append xs (entry ∷ []), h.2),
  )
  HasEntries-append (called i entries) xs entry h = (
    h.0,
    h.1 ++ entry ∷ [],
    ap (λ ys. ys ++ entry ∷ []) h.2,
    omega (arith, length-append xs (entry ∷ []), h.3),
  )
  HasEntries-append looking xs entry h = tt
  HasEntries-append testing xs entry h = tt
  HasEntries-append locked xs entry h = tt
  HasEntries-append asleep xs entry h = tt
  HasEntries-append counting xs entry h = tt
  HasEntries-append finished xs entry h = tt
  HasEntries-append undefined xs entry h = h

  pub not_called-append :
      (c : Consumer A) (xs : List A) (entry : A)
      → HasEntries c xs
      → not_called c (xs ++ entry ∷ []) ≡ not_called c xs ++ entry ∷ []
  not_called-append (called i entries) [] entry h = absurd (ground arith)
  not_called-append (called i entries) (x ∷ xs) entry h = refl
  not_called-append (iterating i entries) xs entry h = refl
  not_called-append (holding i entries front') xs entry h = refl
  not_called-append looking xs entry h = refl
  not_called-append testing xs entry h = refl
  not_called-append locked xs entry h = refl
  not_called-append asleep xs entry h = refl
  not_called-append counting xs entry h = refl
  not_called-append finished xs entry h = refl
  not_called-append undefined xs entry h = refl

  add-IsOrdered : (entry : A) (p : Pipeline A) → IsOrdered p → IsOrdered (add entry p)
  unfolding add
  add-IsOrdered entry p h = record {
    has_entries = HasEntries-append p.consumer p.pipeline entry h.has_entries;
    in_order = λ d.
        ap (λ xs. p.calls ++ xs) (not_called-append p.consumer p.pipeline entry h.has_entries)
        ∙ sym (append_assoc p.calls (not_called p.consumer p.pipeline) (entry ∷ []))
        ∙ ap (λ xs. xs ++ entry ∷ []) (h.in_order d);
  }

  pub woken :
      (c : Consumer A) (xs : List A)
      → HasEntries c xs
      → HasEntries (wake c) xs × (not_called (wake c) xs ≡ not_called c xs)
  woken asleep xs h = (tt, refl)
  woken looking xs h = (h, refl)
  woken testing xs h = (h, refl)
  woken locked xs h = (h, refl)
  woken counting xs h = (h, refl)
  woken (iterating i entries) xs h = (h, refl)
  woken (holding i entries entry) xs h = (h, refl)
  woken (called i entries) xs h = (h, refl)
  woken finished xs h = (h, refl)
  woken undefined xs h = (h, refl)

  notify_all-IsOrdered : (p : Pipeline A) → IsOrdered p → IsOrdered (notify_all p)
  unfolding notify_all
  notify_all-IsOrdered p h =
      let (entries, same) = woken p.consumer p.pipeline h.has_entries in
      record { has_entries = entries; in_order = λ d. ap (λ xs. p.calls ++ xs) same ∙ h.in_order d }

  Step-IsOrdered : {p q : Pipeline A} → Step p q → IsOrdered p → IsOrdered q
  Step-IsOrdered {p} process h = process_step-IsOrdered p h
  Step-IsOrdered {p} (adds entry u f) h = add-IsOrdered entry p h
  Step-IsOrdered {p} (notifies u) h = notify_all-IsOrdered p h
  Step-IsOrdered (stores u) h = record { has_entries = h.has_entries; in_order = h.in_order }
  Step-IsOrdered {p} (notifies_last u) h =
      let k = notify_all-IsOrdered p h in
      record { has_entries = k.has_entries; in_order = k.in_order }
  Step-IsOrdered {p} wakes_up h = notify_all-IsOrdered p h

  -- However the threads interleave, front() and pop_front() find an entry, and a delegate has
  -- been called with the entries in the order in which they were added, each once, those excepted
  -- that are still in the deque and for which it has not been called.
  pub Reach-IsOrdered : {b : Bool} {p : Pipeline A} → Reach b p → IsOrdered p
  Reach-IsOrdered {b} start = new_pipeline-IsOrdered b
  Reach-IsOrdered (later r s) = Step-IsOrdered s (Reach-IsOrdered r)
