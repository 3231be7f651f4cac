-- ===== src/Od4Session/Triggers.antt =====
-- What dataTrigger() changes: which delegate an envelope reaches.
use libcluon.Prelude.{ℕ, suc, ◌≡◌, refl, arith, true, false, List, [], ◌∷◌}
use libcluon.Prelude.{Option, none, some, ◌==◌, if◌then◌else◌, length}
use libcluon.Envelope.{data_type, Envelope}
use libcluon.Od4Session.{find, assign, erase, Session, data_trigger, deliver}

module _ {D : Type 0} where
  -- The keys of the map are unique.
  abbrev pub Unique : List (ℕ × Option D) → Type 0
  Unique [] = Unit {0}
  Unique ((j, d) ∷ m) = (find j m ≡ none) × Unique m

  find-assign :
      (k j : ℕ) (d : Option D) (m : List (ℕ × Option D))
      → find k (assign j d m) ≡ (if j == k then some d else find k m)
  unfolding find assign
  find-assign k j d [] = refl
  find-assign k j d ((i, e) ∷ m) = ground (arith, find-assign k j d m)

  find-erase :
      (k j : ℕ) (m : List (ℕ × Option D))
      → Unique m
      → find k (erase j m) ≡ (if j == k then none else find k m)
  unfolding find erase
  find-erase k j [] u = ground arith
  find-erase k j ((i, e) ∷ m) u = ground (arith, find-erase k j m u.1)

  assign-Unique :
      (j : ℕ) (d : Option D) (m : List (ℕ × Option D)) → Unique m → Unique (assign j d m)
  unfolding find assign
  assign-Unique j d [] u = ground arith
  assign-Unique j d ((i, e) ∷ m) u = ground (arith, assign-Unique j d m u.1, find-assign i j d m)

  erase-Unique : (j : ℕ) (m : List (ℕ × Option D)) → Unique m → Unique (erase j m)
  unfolding find erase
  erase-Unique j [] u = tt
  erase-Unique j ((i, e) ∷ m) u = ground (arith, erase-Unique j m u.1, find-erase i j m u.1)

  -- DataTrigger keeps the keys of the delegates unique and the catch-all delegate as it is.
  pub data_trigger-Unique :
      (s : Session D) (id : ℕ) (d : Option D)
      → Unique s.delegates
      → Unique (data_trigger s id d).0.delegates × ((data_trigger s id d).0.delegate ≡ s.delegate)
  unfolding data_trigger
  data_trigger-Unique s id d u =
      ground (arith, erase-Unique id s.delegates u, assign-Unique id d s.delegates u)

  -- Without a catch-all delegate and with unique keys, dataTrigger succeeds; then envelopes of
  -- its identifier go to the given delegate, to nobody if it is empty, and all other envelopes go
  -- where they went before.
  pub deliver-data_trigger :
      (s : Session D) (id : ℕ) (d : Option D) (env : Envelope)
      → Unique s.delegates
      → s.delegate ≡ none
      → ((data_trigger s id d).1 ≡ true)
        × (deliver (data_trigger s id d).0 env ≡ (
            if id == data_type env
            then elim d [ none ↦ none | some f ↦ some (f, env) ]
            else deliver s env))
  unfolding data_trigger deliver
  deliver-data_trigger s id none env u e = ground (
    arith,
    find-erase (data_type env) id s.delegates u,
    find-assign (data_type env) id none s.delegates,
  )
  deliver-data_trigger s id (some f) env u e =
      ground (arith, find-assign (data_type env) id (some f) s.delegates)

  -- With a catch-all delegate dataTrigger fails and changes nothing, and every envelope goes to
  -- the catch-all delegate.
  pub data_trigger_catch_all :
      (s : Session D) (f : D) (id : ℕ) (d : Option D) (env : Envelope)
      → s.delegate ≡ some f
      → (data_trigger s id d ≡ (s, false)) × (deliver s env ≡ some (f, env))
  unfolding data_trigger deliver
  data_trigger_catch_all s f id d env e = ground arith

  length-assign :
      (k : ℕ) (d : Option D) (m : List (ℕ × Option D))
      → find k m ≡ none
      → length (assign k d m) ≡ suc (length m)
  unfolding find assign
  length-assign k d [] e = refl
  length-assign k d ((j, f) ∷ m) e = ground (arith, length-assign k d m)

  -- Without a catch-all delegate, unsetting an identifier that has no delegate stores an empty
  -- delegate for it, and the map grows by one.
  pub data_trigger_unset_missing :
      (s : Session D) (id : ℕ)
      → s.delegate ≡ none
      → find id s.delegates ≡ none
      → (find id (data_trigger s id none).0.delegates ≡ some none)
        × (length (data_trigger s id none).0.delegates ≡ suc (length s.delegates))
  unfolding data_trigger
  data_trigger_unset_missing s id e n =
      ground (arith, length-assign id none s.delegates n, find-assign id id none s.delegates)
