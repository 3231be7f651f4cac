-- ===== src/Filter/Filtered.antt =====
-- What cluon-filter (libcluon/tools/cluon-filter.hpp) makes of serialized envelopes.
use libcluon.Prelude.{
  All, ℕ, zero, suc, ◌+◌, ◌-◌, ◌^◌, ◌≤◌, ◌<◌, ◌≡◌, refl, sym, ap, ◌∙◌, arith, ◌&&◌, Bool, true,
  false, List, [], ◌∷◌, ◌++◌, Option, some, ltb, length, drop, if◌then◌else◌, append-nil,
  append_assoc, Bool-cases, inl, inr,
}
use libcluon.Stream.{Stream, stream, read}
use libcluon.Envelope.{Envelope, serialize_envelope, extract_envelope}
use libcluon.Envelope.Recorded.{
  recorded, IsRecordable, length-recorded, extract_recorded, extract_returns-recorded,
}
use libcluon.Envelope.Outcome.{extract_returns}
use libcluon.Filter.{
  Options, State, Ending, ended, terminated, initial, count, is_payload, handle, filter_loop,
  cluon_filter,
}
use libcluon.Filter.Round.{
  select, passes, emitted, next_count, next_count_bound, IsPlain, handle_plain,
}

drop_some {ℓ} :
    {A : Type ℓ} (n c : ℕ) (x : A) (xs : List A)
    → n < c + 1
    → drop (n - c) (x ∷ xs) ≡ x ∷ drop (n - (c + 1)) xs
drop_some n c x xs h =
    ap (λ (k : ℕ). drop k (x ∷ xs)) {x = n - c} {y = 0} (omega arith)
    ∙ ap (λ (k : ℕ). x ∷ drop k xs) {x = 0} {y = n - (c + 1)} (omega arith)

drop_more {ℓ} :
    {A : Type ℓ} (n c : ℕ) (x : A) (xs : List A)
    → c + 1 ≤ n
    → drop (n - c) (x ∷ xs) ≡ drop (n - (c + 1)) xs
drop_more n c x xs h =
    ap (λ (k : ℕ). drop k (x ∷ xs)) {x = n - c} {y = suc (n - (c + 1))} (omega arith)

recorded_if :
    (b : Bool) (env : Envelope) (rest : List Envelope)
    → recorded (if b then env ∷ rest else rest)
      ≡ (if b then serialize_envelope env else []) ++ recorded rest
recorded_if true env rest = refl
recorded_if false env rest = refl

-- The envelopes behind the first ones that are skipped, c of which are already counted.
select-emitted :
    (o : Options) (env : Envelope) (rest : List Envelope) (c : ℕ)
    → recorded (select (passes o) (drop (o.skip - c) (select is_payload (env ∷ rest))))
      ≡ emitted o c env
        ++ recorded (select (passes o) (drop (o.skip - next_count c env) (select is_payload rest)))
select-emitted o env rest c =
    let payloads = select is_payload rest in
    let result = λ (l : List Envelope). recorded (select (passes o) l) in
    elim (Bool-cases (is_payload env)) [
      | inr f ↦ rw f refl
      | inl t ↦ elim (Bool-cases (ltb o.skip (c + 1))) [
        | inr f ↦ rw (t, f) (ap result (drop_more o.skip c env payloads (ground arith)))
        | inl g ↦
            rw (t, g)
              (ap result (drop_some o.skip c env payloads (ground arith))
                ∙ recorded_if (passes o env) env
                    (select (passes o) (drop (o.skip - (c + 1)) payloads)))
      ]
    ]

drop_none {ℓ} : {A : Type ℓ} (n : ℕ) → drop {A = A} n [] ≡ []
drop_none zero = refl
drop_none (suc n) = refl

module _ (room : ℕ) (memory : ℕ → ℕ) (o : Options) (plain : IsPlain o) (big : 2 ^ 24 ≤ room) where
  -- What follows in a round.
  abbrev after : ℕ → Bool → Bool × Envelope × Stream → State × Bool → Option Ending
  after fuel returns r h =
      if returns
      then (if h.1
          then some (ended h.0.output)
          else if r.2.good && r.0
          then filter_loop room memory o fuel r.2 h.0
          else some (ended h.0.output))
      else some terminated

  filter_loop_end :
      (fuel : ℕ) (st : State)
      → filter_loop room memory o (suc fuel) (stream []) st ≡ some (ended st.output)
  unfolding filter_loop extract_envelope extract_returns read handle
  filter_loop_end fuel st = refl

  filter_loop-recorded :
      (fuel : ℕ) (envs : List Envelope) (st : State)
      → All IsRecordable envs
      → st.current_end ≡ o.end_time
      → st.counter + length envs < 2 ^ 32
      → length envs < fuel
      → filter_loop room memory o fuel (stream (recorded envs)) st
        ≡ some (
            ended (
              st.output
              ++ recorded
                  (select (passes o) (drop (o.skip - st.counter) (select is_payload envs)))))
  unfolding filter_loop
  filter_loop-recorded zero envs st fit e n f = absurd (omega arith)
  filter_loop-recorded (suc fuel) [] st fit e n f =
      filter_loop_end fuel st
      ∙ ap (λ l. some (ended l))
          (sym (
            ap (λ l. st.output ++ recorded (select (passes o) l)) (drop_none (o.skip - st.counter))
            ∙ append-nil st.output))
  filter_loop-recorded (suc fuel) (env ∷ envs) st (fit, fits) e n f =
      let (new, (handled, count, out, end)) = handle_plain o plain env st e (omega arith) in
      let extracted = extract_recorded memory env envs fit in
      let returns = extract_returns-recorded room memory env envs fit big in
      let rest =
        select (passes o) (drop (o.skip - next_count st.counter env) (select is_payload envs)) in
      (λ i. after fuel (returns i) (extracted i) (handle o (extracted i).1 st))
      ∙ ap (after fuel true (true, env, stream (recorded envs))) handled
      ∙ filter_loop-recorded fuel envs new fits end (omega (arith, next_count_bound st.counter env))
          (omega arith)
      ∙ ap
          (λ (c : ℕ). some (
            ended (
              new.output
              ++ recorded (select (passes o) (drop (o.skip - c) (select is_payload envs))))))
          count
      ∙ ap (λ l. some (ended (l ++ recorded rest))) out
      ∙ ap (λ l. some (ended l)) (append_assoc st.output (emitted o st.counter env) (recorded rest))
      ∙ ap (λ l. some (ended (st.output ++ l))) (sym (select-emitted o env envs st.counter))

  -- For serialized envelopes one after the other, cluon-filter ends and writes, in their order
  -- and serialized again, those that are left when the envelopes whose data type is zero or
  -- negative and the status messages of the player are left out and then as many as skip says,
  -- and of the others those are taken that lie between start and end and are in the list to keep,
  -- or not in the list to drop; if one of the two lists is empty, the end is not relative and
  -- --exit is not given, each envelope is encodable and shorter than 16 MB, there are fewer than
  -- 2^32, and there is room for 16 MB in a string.
  pub cluon_filter-recorded :
      (envs : List Envelope)
      → All IsRecordable envs
      → length envs < 2 ^ 32
      → cluon_filter room memory o (recorded envs)
        ≡ some (ended (recorded (select (passes o) (drop o.skip (select is_payload envs)))))
  unfolding cluon_filter
  cluon_filter-recorded envs fit n =
      filter_loop-recorded (suc (length (recorded envs))) envs (initial o) fit refl (omega arith)
        (omega (arith, length-recorded envs))
      ∙ ap
          (λ (k : ℕ). some (ended (recorded (select (passes o) (drop k (select is_payload envs))))))
          {x = o.skip - 0} {y = o.skip} (omega arith)
