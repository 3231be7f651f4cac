-- ===== src/Filter/Round.antt =====
-- One round of the loop of cluon-filter (libcluon/tools/cluon-filter.hpp).
use libcluon.Prelude.{
  ℕ, ◌+◌, ◌^◌, ◌≤◌, ◌<◌, ◌≡◌, refl, sym, ap, ◌∙◌, arith, ◌&&◌, ◌||◌, Bool, true, false, not, List,
  [], ◌∷◌, ◌++◌, ltb, if◌then◌else◌, append-nil, Bool-cases, inl, inr, ◌⊎◌, if_true, if_false,
}
use libcluon.Envelope.{sample_seconds, Envelope, serialize_envelope}
use libcluon.Filter.{
  Options, State, before, key, count, nonempty, written, is_payload, with_end, with_output, is_over,
  counted, handle,
}

abbrev pub select {ℓ} : {A : Type ℓ} → (A → Bool) → List A → List A
select p [] = []
select p (x ∷ xs) = if p x then x ∷ select p xs else select p xs

-- In the interval, and in the list to keep, or not in the one to drop.
abbrev pub passes : Options → Envelope → Bool
passes o env =
    (before o.start (sample_seconds env) && before (sample_seconds env) o.end_time)
    && ((nonempty o.keep && count (key env) o.keep)
        || (nonempty o.drop && not (count (key env) o.drop)))

-- One of the two lists is empty; the other one is what an argument gives.
abbrev pub IsExclusive : Options → Type 0
IsExclusive o = (o.keep ≡ []) ⊎ (o.drop ≡ [])

kept_or_dropped : Options → Envelope → Bool
kept_or_dropped o env =
    (nonempty o.keep && count (key env) o.keep) || (nonempty o.drop && not (count (key env) o.drop))

written-kept :
    (o : Options) (env : Envelope)
    → IsExclusive o
    → written o env ≡ (if kept_or_dropped o env then serialize_envelope env else [])
unfolding written kept_or_dropped
written-kept o env (inl e) = ground (arith, ap nonempty e)
written-kept o env (inr e) = ground (arith, ap nonempty e, append-nil (serialize_envelope env))

-- What is written of an envelope, behind c counted ones.
abbrev pub emitted : Options → ℕ → Envelope → List ℕ
emitted o c env =
    if is_payload env
    then (if ltb o.skip (c + 1) then (if passes o env then serialize_envelope env else []) else [])
    else []

abbrev pub next_count : ℕ → Envelope → ℕ
next_count c env = if is_payload env then c + 1 else c

pub next_count_bound : (c : ℕ) (env : Envelope) → next_count c env ≤ c + 1
next_count_bound c env = elim (Bool-cases (is_payload env)) [
  | inl t ↦ rw t (omega arith)
  | inr f ↦ rw f (omega arith)
]

-- The program neither exits early nor waits for the first envelope to know the end.
abbrev pub IsPlain : Options → Type 0
IsPlain o = IsExclusive o × (o.is_relative_end ≡ false) × (o.exit ≡ false)

pub appended : Bool → State → List ℕ → State
appended b st bytes = if b then record st { output = st.output ++ bytes } else st

pub appended_parts :
    (b k : Bool) (st : State) (bytes : List ℕ)
    → let new = appended b st (if k then bytes else []) in
      (new.output ≡ st.output ++ (if b && k then bytes else []))
      × (new.counter ≡ st.counter)
      × (new.current_end ≡ st.current_end)
unfolding appended
appended_parts true k st bytes = (refl, refl, refl)
appended_parts false k st bytes = (sym (append-nil st.output), refl, refl)

module _ (o : Options) (plain : IsPlain o) (env : Envelope) where
  with_end_plain : (st : State) → with_end o env st ≡ st
  with_end_plain st = ground (arith, plain.1)

  -- The new state, where the end is the given one.
  abbrev pub Handled : State → State → Type 0
  Handled st new =
      (handle o env st ≡ (new, false))
      × (new.counter ≡ next_count st.counter env)
      × (new.output ≡ st.output ++ emitted o st.counter env)
      × (new.current_end ≡ o.end_time)

  with_output_plain :
      (st : State)
      → st.current_end ≡ o.end_time
      → ((with_output o env st).output
          ≡ st.output ++ (if passes o env then serialize_envelope env else []))
        × ((with_output o env st).counter ≡ st.counter)
        × ((with_output o env st).current_end ≡ o.end_time)
  unfolding appended kept_or_dropped
  with_output_plain st e =
      let inside =
        before o.start (sample_seconds env) && before (sample_seconds env) st.current_end in
      let (out, n, end) =
        appended_parts inside (kept_or_dropped o env) st (serialize_envelope env) in
      let same_state = ap (appended inside st) (written-kept o env plain.0) in
      (
        ap (λ (s : State). s.output) same_state
            ∙ out
            ∙ ap
                (λ (t : ℕ).
                  st.output
                  ++ (if (before o.start (sample_seconds env) && before (sample_seconds env) t)
                        && kept_or_dropped o env
                      then serialize_envelope env
                      else []))
                e,
        ap (λ (s : State). s.counter) same_state ∙ n,
        ap (λ (s : State). s.current_end) same_state ∙ end ∙ e,
      )

  is_over_plain : (st : State) → is_over o env st ≡ false
  is_over_plain st = ground (arith, plain.2)

  counted_plain : (st : State) → st.counter + 1 < 2 ^ 32 → (counted st).counter ≡ st.counter + 1
  counted_plain st h = omega arith

  pub handle_plain :
      (st : State)
      → st.current_end ≡ o.end_time
      → st.counter + 1 < 2 ^ 32
      → (new : State) × Handled st new
  unfolding handle
  handle_plain st e h =
      let one = counted st in
      let (out, n, end) = with_output_plain one e in
      let count = counted_plain st h in
      elim (Bool-cases (is_payload env)) [
        | inr f ↦ (
          st,
          (
            if_false (is_payload env) _ _ f,
            sym (if_false (is_payload env) _ _ f),
            sym (ap (λ l. st.output ++ l) (if_false (is_payload env) _ _ f) ∙ append-nil st.output),
            e,
          ),
        )
        | inl t ↦ elim (Bool-cases (ltb o.skip one.counter)) [
          | inr f ↦
              let f' = ap (ltb o.skip) (sym count) ∙ f in
              (
                one,
                (
                  (if_true (is_payload env) _ _ t ∙ if_false (ltb o.skip one.counter) _ _ f),
                  (count ∙ sym (if_true (is_payload env) _ _ t)),
                  sym (
                      ap (λ l. st.output ++ l)
                        (if_true (is_payload env) _ _ t
                          ∙ if_false (ltb o.skip (st.counter + 1)) _ _ f')
                      ∙ append-nil st.output),
                  e,
                ),
              )
          | inl g ↦
              let g' = ap (ltb o.skip) (sym count) ∙ g in
              (
                with_output o env one,
                (
                  (if_true (is_payload env) _ _ t
                      ∙ if_true (ltb o.skip one.counter) _ _ g
                      ∙ ap (λ (s : State). (with_output o env s, is_over o env s))
                          (with_end_plain one)
                      ∙ ap (λ b. (with_output o env one, b)) (is_over_plain one)),
                  (n ∙ count ∙ sym (if_true (is_payload env) _ _ t)),
                  (out
                      ∙ ap (λ l. st.output ++ l)
                          (sym (
                            if_true (is_payload env) _ _ t
                            ∙ if_true (ltb o.skip (st.counter + 1)) _ _ g'))),
                  end,
                ),
              )
        ]
      ]
