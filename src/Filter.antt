-- ===== src/Filter.antt =====
-- The tool cluon-filter: libcluon/tools/cluon-filter.hpp, from the options on. The input is the bytes
-- of standard input, and the output those of standard output.
pub mod Round
pub mod Filtered
pub mod Total
mod Tests
use libcluon.Prelude.{
  ℕ, zero, suc, ◌+◌, ◌%◌, ◌^◌, ◌&&◌, ◌==◌, Bool, true, false, not, List, [], ◌∷◌, ◌++◌, Option,
  none, some, ltb, length, if◌then◌else◌, same,
}
use libcluon.Prelude.Decimal.{decimal}
use libcluon.Stream.{Stream, stream}
use libcluon.Envelope.{
  Envelope, data_type, sample_seconds, sender_stamp, serialize_envelope, extract_envelope,
}
use libcluon.Envelope.Outcome.{extract_returns}

-- The keys of the two maps, and the other arguments; start and end are int32_t patterns.
pub record Options : Type 0 where
  pub keep : List (List ℕ)
  pub drop : List (List ℕ)
  pub skip : ℕ
  pub start : ℕ
  pub end_time : ℕ
  pub is_relative_end : Bool
  pub exit : Bool

pub record State : Type 0 where
  pub counter : ℕ
  pub current_end : ℕ
  pub end_initialized : Bool
  pub output : List ℕ

abbrev pub initial : Options → State
initial o = record { counter = 0; current_end = o.end_time; end_initialized = false; output = [] }

-- The order of int32_t.
abbrev pub before : ℕ → ℕ → Bool
before a b = ltb ((a + 2 ^ 31) % 2 ^ 32) ((b + 2 ^ 31) % 2 ^ 32)

-- The data type is positive where this is written.
unfoldable pub key : Envelope → List ℕ
key env = decimal (data_type env) ++ 0x2F ∷ decimal (sender_stamp env)

unfoldable pub count : List ℕ → List (List ℕ) → Bool
count k [] = false
count k (j ∷ js) = let rest = count k js in if same j k then true else rest

abbrev pub nonempty : List (List ℕ) → Bool
nonempty [] = false
nonempty (k ∷ ks) = true

-- The two tests, where the first one overwrites the key.
abbrev pub dropped : Options → List ℕ → List ℕ → List ℕ
dropped o k bytes = if nonempty o.drop && not (count k o.drop) then bytes else []

unfoldable pub written : Options → Envelope → List ℕ
written o env =
    let bytes = serialize_envelope env in
    if nonempty o.keep && count (key env) o.keep
    then bytes ++ dropped o bytes bytes
    else dropped o (key env) bytes

abbrev pub is_payload : Envelope → Bool
is_payload env = ltb 0 (data_type env) && ltb (data_type env) (2 ^ 31) && not (data_type env == 10)

-- END += ..., for which int32_t is taken to wrap.
abbrev pub with_end : Options → Envelope → State → State
with_end o env st =
    if o.is_relative_end && not st.end_initialized
    then record st {
      end_initialized = true;
      current_end =
          (st.current_end + (if before 0 o.start then o.start else sample_seconds env)) % 2 ^ 32;
    }
    else st

abbrev pub with_output : Options → Envelope → State → State
with_output o env st =
    if before o.start (sample_seconds env) && before (sample_seconds env) st.current_end
    then record st { output = st.output ++ written o env }
    else st

abbrev pub is_over : Options → Envelope → State → Bool
is_over o env st = not (before (sample_seconds env) st.current_end) && o.exit

-- One envelope, and whether the program exits.
abbrev pub handle_counted : Options → Envelope → State → State × Bool
handle_counted o env st =
    let ended = with_end o env st in (with_output o env ended, is_over o env ended)

abbrev pub counted : State → State
counted st = record st { counter = (st.counter + 1) % 2 ^ 32 }

unfoldable pub handle : Options → Envelope → State → State × Bool
unfolding written
handle o env st =
    if is_payload env
    then (if ltb o.skip (counted st).counter
        then handle_counted o env (counted st)
        else (counted st, false))
    else (st, false)

-- The end of the program: all output is written, or extractEnvelope does not return, as in
-- Envelope/Outcome.antt.
pub data Ending : Type 0 where
  ended : List ℕ → Ending
  terminated : Ending

module _ (room : ℕ) (memory : ℕ → ℕ) where
  -- The loop; `none` means that the fuel ran out.
  unfoldable pub filter_loop : Options → ℕ → Stream → State → Option Ending
  filter_loop o zero s st = none
  filter_loop o (suc fuel) s st =
      let (found, env, s') = extract_envelope memory s in
      let (st', exits) = handle o env st in
      let rest = filter_loop o fuel s' st' in
      if extract_returns room memory s
      then (if exits
          then some (ended st'.output)
          else if s'.good && found
          then rest
          else some (ended st'.output))
      else some terminated

  -- A round that is not the last one reads five bytes at least.
  unfoldable pub cluon_filter : Options → List ℕ → Option Ending
  cluon_filter o input = filter_loop o (suc (length input)) (stream input) (initial o)
