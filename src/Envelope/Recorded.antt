-- ===== src/Envelope/Recorded.antt =====
-- Serialized envelopes one after the other, as in a recording and in the input of the tools
-- (libcluon/include/cluon/Envelope.hpp).
use libcluon.Prelude.{
  ℕ, ◌^◌, ◌≤◌, ◌<◌, ◌≡◌, arith, true, List, [], ◌∷◌, ◌++◌, length, length-append,
}
use libcluon.Stream.{stream}
use libcluon.Proto.Encode.{encoded_data}
use libcluon.Proto.Encode.Records.{AreEncodable}
use libcluon.Envelope.{Envelope, envelope, serialize_envelope, extract_envelope}
use libcluon.Envelope.Framing.{extract_envelope-serialize_envelope}
use libcluon.Envelope.Outcome.{extract_returns, extract_returns-serialize_envelope}

abbrev pub recorded : List Envelope → List ℕ
recorded [] = []
recorded (env ∷ envs) = serialize_envelope env ++ recorded envs

-- An envelope that extractEnvelope gives back.
abbrev pub IsRecordable : Envelope → Type 0
IsRecordable env = AreEncodable envelope env × (length (encoded_data envelope env) < 2 ^ 24)

length-serialize_envelope : (env : Envelope) → 1 ≤ length (serialize_envelope env)
unfolding serialize_envelope
length-serialize_envelope env = omega arith

pub length-recorded : (envs : List Envelope) → length envs ≤ length (recorded envs)
length-recorded [] = omega arith
length-recorded (env ∷ envs) = omega (
  arith,
  length-append (serialize_envelope env) (recorded envs),
  length-serialize_envelope env,
  length-recorded envs,
)

pub extract_recorded :
    (memory : ℕ → ℕ) (env : Envelope) (envs : List Envelope)
    → IsRecordable env
    → extract_envelope memory (stream (recorded (env ∷ envs))) ≡ (true, env, stream (recorded envs))
extract_recorded memory env envs h =
    extract_envelope-serialize_envelope memory env (recorded envs) h.0 h.1

pub extract_returns-recorded :
    (room : ℕ) (memory : ℕ → ℕ) (env : Envelope) (envs : List Envelope)
    → IsRecordable env
    → 2 ^ 24 ≤ room
    → extract_returns room memory (stream (recorded (env ∷ envs))) ≡ true
extract_returns-recorded room memory env envs h big =
    extract_returns-serialize_envelope room memory env (recorded envs) h.0 h.1 big
