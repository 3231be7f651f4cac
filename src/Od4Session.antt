-- ===== src/Od4Session.antt =====
-- OD4Session: libcluon/src/OD4Session.cpp and the template send() of
-- libcluon/include/cluon/OD4Session.hpp. A delegate is a value of a type `D`, and a call of one is a
-- result; an empty std::function is `none`. The sockets are not modelled: what the receiver hands in
-- is an argument, and what the sender hands to sendto is a result.
pub mod Triggers
pub mod Delivery
mod Tests
use libcluon.Prelude.{ℕ, suc, ◌+◌, ◌%◌, ◌^◌, ◌<◌, Bool, true, false, ◌&&◌, ◌||◌, List, [], ◌∷◌}
use libcluon.Prelude.{◌-◌, not, Option, none, some, ◌==◌, ltb, if◌then◌else◌, length}
use libcluon.Stream.{Stream, stream}
use libcluon.Visitor.{Schema, Vals}
use libcluon.Envelope.{
  data_type, Envelope, TimeStamp, new_envelope, serialize_envelope, extract_envelope,
}
use libcluon.Proto.Encode.{encoded_data}
use libcluon.Time.{convert}

abbrev is_some {ℓ} : {A : Type ℓ} → Option A → Bool
is_some none = false
is_some (some a) = true

-- env.received(ts)
abbrev pub with_received : Envelope → TimeStamp → Envelope
with_received (t, (d, (sent, (received, r)))) ts = (t, (d, (sent, (ts, r))))

module _ {D : Type 0} where
  -- std::unordered_map<int32_t, std::function<...>>: count, [] as a read, [] as a write and erase.
  unfoldable pub find : ℕ → List (ℕ × Option D) → Option (Option D)
  find k [] = none
  find k ((j, d) ∷ m) = if j == k then some d else find k m

  assign : ℕ → Option D → List (ℕ × Option D) → List (ℕ × Option D)
  assign k d [] = (k, d) ∷ []
  assign k d ((j, e) ∷ m) = if j == k then (k, d) ∷ m else (j, e) ∷ assign k d m

  erase : ℕ → List (ℕ × Option D) → List (ℕ × Option D)
  erase k [] = []
  erase k ((j, e) ∷ m) = if j == k then m else (j, e) ∷ erase k m

-- m_delegate and m_mapOfDataTriggeredDelegates
pub record Session (D : Type 0) : Type 0 where
  pub delegate : Option D
  pub delegates : List (ℕ × Option D)

module _ {D : Type 0} where
  -- OD4Session(CID, delegate)
  abbrev pub new_session : Option D → Session D
  new_session d = record { delegate = d; delegates = [] }

  -- dataTrigger(messageIdentifier, delegate)
  unfoldable pub data_trigger : Session D → ℕ → Option D → Session D × Bool
  unfolding find assign erase
  data_trigger s id d =
      if is_some s.delegate
      then (s, false)
      else if (if is_some d then false else true) && is_some (find id s.delegates)
      then (record s { delegates = erase id s.delegates }, true)
      else (record s { delegates = assign id d s.delegates }, true)

  -- The delegate for an envelope, and the call of it. Calling an empty function throws, and the
  -- exception is dropped.
  unfoldable pub deliver : Session D → Envelope → Option (D × Envelope)
  unfolding find
  deliver s env = elim s.delegate [
    | some d ↦ some (d, env)
    | none ↦ elim (find (data_type env) s.delegates) [ some (some d) ↦ some (d, env) | _ ↦ none ]
  ]

  -- callback(data, from, timepoint): the delegate that is called, and with which envelope.
  unfoldable pub callback : (ℕ → ℕ) → Session D → List ℕ → ℕ → Option (D × Envelope)
  unfolding deliver
  callback memory s bytes timepoint =
      if is_some s.delegate || ltb 0 (length s.delegates)
      then (let (valid, env, s') = extract_envelope memory (stream bytes) in
          if valid then deliver s (with_received env (convert timepoint)) else none)
      else none

-- send(message, sampleTimeStamp, senderStamp): the envelope that is sent at the time `now`.
unfoldable pub message_envelope : ℕ → (s : Schema) → Vals s → TimeStamp → TimeStamp → ℕ → Envelope
message_envelope id s message now sample_time_stamp sender_stamp = (
  id,
  (
    encoded_data s message,
    (
      now,
      (
        (0, (0, tt)),
        (
          (if (sample_time_stamp.0 + sample_time_stamp.1.0) % 2 ^ 32 == 0
              then now
              else sample_time_stamp),
          (sender_stamp, tt),
        ),
      ),
    ),
  ),
)

-- What UDPSender::send(data) of libcluon/src/UDPSender.cpp does with the bytes: it hands them to
-- sendto, it has nothing to send, or it returns EBADF or E2BIG.
pub data Attempt : Type 0 where
  handed_over : List ℕ → Attempt
  nothing_to_send bad_socket too_big : Attempt

-- MAX_LENGTH
abbrev pub max_length : ℕ
max_length = 0xFFFF - 20 - 8

unfoldable pub udp_send : Bool → List ℕ → Attempt
udp_send has_socket bytes =
    if not has_socket
    then bad_socket
    else if length bytes == 0
    then nothing_to_send
    else if ltb max_length (length bytes)
    then too_big
    else handed_over bytes

-- send(envelope), which drops what the sender returns.
unfoldable pub send : Bool → Envelope → Attempt
send has_socket env = udp_send has_socket (serialize_envelope env)
