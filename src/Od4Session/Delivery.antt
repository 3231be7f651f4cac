-- ===== src/Od4Session/Delivery.antt =====
-- From send() of one session to the delegate of another.
use libcluon.Prelude.{
  ℕ, ◌+◌, ◌-◌, ap, ◌≤◌, ◌<◌, ◌≡◌, refl, ◌∙◌, arith, true, List, [], ◌∷◌, append-nil, All,
}
use libcluon.Prelude.{Option, none, some, length}
use libcluon.Prelude.Words.{IsByte}
use libcluon.Stream.{stream}
use libcluon.Visitor.{Schema, Vals}
use libcluon.Proto.Encode.{encoded_data}
use libcluon.Proto.Encode.Records.{AreEncodable}
use libcluon.Proto.Decode.Map.{extract_message}
use libcluon.Proto.RoundTrip.{Distinct}
use libcluon.Proto.MapRoundTrip.{extract_message-encoded_data}
use libcluon.Time.{convert}
use libcluon.Envelope.{Envelope, TimeStamp, envelope, serialize_envelope, extract_envelope}
use libcluon.Envelope.Framing.{
  serialize_envelope-frame, extract_envelope-serialize_envelope, extract_envelope_accepts, IsFramed,
}
use libcluon.Od4Session.{
  find, data_type, Session, deliver, callback, handed_over, too_big, max_length, udp_send, send,
  with_received, message_envelope,
}

length-serialize_envelope :
    (env : Envelope) → length (serialize_envelope env) ≡ 5 + length (encoded_data envelope env)
length-serialize_envelope env = ap length (serialize_envelope-frame env) ∙ omega arith

-- With a socket, the bytes are handed over up to the size of a datagram, and refused above it.
send_small :
    (env : Envelope)
    → length (encoded_data envelope env) ≤ max_length - 5
    → send true env ≡ handed_over (serialize_envelope env)
unfolding send udp_send
send_small env h = ground (arith, length-serialize_envelope env)

pub send_too_big :
    (env : Envelope) → max_length - 5 < length (encoded_data envelope env) → send true env ≡ too_big
unfolding send udp_send
send_too_big env h = ground (arith, length-serialize_envelope env)

module _ {D : Type 0} (memory : ℕ → ℕ) where
  -- Once an envelope is extracted it is delivered; a session without delegates does not look.
  callback-extracted :
      (o : Option D) (m : List (ℕ × Option D)) (bytes : List ℕ) (timepoint : ℕ) (env : Envelope)
      → extract_envelope memory (stream bytes) ≡ (true, env, stream [])
      → callback memory (record { delegate = o; delegates = m }) bytes timepoint
        ≡ deliver (record { delegate = o; delegates = m }) (with_received env (convert timepoint))
  unfolding callback
  callback-extracted (some d) m bytes timepoint env e = rw e
  callback-extracted none [] bytes timepoint env e = refl
  callback-extracted none (x ∷ m) bytes timepoint env e = ground arith

  -- The bytes of a sent envelope bring the delegate that envelope, with the time of reception.
  pub callback-send :
      (s : Session D) (env : Envelope) (timepoint : ℕ)
      → AreEncodable envelope env
      → length (encoded_data envelope env) ≤ max_length - 5
      → (bytes : List ℕ) × (send true env ≡ handed_over bytes)
        × (callback memory s bytes timepoint ≡ deliver s (with_received env (convert timepoint)))
  callback-send s env timepoint h fits = (
    serialize_envelope env,
    send_small env fits,
    callback-extracted s.delegate s.delegates (serialize_envelope env) timepoint env
        (rw append-nil at (extract_envelope-serialize_envelope memory env [] h (omega arith))),
  )

  -- If received bytes make a session call a delegate, they begin with a frame that is there in
  -- full.
  pub callback-IsFramed :
      (s : Session D) (bytes : List ℕ) (timepoint : ℕ) (d : D) (env : Envelope)
      → All IsByte bytes
      → callback memory s bytes timepoint ≡ some (d, env)
      → IsFramed memory bytes
  unfolding callback
  callback-IsFramed s bytes timepoint d env h e = (extract_envelope_accepts memory bytes h).0 valid
    where
      valid : (extract_envelope memory (stream bytes)).0 ≡ true
      valid = ground arith

  deliver_found :
      (s : Session D) (d : D) (env : Envelope)
      → s.delegate ≡ none
      → find (data_type env) s.delegates ≡ some (some d)
      → deliver s env ≡ some (d, env)
  unfolding deliver
  deliver_found s d env e f = ground arith

  -- With a socket, a message that is sent is handed to sendto, and the bytes that are handed over
  -- make a session without a catch-all delegate call the delegate that it has for the identifier
  -- of the message, with an envelope that has the identifier, the time of sending and of
  -- reception, and a payload from which the message is extracted again, whatever the values of
  -- the new message before; for distinct field identifiers and encodable values whose envelope,
  -- encoded and with its header of five bytes, is not larger than the payload of a UDP packet,
  -- 65507 bytes.
  pub message_delivered :
      (s : Session D) (d : D) (id : ℕ) (sch : Schema) (message fresh : Vals sch)
      (now sample : TimeStamp) (stamp timepoint : ℕ)
      → Distinct sch
      → AreEncodable sch message
      → AreEncodable envelope (message_envelope id sch message now sample stamp)
      → length (encoded_data envelope (message_envelope id sch message now sample stamp))
        ≤ max_length - 5
      → s.delegate ≡ none
      → find id s.delegates ≡ some (some d)
      → (bytes : List ℕ) × (env : Envelope) × (send true
            (message_envelope id sch message now sample stamp)
          ≡ handed_over bytes)
        × (callback memory s bytes timepoint ≡ some (d, env))
        × (env.0 ≡ id)
        × (extract_message memory sch env.1.0 fresh ≡ message)
        × (env.1.1.0 ≡ now)
        × (env.1.1.1.0 ≡ convert timepoint)
  unfolding message_envelope
  message_delivered s d id sch message fresh now sample stamp timepoint u hm h fits none_all found =
      let sent = message_envelope id sch message now sample stamp in
      let (bytes, over, called) = callback-send s sent timepoint h fits in
      (
        bytes,
        with_received sent (convert timepoint),
        over,
        called ∙ deliver_found s d _ none_all found,
        refl,
        extract_message-encoded_data memory sch message fresh u hm,
        refl,
        refl,
      )
