-- ===== src/Od4Session/Tests.antt =====
-- Sessions with delegates named by numbers, and the theorems at them.
use libcluon.Prelude.{
  ℕ, List, ◌-◌, ◌≤◌, ◌≡◌, refl, arith, true, [], ◌∷◌, length, ◌==◌, if◌then◌else◌, none, some,
  codes,
}
use libcluon.Prelude.Words.{le_bytes}
use libcluon.Visitor.{Schema, field, end, uint8}
use libcluon.Proto.ZigZag.{to_zig_zag}
use libcluon.Proto.VarInt.{to_var_int}
use libcluon.Proto.Encode.{encoded_data, accept, visit, var_int_of, encode_key}
use libcluon.Proto.Encode.Records.{AreEncodable}
use libcluon.Proto.Decode.Map.{extract_message}
use libcluon.Time.{convert}
use libcluon.Envelope.{Envelope, envelope}
use libcluon.Od4Session.{
  find, Session, new_session, data_trigger, deliver, data_type, callback, handed_over, max_length,
  send, message_envelope, with_received,
}
use libcluon.Od4Session.Triggers.{Unique, deliver-data_trigger}
use libcluon.Od4Session.Delivery.{callback-send, message_delivered}

abbrev no_memory : ℕ → ℕ
no_memory i = 0

-- Delegate 7 is called for messages 60004.
abbrev watching : Session ℕ
watching = record { delegate = none; delegates = (60004, some 7) ∷ [] }

abbrev first : ℕ
first = 1

abbrev reading : Schema
reading = field 1 (codes "attribute1") uint8 end

abbrev sent : Envelope
sent = message_envelope 60004 reading (123, tt) (5, (6, tt)) (0, (0, tt)) 300

sent-AreEncodable : AreEncodable envelope sent
unfolding message_envelope accept visit to_var_int var_int_of encode_key to_zig_zag le_bytes
sent-AreEncodable = omega arith

length-sent : length (encoded_data envelope sent) ≤ max_length - 5
unfolding message_envelope accept visit to_var_int var_int_of encode_key to_zig_zag le_bytes
length-sent = omega arith

watching-Unique : Unique watching.delegates
unfolding find
watching-Unique = (refl, tt)

deliver-data_trigger_example :
    ((data_trigger watching 60004 none).1 ≡ true)
    × (deliver (data_trigger watching 60004 none).0 sent
        ≡ (if 60004 == data_type sent then none else deliver watching sent))
deliver-data_trigger_example = deliver-data_trigger watching 60004 none sent watching-Unique refl

message_delivered_example :
    (bytes : List ℕ) × (env : Envelope) × (send true sent ≡ handed_over bytes)
    × (callback no_memory watching bytes 1_000 ≡ some (7, env))
    × (env.0 ≡ 60004)
    × (extract_message no_memory reading env.1.0 (0, tt) ≡ (123, tt))
    × (env.1.1.0 ≡ (5, (6, tt)))
    × (env.1.1.1.0 ≡ convert 1_000)
message_delivered_example =
    message_delivered no_memory watching 7 60004 reading (123, tt) (0, tt) (5, (6, tt)) (0, (0, tt))
      300 1_000 (omega arith) (omega arith) sent-AreEncodable length-sent refl (unfold find in refl)

caught :
    (bytes : List ℕ) × (send true sent ≡ handed_over bytes)
    × (callback no_memory (new_session (some first)) bytes 1_000
        ≡ some (first, with_received sent (convert 1_000)))
unfolding deliver
caught = callback-send no_memory (new_session (some first)) sent 1_000 sent-AreEncodable length-sent
