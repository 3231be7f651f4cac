-- ===== src/Lcm/Dynamic.antt =====
-- getGenericMessage of libcluon/src/LCMToGenericMessage.cpp down to the generic message that it
-- returns. `none` means that the bound on the depth of createFrom's calls ran out.
use libcluon.Prelude.{
  ℕ, suc, ◌≤◌, ◌<◌, ◌≡◌, ◌≢◌, ap, ◌∙◌, arith, List, Option, none, some, length, All,
}
use libcluon.Stream.{stream}
use libcluon.Visitor.{Ty, Schema, Vals}
use libcluon.Proto.RoundTrip.{Distinct}
use libcluon.Lcm.Hash.{encoder_hash}
use libcluon.Lcm.Fields.{message_hash}
use libcluon.Lcm.Encode.{encoded_message}
use libcluon.Lcm.Decode.{new_decoder, decode_from, accept}
use libcluon.Lcm.Primitives.{AreSendable}
use libcluon.Lcm.RoundTrip.{accept-encoded_message}
use libcluon.Lcm.Packet.{Specification, lookup, set_message_specification, get_generic_message}
use libcluon.Lcm.Channels.{packet, NonZero, get_generic_message-packet}
use libcluon.Generic.{MetaMessage, GenericMessage, new_generic_message, values_of}
use libcluon.Generic.Create.{Identity}
use libcluon.Generic.Accept.{filled_from}
use libcluon.Generic.Shown.{Described-Holds}
use libcluon.Generic.Update.{accept_with}
use libcluon.Generic.Empty.{create_empty, scope_of}
use libcluon.Generic.Initial.{zeros, nested_messages, AreScoped, described}
use libcluon.Generic.Nested.{create_empty-Created}
use libcluon.Generic.Dynamic.{filled_from-accepted}

module _ (memory : ℕ → ℕ) where
  abbrev pub accepting : List ℕ → Option GenericMessage → Option GenericMessage
  accepting payload none = none
  accepting payload (some gm) =
      some
        (accept_with (λ s v. (accept memory (decode_from new_decoder (stream payload)) s v).0) gm)

  -- createFrom() and accept() with a decoder of the payload, where a meta message has been found.
  abbrev pub decoded : ℕ → List MetaMessage → Option (MetaMessage × List ℕ) → Option GenericMessage
  decoded depth mms none = some new_generic_message
  decoded depth mms (some (mm, payload)) = accepting payload (create_empty depth mms mm)

  unfoldable pub generic_message : ℕ → Specification MetaMessage → List ℕ → Option GenericMessage
  generic_message depth spec bytes = decoded depth spec.list (get_generic_message spec bytes)

  module _ (type_name : Ty → List ℕ) (identity : Schema → Identity) where
    -- For an LCM packet with the bytes of a message, on a channel whose name has the meta message
    -- of that message in the scope, getGenericMessage returns a generic message that hands the
    -- values of the message to one that accepts it, nested messages included; if the name of the
    -- channel is not empty and has no zero, the meta messages of the nested messages are in the
    -- scope by the names of their types, the field identifiers are distinct on each level, the
    -- hash of the message is not 0, the values can be sent, and the bound on the depth of calls
    -- is above the number of nested messages.
    pub generic_message-packet :
        (depth : ℕ) (mms : List MetaMessage) (channel : List ℕ) (s : Schema) (v w : Vals s)
        → 0 < length mms
        → 0 < length channel
        → All NonZero channel
        → lookup channel (scope_of mms) ≡ some (described type_name identity s)
        → nested_messages s ≤ depth
        → Distinct s
        → AreScoped type_name identity mms s
        → message_hash encoder_hash s ≢ 0
        → AreSendable s v
        → (gm : GenericMessage) × (generic_message
              (suc depth)
              (set_message_specification (λ mm. mm.message_name) (some mms)).0
              (packet channel (encoded_message s v))
            ≡ some gm)
          × (filled_from s gm w ≡ v)
    unfolding generic_message set_message_specification scope_of
    generic_message-packet depth mms channel s v w n l z e h d c k a =
        let (gm, created, shown, fs, holds) =
          create_empty-Created type_name identity depth mms s h d c in
        let f = λ (s' : Schema) (v' : Vals s').
          (accept memory (decode_from new_decoder (stream (encoded_message s v))) s' v').0 in
        let found =
          get_generic_message-packet
            (set_message_specification (λ mm. mm.message_name) (some mms)).0 channel
            (encoded_message s v) (described type_name identity s) n e z (omega arith) in
        (
          accept_with f gm,
          (ap (decoded (suc depth) mms) found ∙ ap (accepting (encoded_message s v)) created),
          (filled_from-accepted f s (zeros s) w gm shown
                (Described-Holds type_name identity s (values_of gm) holds) d
              ∙ ap (λ r. r.0) (accept-encoded_message memory new_decoder s v (zeros s) k a)),
        )
