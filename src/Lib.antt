-- ===== src/Lib.antt =====
-- libcluon: a verification library for the message codecs, generic messages, the OD4 session, the
-- player, the notifying pipeline, the envelope converter and the filter tool of libcluon.
--
-- Messages are sent between microservices as envelopes. A message is a C++ class generated from
-- its specification, whose method accept() hands each field to a visitor; the encoders and
-- decoders are visitors, and so are the printers of JSON, CSV and ODVD. An OD4Session encodes a
-- message by ToProtoVisitor, puts the bytes into an Envelope, encodes that likewise, adds the OD4
-- header and hands the bytes to a UDP sender. The receiving session takes the header off, decodes
-- the Envelope by FromProtoVisitor and calls the delegate for the identifier of the message,
-- which extracts the message. Between the socket and the session, a NotifyingPipeline keeps the
-- received packets for a thread that calls the session. A recording is serialized envelopes one
-- after the other; a Player indexes it by the sample times and returns its envelopes in that
-- order, for the session to send. A GenericMessage holds the fields of a message whose class is
-- not known, with the MetaMessage that describes them; it is a visitor and is visited. A
-- MessageParser makes MetaMessages of a specification. With these, an EnvelopeConverter decodes
-- the payload of an envelope into a GenericMessage and prints both by ToJSONVisitor, and
-- LCMToGenericMessage does the decoding for LCM packets. The tool cluon-filter copies envelopes
-- from its input to its output.
--
-- Prelude: shared names, tests, lists and texts; Prelude.Bits has the laws of the bit operations,
-- and Prelude.Words bytes in both orders and two's complement; Prelude.Decimal is std::ostream of
-- integers.
-- Stream: std::istream over a string, by what is left to read and whether the stream is good.
-- Visitor: the types that a visitor has overloads for, messages as schemas of fields, and values.
-- Integers, floats and doubles are bit patterns; strings are lists of bytes.
-- Proto.ZigZag, Proto.VarInt, Proto.Encode: libcluon/src/ToProtoVisitor.cpp and
-- libcluon/include/cluon/ToProtoVisitor.hpp (toZigZag8 to toZigZag64, toVarInt, encodeKey,
-- encode, toKeyValue, visit). Proto.Encode.Records describes the bytes as records of key and
-- payload.
-- Proto.Decode, Proto.Decode.Direct, Proto.Decode.Map: libcluon/src/FromProtoVisitor.cpp and
-- libcluon/include/cluon/FromProtoVisitor.hpp (fromVarInt, readBytesFromStream, both decodeFrom,
-- visit); Proto.Decode.Returns has whether decodeFrom into a message returns.
-- Proto.Decode.Reading, Proto.Decode.Loop and Proto.Decode.Rounds are about their loops,
-- Proto.Returning about what was encoded, Proto.FieldMap about the map of fields, Proto.RoundTrip, Proto.MapRoundTrip and
-- Proto.Duplicates about decoding what was encoded.
-- Envelope: libcluon/include/cluon/Envelope.hpp (serializeEnvelope, extractEnvelope,
-- extractMessage), with the messages of libcluon/resources/cluonDataStructures.odvd;
-- Envelope.Framing is about one envelope, Envelope.Outcome has and is about whether
-- extractEnvelope returns, Envelope.Recorded is about envelopes one after the other.
-- Time: libcluon/include/cluon/Time.hpp (convert, fromMicroseconds, toMicroseconds,
-- deltaInMicroseconds).
-- Od4Session: libcluon/src/OD4Session.cpp (dataTrigger, callback, send), the template send of
-- libcluon/include/cluon/OD4Session.hpp, and send of libcluon/src/UDPSender.cpp up to sendto.
-- MsgPack.Constants, MsgPack.Encode: libcluon/include/cluon/MsgPackConstants.hpp and
-- libcluon/src/ToMsgPackVisitor.cpp (encode, encodeUint, encodeInt, preVisit, encodedData,
-- visit). MsgPack.Decode, MsgPack.Decode.Visit: libcluon/src/FromMsgPackVisitor.cpp
-- (getFormatFamily, readUint, readInt, readString, readKeyValues, decodeFrom, visit).
-- MsgPack.Tree describes the tree that the decoder builds, and MsgPack.Written that the encoder
-- writes it; MsgPack.Decode.Scalars, MsgPack.Decode.Entries, MsgPack.Decode.Maps and
-- MsgPack.Names are about reading it, MsgPack.Decode.Lengths and MsgPack.Decode.Depth about the
-- depth of maps, MsgPack.RoundTrip about whole messages, MsgPack.Limits about messages that are
-- not read back.
-- Lcm.Hash, Lcm.Encode: libcluon/src/ToLCMVisitor.cpp (calculateHash, hash, encodedData, visit).
-- Lcm.Decode: libcluon/src/FromLCMVisitor.cpp (decodeFrom, preVisit, postVisit, visit).
-- Lcm.Fields describes what the encoder writes field by field, Lcm.Primitives, Lcm.RoundTrip and
-- Lcm.Mismatch are about the decoder.
-- Lcm.Packet: libcluon/src/LCMToGenericMessage.cpp (setMessageSpecification, getGenericMessage),
-- with Lcm.Channels about packets and the scope of meta messages; Lcm.Dynamic: getGenericMessage
-- down to the generic message.
-- Json.Base64, Json.RoundTrip: encodeBase64 of libcluon/src/ToJSONVisitor.cpp and decodeBase64 of
-- libcluon/src/FromJSONVisitor.cpp. Json.Print: the rest of libcluon/src/ToJSONVisitor.cpp
-- (visit, json) with libcluon/include/cluon/ToJSONVisitor.hpp; Json.Joined is about its text.
-- Converter: libcluon/src/EnvelopeConverter.cpp (setMessageSpecification, getJSONFromEnvelope,
-- getJSONFromProtoEncodedEnvelope); Converter.Framed is about the OD4 header, Converter.Printed
-- about the text.
-- Csv: libcluon/src/ToCSVVisitor.cpp and libcluon/include/cluon/ToCSVVisitor.hpp (the
-- constructors, clear, csv, postVisit, visit); Csv.Table has the table that is printed.
-- Odvd: libcluon/src/ToODVDVisitor.cpp and libcluon/include/cluon/ToODVDVisitor.hpp
-- (messageSpecification, preVisit, postVisit, visit); Odvd.Declared and Odvd.Ordered have the
-- order of the messages.
-- Filter: libcluon/tools/cluon-filter.hpp (cluon_filter, from the options on); Filter.Round and
-- Filter.Filtered are about serialized envelopes, Filter.Total about all inputs.
-- Player, Player.Index, Player.EnvelopeCache, Player.Replay: libcluon/src/Player.cpp and
-- libcluon/include/cluon/Player.hpp (the constructor, initializeIndex, resetCaches,
-- resetIterators, computeInitialCacheLevelAndFillCache, fillEnvelopeCache,
-- getNextEnvelopeToBeReplayed, checkAvailabilityOfNextEnvelopeToBeReplayed, delay, rewind,
-- seekTo, hasMoreData, totalNumberOfEnvelopesInRecFile, checkRefillingCache).
-- Player.Index.Sorted, Player.Index.Reading, Player.Index.Built and Player.Index.Stopping are
-- about the index,
-- Player.Filling, Player.Replaying and Player.Starting about single operations, Player.Listing,
-- Player.Endless and Player.Threads about many calls, Player.Recording about recordings, and
-- Player.Seeking about seekTo.
-- Generic: libcluon/include/cluon/MetaMessage.hpp (the fields), libcluon/src/GenericMessage.cpp
-- and libcluon/include/cluon/GenericMessage.hpp (LongName). Generic.Create: GenericMessageVisitor
-- and createFrom of a message; Generic.Accept: visit and accept; Generic.Update: accept of a
-- visitor that changes the values; Generic.Empty: createFrom of a meta message.
-- Generic.RoundTrip, Generic.Names, Generic.Initial, Generic.Nested, Generic.Shown and
-- Generic.Dynamic are about these.
-- MessageParser: libcluon/src/MessageParser.cpp (parse) on the syntax tree that peg::parser
-- gives;
-- MessageParser.Check: check4UniqueFieldNames; MessageParser.Transform: transform2MetaMessages
-- and parse. MessageParser.Identifiers, MessageParser.Messages and MessageParser.Counter are
-- about the identifiers of fields.
-- Pipeline: libcluon/include/cluon/NotifyingPipeline.hpp (the constructor, the destructor, add,
-- notifyAll, processPipeline), as a step relation. Pipeline.Invariant holds between any two
-- steps, Pipeline.Fifo has the abstract queue, Pipeline.Draining is about the thread by itself,
-- and Pipeline.LostWakeup about the destructor.
--
-- Bounds and fuel. toVarInt loops at most nine times, since a uint64_t has ten groups of seven
-- bits. The loop of fromVarInt is a recursion on the bytes that are left. readBytesFromStream has
-- a round for each byte that is asked for, and each of its rounds reads one at least. The loop of
-- decodeFrom has one round more than there are bytes, since each round but the last takes a byte.
-- Nested messages are a recursion on the schema, which is static in C++ too. readKeyValues has a
-- bound on the depth of maps within maps, one more than there are bytes, since each map takes a
-- byte. Indexing a file has two rounds more than there are bytes, since each round but the last
-- takes five bytes. The loop of fillEnvelopeCache is a recursion on the entries that it may still
-- read, and that of seekTo one on its rounds; where the code tries again for ever or leaves the
-- index the outcome says so. createFrom of a meta message has a bound on the depth of its calls,
-- since it need not end. The loop of cluon-filter has one round more than there are bytes, since
-- each round but the last takes five.
--
-- Returning. decodeFrom is noexcept, and so is extractEnvelope: where reserve() or a std::string
-- throws, for a length that is larger than `room`, the program is terminated. A number of more
-- than ten bytes is shifted by 64 bits and more, which is undefined. decode_into, decode_loop,
-- extract_envelope and initialize_index are the results where neither happens, and
-- decode_returns, loop_returns, extract_returns and index_returns are false where one of the two
-- does; loop_outcome, extract_outcome, index_outcome and cluon_filter join both. The
-- other statements do not ask for room: what they say of bytes that are read is meant for bytes
-- of which the reading returns, such as those that the code encoded and those of a file that was
-- indexed before.
--
-- Parameters. `room` is the most bytes that a std::string and a std::vector<char> can get.
-- `memory` is what stands in the memory of the decoder's buffer behind the bytes that were read,
-- which the code reads where a length is larger than what was read. A delegate is a value of an arbitrary type, and a call of one is a result. In Lcm.Packet a meta message is a
-- value of an arbitrary type with a name, and what the parser makes of a specification an
-- argument. The computations of the player with floats are the fields of a record, and so is what
-- seekTo asks of its argument. What a generated class has for ID(), ShortName() and LongName(),
-- and the names of types, are arguments. The syntax tree of a specification and
-- stringtoolbox::trim are arguments, and so are the texts of floats and doubles and the options
-- of cluon-filter, whose lists come parsed.
--
-- Left out: the reader of JSON, which uses std::regex, and with it the conversion of JSON to
-- envelopes; the grammar of specifications and the removal of comments, accept of generic
-- messages with a field identifier or with three functions, the status messages of the player,
-- shared memory, the other tools, the receivers and all sockets, from sendto on. The host is
-- little endian and no Windows system. int32_t is taken to wrap where cluon-filter adds to its end.
pub mod Prelude
pub mod Stream
pub mod Visitor
pub mod Proto
pub mod Envelope
pub mod Time
pub mod Od4Session
pub mod MsgPack
pub mod Lcm
pub mod Json
pub mod Player
pub mod Generic
pub mod MessageParser
pub mod Pipeline
pub mod Filter
pub mod Odvd
pub mod Csv
pub mod Converter
