-- ===== src/Lib.antt =====
-- Verification of delta-stream, which sends a changing state as packets: snapshots, and deltas
-- against the state before.
--
-- The parts of the program, and where they are modelled (paths from the repository's root):
-- - src/smart_delta.rs: SmartDelta, with a module for each delta format (Sparse, Ranges, Xor,
--   Splice, Chunks), for the choice among them (Dispatch) and for the tuner (Tuner). The functions
--   keep their names; their loops are functions beside them (`apply_changes` is the loop of
--   `apply_sparse`). The `u64` varints of that file are Varint.
-- - `fnv1a64` of src/sync.rs: Hash.
-- - src/packet.rs: Packet, with the wire format in Packet/Codec and the little-endian words in
--   Packet/Little. `Packet::encode` and `Packet::decode_with_config` are `encode` and
--   `decode_with_config`; the parts of the decoder are the runs of checks between its reads.
-- - src/byte_sync.rs: ByteSync, with `ByteStateEncoder` in ByteSync/Encoder and
--   `ByteStateDecoder` in ByteSync/Decoder. A method that changes its object returns the changed
--   object beside its result, also when the result is an error. The local variables of the
--   encoder's search are the record `Search`.
-- - src/fast_selector.rs: FastSelector; src/v30_sync.rs: V30Sync, whose `encode` has its own search
--   over the advisor's short list (the record `Hunt`); src/runtime.rs: Runtime.
-- - src/recovery_history.rs: Recovery/History, where `record` is `record_packet`; src/replay.rs:
--   Recovery/Window, where `record` is `record_sequence`.
-- - src/binary.rs: Binary, with the integers in Binary/Words, the UTF-8 check of the standard library
--   in Binary/Utf8, `Reader` in Binary/Reader, the states in Binary/StateCodec, `AgentDelta` in
--   Binary/AgentDelta and its encoding in Binary/DeltaCodec; src/state.rs: State.
-- - src/adaptive.rs: Adaptive.
-- - src/sync.rs: Stream. The encoders and decoders for agents and for generic states share their
--   definitions, in Stream/Encoder and Stream/Decoder, over the interface `StateCodec`, which says
--   how a state becomes bytes; Stream/Agent fills it with the encoding of src/binary.rs,
--   Stream/Generic with the JSON of src/schema.rs, which is Schema. What a
--   codec owes the streams is `IsCodec` in Stream/Law.
-- - src/session.rs and src/control.rs: Session, where `run` maps the packets that a subscriber
--   receives to the control messages that it publishes.
-- - src/migration.rs, with the decoding that uses it: Stream/Migrate.
-- - src/reorder.rs: Stream/Reorder; src/partial_repair.rs: Repair; src/recovery_v30.rs: Repair/Plan.
-- - src/crdt: Crdt, with the identifiers, the sorted map of components, the two counters and the
--   register.
-- - src/error.rs: Error, with the results of fallible code and its early returns.
-- Common holds the numbers, tests and list lemmas that they share, Tests the concrete values.
--
-- How they interact: the byte encoder takes the previous state and the current one, lets Dispatch
-- make a delta of every admitted kind, wraps each in a packet, may compress it, and keeps the
-- smallest; the fast encoder of version 0.30 does the same with the kinds on its advisor's short
-- list; the byte decoder checks a packet against its own sequence and state, decompresses it
-- and lets Dispatch apply the delta. The streams of typed states make a snapshot and a delta of
-- the state's codec and let the adaptive policy choose; their decoder also keeps a replay window.
--
-- Numbers are natural numbers with the widths written out: a `usize` is taken to have 64 bits, a
-- byte vector is no longer than `isize::MAX`, and wrapping, saturating and checked operations are
-- modelled as such. Loops over counts, ranges and bytes recurse on what they consume; the varint
-- writer runs on fuel 9, which is enough for the ten groups of a `u64`, and on fuel 18 for the
-- nineteen groups of a `u128`. The loop that drains the reorder
-- decoder runs on as much fuel as packets wait, and every round removes one.
--
-- Parameters: crc32fast and zstd are the record `Libraries`, with the behaviour that their
-- documentation states in `IsLawful`; the comparisons of floats are the record `Floats` and the
-- argument `ratio_at_most`, of which nothing is assumed. serde_json is the record `Serde`, with its
-- behaviour in `IsLawfulSerde`; its comparison of values may take different values for equal, as it
-- does 0.0 and -0.0.
--
-- Not modelled: the publisher session, transports, the command line and the benchmarks, which are
-- input and output. Capacity hints and the texts of errors of other crates are left out, and an
-- allocation, that of `resize` included, is taken to succeed.
pub mod Common
pub mod Error
pub mod Hash
pub mod Varint
pub mod SmartDelta
pub mod Libraries
pub mod Packet
pub mod ByteSync
pub mod Crdt
pub mod Recovery
pub mod Tests
pub mod FastSelector
pub mod Runtime
pub mod V30Sync
pub mod State
pub mod Binary
pub mod Adaptive
pub mod Stream
pub mod Repair
pub mod Schema
pub mod Session
