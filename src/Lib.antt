-- ===== src/Lib.antt =====
-- A model of rust-psbt: Partially Signed Bitcoin Transactions of version 2 (BIP-370, BIP-174 and
-- BIP-375), with the features `miniscript` and `silent-payments`.
--
-- A PSBT is a global map, a list of input maps and a list of output maps. The roles pass it on: a
-- Creator builds it, Constructors add inputs and outputs, Updaters write what they know, a Combiner
-- joins two copies, Signers write signatures, a Finalizer turns these into final scripts, and an
-- Extractor makes the transaction.
--
-- + Prelude: lists, options and results on native numbers. `Outcome` is Rust's `Result` with one more
--   value for a run that panics; `Ordered` and `BTreeMap` are upstream's `Ord` and `BTreeMap`.
-- + Primitives: the types of the `bitcoin` crate; what upstream computes is an argument.
-- + Sighash (src/sighash_type.rs), Flags (src/tx_modifiable_flags.rs), Keys (src/map/mod.rs).
-- + Input, Output, Global (src/map/input.rs, output.rs, global.rs): the records, their operations,
--   and `combine` in a child module of each; Input/Utxo is `funding_utxo`, the output types
--   and `finalize`, whose debug assertion an argument turns on.
-- + Psbt (src/psbt.rs): lock time, unsigned transaction, identification; its children are
--   LockTimes and Bip370 (the lock time against BIP-370), Combine, Amounts (the fee), PartialSigs,
--   TxFields and Finalized (what the unsigned transaction depends on).
-- + Roles (src/roles): Creator, Constructor, Updater, Signer, Signable (`SignableInput` and
--   `AllSignableInputs` of signer.rs), Finalizer, Extractor. Reachable and Counted are what the
--   builders can reach and what that keeps; Updates, Handover (from a Constructor over updates to a
--   Signer), Signing, Applies, SignableSets, Running and Extraction hold the theorems of the later
--   roles.
-- + V0 (src/v0.rs): the wrapper for version 0 and its report.
-- + Decoding: the trait `Decoder` of upstream as a record, and the `loop` of a map decoder as `rounds`
--   of a step. Its children are Fields (a field set once, an entry of a map), Contracts (what the
--   maps rely on in a decoder of a value), Ensures (what holds of a decoder whatever it is fed),
--   Rounds (a loop that takes a byte in each round ends) and Runs (rounds that read an encoding).
-- + Codecs: the decoders and encoders of single values, as two records. Framing
--   (src/map/framing.rs), Keys/Codec (src/map/mod.rs) and Consts (src/consts.rs) are over them.
-- + Encoding (src/encoding/mod.rs): the loop of a map encoder.
-- + Input/Decoder, Output/Decoder and Global/Decoder with their Encoder siblings: the state machines
--   of the maps. Stage is `DecoderStage` and `from_key`; Input keeps its state in State and the
--   transitions in Singles and Entries. Laws are what a decoder ends in, Ends that its loop ends, and
--   Output/RoundTrip is the encoder of an output map followed by its decoder.
-- + Psbt/Decoder (src/psbt.rs): `PsbtV2Decoder`, over the decoders of the maps.
-- + Numbers: the numbers of src/version.rs, and of count.rs, vout.rs and required_height_lock_time.rs
--   of src/map.
-- + Examples: the theorems at concrete values.
--
-- A `&mut self` method is a function that returns the new value; a `?` is the bind of `Outcome`, in
-- the order of the source, and an `expect`, an index out of range or a subtraction below zero is
-- `panicked`. Satoshis are checked against `2 ^ 64`, counts wrap at `2 ^ 64`, flags are a byte. Most
-- loops run over lists, or over the input count. The loop of a map decoder is on fuel, two rounds
-- more than there are bytes: each round but the first takes a byte and the last sees no byte. That of
-- `PsbtV2Decoder` has seven rounds, one for each stage and one to spare. An encoder skips empty
-- states on fuel, the number of its states.
--
-- A decoder that returned an error is not used again, so an error has no state. An encoder of a value
-- is the bytes that it yields, as one chunk.
--
-- Not modelled: the codecs of single values (src/encoding/codecs, tap_key_origin.rs), which the maps
-- take through Codecs, the maps and the stream of version 0 (src/map/v0), the stream encoder,
-- making signatures and the search for a descriptor, which lean on secp256k1 and miniscript, the
-- texts of errors, and base64.
pub mod Prelude
pub mod Ordered
pub mod BTreeMap
pub mod Primitives
pub mod Sighash
pub mod Flags
pub mod Decoding
pub mod Framing
pub mod Consts
pub mod Keys
pub mod Input
pub mod Output
pub mod Global
pub mod Codecs
pub mod Encoding
pub mod Psbt
pub mod Roles
pub mod V0
pub mod Numbers
pub mod Examples
