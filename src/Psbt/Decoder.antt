-- ===== src/Psbt/Decoder.antt =====
-- src/psbt.rs and src/error.rs: the push-based decoder of a PSBT of version 2.
pub mod Laws
pub mod Ends
use rust_psbt.Prelude.{
  ℕ, ◌==◌, not, bytes_eq, List, [], ◌∷◌, Outcome, ok, err, panicked, map_err, expect_ok, fail_if,
  ◌>>=◌, ◌>>◌,
}
use rust_psbt.Primitives.{Byte, Txid, Transaction}
use rust_psbt.Decoding.{
  Decoder, VecDecoder, Containers, Pushed, ready, needs_more, Round, return, continue, rounds,
  advance,
}
use rust_psbt.Decoding.Fields.{restage, expect_fuel}
use rust_psbt.Codecs.{Codecs, Encoders}
use rust_psbt.Global.{Global}
use rust_psbt.Global.Decoder.{global_decoder}
use rust_psbt.Input.{Input}
use rust_psbt.Input.Decoder.{input_decoder}
use rust_psbt.Output.{Output}
use rust_psbt.Output.Decoder.{output_decoder}
use rust_psbt.Psbt.{Psbt}

-- `PSBT_MAGIC`, "psbt", and the separator that follows it.
abbrev pub psbt_magic : List Byte
psbt_magic = 0x70 ∷ 0x73 ∷ 0x62 ∷ 0x74 ∷ []

abbrev pub psbt_magic_separator : ℕ
psbt_magic_separator = 0xff

-- What a decoder that ends early was reading.
pub data Part : Type 0 where
  magic separator global inputs outputs : Part

module _ (c : Codecs) (e : Encoders) (compute_txid : Transaction → Txid) (v : Containers) where
  -- `InputsDecoder` and `OutputsDecoder`.
  abbrev pub inputs_decoder : VecDecoder Input
  inputs_decoder = v.exact_vec Input (input_decoder c compute_txid)

  abbrev pub outputs_decoder : VecDecoder Output
  outputs_decoder = v.exact_vec Output (output_decoder c)

  pub data DeserializeError : Type 0 where
    invalid_magic : List Byte → DeserializeError
    invalid_separator : Byte → DeserializeError
    decode_global : (global_decoder c e).Error → DeserializeError
    decode_inputs : inputs_decoder.Error → DeserializeError
    decode_outputs : outputs_decoder.Error → DeserializeError
    early_end : Part → DeserializeError
    unconsumed : DeserializeError

  pub data DecoderStage : Type 0 where
    magic : v.magic.State → DecoderStage
    separator : DecoderStage
    global : (global_decoder c e).State → DecoderStage
    inputs : Global → inputs_decoder.State → DecoderStage
    outputs : Global → List Input → outputs_decoder.State → DecoderStage
    done : Psbt → DecoderStage
    errored : DecoderStage

  -- The bytes go to the decoder of the stage. Upstream's decoder of the magic does not fail.
  unfoldable pub push_stage :
      DecoderStage → List Byte → Outcome DeserializeError (Pushed DecoderStage)
  push_stage (DecoderStage.magic decoder) bytes = do
    p ← expect_ok (v.magic.push_bytes decoder bytes)
    ok (restage DecoderStage.magic p)
  push_stage DecoderStage.separator [] =
      ok (record { decoder = DecoderStage.separator; rest = []; status = needs_more })
  push_stage DecoderStage.separator (b ∷ bytes) =
      ok (record { decoder = DecoderStage.separator; rest = b ∷ bytes; status = ready })
  push_stage (DecoderStage.global decoder) bytes = do
    p ← map_err decode_global ((global_decoder c e).push_bytes decoder bytes)
    ok (restage DecoderStage.global p)
  push_stage (DecoderStage.inputs g decoder) bytes = do
    p ← map_err decode_inputs (inputs_decoder.push_bytes decoder bytes)
    ok (restage (DecoderStage.inputs g) p)
  push_stage (DecoderStage.outputs g is decoder) bytes = do
    p ← map_err decode_outputs (outputs_decoder.push_bytes decoder bytes)
    ok (restage (DecoderStage.outputs g is) p)
  push_stage (done psbt) bytes = ok (record { decoder = done psbt; rest = bytes; status = ready })
  push_stage errored bytes = panicked

  -- The decoder of the stage is ended, and the next part begins.
  unfoldable pub finish : DecoderStage → List Byte → Outcome DeserializeError (Round DecoderStage)
  finish (DecoderStage.magic decoder) rest = do
    bytes ← expect_ok (v.magic.end decoder)
    fail_if (not (bytes_eq bytes psbt_magic)) (invalid_magic bytes)
    ok (continue DecoderStage.separator rest)
  finish DecoderStage.separator [] = panicked
  finish DecoderStage.separator (b ∷ rest) = do
    fail_if (not (b == psbt_magic_separator)) (invalid_separator b)
    ok (continue (DecoderStage.global (global_decoder c e).default) rest)
  finish (DecoderStage.global decoder) rest = do
    g ← map_err decode_global ((global_decoder c e).end decoder)
    ok (continue (DecoderStage.inputs g (inputs_decoder.new g.input_count)) rest)
  finish (DecoderStage.inputs g decoder) rest = do
    is ← map_err decode_inputs (inputs_decoder.end decoder)
    ok (continue (DecoderStage.outputs g is (outputs_decoder.new g.output_count)) rest)
  finish (DecoderStage.outputs g is decoder) rest = do
    os ← map_err decode_outputs (outputs_decoder.end decoder)
    ok (continue (done (record { global = g; inputs = is; outputs = os })) rest)
  finish (done psbt) rest =
      ok (return (record { decoder = done psbt; rest = rest; status = ready }))
  finish errored rest = panicked

  -- One turn of the `loop` of `push_bytes`.
  unfoldable pub round : DecoderStage → List Byte → Outcome DeserializeError (Round DecoderStage)
  unfolding push_stage finish
  round s bytes = advance push_stage finish (continue s bytes)

  unfoldable pub end : DecoderStage → Outcome DeserializeError Psbt
  end (done psbt) = ok psbt
  end (DecoderStage.magic decoder) = err (early_end Part.magic)
  end DecoderStage.separator = err (early_end Part.separator)
  end (DecoderStage.global decoder) = err (early_end Part.global)
  end (DecoderStage.inputs g decoder) = err (early_end Part.inputs)
  end (DecoderStage.outputs g is decoder) = err (early_end Part.outputs)
  end errored = panicked

  unfoldable pub read_limit : DecoderStage → ℕ
  read_limit (DecoderStage.magic decoder) = v.magic.read_limit decoder
  read_limit DecoderStage.separator = 1
  read_limit (DecoderStage.global decoder) = (global_decoder c e).read_limit decoder
  read_limit (DecoderStage.inputs g decoder) = inputs_decoder.read_limit decoder
  read_limit (DecoderStage.outputs g is decoder) = outputs_decoder.read_limit decoder
  read_limit (done psbt) = 0
  read_limit errored = 0

  -- `impl Decoder for PsbtV2Decoder`. The stages follow one another, so seven turns are enough.
  abbrev pub psbt_decoder : Decoder Psbt
  psbt_decoder = record {
    State = DecoderStage;
    Error = DeserializeError;
    default = DecoderStage.magic v.magic.default;
    push_bytes = λ s bytes. expect_fuel (rounds round 7 s bytes);
    end = end;
    read_limit = read_limit;
  }
