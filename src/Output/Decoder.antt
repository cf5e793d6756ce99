-- ===== src/Output/Decoder.antt =====
-- src/map/output.rs: the push-based decoder of an output map.
pub mod Stage
pub mod Laws
pub mod Ends
use rust_psbt.Prelude.{
  ℕ, suc, ◌==◌, not, Option, none, some, List, [], ◌∷◌, length, is_some, is_empty, Outcome, ok, err,
  panicked, map_err, ok_or, fail_if, ◌>>=◌, ◌>>◌, if◌then◌else◌,
}
use rust_psbt.Ordered.{nat_ord}
use rust_psbt.BTreeMap.{BTreeMap, empty}
use rust_psbt.Primitives.{Byte, ScriptBuf, PublicKey, XOnlyPublicKey, TapLeafHash, KeySource}
use rust_psbt.Consts.{psbt_separator}
use rust_psbt.Decoding.{
  Decoder, Pushed, ready, needs_more, Round, return, continue, rounds, round_of,
}
use rust_psbt.Decoding.Fields.{set_once, insert_vacant, expect_fuel}
use rust_psbt.Codecs.{Codecs}
use rust_psbt.Framing.{framed}
use rust_psbt.Keys.{Key, ProprietaryKey, key_ord, proprietary_ord}
use rust_psbt.Keys.Codec.{key_decoder, try_from, invalid_key_data, invalid_proprietary_key}
use rust_psbt.Output.{Output, SpV0Info, validate}
use rust_psbt.Output.Decoder.Stage.{
  OutputDecodeError, duplicate_key, early_end, invalid_public_key, invalid_xonly_public_key,
  missing_amount, missing_script_pubkey, validation, DecoderStage, decoding_separator, decoding_key,
  decoding_amount, decoding_script, decoding_redeem_script, decoding_witness_script,
  decoding_bip32_derivation, decoding_tap_internal_key, decoding_tap_tree,
  decoding_tap_bip32_derivation, decoding_sp_v0_info, decoding_sp_v0_label, decoding_proprietary,
  decoding_unknown, done, errored, from_key, push_stage, stage_read_limit,
}

module _ (c : Codecs) where
  pub record OutputDecoder : Type 0 where
    pub stage : DecoderStage c
    pub amount : Option ℕ
    pub script_pubkey : Option ScriptBuf
    pub redeem_script : Option ScriptBuf
    pub witness_script : Option ScriptBuf
    pub bip32_derivations : BTreeMap PublicKey KeySource
    pub tap_internal_key : Option XOnlyPublicKey
    pub tap_tree : Option ℕ
    pub tap_key_origins : BTreeMap XOnlyPublicKey (List TapLeafHash × KeySource)
    pub sp_v0_info : Option SpV0Info
    pub sp_v0_label : Option ℕ
    pub proprietaries : BTreeMap ProprietaryKey (List Byte)
    pub unknowns : BTreeMap Key (List Byte)

  -- The decoder at a stage that has met no field, or whose fields are all taken.
  abbrev pub without_fields : DecoderStage c → OutputDecoder
  without_fields stage = record {
    stage = stage;
    amount = none;
    script_pubkey = none;
    redeem_script = none;
    witness_script = none;
    bip32_derivations = empty;
    tap_internal_key = none;
    tap_tree = none;
    tap_key_origins = empty;
    sp_v0_info = none;
    sp_v0_label = none;
    proprietaries = empty;
    unknowns = empty;
  }

  abbrev pub default : OutputDecoder
  default = without_fields decoding_separator

  -- The script is optional next to silent payment information.
  unfoldable pub take_script_pubkey : OutputDecoder → Outcome (OutputDecodeError c) ScriptBuf
  take_script_pubkey d = elim d.script_pubkey [
    | some script ↦ ok script
    | none ↦ if is_some d.sp_v0_info then ok [] else err missing_script_pubkey
  ]

  -- The output that the fields make at the end of the map.
  unfoldable pub complete : OutputDecoder → Outcome (OutputDecodeError c) Output
  unfolding take_script_pubkey
  complete d = do
    amount ← ok_or d.amount missing_amount
    script_pubkey ← take_script_pubkey d
    let output : Output = record {
      amount = amount;
      script_pubkey = script_pubkey;
      redeem_script = d.redeem_script;
      witness_script = d.witness_script;
      bip32_derivations = d.bip32_derivations;
      tap_internal_key = d.tap_internal_key;
      tap_tree = d.tap_tree;
      tap_key_origins = d.tap_key_origins;
      sp_v0_info = d.sp_v0_info;
      sp_v0_label = d.sp_v0_label;
      proprietaries = d.proprietaries;
      unknowns = d.unknowns;
    }
    map_err validation (validate output)
    ok output

  -- Between two pairs: the end of the map, or a key.
  unfoldable pub at_separator :
      OutputDecoder → List Byte → Outcome (OutputDecodeError c) (Round OutputDecoder)
  unfolding complete
  at_separator d [] = ok (return (record { decoder = d; rest = []; status = needs_more }))
  at_separator d (b ∷ rest) =
      if b == psbt_separator
      then (do
        output ← complete d
        ok (
            return
              (record { decoder = without_fields (done output); rest = rest; status = ready })))
      else ok (continue (record d { stage = decoding_key (key_decoder c).default }) (b ∷ rest))

  unfoldable pub separator_round :
      DecoderStage c
      → OutputDecoder
      → List Byte
      → Outcome (OutputDecodeError c) (Round OutputDecoder)
  unfolding at_separator
  separator_round decoding_separator d bytes = at_separator d bytes
  separator_round stage d bytes = ok (continue d bytes)

  unfoldable pub push_round :
      OutputDecoder → List Byte → Outcome (OutputDecodeError c) (Pushed OutputDecoder)
  push_round d bytes = do
    p ← push_stage c d.stage bytes
    ok (record { decoder = record d { stage = p.decoder }; rest = p.rest; status = p.status })

  -- The transition when the decoder of the stage is ready.
  unfoldable pub finish :
      DecoderStage c
      → OutputDecoder
      → List Byte
      → Outcome (OutputDecodeError c) (Round OutputDecoder)
  finish (decoding_key decoder) d rest = do
    key ← map_err OutputDecodeError.key_decode ((key_decoder c).end decoder)
    stage ← from_key c key
    ok (continue (record d { stage = stage }) rest)
  finish (decoding_amount key decoder) d rest = do
    value ← map_err OutputDecodeError.amount ((framed c c.amount).end decoder)
    amount' ← set_once d.amount value (duplicate_key key)
    ok (continue (record d { amount = amount'; stage = decoding_separator }) rest)
  finish (decoding_script key decoder) d rest = do
    value ← map_err OutputDecodeError.script (c.script.end decoder)
    script_pubkey' ← set_once d.script_pubkey value (duplicate_key key)
    ok (continue (record d { script_pubkey = script_pubkey'; stage = decoding_separator }) rest)
  finish (decoding_redeem_script key decoder) d rest = do
    value ← map_err OutputDecodeError.redeem_script (c.script.end decoder)
    redeem_script' ← set_once d.redeem_script value (duplicate_key key)
    ok (continue (record d { redeem_script = redeem_script'; stage = decoding_separator }) rest)
  finish (decoding_witness_script key decoder) d rest = do
    value ← map_err OutputDecodeError.witness_script (c.script.end decoder)
    witness_script' ← set_once d.witness_script value (duplicate_key key)
    ok (continue (record d { witness_script = witness_script'; stage = decoding_separator }) rest)
  finish (decoding_bip32_derivation key decoder) d rest = do
    value ← map_err OutputDecodeError.bip32_derivation (c.key_source.end decoder)
    k ← map_err invalid_public_key (c.public_key_from_slice key.key)
    bip32_derivations' ← insert_vacant k value d.bip32_derivations (duplicate_key key)
    ok (
        continue (record d { bip32_derivations = bip32_derivations'; stage = decoding_separator })
          rest)
  finish (decoding_tap_internal_key key decoder) d rest = do
    value ← map_err OutputDecodeError.tap_internal_key ((framed c c.xonly_public_key).end decoder)
    tap_internal_key' ← set_once d.tap_internal_key value (duplicate_key key)
    ok (
        continue (record d { tap_internal_key = tap_internal_key'; stage = decoding_separator })
          rest)
  finish (decoding_tap_tree key decoder) d rest = do
    value ← map_err OutputDecodeError.tap_tree (c.tap_tree.end decoder)
    tap_tree' ← set_once d.tap_tree value (duplicate_key key)
    ok (continue (record d { tap_tree = tap_tree'; stage = decoding_separator }) rest)
  finish (decoding_tap_bip32_derivation key decoder) d rest = do
    value ← map_err OutputDecodeError.tap_bip32_derivation (c.tap_key_origin.end decoder)
    k ← map_err (λ e. invalid_xonly_public_key) (c.xonly_from_slice key.key)
    tap_key_origins' ← insert_vacant k value d.tap_key_origins (duplicate_key key)
    ok (continue (record d { tap_key_origins = tap_key_origins'; stage = decoding_separator }) rest)
  finish (decoding_sp_v0_info key decoder) d rest = do
    value ← map_err OutputDecodeError.sp_v0_info ((framed c c.sp_v0_info).end decoder)
    sp_v0_info' ← set_once d.sp_v0_info value (duplicate_key key)
    fail_if (not (is_empty key.key)) (OutputDecodeError.key_decode (invalid_key_data key))
    ok (continue (record d { sp_v0_info = sp_v0_info'; stage = decoding_separator }) rest)
  finish (decoding_sp_v0_label key decoder) d rest = do
    value ← map_err OutputDecodeError.sp_v0_label ((framed c c.sp_v0_label).end decoder)
    sp_v0_label' ← set_once d.sp_v0_label value (duplicate_key key)
    fail_if (not (is_empty key.key)) (OutputDecodeError.key_decode (invalid_key_data key))
    ok (continue (record d { sp_v0_label = sp_v0_label'; stage = decoding_separator }) rest)
  finish (decoding_proprietary key decoder) d rest = do
    value ← map_err OutputDecodeError.proprietary_value (c.byte_vec.end decoder)
    k ← map_err (λ e. OutputDecodeError.key_decode invalid_proprietary_key) (try_from c key)
    proprietaries' ← insert_vacant k value d.proprietaries (duplicate_key key)
    ok (continue (record d { proprietaries = proprietaries'; stage = decoding_separator }) rest)
  finish (decoding_unknown key decoder) d rest = do
    value ← map_err OutputDecodeError.unknown_value (c.byte_vec.end decoder)
    unknowns' ← insert_vacant key value d.unknowns (duplicate_key key)
    ok (continue (record d { unknowns = unknowns'; stage = decoding_separator }) rest)
  finish (done output) d rest =
      ok (
        return (record { decoder = record d { stage = done output }; rest = rest; status = ready }))
  finish errored d rest = panicked
  finish decoding_separator d rest = panicked

  -- One turn of the `loop` of `push_bytes`.
  unfoldable pub round :
      OutputDecoder → List Byte → Outcome (OutputDecodeError c) (Round OutputDecoder)
  unfolding separator_round push_round finish
  round =
      round_of (λ d bytes. separator_round d.stage d bytes) push_round
        (λ d bytes. finish d.stage d bytes)

  unfoldable pub push_from :
      ℕ
      → DecoderStage c
      → OutputDecoder
      → List Byte
      → Option (Outcome (OutputDecodeError c) (Pushed OutputDecoder))
  unfolding round
  push_from fuel (done output) d bytes =
      some (ok (record { decoder = d; rest = bytes; status = ready }))
  push_from fuel stage d bytes = rounds round fuel d bytes

  unfoldable pub end : DecoderStage c → Outcome (OutputDecodeError c) Output
  end (done output) = ok output
  end stage = err early_end

  -- `impl Decoder for OutputDecoder`. A turn after the first takes a byte, so that as many turns as
  -- bytes are enough, with two more for the first and the last.
  abbrev pub output_decoder : Decoder Output
  output_decoder = record {
    State = OutputDecoder;
    Error = OutputDecodeError c;
    default = default;
    push_bytes = λ d bytes. expect_fuel (push_from (suc (suc (length bytes))) d.stage d bytes);
    end = λ d. end d.stage;
    read_limit = λ d. stage_read_limit c d.stage;
  }
