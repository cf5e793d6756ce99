-- ===== src/Output/Decoder/Stage.antt =====
-- src/map/output.rs and src/map/error.rs: the stages of the decoder of an output map, and its errors.
use rust_psbt.Prelude.{ℕ, ◌==◌, List, Outcome, ok, panicked, if◌then◌else◌}
use rust_psbt.Primitives.{Byte}
use rust_psbt.Consts.{
  psbt_out_amount, psbt_out_script, psbt_out_redeem_script, psbt_out_witness_script,
  psbt_out_bip32_derivation, psbt_out_tap_internal_key, psbt_out_tap_tree,
  psbt_out_tap_bip32_derivation, psbt_out_sp_v0_info, psbt_out_sp_v0_label, psbt_out_proprietary,
}
use rust_psbt.Decoding.{Pushed, ready}
use rust_psbt.Decoding.Fields.{push_in}
use rust_psbt.Codecs.{Codecs}
use rust_psbt.Framing.{framed}
use rust_psbt.Keys.{Key}
use rust_psbt.Keys.Codec.{KeyDecodeError, key_decoder}
use rust_psbt.Output.{Output, ValidationError}

module _ (c : Codecs) where
  pub data OutputDecodeError : Type 0 where
    duplicate_key : Key → OutputDecodeError
    key_decode : KeyDecodeError c → OutputDecodeError
    early_end : OutputDecodeError
    invalid_public_key : c.KeyError → OutputDecodeError
    invalid_xonly_public_key : OutputDecodeError
    missing_amount : OutputDecodeError
    missing_script_pubkey : OutputDecodeError
    amount : (framed c c.amount).Error → OutputDecodeError
    script : c.script.Error → OutputDecodeError
    redeem_script : c.script.Error → OutputDecodeError
    witness_script : c.script.Error → OutputDecodeError
    bip32_derivation : c.key_source.Error → OutputDecodeError
    tap_internal_key : (framed c c.xonly_public_key).Error → OutputDecodeError
    tap_tree : c.tap_tree.Error → OutputDecodeError
    tap_bip32_derivation : c.tap_key_origin.Error → OutputDecodeError
    proprietary_value : c.byte_vec.Error → OutputDecodeError
    unknown_value : c.byte_vec.Error → OutputDecodeError
    validation : ValidationError → OutputDecodeError
    sp_v0_info : (framed c c.sp_v0_info).Error → OutputDecodeError
    sp_v0_label : (framed c c.sp_v0_label).Error → OutputDecodeError

  pub data DecoderStage : Type 0 where
    decoding_separator : DecoderStage
    decoding_key : (key_decoder c).State → DecoderStage
    decoding_amount : Key → (framed c c.amount).State → DecoderStage
    decoding_script : Key → c.script.State → DecoderStage
    decoding_redeem_script : Key → c.script.State → DecoderStage
    decoding_witness_script : Key → c.script.State → DecoderStage
    decoding_bip32_derivation : Key → c.key_source.State → DecoderStage
    decoding_tap_internal_key : Key → (framed c c.xonly_public_key).State → DecoderStage
    decoding_tap_tree : Key → c.tap_tree.State → DecoderStage
    decoding_tap_bip32_derivation : Key → c.tap_key_origin.State → DecoderStage
    decoding_sp_v0_info : Key → (framed c c.sp_v0_info).State → DecoderStage
    decoding_sp_v0_label : Key → (framed c c.sp_v0_label).State → DecoderStage
    decoding_proprietary : Key → c.byte_vec.State → DecoderStage
    decoding_unknown : Key → c.byte_vec.State → DecoderStage
    done : Output → DecoderStage
    errored : DecoderStage

  -- The stage of the value behind a key.
  unfoldable pub from_key : Key → Outcome OutputDecodeError DecoderStage
  from_key key =
      if key.type_value == psbt_out_amount
      then ok (decoding_amount key (framed c c.amount).default)
      else if key.type_value == psbt_out_script
      then ok (decoding_script key c.script.default)
      else if key.type_value == psbt_out_redeem_script
      then ok (decoding_redeem_script key c.script.default)
      else if key.type_value == psbt_out_witness_script
      then ok (decoding_witness_script key c.script.default)
      else if key.type_value == psbt_out_bip32_derivation
      then ok (decoding_bip32_derivation key c.key_source.default)
      else if key.type_value == psbt_out_tap_internal_key
      then ok (decoding_tap_internal_key key (framed c c.xonly_public_key).default)
      else if key.type_value == psbt_out_tap_tree
      then ok (decoding_tap_tree key c.tap_tree.default)
      else if key.type_value == psbt_out_tap_bip32_derivation
      then ok (decoding_tap_bip32_derivation key c.tap_key_origin.default)
      else if key.type_value == psbt_out_sp_v0_info
      then ok (decoding_sp_v0_info key (framed c c.sp_v0_info).default)
      else if key.type_value == psbt_out_sp_v0_label
      then ok (decoding_sp_v0_label key (framed c c.sp_v0_label).default)
      else if key.type_value == psbt_out_proprietary
      then ok (decoding_proprietary key c.byte_vec.default)
      else ok (decoding_unknown key c.byte_vec.default)

  -- `push_bytes` of the decoder of the stage.
  unfoldable pub push_stage :
      DecoderStage → List Byte → Outcome OutputDecodeError (Pushed DecoderStage)
  push_stage (decoding_key d) bytes =
      push_in (key_decoder c) decoding_key OutputDecodeError.key_decode d bytes
  push_stage (decoding_amount key decoder) bytes =
      push_in (framed c c.amount) (decoding_amount key) OutputDecodeError.amount decoder bytes
  push_stage (decoding_script key decoder) bytes =
      push_in c.script (decoding_script key) OutputDecodeError.script decoder bytes
  push_stage (decoding_redeem_script key decoder) bytes =
      push_in c.script (decoding_redeem_script key) OutputDecodeError.redeem_script decoder bytes
  push_stage (decoding_witness_script key decoder) bytes =
      push_in c.script (decoding_witness_script key) OutputDecodeError.witness_script decoder bytes
  push_stage (decoding_bip32_derivation key decoder) bytes =
      push_in c.key_source (decoding_bip32_derivation key) OutputDecodeError.bip32_derivation
        decoder bytes
  push_stage (decoding_tap_internal_key key decoder) bytes =
      push_in (framed c c.xonly_public_key) (decoding_tap_internal_key key)
        OutputDecodeError.tap_internal_key decoder bytes
  push_stage (decoding_tap_tree key decoder) bytes =
      push_in c.tap_tree (decoding_tap_tree key) OutputDecodeError.tap_tree decoder bytes
  push_stage (decoding_tap_bip32_derivation key decoder) bytes =
      push_in c.tap_key_origin (decoding_tap_bip32_derivation key)
        OutputDecodeError.tap_bip32_derivation decoder bytes
  push_stage (decoding_sp_v0_info key decoder) bytes =
      push_in (framed c c.sp_v0_info) (decoding_sp_v0_info key) OutputDecodeError.sp_v0_info decoder
        bytes
  push_stage (decoding_sp_v0_label key decoder) bytes =
      push_in (framed c c.sp_v0_label) (decoding_sp_v0_label key) OutputDecodeError.sp_v0_label
        decoder bytes
  push_stage (decoding_proprietary key decoder) bytes =
      push_in c.byte_vec (decoding_proprietary key) OutputDecodeError.proprietary_value decoder
        bytes
  push_stage (decoding_unknown key decoder) bytes =
      push_in c.byte_vec (decoding_unknown key) OutputDecodeError.unknown_value decoder bytes
  push_stage (done value) bytes = ok (record { decoder = done value; rest = bytes; status = ready })
  push_stage decoding_separator bytes = panicked
  push_stage errored bytes = panicked

  unfoldable pub stage_read_limit : DecoderStage → ℕ
  stage_read_limit decoding_separator = 1
  stage_read_limit (decoding_key d) = (key_decoder c).read_limit d
  stage_read_limit (decoding_amount key decoder) = (framed c c.amount).read_limit decoder
  stage_read_limit (decoding_script key decoder) = c.script.read_limit decoder
  stage_read_limit (decoding_redeem_script key decoder) = c.script.read_limit decoder
  stage_read_limit (decoding_witness_script key decoder) = c.script.read_limit decoder
  stage_read_limit (decoding_bip32_derivation key decoder) = c.key_source.read_limit decoder
  stage_read_limit (decoding_tap_internal_key key decoder) =
      (framed c c.xonly_public_key).read_limit decoder
  stage_read_limit (decoding_tap_tree key decoder) = c.tap_tree.read_limit decoder
  stage_read_limit (decoding_tap_bip32_derivation key decoder) = c.tap_key_origin.read_limit decoder
  stage_read_limit (decoding_sp_v0_info key decoder) = (framed c c.sp_v0_info).read_limit decoder
  stage_read_limit (decoding_sp_v0_label key decoder) = (framed c c.sp_v0_label).read_limit decoder
  stage_read_limit (decoding_proprietary key decoder) = c.byte_vec.read_limit decoder
  stage_read_limit (decoding_unknown key decoder) = c.byte_vec.read_limit decoder
  stage_read_limit (done value) = 0
  stage_read_limit errored = 0
