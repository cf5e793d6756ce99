-- ===== src/Input/Decoder/Stage.antt =====
-- src/map/input.rs and src/map/error.rs: the stages of the decoder of an input map, and its errors.
use rust_psbt.Prelude.{ℕ, ◌==◌, List, Outcome, ok, panicked, if◌then◌else◌}
use rust_psbt.Primitives.{Byte, Txid}
use rust_psbt.Consts.{
  psbt_in_previous_txid, psbt_in_output_index, psbt_in_sequence, psbt_in_required_time_locktime,
  psbt_in_required_height_locktime, psbt_in_non_witness_utxo, psbt_in_witness_utxo,
  psbt_in_sighash_type, psbt_in_redeem_script, psbt_in_witness_script, psbt_in_final_scriptsig,
  psbt_in_final_scriptwitness, psbt_in_tap_key_sig, psbt_in_tap_internal_key,
  psbt_in_tap_merkle_root, psbt_in_partial_sig, psbt_in_bip32_derivation, psbt_in_ripemd160,
  psbt_in_sha256, psbt_in_hash160, psbt_in_hash256, psbt_in_tap_script_sig, psbt_in_tap_leaf_script,
  psbt_in_tap_bip32_derivation, psbt_in_proprietary, psbt_in_sp_ecdh_share, psbt_in_sp_dleq,
}
use rust_psbt.Decoding.{Pushed, ready}
use rust_psbt.Decoding.Fields.{push_in}
use rust_psbt.Codecs.{Codecs}
use rust_psbt.Framing.{framed}
use rust_psbt.Keys.{Key}
use rust_psbt.Keys.Codec.{KeyDecodeError, key_decoder}
use rust_psbt.Input.{Input}

module _ (c : Codecs) where
  pub data InputDecodeError : Type 0 where
    duplicate_key : Key → InputDecodeError
    key_decode : KeyDecodeError c → InputDecodeError
    early_end : InputDecodeError
    invalid_hash : c.HashError → InputDecodeError
    invalid_public_key : c.KeyError → InputDecodeError
    previous_txid : (framed c c.txid).Error → InputDecodeError
    output_index : (framed c c.vout).Error → InputDecodeError
    sequence : (framed c c.sequence).Error → InputDecodeError
    min_time : (framed c c.time).Error → InputDecodeError
    min_height : (framed c c.height).Error → InputDecodeError
    non_witness_utxo : (framed c c.transaction).Error → InputDecodeError
    witness_utxo : (framed c c.tx_out).Error → InputDecodeError
    sighash_type : (framed c c.sighash_type).Error → InputDecodeError
    redeem_script : c.script.Error → InputDecodeError
    witness_script : c.script.Error → InputDecodeError
    final_script_sig : c.script.Error → InputDecodeError
    final_script_witness : (framed c c.witness).Error → InputDecodeError
    tap_key_sig : c.taproot_signature.Error → InputDecodeError
    tap_internal_key : (framed c c.xonly_public_key).Error → InputDecodeError
    tap_merkle_root : (framed c c.tap_node_hash).Error → InputDecodeError
    partial_sig : c.ecdsa_signature.Error → InputDecodeError
    bip32_derivation : c.key_source.Error → InputDecodeError
    ripemd160_preimage : c.byte_vec.Error → InputDecodeError
    sha256_preimage : c.byte_vec.Error → InputDecodeError
    hash160_preimage : c.byte_vec.Error → InputDecodeError
    hash256_preimage : c.byte_vec.Error → InputDecodeError
    tap_script_sig : c.taproot_signature.Error → InputDecodeError
    leaf_script : c.leaf_script.Error → InputDecodeError
    tap_bip32_derivation : c.tap_key_origin.Error → InputDecodeError
    proprietary_value : c.byte_vec.Error → InputDecodeError
    sp_ecdh : (framed c c.compressed_public_key).Error → InputDecodeError
    sp_dleq : (framed c c.dleq_proof).Error → InputDecodeError
    unknown_value : c.byte_vec.Error → InputDecodeError
    invalid_control_block : InputDecodeError
    missing_previous_txid : InputDecodeError
    missing_spent_output_index : InputDecodeError
    incorrect_non_witness_utxo : Txid → Txid → InputDecodeError
    sp_field_mismatch : InputDecodeError

  pub data DecoderStage : Type 0 where
    decoding_separator : DecoderStage
    decoding_key : (key_decoder c).State → DecoderStage
    decoding_previous_txid : Key → (framed c c.txid).State → DecoderStage
    decoding_output_index : Key → (framed c c.vout).State → DecoderStage
    decoding_sequence : Key → (framed c c.sequence).State → DecoderStage
    decoding_min_time : Key → (framed c c.time).State → DecoderStage
    decoding_min_height : Key → (framed c c.height).State → DecoderStage
    decoding_non_witness_utxo : Key → (framed c c.transaction).State → DecoderStage
    decoding_witness_utxo : Key → (framed c c.tx_out).State → DecoderStage
    decoding_sighash_type : Key → (framed c c.sighash_type).State → DecoderStage
    decoding_redeem_script : Key → c.script.State → DecoderStage
    decoding_witness_script : Key → c.script.State → DecoderStage
    decoding_final_script_sig : Key → c.script.State → DecoderStage
    decoding_final_script_witness : Key → (framed c c.witness).State → DecoderStage
    decoding_tap_key_sig : Key → c.taproot_signature.State → DecoderStage
    decoding_tap_internal_key : Key → (framed c c.xonly_public_key).State → DecoderStage
    decoding_tap_merkle_root : Key → (framed c c.tap_node_hash).State → DecoderStage
    decoding_partial_sig : Key → c.ecdsa_signature.State → DecoderStage
    decoding_bip32_derivation : Key → c.key_source.State → DecoderStage
    decoding_ripemd160 : Key → c.byte_vec.State → DecoderStage
    decoding_sha256 : Key → c.byte_vec.State → DecoderStage
    decoding_hash160 : Key → c.byte_vec.State → DecoderStage
    decoding_hash256 : Key → c.byte_vec.State → DecoderStage
    decoding_tap_script_sig : Key → c.taproot_signature.State → DecoderStage
    decoding_leaf_script : Key → c.leaf_script.State → DecoderStage
    decoding_tap_bip32_derivation : Key → c.tap_key_origin.State → DecoderStage
    decoding_proprietary : Key → c.byte_vec.State → DecoderStage
    decoding_sp_ecdh_share : Key → (framed c c.compressed_public_key).State → DecoderStage
    decoding_sp_dleq_proof : Key → (framed c c.dleq_proof).State → DecoderStage
    decoding_unknown : Key → c.byte_vec.State → DecoderStage
    done : Input → DecoderStage
    errored : DecoderStage

  -- The stage of the value behind a key.
  unfoldable pub from_key : Key → Outcome InputDecodeError DecoderStage
  from_key key =
      if key.type_value == psbt_in_previous_txid
      then ok (decoding_previous_txid key (framed c c.txid).default)
      else if key.type_value == psbt_in_output_index
      then ok (decoding_output_index key (framed c c.vout).default)
      else if key.type_value == psbt_in_sequence
      then ok (decoding_sequence key (framed c c.sequence).default)
      else if key.type_value == psbt_in_required_time_locktime
      then ok (decoding_min_time key (framed c c.time).default)
      else if key.type_value == psbt_in_required_height_locktime
      then ok (decoding_min_height key (framed c c.height).default)
      else if key.type_value == psbt_in_non_witness_utxo
      then ok (decoding_non_witness_utxo key (framed c c.transaction).default)
      else if key.type_value == psbt_in_witness_utxo
      then ok (decoding_witness_utxo key (framed c c.tx_out).default)
      else if key.type_value == psbt_in_sighash_type
      then ok (decoding_sighash_type key (framed c c.sighash_type).default)
      else if key.type_value == psbt_in_redeem_script
      then ok (decoding_redeem_script key c.script.default)
      else if key.type_value == psbt_in_witness_script
      then ok (decoding_witness_script key c.script.default)
      else if key.type_value == psbt_in_final_scriptsig
      then ok (decoding_final_script_sig key c.script.default)
      else if key.type_value == psbt_in_final_scriptwitness
      then ok (decoding_final_script_witness key (framed c c.witness).default)
      else if key.type_value == psbt_in_tap_key_sig
      then ok (decoding_tap_key_sig key c.taproot_signature.default)
      else if key.type_value == psbt_in_tap_internal_key
      then ok (decoding_tap_internal_key key (framed c c.xonly_public_key).default)
      else if key.type_value == psbt_in_tap_merkle_root
      then ok (decoding_tap_merkle_root key (framed c c.tap_node_hash).default)
      else if key.type_value == psbt_in_partial_sig
      then ok (decoding_partial_sig key c.ecdsa_signature.default)
      else if key.type_value == psbt_in_bip32_derivation
      then ok (decoding_bip32_derivation key c.key_source.default)
      else if key.type_value == psbt_in_ripemd160
      then ok (decoding_ripemd160 key c.byte_vec.default)
      else if key.type_value == psbt_in_sha256
      then ok (decoding_sha256 key c.byte_vec.default)
      else if key.type_value == psbt_in_hash160
      then ok (decoding_hash160 key c.byte_vec.default)
      else if key.type_value == psbt_in_hash256
      then ok (decoding_hash256 key c.byte_vec.default)
      else if key.type_value == psbt_in_tap_script_sig
      then ok (decoding_tap_script_sig key c.taproot_signature.default)
      else if key.type_value == psbt_in_tap_leaf_script
      then ok (decoding_leaf_script key c.leaf_script.default)
      else if key.type_value == psbt_in_tap_bip32_derivation
      then ok (decoding_tap_bip32_derivation key c.tap_key_origin.default)
      else if key.type_value == psbt_in_proprietary
      then ok (decoding_proprietary key c.byte_vec.default)
      else if key.type_value == psbt_in_sp_ecdh_share
      then ok (decoding_sp_ecdh_share key (framed c c.compressed_public_key).default)
      else if key.type_value == psbt_in_sp_dleq
      then ok (decoding_sp_dleq_proof key (framed c c.dleq_proof).default)
      else ok (decoding_unknown key c.byte_vec.default)

  -- `push_bytes` of the decoder of the stage.
  unfoldable pub push_stage :
      DecoderStage → List Byte → Outcome InputDecodeError (Pushed DecoderStage)
  push_stage (decoding_key d) bytes =
      push_in (key_decoder c) decoding_key InputDecodeError.key_decode d bytes
  push_stage (decoding_previous_txid key decoder) bytes =
      push_in (framed c c.txid) (decoding_previous_txid key) InputDecodeError.previous_txid decoder
        bytes
  push_stage (decoding_output_index key decoder) bytes =
      push_in (framed c c.vout) (decoding_output_index key) InputDecodeError.output_index decoder
        bytes
  push_stage (decoding_sequence key decoder) bytes =
      push_in (framed c c.sequence) (decoding_sequence key) InputDecodeError.sequence decoder bytes
  push_stage (decoding_min_time key decoder) bytes =
      push_in (framed c c.time) (decoding_min_time key) InputDecodeError.min_time decoder bytes
  push_stage (decoding_min_height key decoder) bytes =
      push_in (framed c c.height) (decoding_min_height key) InputDecodeError.min_height decoder
        bytes
  push_stage (decoding_non_witness_utxo key decoder) bytes =
      push_in (framed c c.transaction) (decoding_non_witness_utxo key)
        InputDecodeError.non_witness_utxo decoder bytes
  push_stage (decoding_witness_utxo key decoder) bytes =
      push_in (framed c c.tx_out) (decoding_witness_utxo key) InputDecodeError.witness_utxo decoder
        bytes
  push_stage (decoding_sighash_type key decoder) bytes =
      push_in (framed c c.sighash_type) (decoding_sighash_type key) InputDecodeError.sighash_type
        decoder bytes
  push_stage (decoding_redeem_script key decoder) bytes =
      push_in c.script (decoding_redeem_script key) InputDecodeError.redeem_script decoder bytes
  push_stage (decoding_witness_script key decoder) bytes =
      push_in c.script (decoding_witness_script key) InputDecodeError.witness_script decoder bytes
  push_stage (decoding_final_script_sig key decoder) bytes =
      push_in c.script (decoding_final_script_sig key) InputDecodeError.final_script_sig decoder
        bytes
  push_stage (decoding_final_script_witness key decoder) bytes =
      push_in (framed c c.witness) (decoding_final_script_witness key)
        InputDecodeError.final_script_witness decoder bytes
  push_stage (decoding_tap_key_sig key decoder) bytes =
      push_in c.taproot_signature (decoding_tap_key_sig key) InputDecodeError.tap_key_sig decoder
        bytes
  push_stage (decoding_tap_internal_key key decoder) bytes =
      push_in (framed c c.xonly_public_key) (decoding_tap_internal_key key)
        InputDecodeError.tap_internal_key decoder bytes
  push_stage (decoding_tap_merkle_root key decoder) bytes =
      push_in (framed c c.tap_node_hash) (decoding_tap_merkle_root key)
        InputDecodeError.tap_merkle_root decoder bytes
  push_stage (decoding_partial_sig key decoder) bytes =
      push_in c.ecdsa_signature (decoding_partial_sig key) InputDecodeError.partial_sig decoder
        bytes
  push_stage (decoding_bip32_derivation key decoder) bytes =
      push_in c.key_source (decoding_bip32_derivation key) InputDecodeError.bip32_derivation decoder
        bytes
  push_stage (decoding_ripemd160 key decoder) bytes =
      push_in c.byte_vec (decoding_ripemd160 key) InputDecodeError.ripemd160_preimage decoder bytes
  push_stage (decoding_sha256 key decoder) bytes =
      push_in c.byte_vec (decoding_sha256 key) InputDecodeError.sha256_preimage decoder bytes
  push_stage (decoding_hash160 key decoder) bytes =
      push_in c.byte_vec (decoding_hash160 key) InputDecodeError.hash160_preimage decoder bytes
  push_stage (decoding_hash256 key decoder) bytes =
      push_in c.byte_vec (decoding_hash256 key) InputDecodeError.hash256_preimage decoder bytes
  push_stage (decoding_tap_script_sig key decoder) bytes =
      push_in c.taproot_signature (decoding_tap_script_sig key) InputDecodeError.tap_script_sig
        decoder bytes
  push_stage (decoding_leaf_script key decoder) bytes =
      push_in c.leaf_script (decoding_leaf_script key) InputDecodeError.leaf_script decoder bytes
  push_stage (decoding_tap_bip32_derivation key decoder) bytes =
      push_in c.tap_key_origin (decoding_tap_bip32_derivation key)
        InputDecodeError.tap_bip32_derivation decoder bytes
  push_stage (decoding_proprietary key decoder) bytes =
      push_in c.byte_vec (decoding_proprietary key) InputDecodeError.proprietary_value decoder bytes
  push_stage (decoding_sp_ecdh_share key decoder) bytes =
      push_in (framed c c.compressed_public_key) (decoding_sp_ecdh_share key)
        InputDecodeError.sp_ecdh decoder bytes
  push_stage (decoding_sp_dleq_proof key decoder) bytes =
      push_in (framed c c.dleq_proof) (decoding_sp_dleq_proof key) InputDecodeError.sp_dleq decoder
        bytes
  push_stage (decoding_unknown key decoder) bytes =
      push_in c.byte_vec (decoding_unknown key) InputDecodeError.unknown_value decoder bytes
  push_stage (done value) bytes = ok (record { decoder = done value; rest = bytes; status = ready })
  push_stage decoding_separator bytes = panicked
  push_stage errored bytes = panicked

  unfoldable pub stage_read_limit : DecoderStage → ℕ
  stage_read_limit decoding_separator = 1
  stage_read_limit (decoding_key d) = (key_decoder c).read_limit d
  stage_read_limit (decoding_previous_txid key decoder) = (framed c c.txid).read_limit decoder
  stage_read_limit (decoding_output_index key decoder) = (framed c c.vout).read_limit decoder
  stage_read_limit (decoding_sequence key decoder) = (framed c c.sequence).read_limit decoder
  stage_read_limit (decoding_min_time key decoder) = (framed c c.time).read_limit decoder
  stage_read_limit (decoding_min_height key decoder) = (framed c c.height).read_limit decoder
  stage_read_limit (decoding_non_witness_utxo key decoder) =
      (framed c c.transaction).read_limit decoder
  stage_read_limit (decoding_witness_utxo key decoder) = (framed c c.tx_out).read_limit decoder
  stage_read_limit (decoding_sighash_type key decoder) =
      (framed c c.sighash_type).read_limit decoder
  stage_read_limit (decoding_redeem_script key decoder) = c.script.read_limit decoder
  stage_read_limit (decoding_witness_script key decoder) = c.script.read_limit decoder
  stage_read_limit (decoding_final_script_sig key decoder) = c.script.read_limit decoder
  stage_read_limit (decoding_final_script_witness key decoder) =
      (framed c c.witness).read_limit decoder
  stage_read_limit (decoding_tap_key_sig key decoder) = c.taproot_signature.read_limit decoder
  stage_read_limit (decoding_tap_internal_key key decoder) =
      (framed c c.xonly_public_key).read_limit decoder
  stage_read_limit (decoding_tap_merkle_root key decoder) =
      (framed c c.tap_node_hash).read_limit decoder
  stage_read_limit (decoding_partial_sig key decoder) = c.ecdsa_signature.read_limit decoder
  stage_read_limit (decoding_bip32_derivation key decoder) = c.key_source.read_limit decoder
  stage_read_limit (decoding_ripemd160 key decoder) = c.byte_vec.read_limit decoder
  stage_read_limit (decoding_sha256 key decoder) = c.byte_vec.read_limit decoder
  stage_read_limit (decoding_hash160 key decoder) = c.byte_vec.read_limit decoder
  stage_read_limit (decoding_hash256 key decoder) = c.byte_vec.read_limit decoder
  stage_read_limit (decoding_tap_script_sig key decoder) = c.taproot_signature.read_limit decoder
  stage_read_limit (decoding_leaf_script key decoder) = c.leaf_script.read_limit decoder
  stage_read_limit (decoding_tap_bip32_derivation key decoder) = c.tap_key_origin.read_limit decoder
  stage_read_limit (decoding_proprietary key decoder) = c.byte_vec.read_limit decoder
  stage_read_limit (decoding_sp_ecdh_share key decoder) =
      (framed c c.compressed_public_key).read_limit decoder
  stage_read_limit (decoding_sp_dleq_proof key decoder) = (framed c c.dleq_proof).read_limit decoder
  stage_read_limit (decoding_unknown key decoder) = c.byte_vec.read_limit decoder
  stage_read_limit (done value) = 0
  stage_read_limit errored = 0
