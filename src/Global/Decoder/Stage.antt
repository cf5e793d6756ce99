-- ===== src/Global/Decoder/Stage.antt =====
-- src/map/global.rs, src/map/error.rs and src/version.rs: the stages of the decoder of the global
-- map, its errors, and the decoder of the version.
use rust_psbt.Prelude.{
  ℕ, ◌==◌, List, Outcome, ok, err, panicked, map_err, map_ok, ◌>>=◌, if◌then◌else◌,
}
use rust_psbt.Numbers.{UnsupportedVersionError, unsupported_version, version_of, version_to_u32}
use rust_psbt.Primitives.{Byte}
use rust_psbt.Consts.{
  psbt_global_version, psbt_global_tx_version, psbt_global_fallback_locktime,
  psbt_global_input_count, psbt_global_output_count, psbt_global_tx_modifiable, psbt_global_xpub,
  psbt_global_proprietary, psbt_global_sp_ecdh_share, psbt_global_sp_dleq, psbt_global_unsigned_tx,
}
use rust_psbt.Decoding.{Decoder, Pushed, ready}
use rust_psbt.Decoding.Fields.{push_in}
use rust_psbt.Codecs.{Codecs}
use rust_psbt.Framing.{framed, inner}
use rust_psbt.Keys.{Key}
use rust_psbt.Keys.Codec.{KeyDecodeError, key_decoder, excluded_key}
use rust_psbt.Global.{Global}

module _ (c : Codecs) where
  pub data VersionDecoderError : Type 0 where
    unexpected_eof : c.u32_bytes.Error → VersionDecoderError
    unsupported : UnsupportedVersionError → VersionDecoderError

  unfoldable pub version_end : c.u32_bytes.State → Outcome VersionDecoderError ℕ
  version_end decoder = do
    n ← map_err unexpected_eof (c.u32_bytes.end decoder)
    map_ok version_to_u32 (map_err unsupported (version_of n))

  unfoldable pub version_push_bytes :
      c.u32_bytes.State → List Byte → Outcome VersionDecoderError (Pushed c.u32_bytes.State)
  version_push_bytes decoder bytes = map_err unexpected_eof (c.u32_bytes.push_bytes decoder bytes)

  -- `impl Decoder for VersionDecoder`, over upstream's decoder of four bytes, little end first.
  abbrev pub version_decoder : Decoder ℕ
  version_decoder = record {
    State = c.u32_bytes.State;
    Error = VersionDecoderError;
    default = c.u32_bytes.default;
    push_bytes = version_push_bytes;
    end = version_end;
    read_limit = λ d. c.u32_bytes.read_limit d;
  }

  pub data XpubDecodeError : Type 0 where
    key_data : c.XpubError → XpubDecodeError
    key_source : c.key_source.Error → XpubDecodeError

  -- The variant for a missing unsigned transaction is version 0's alone.
  pub data GlobalDecodeError : Type 0 where
    duplicate_key : Key → GlobalDecodeError
    key_decode : KeyDecodeError c → GlobalDecodeError
    early_end : GlobalDecodeError
    missing_version : GlobalDecodeError
    wrong_version : ℕ → GlobalDecodeError
    missing_tx_version : GlobalDecodeError
    missing_input_count : GlobalDecodeError
    missing_output_count : GlobalDecodeError
    missing_unsigned_tx : GlobalDecodeError
    xpub : XpubDecodeError → GlobalDecodeError
    version : (framed c version_decoder).Error → GlobalDecodeError
    modifiable_flags : (framed c c.flags).Error → GlobalDecodeError
    count : (framed c c.count).Error → GlobalDecodeError
    tx_version : (framed c c.tx_version).Error → GlobalDecodeError
    lock_time : (framed c c.lock_time).Error → GlobalDecodeError
    proprietary_value : c.byte_vec.Error → GlobalDecodeError
    unknown_value : c.byte_vec.Error → GlobalDecodeError
    sp_ecdh : (framed c c.compressed_public_key).Error → GlobalDecodeError
    sp_dleq : (framed c c.dleq_proof).Error → GlobalDecodeError
    sp_field_mismatch : GlobalDecodeError

  -- The error of a version value: a version that is not supported is named.
  unfoldable pub version_error : (framed c version_decoder).Error → GlobalDecodeError
  version_error (inner (unsupported (unsupported_version v))) = wrong_version v
  version_error error = GlobalDecodeError.version error

  pub data DecoderStage : Type 0 where
    decoding_separator : DecoderStage
    decoding_key : (key_decoder c).State → DecoderStage
    decoding_version : Key → (framed c version_decoder).State → DecoderStage
    decoding_tx_version : Key → (framed c c.tx_version).State → DecoderStage
    decoding_lock_time : Key → (framed c c.lock_time).State → DecoderStage
    decoding_input_count : Key → (framed c c.count).State → DecoderStage
    decoding_output_count : Key → (framed c c.count).State → DecoderStage
    decoding_tx_modifiable : Key → (framed c c.flags).State → DecoderStage
    decoding_xpub : Key → c.key_source.State → DecoderStage
    decoding_proprietary : Key → c.byte_vec.State → DecoderStage
    decoding_sp_ecdh_share : Key → (framed c c.compressed_public_key).State → DecoderStage
    decoding_sp_dleq_proof : Key → (framed c c.dleq_proof).State → DecoderStage
    decoding_unknown : Key → c.byte_vec.State → DecoderStage
    done : Global → DecoderStage
    errored : DecoderStage

  -- The stage of the value behind a key; version 0's unsigned transaction is refused.
  unfoldable pub from_key : Key → Outcome GlobalDecodeError DecoderStage
  from_key key =
      if key.type_value == psbt_global_version
      then ok (decoding_version key (framed c version_decoder).default)
      else if key.type_value == psbt_global_tx_version
      then ok (decoding_tx_version key (framed c c.tx_version).default)
      else if key.type_value == psbt_global_fallback_locktime
      then ok (decoding_lock_time key (framed c c.lock_time).default)
      else if key.type_value == psbt_global_input_count
      then ok (decoding_input_count key (framed c c.count).default)
      else if key.type_value == psbt_global_output_count
      then ok (decoding_output_count key (framed c c.count).default)
      else if key.type_value == psbt_global_tx_modifiable
      then ok (decoding_tx_modifiable key (framed c c.flags).default)
      else if key.type_value == psbt_global_xpub
      then ok (decoding_xpub key c.key_source.default)
      else if key.type_value == psbt_global_proprietary
      then ok (decoding_proprietary key c.byte_vec.default)
      else if key.type_value == psbt_global_sp_ecdh_share
      then ok (decoding_sp_ecdh_share key (framed c c.compressed_public_key).default)
      else if key.type_value == psbt_global_sp_dleq
      then ok (decoding_sp_dleq_proof key (framed c c.dleq_proof).default)
      else if key.type_value == psbt_global_unsigned_tx
      then err (GlobalDecodeError.key_decode (excluded_key key.type_value))
      else ok (decoding_unknown key c.byte_vec.default)

  -- `push_bytes` of the decoder of the stage.
  unfoldable pub push_stage :
      DecoderStage → List Byte → Outcome GlobalDecodeError (Pushed DecoderStage)
  push_stage (decoding_key d) bytes =
      push_in (key_decoder c) decoding_key GlobalDecodeError.key_decode d bytes
  push_stage (decoding_version key decoder) bytes =
      push_in (framed c version_decoder) (decoding_version key) GlobalDecodeError.version decoder
        bytes
  push_stage (decoding_tx_version key decoder) bytes =
      push_in (framed c c.tx_version) (decoding_tx_version key) GlobalDecodeError.tx_version decoder
        bytes
  push_stage (decoding_lock_time key decoder) bytes =
      push_in (framed c c.lock_time) (decoding_lock_time key) GlobalDecodeError.lock_time decoder
        bytes
  push_stage (decoding_input_count key decoder) bytes =
      push_in (framed c c.count) (decoding_input_count key) GlobalDecodeError.count decoder bytes
  push_stage (decoding_output_count key decoder) bytes =
      push_in (framed c c.count) (decoding_output_count key) GlobalDecodeError.count decoder bytes
  push_stage (decoding_tx_modifiable key decoder) bytes =
      push_in (framed c c.flags) (decoding_tx_modifiable key) GlobalDecodeError.modifiable_flags
        decoder bytes
  push_stage (decoding_xpub key decoder) bytes =
      push_in c.key_source (decoding_xpub key)
        (λ e. GlobalDecodeError.xpub (XpubDecodeError.key_source e)) decoder bytes
  push_stage (decoding_proprietary key decoder) bytes =
      push_in c.byte_vec (decoding_proprietary key) GlobalDecodeError.proprietary_value decoder
        bytes
  push_stage (decoding_sp_ecdh_share key decoder) bytes =
      push_in (framed c c.compressed_public_key) (decoding_sp_ecdh_share key)
        GlobalDecodeError.sp_ecdh decoder bytes
  push_stage (decoding_sp_dleq_proof key decoder) bytes =
      push_in (framed c c.dleq_proof) (decoding_sp_dleq_proof key) GlobalDecodeError.sp_dleq decoder
        bytes
  push_stage (decoding_unknown key decoder) bytes =
      push_in c.byte_vec (decoding_unknown key) GlobalDecodeError.unknown_value decoder bytes
  push_stage (done value) bytes = ok (record { decoder = done value; rest = bytes; status = ready })
  push_stage decoding_separator bytes = panicked
  push_stage errored bytes = panicked

  unfoldable pub stage_read_limit : DecoderStage → ℕ
  stage_read_limit decoding_separator = 1
  stage_read_limit (decoding_key d) = (key_decoder c).read_limit d
  stage_read_limit (decoding_version key decoder) = (framed c version_decoder).read_limit decoder
  stage_read_limit (decoding_tx_version key decoder) = (framed c c.tx_version).read_limit decoder
  stage_read_limit (decoding_lock_time key decoder) = (framed c c.lock_time).read_limit decoder
  stage_read_limit (decoding_input_count key decoder) = (framed c c.count).read_limit decoder
  stage_read_limit (decoding_output_count key decoder) = (framed c c.count).read_limit decoder
  stage_read_limit (decoding_tx_modifiable key decoder) = (framed c c.flags).read_limit decoder
  stage_read_limit (decoding_xpub key decoder) = c.key_source.read_limit decoder
  stage_read_limit (decoding_proprietary key decoder) = c.byte_vec.read_limit decoder
  stage_read_limit (decoding_sp_ecdh_share key decoder) =
      (framed c c.compressed_public_key).read_limit decoder
  stage_read_limit (decoding_sp_dleq_proof key decoder) = (framed c c.dleq_proof).read_limit decoder
  stage_read_limit (decoding_unknown key decoder) = c.byte_vec.read_limit decoder
  stage_read_limit (done value) = 0
  stage_read_limit errored = 0
