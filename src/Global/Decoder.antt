-- ===== src/Global/Decoder.antt =====
-- src/map/global.rs: the push-based decoder of the global map.
pub mod Stage
pub mod Laws
pub mod Ends
use rust_psbt.Prelude.{
  ℕ, suc, ◌==◌, not, Option, none, some, List, [], ◌∷◌, length, is_empty, unwrap_or, same, Outcome,
  ok, err, panicked, map_err, ok_or, fail_if, ◌>>=◌, ◌>>◌, if◌then◌else◌,
}
use rust_psbt.Ordered.{nat_ord}
use rust_psbt.BTreeMap.{BTreeMap, empty}
use rust_psbt.Primitives.{Byte, PublicKey, KeySource, LockTime}
use rust_psbt.Consts.{psbt_separator}
use rust_psbt.Decoding.{
  Decoder, Pushed, ready, needs_more, Round, return, continue, rounds, round_of,
}
use rust_psbt.Decoding.Fields.{set_once, insert_vacant, expect_fuel}
use rust_psbt.Codecs.{Codecs, Encoders}
use rust_psbt.Flags.{TxModifiableFlags}
use rust_psbt.Framing.{framed}
use rust_psbt.Keys.{Key, ProprietaryKey, key_ord, proprietary_ord}
use rust_psbt.Keys.Codec.{key_decoder, try_from, to_key, invalid_key_data, invalid_proprietary_key}
use rust_psbt.Global.{Global, Xpub}
use rust_psbt.Global.Decoder.Stage.{
  version_decoder, version_error, XpubDecodeError, GlobalDecodeError, duplicate_key, early_end,
  missing_version, wrong_version, missing_tx_version, missing_input_count, missing_output_count,
  sp_field_mismatch, DecoderStage, decoding_separator, decoding_key, decoding_version,
  decoding_tx_version, decoding_lock_time, decoding_input_count, decoding_output_count,
  decoding_tx_modifiable, decoding_xpub, decoding_proprietary, decoding_unknown,
  decoding_sp_ecdh_share, decoding_sp_dleq_proof, done, errored, from_key, push_stage,
  stage_read_limit,
}

-- `e` encodes the key that a repeated proprietary pair is reported by.
module _ (c : Codecs) (e : Encoders) where
  pub record GlobalDecoder : Type 0 where
    pub stage : DecoderStage c
    pub version : Option ℕ
    pub tx_version : Option ℕ
    pub input_count : Option ℕ
    pub output_count : Option ℕ
    pub fallback_lock_time : Option LockTime
    pub tx_modifiable_flags : Option TxModifiableFlags
    pub xpubs : BTreeMap Xpub KeySource
    pub sp_ecdh_shares : BTreeMap PublicKey PublicKey
    pub sp_dleq_proofs : BTreeMap PublicKey ℕ
    pub proprietaries : BTreeMap ProprietaryKey (List Byte)
    pub unknowns : BTreeMap Key (List Byte)

  -- The decoder at a stage that has met no field, or whose fields are all taken.
  abbrev pub without_fields : DecoderStage c → GlobalDecoder
  without_fields stage = record {
    stage = stage;
    version = none;
    tx_version = none;
    input_count = none;
    output_count = none;
    fallback_lock_time = none;
    tx_modifiable_flags = none;
    xpubs = empty;
    sp_ecdh_shares = empty;
    sp_dleq_proofs = empty;
    proprietaries = empty;
    unknowns = empty;
  }

  abbrev pub default : GlobalDecoder
  default = without_fields decoding_separator

  -- The global map that the fields make at the end of the map. The flags have a default.
  unfoldable pub complete : GlobalDecoder → Outcome (GlobalDecodeError c) Global
  complete d = do
    version ← ok_or d.version missing_version
    tx_version ← ok_or d.tx_version missing_tx_version
    input_count ← ok_or d.input_count missing_input_count
    output_count ← ok_or d.output_count missing_output_count
    fail_if (not (same (is_empty d.sp_ecdh_shares) (is_empty d.sp_dleq_proofs))) sp_field_mismatch
    ok (record {
      version = version;
      tx_version = tx_version;
      fallback_lock_time = d.fallback_lock_time;
      tx_modifiable_flags = unwrap_or d.tx_modifiable_flags (record { bits = 0 });
      input_count = input_count;
      output_count = output_count;
      xpubs = d.xpubs;
      sp_ecdh_shares = d.sp_ecdh_shares;
      sp_dleq_proofs = d.sp_dleq_proofs;
      proprietaries = d.proprietaries;
      unknowns = d.unknowns;
    })

  -- Between two pairs: the end of the map, or a key.
  unfoldable pub at_separator :
      GlobalDecoder → List Byte → Outcome (GlobalDecodeError c) (Round GlobalDecoder)
  unfolding complete
  at_separator d [] = ok (return (record { decoder = d; rest = []; status = needs_more }))
  at_separator d (b ∷ rest) =
      if b == psbt_separator
      then (do
        value ← complete d
        ok (return (record { decoder = without_fields (done value); rest = rest; status = ready })))
      else ok (continue (record d { stage = decoding_key (key_decoder c).default }) (b ∷ rest))

  unfoldable pub separator_round :
      DecoderStage c
      → GlobalDecoder
      → List Byte
      → Outcome (GlobalDecodeError c) (Round GlobalDecoder)
  unfolding at_separator
  separator_round decoding_separator d bytes = at_separator d bytes
  separator_round stage d bytes = ok (continue d bytes)

  unfoldable pub push_round :
      GlobalDecoder → List Byte → Outcome (GlobalDecodeError c) (Pushed GlobalDecoder)
  push_round d bytes = do
    p ← push_stage c d.stage bytes
    ok (record { decoder = record d { stage = p.decoder }; rest = p.rest; status = p.status })

  -- The transition when the decoder of the stage is ready.
  unfoldable pub finish :
      DecoderStage c
      → GlobalDecoder
      → List Byte
      → Outcome (GlobalDecodeError c) (Round GlobalDecoder)
  finish (decoding_key decoder) d rest = do
    key ← map_err GlobalDecodeError.key_decode ((key_decoder c).end decoder)
    stage ← from_key c key
    ok (continue (record d { stage = stage }) rest)
  finish (decoding_version key decoder) d rest = do
    value ← map_err (version_error c) ((framed c (version_decoder c)).end decoder)
    fail_if (not (value == 2)) (wrong_version value)
    version' ← set_once d.version value (duplicate_key key)
    ok (continue (record d { version = version'; stage = decoding_separator }) rest)
  finish (decoding_tx_version key decoder) d rest = do
    value ← map_err GlobalDecodeError.tx_version ((framed c c.tx_version).end decoder)
    tx_version' ← set_once d.tx_version value (duplicate_key key)
    ok (continue (record d { tx_version = tx_version'; stage = decoding_separator }) rest)
  finish (decoding_lock_time key decoder) d rest = do
    value ← map_err GlobalDecodeError.lock_time ((framed c c.lock_time).end decoder)
    fallback_lock_time' ← set_once d.fallback_lock_time value (duplicate_key key)
    ok (
        continue (record d { fallback_lock_time = fallback_lock_time'; stage = decoding_separator })
          rest)
  finish (decoding_input_count key decoder) d rest = do
    value ← map_err GlobalDecodeError.count ((framed c c.count).end decoder)
    input_count' ← set_once d.input_count value (duplicate_key key)
    ok (continue (record d { input_count = input_count'; stage = decoding_separator }) rest)
  finish (decoding_output_count key decoder) d rest = do
    value ← map_err GlobalDecodeError.count ((framed c c.count).end decoder)
    output_count' ← set_once d.output_count value (duplicate_key key)
    ok (continue (record d { output_count = output_count'; stage = decoding_separator }) rest)
  finish (decoding_tx_modifiable key decoder) d rest = do
    value ← map_err GlobalDecodeError.modifiable_flags ((framed c c.flags).end decoder)
    tx_modifiable_flags' ← set_once d.tx_modifiable_flags value (duplicate_key key)
    ok (
        continue
          (record d { tx_modifiable_flags = tx_modifiable_flags'; stage = decoding_separator })
          rest)
  finish (decoding_xpub key decoder) d rest = do
    value ←
        map_err (λ e. GlobalDecodeError.xpub (XpubDecodeError.key_source e))
          (c.key_source.end decoder)
    k ← map_err (λ e. GlobalDecodeError.xpub (XpubDecodeError.key_data e)) (c.xpub_decode key.key)
    xpubs' ← insert_vacant k value d.xpubs (duplicate_key key)
    ok (continue (record d { xpubs = xpubs'; stage = decoding_separator }) rest)
  finish (decoding_proprietary key decoder) d rest = do
    value ← map_err GlobalDecodeError.proprietary_value (c.byte_vec.end decoder)
    k ← map_err (λ e. GlobalDecodeError.key_decode invalid_proprietary_key) (try_from c key)
    proprietaries' ← insert_vacant k value d.proprietaries (duplicate_key (to_key e k))
    ok (continue (record d { proprietaries = proprietaries'; stage = decoding_separator }) rest)
  finish (decoding_unknown key decoder) d rest = do
    value ← map_err GlobalDecodeError.unknown_value (c.byte_vec.end decoder)
    unknowns' ← insert_vacant key value d.unknowns (duplicate_key key)
    ok (continue (record d { unknowns = unknowns'; stage = decoding_separator }) rest)
  finish (decoding_sp_ecdh_share key decoder) d rest = do
    value ← map_err GlobalDecodeError.sp_ecdh ((framed c c.compressed_public_key).end decoder)
    fail_if (is_empty key.key) (GlobalDecodeError.key_decode (invalid_key_data key))
    scan_key ←
        map_err (λ e. GlobalDecodeError.key_decode (invalid_key_data key))
          (c.compressed_from_slice key.key)
    sp_ecdh_shares' ← insert_vacant scan_key value d.sp_ecdh_shares (duplicate_key key)
    ok (continue (record d { sp_ecdh_shares = sp_ecdh_shares'; stage = decoding_separator }) rest)
  finish (decoding_sp_dleq_proof key decoder) d rest = do
    value ← map_err GlobalDecodeError.sp_dleq ((framed c c.dleq_proof).end decoder)
    fail_if (is_empty key.key) (GlobalDecodeError.key_decode (invalid_key_data key))
    scan_key ←
        map_err (λ e. GlobalDecodeError.key_decode (invalid_key_data key))
          (c.compressed_from_slice key.key)
    sp_dleq_proofs' ← insert_vacant scan_key value d.sp_dleq_proofs (duplicate_key key)
    ok (continue (record d { sp_dleq_proofs = sp_dleq_proofs'; stage = decoding_separator }) rest)
  finish (done value) d rest =
      ok
        (return (record { decoder = record d { stage = done value }; rest = rest; status = ready }))
  finish errored d rest = panicked
  finish decoding_separator d rest = panicked

  -- One turn of the `loop` of `push_bytes`.
  unfoldable pub round :
      GlobalDecoder → List Byte → Outcome (GlobalDecodeError c) (Round GlobalDecoder)
  unfolding separator_round push_round finish
  round =
      round_of (λ d bytes. separator_round d.stage d bytes) push_round
        (λ d bytes. finish d.stage d bytes)

  unfoldable pub push_from :
      ℕ
      → DecoderStage c
      → GlobalDecoder
      → List Byte
      → Option (Outcome (GlobalDecodeError c) (Pushed GlobalDecoder))
  unfolding round
  push_from fuel (done value) d bytes =
      some (ok (record { decoder = d; rest = bytes; status = ready }))
  push_from fuel stage d bytes = rounds round fuel d bytes

  unfoldable pub end : DecoderStage c → Outcome (GlobalDecodeError c) Global
  end (done global) = ok global
  end stage = err early_end

  -- `impl Decoder for GlobalDecoder`. A turn after the first takes a byte, so that as many turns as
  -- bytes are enough, with two more for the first and the last.
  abbrev pub global_decoder : Decoder Global
  global_decoder = record {
    State = GlobalDecoder;
    Error = GlobalDecodeError c;
    default = default;
    push_bytes = λ d bytes. expect_fuel (push_from (suc (suc (length bytes))) d.stage d bytes);
    end = λ d. end d.stage;
    read_limit = λ d. stage_read_limit c d.stage;
  }
