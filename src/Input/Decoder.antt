-- ===== src/Input/Decoder.antt =====
-- src/map/input.rs: the push-based decoder of an input map. `compute_txid` is upstream's.
pub mod Stage
pub mod Laws
pub mod Ends
pub mod State
pub mod Singles
pub mod Entries
use rust_psbt.Prelude.{
  ℕ, suc, ◌==◌, not, Option, none, some, List, [], ◌∷◌, length, Outcome, ok, err, panicked, map_err,
  fail_if, ◌>>=◌, ◌>>◌, if◌then◌else◌,
}
use rust_psbt.Primitives.{Byte, Txid, Transaction}
use rust_psbt.Consts.{psbt_separator}
use rust_psbt.Decoding.{
  Decoder, Pushed, ready, needs_more, Round, return, continue, rounds, round_of,
}
use rust_psbt.Decoding.Fields.{expect_fuel}
use rust_psbt.Codecs.{Codecs}
use rust_psbt.Keys.Codec.{key_decoder}
use rust_psbt.Input.{Input}
use rust_psbt.Input.Decoder.Stage.{
  InputDecodeError, early_end, incorrect_non_witness_utxo, DecoderStage, decoding_separator,
  decoding_key, decoding_previous_txid, decoding_output_index, decoding_sequence, decoding_min_time,
  decoding_min_height, decoding_non_witness_utxo, decoding_witness_utxo, decoding_sighash_type,
  decoding_redeem_script, decoding_witness_script, decoding_final_script_sig,
  decoding_final_script_witness, decoding_tap_key_sig, decoding_tap_internal_key,
  decoding_tap_merkle_root, decoding_partial_sig, decoding_bip32_derivation, decoding_ripemd160,
  decoding_sha256, decoding_hash160, decoding_hash256, decoding_tap_script_sig,
  decoding_leaf_script, decoding_tap_bip32_derivation, decoding_proprietary, decoding_sp_ecdh_share,
  decoding_sp_dleq_proof, decoding_unknown, done, errored, from_key, push_stage, stage_read_limit,
}
use rust_psbt.Input.Decoder.State.{InputDecoder, without_fields, default, complete}
use rust_psbt.Input.Decoder.Singles.{
  finish_previous_txid, finish_output_index, finish_sequence, finish_min_time, finish_min_height,
  finish_non_witness_utxo, finish_witness_utxo, finish_sighash_type, finish_redeem_script,
  finish_witness_script, finish_final_script_sig, finish_final_script_witness, finish_tap_key_sig,
  finish_tap_internal_key, finish_tap_merkle_root,
}
use rust_psbt.Input.Decoder.Entries.{
  finish_partial_sig, finish_bip32_derivation, finish_ripemd160, finish_sha256, finish_hash160,
  finish_hash256, finish_tap_script_sig, finish_leaf_script, finish_tap_bip32_derivation,
  finish_proprietary, finish_sp_ecdh_share, finish_sp_dleq_proof, finish_unknown,
}

module _ (c : Codecs) (compute_txid : Transaction → Txid) where
  -- Between two pairs: the end of the map, or a key.
  unfoldable pub at_separator :
      InputDecoder c → List Byte → Outcome (InputDecodeError c) (Round (InputDecoder c))
  unfolding complete
  at_separator d [] = ok (return (record { decoder = d; rest = []; status = needs_more }))
  at_separator d (b ∷ rest) =
      if b == psbt_separator
      then (do
        value ← complete c d
        ok (
            return
              (record { decoder = without_fields c (done value); rest = rest; status = ready })))
      else ok (continue (record d { stage = decoding_key (key_decoder c).default }) (b ∷ rest))

  unfoldable pub separator_round :
      DecoderStage c
      → InputDecoder c
      → List Byte
      → Outcome (InputDecodeError c) (Round (InputDecoder c))
  unfolding at_separator
  separator_round decoding_separator d bytes = at_separator d bytes
  separator_round stage d bytes = ok (continue d bytes)

  unfoldable pub push_round :
      InputDecoder c → List Byte → Outcome (InputDecodeError c) (Pushed (InputDecoder c))
  push_round d bytes = do
    p ← push_stage c d.stage bytes
    ok (record { decoder = record d { stage = p.decoder }; rest = p.rest; status = p.status })

  -- The transition when the decoder of the stage is ready.
  unfoldable pub finish :
      DecoderStage c
      → InputDecoder c
      → List Byte
      → Outcome (InputDecodeError c) (Round (InputDecoder c))
  unfolding finish_previous_txid finish_output_index finish_sequence finish_min_time
      finish_min_height finish_non_witness_utxo finish_witness_utxo finish_sighash_type
      finish_redeem_script finish_witness_script finish_final_script_sig finish_final_script_witness
      finish_tap_key_sig finish_tap_internal_key finish_tap_merkle_root finish_partial_sig
      finish_bip32_derivation finish_ripemd160 finish_sha256 finish_hash160 finish_hash256
      finish_tap_script_sig finish_leaf_script finish_tap_bip32_derivation finish_proprietary
      finish_sp_ecdh_share finish_sp_dleq_proof finish_unknown
  finish (decoding_key decoder) d rest = do
    key ← map_err InputDecodeError.key_decode ((key_decoder c).end decoder)
    stage ← from_key c key
    ok (continue (record d { stage = stage }) rest)
  finish (decoding_previous_txid key decoder) d rest = finish_previous_txid c key decoder d rest
  finish (decoding_output_index key decoder) d rest = finish_output_index c key decoder d rest
  finish (decoding_sequence key decoder) d rest = finish_sequence c key decoder d rest
  finish (decoding_min_time key decoder) d rest = finish_min_time c key decoder d rest
  finish (decoding_min_height key decoder) d rest = finish_min_height c key decoder d rest
  finish (decoding_non_witness_utxo key decoder) d rest =
      finish_non_witness_utxo c key decoder d rest
  finish (decoding_witness_utxo key decoder) d rest = finish_witness_utxo c key decoder d rest
  finish (decoding_sighash_type key decoder) d rest = finish_sighash_type c key decoder d rest
  finish (decoding_redeem_script key decoder) d rest = finish_redeem_script c key decoder d rest
  finish (decoding_witness_script key decoder) d rest = finish_witness_script c key decoder d rest
  finish (decoding_final_script_sig key decoder) d rest =
      finish_final_script_sig c key decoder d rest
  finish (decoding_final_script_witness key decoder) d rest =
      finish_final_script_witness c key decoder d rest
  finish (decoding_tap_key_sig key decoder) d rest = finish_tap_key_sig c key decoder d rest
  finish (decoding_tap_internal_key key decoder) d rest =
      finish_tap_internal_key c key decoder d rest
  finish (decoding_tap_merkle_root key decoder) d rest = finish_tap_merkle_root c key decoder d rest
  finish (decoding_partial_sig key decoder) d rest = finish_partial_sig c key decoder d rest
  finish (decoding_bip32_derivation key decoder) d rest =
      finish_bip32_derivation c key decoder d rest
  finish (decoding_ripemd160 key decoder) d rest = finish_ripemd160 c key decoder d rest
  finish (decoding_sha256 key decoder) d rest = finish_sha256 c key decoder d rest
  finish (decoding_hash160 key decoder) d rest = finish_hash160 c key decoder d rest
  finish (decoding_hash256 key decoder) d rest = finish_hash256 c key decoder d rest
  finish (decoding_tap_script_sig key decoder) d rest = finish_tap_script_sig c key decoder d rest
  finish (decoding_leaf_script key decoder) d rest = finish_leaf_script c key decoder d rest
  finish (decoding_tap_bip32_derivation key decoder) d rest =
      finish_tap_bip32_derivation c key decoder d rest
  finish (decoding_proprietary key decoder) d rest = finish_proprietary c key decoder d rest
  finish (decoding_sp_ecdh_share key decoder) d rest = finish_sp_ecdh_share c key decoder d rest
  finish (decoding_sp_dleq_proof key decoder) d rest = finish_sp_dleq_proof c key decoder d rest
  finish (decoding_unknown key decoder) d rest = finish_unknown c key decoder d rest
  finish (done value) d rest =
      ok
        (return (record { decoder = record d { stage = done value }; rest = rest; status = ready }))
  finish errored d rest = panicked
  finish decoding_separator d rest = panicked

  -- One turn of the `loop` of `push_bytes`.
  unfoldable pub round :
      InputDecoder c → List Byte → Outcome (InputDecodeError c) (Round (InputDecoder c))
  unfolding separator_round push_round finish
  round =
      round_of (λ d bytes. separator_round d.stage d bytes) push_round
        (λ d bytes. finish d.stage d bytes)

  unfoldable pub push_from :
      ℕ
      → DecoderStage c
      → InputDecoder c
      → List Byte
      → Option (Outcome (InputDecodeError c) (Pushed (InputDecoder c)))
  unfolding round
  push_from fuel (done value) d bytes =
      some (ok (record { decoder = d; rest = bytes; status = ready }))
  push_from fuel stage d bytes = rounds round fuel d bytes

  -- A transaction that funds the input is the one that the input spends.
  unfoldable pub check_txid : Input → Option Transaction → Outcome (InputDecodeError c) Input
  check_txid i none = ok i
  check_txid i (some tx) = do
    fail_if (not (compute_txid tx == i.previous_txid))
        (incorrect_non_witness_utxo i.previous_txid (compute_txid tx))
    ok i

  unfoldable pub end : DecoderStage c → Outcome (InputDecodeError c) Input
  unfolding check_txid
  end (done input) = check_txid input input.non_witness_utxo
  end stage = err early_end

  -- `impl Decoder for InputDecoder`. A turn after the first takes a byte, so that as many turns as
  -- bytes are enough, with two more for the first and the last.
  abbrev pub input_decoder : Decoder Input
  input_decoder = record {
    State = InputDecoder c;
    Error = InputDecodeError c;
    default = default c;
    push_bytes = λ d bytes. expect_fuel (push_from (suc (suc (length bytes))) d.stage d bytes);
    end = λ d. end d.stage;
    read_limit = λ d. stage_read_limit c d.stage;
  }
