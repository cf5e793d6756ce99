-- ===== src/Input/Decoder/Singles.antt =====
-- src/map/input.rs: the transitions that set a field of one value, which a map gives at most once.
use rust_psbt.Prelude.{List, Outcome, ok, map_err, ◌>>=◌}
use rust_psbt.Ordered.{nat_ord, pair_ord}
use rust_psbt.Primitives.{Byte}
use rust_psbt.Decoding.{Round, continue}
use rust_psbt.Decoding.Fields.{set_once}
use rust_psbt.Codecs.{Codecs}
use rust_psbt.Framing.{framed}
use rust_psbt.Keys.{Key, key_ord, proprietary_ord}
use rust_psbt.Input.Decoder.Stage.{InputDecodeError, duplicate_key, decoding_separator}
use rust_psbt.Input.Decoder.State.{InputDecoder}

module _ (c : Codecs) where
  unfoldable pub finish_previous_txid :
      Key
      → (framed c c.txid).State
      → InputDecoder c
      → List Byte
      → Outcome (InputDecodeError c) (Round (InputDecoder c))
  finish_previous_txid key decoder d rest = do
    value ← map_err InputDecodeError.previous_txid ((framed c c.txid).end decoder)
    previous_txid' ← set_once d.previous_txid value (duplicate_key key)
    ok (continue (record d { previous_txid = previous_txid'; stage = decoding_separator }) rest)

  unfoldable pub finish_output_index :
      Key
      → (framed c c.vout).State
      → InputDecoder c
      → List Byte
      → Outcome (InputDecodeError c) (Round (InputDecoder c))
  finish_output_index key decoder d rest = do
    value ← map_err InputDecodeError.output_index ((framed c c.vout).end decoder)
    spent_output_index' ← set_once d.spent_output_index value (duplicate_key key)
    ok (
        continue (record d { spent_output_index = spent_output_index'; stage = decoding_separator })
          rest)

  unfoldable pub finish_sequence :
      Key
      → (framed c c.sequence).State
      → InputDecoder c
      → List Byte
      → Outcome (InputDecodeError c) (Round (InputDecoder c))
  finish_sequence key decoder d rest = do
    value ← map_err InputDecodeError.sequence ((framed c c.sequence).end decoder)
    sequence' ← set_once d.sequence value (duplicate_key key)
    ok (continue (record d { sequence = sequence'; stage = decoding_separator }) rest)

  unfoldable pub finish_min_time :
      Key
      → (framed c c.time).State
      → InputDecoder c
      → List Byte
      → Outcome (InputDecodeError c) (Round (InputDecoder c))
  finish_min_time key decoder d rest = do
    value ← map_err InputDecodeError.min_time ((framed c c.time).end decoder)
    min_time' ← set_once d.min_time value (duplicate_key key)
    ok (continue (record d { min_time = min_time'; stage = decoding_separator }) rest)

  unfoldable pub finish_min_height :
      Key
      → (framed c c.height).State
      → InputDecoder c
      → List Byte
      → Outcome (InputDecodeError c) (Round (InputDecoder c))
  finish_min_height key decoder d rest = do
    value ← map_err InputDecodeError.min_height ((framed c c.height).end decoder)
    min_height' ← set_once d.min_height value (duplicate_key key)
    ok (continue (record d { min_height = min_height'; stage = decoding_separator }) rest)

  unfoldable pub finish_non_witness_utxo :
      Key
      → (framed c c.transaction).State
      → InputDecoder c
      → List Byte
      → Outcome (InputDecodeError c) (Round (InputDecoder c))
  finish_non_witness_utxo key decoder d rest = do
    value ← map_err InputDecodeError.non_witness_utxo ((framed c c.transaction).end decoder)
    non_witness_utxo' ← set_once d.non_witness_utxo value (duplicate_key key)
    ok (
        continue (record d { non_witness_utxo = non_witness_utxo'; stage = decoding_separator })
          rest)

  unfoldable pub finish_witness_utxo :
      Key
      → (framed c c.tx_out).State
      → InputDecoder c
      → List Byte
      → Outcome (InputDecodeError c) (Round (InputDecoder c))
  finish_witness_utxo key decoder d rest = do
    value ← map_err InputDecodeError.witness_utxo ((framed c c.tx_out).end decoder)
    witness_utxo' ← set_once d.witness_utxo value (duplicate_key key)
    ok (continue (record d { witness_utxo = witness_utxo'; stage = decoding_separator }) rest)

  unfoldable pub finish_sighash_type :
      Key
      → (framed c c.sighash_type).State
      → InputDecoder c
      → List Byte
      → Outcome (InputDecodeError c) (Round (InputDecoder c))
  finish_sighash_type key decoder d rest = do
    value ← map_err InputDecodeError.sighash_type ((framed c c.sighash_type).end decoder)
    sighash_type' ← set_once d.sighash_type value (duplicate_key key)
    ok (continue (record d { sighash_type = sighash_type'; stage = decoding_separator }) rest)

  unfoldable pub finish_redeem_script :
      Key
      → c.script.State
      → InputDecoder c
      → List Byte
      → Outcome (InputDecodeError c) (Round (InputDecoder c))
  finish_redeem_script key decoder d rest = do
    value ← map_err InputDecodeError.redeem_script (c.script.end decoder)
    redeem_script' ← set_once d.redeem_script value (duplicate_key key)
    ok (continue (record d { redeem_script = redeem_script'; stage = decoding_separator }) rest)

  unfoldable pub finish_witness_script :
      Key
      → c.script.State
      → InputDecoder c
      → List Byte
      → Outcome (InputDecodeError c) (Round (InputDecoder c))
  finish_witness_script key decoder d rest = do
    value ← map_err InputDecodeError.witness_script (c.script.end decoder)
    witness_script' ← set_once d.witness_script value (duplicate_key key)
    ok (continue (record d { witness_script = witness_script'; stage = decoding_separator }) rest)

  unfoldable pub finish_final_script_sig :
      Key
      → c.script.State
      → InputDecoder c
      → List Byte
      → Outcome (InputDecodeError c) (Round (InputDecoder c))
  finish_final_script_sig key decoder d rest = do
    value ← map_err InputDecodeError.final_script_sig (c.script.end decoder)
    final_script_sig' ← set_once d.final_script_sig value (duplicate_key key)
    ok (
        continue (record d { final_script_sig = final_script_sig'; stage = decoding_separator })
          rest)

  unfoldable pub finish_final_script_witness :
      Key
      → (framed c c.witness).State
      → InputDecoder c
      → List Byte
      → Outcome (InputDecodeError c) (Round (InputDecoder c))
  finish_final_script_witness key decoder d rest = do
    value ← map_err InputDecodeError.final_script_witness ((framed c c.witness).end decoder)
    final_script_witness' ← set_once d.final_script_witness value (duplicate_key key)
    ok (
        continue
          (record d { final_script_witness = final_script_witness'; stage = decoding_separator })
          rest)

  unfoldable pub finish_tap_key_sig :
      Key
      → c.taproot_signature.State
      → InputDecoder c
      → List Byte
      → Outcome (InputDecodeError c) (Round (InputDecoder c))
  finish_tap_key_sig key decoder d rest = do
    value ← map_err InputDecodeError.tap_key_sig (c.taproot_signature.end decoder)
    tap_key_sig' ← set_once d.tap_key_sig value (duplicate_key key)
    ok (continue (record d { tap_key_sig = tap_key_sig'; stage = decoding_separator }) rest)

  unfoldable pub finish_tap_internal_key :
      Key
      → (framed c c.xonly_public_key).State
      → InputDecoder c
      → List Byte
      → Outcome (InputDecodeError c) (Round (InputDecoder c))
  finish_tap_internal_key key decoder d rest = do
    value ← map_err InputDecodeError.tap_internal_key ((framed c c.xonly_public_key).end decoder)
    tap_internal_key' ← set_once d.tap_internal_key value (duplicate_key key)
    ok (
        continue (record d { tap_internal_key = tap_internal_key'; stage = decoding_separator })
          rest)

  unfoldable pub finish_tap_merkle_root :
      Key
      → (framed c c.tap_node_hash).State
      → InputDecoder c
      → List Byte
      → Outcome (InputDecodeError c) (Round (InputDecoder c))
  finish_tap_merkle_root key decoder d rest = do
    value ← map_err InputDecodeError.tap_merkle_root ((framed c c.tap_node_hash).end decoder)
    tap_merkle_root' ← set_once d.tap_merkle_root value (duplicate_key key)
    ok (continue (record d { tap_merkle_root = tap_merkle_root'; stage = decoding_separator }) rest)
