-- ===== src/Input/Combine.antt =====
-- `Input::combine`.
use rust_psbt.Prelude.{ℕ, not, ◌==◌, Outcome, ok, fail_if, ◌>>◌}
use rust_psbt.Primitives.{Txid}
use rust_psbt.Ordered.{nat_ord, pair_ord}
use rust_psbt.Keys.{key_ord, proprietary_ord, combine_option, combine_map}
use rust_psbt.Input.{Input}

-- `input::CombineError`.
pub data CombineError : Type 0 where
  previous_txid_mismatch : Txid → Txid → CombineError
  spent_output_index_mismatch : ℕ → ℕ → CombineError

-- What is left of `self` once both identities agree.
unfoldable pub merge : Input → Input → Input
unfolding combine_option combine_map
merge a b = record {
  previous_txid = a.previous_txid;
  spent_output_index = a.spent_output_index;
  sequence = combine_option a.sequence b.sequence;
  min_time = combine_option a.min_time b.min_time;
  min_height = combine_option a.min_height b.min_height;
  non_witness_utxo = combine_option a.non_witness_utxo b.non_witness_utxo;
  witness_utxo = combine_option a.witness_utxo b.witness_utxo;
  partial_sigs = combine_map a.partial_sigs b.partial_sigs;
  sighash_type = combine_option a.sighash_type b.sighash_type;
  redeem_script = combine_option a.redeem_script b.redeem_script;
  witness_script = combine_option a.witness_script b.witness_script;
  bip32_derivations = combine_map a.bip32_derivations b.bip32_derivations;
  final_script_sig = combine_option a.final_script_sig b.final_script_sig;
  final_script_witness = combine_option a.final_script_witness b.final_script_witness;
  ripemd160_preimages = combine_map a.ripemd160_preimages b.ripemd160_preimages;
  sha256_preimages = combine_map a.sha256_preimages b.sha256_preimages;
  hash160_preimages = combine_map a.hash160_preimages b.hash160_preimages;
  hash256_preimages = combine_map a.hash256_preimages b.hash256_preimages;
  tap_key_sig = combine_option a.tap_key_sig b.tap_key_sig;
  tap_script_sigs = combine_map a.tap_script_sigs b.tap_script_sigs;
  tap_scripts = combine_map a.tap_scripts b.tap_scripts;
  tap_key_origins = combine_map a.tap_key_origins b.tap_key_origins;
  tap_internal_key = combine_option a.tap_internal_key b.tap_internal_key;
  tap_merkle_root = combine_option a.tap_merkle_root b.tap_merkle_root;
  sp_ecdh_shares = combine_map a.sp_ecdh_shares b.sp_ecdh_shares;
  sp_dleq_proofs = combine_map a.sp_dleq_proofs b.sp_dleq_proofs;
  proprietaries = combine_map a.proprietaries b.proprietaries;
  unknowns = combine_map a.unknowns b.unknowns;
}

unfoldable pub combine : Input → Input → Outcome CombineError Input
combine a b = do
  fail_if (not (a.previous_txid == b.previous_txid))
      (previous_txid_mismatch a.previous_txid b.previous_txid)
  fail_if (not (a.spent_output_index == b.spent_output_index))
      (spent_output_index_mismatch a.spent_output_index b.spent_output_index)
  ok (merge a b)
