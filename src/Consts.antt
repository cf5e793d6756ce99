-- ===== src/Consts.antt =====
-- src/consts.rs: the separators, the magic and the key types of the three maps.
use rust_psbt.Prelude.{ℕ}

abbrev pub psbt_separator : ℕ
psbt_separator = 0x00

abbrev pub psbt_global_unsigned_tx : ℕ
psbt_global_unsigned_tx = 0x00

abbrev pub psbt_global_xpub : ℕ
psbt_global_xpub = 0x01

abbrev pub psbt_global_tx_version : ℕ
psbt_global_tx_version = 0x02

abbrev pub psbt_global_fallback_locktime : ℕ
psbt_global_fallback_locktime = 0x03

abbrev pub psbt_global_input_count : ℕ
psbt_global_input_count = 0x04

abbrev pub psbt_global_output_count : ℕ
psbt_global_output_count = 0x05

abbrev pub psbt_global_tx_modifiable : ℕ
psbt_global_tx_modifiable = 0x06

abbrev pub psbt_global_sp_ecdh_share : ℕ
psbt_global_sp_ecdh_share = 0x07

abbrev pub psbt_global_sp_dleq : ℕ
psbt_global_sp_dleq = 0x08

abbrev pub psbt_global_version : ℕ
psbt_global_version = 0xFB

abbrev pub psbt_global_proprietary : ℕ
psbt_global_proprietary = 0xFC

abbrev pub psbt_in_non_witness_utxo : ℕ
psbt_in_non_witness_utxo = 0x00

abbrev pub psbt_in_witness_utxo : ℕ
psbt_in_witness_utxo = 0x01

abbrev pub psbt_in_partial_sig : ℕ
psbt_in_partial_sig = 0x02

abbrev pub psbt_in_sighash_type : ℕ
psbt_in_sighash_type = 0x03

abbrev pub psbt_in_redeem_script : ℕ
psbt_in_redeem_script = 0x04

abbrev pub psbt_in_witness_script : ℕ
psbt_in_witness_script = 0x05

abbrev pub psbt_in_bip32_derivation : ℕ
psbt_in_bip32_derivation = 0x06

abbrev pub psbt_in_final_scriptsig : ℕ
psbt_in_final_scriptsig = 0x07

abbrev pub psbt_in_final_scriptwitness : ℕ
psbt_in_final_scriptwitness = 0x08

abbrev pub psbt_in_por_commitment : ℕ
psbt_in_por_commitment = 0x09

abbrev pub psbt_in_ripemd160 : ℕ
psbt_in_ripemd160 = 0x0a

abbrev pub psbt_in_sha256 : ℕ
psbt_in_sha256 = 0x0b

abbrev pub psbt_in_hash160 : ℕ
psbt_in_hash160 = 0x0c

abbrev pub psbt_in_hash256 : ℕ
psbt_in_hash256 = 0x0d

abbrev pub psbt_in_previous_txid : ℕ
psbt_in_previous_txid = 0x0e

abbrev pub psbt_in_output_index : ℕ
psbt_in_output_index = 0x0f

abbrev pub psbt_in_sequence : ℕ
psbt_in_sequence = 0x10

abbrev pub psbt_in_required_time_locktime : ℕ
psbt_in_required_time_locktime = 0x11

abbrev pub psbt_in_required_height_locktime : ℕ
psbt_in_required_height_locktime = 0x12

abbrev pub psbt_in_tap_key_sig : ℕ
psbt_in_tap_key_sig = 0x13

abbrev pub psbt_in_tap_script_sig : ℕ
psbt_in_tap_script_sig = 0x14

abbrev pub psbt_in_tap_leaf_script : ℕ
psbt_in_tap_leaf_script = 0x15

abbrev pub psbt_in_tap_bip32_derivation : ℕ
psbt_in_tap_bip32_derivation = 0x16

abbrev pub psbt_in_tap_internal_key : ℕ
psbt_in_tap_internal_key = 0x17

abbrev pub psbt_in_tap_merkle_root : ℕ
psbt_in_tap_merkle_root = 0x18

abbrev pub psbt_in_sp_ecdh_share : ℕ
psbt_in_sp_ecdh_share = 0x1D

abbrev pub psbt_in_sp_dleq : ℕ
psbt_in_sp_dleq = 0x1E

abbrev pub psbt_in_proprietary : ℕ
psbt_in_proprietary = 0xFC

abbrev pub psbt_out_redeem_script : ℕ
psbt_out_redeem_script = 0x00

abbrev pub psbt_out_witness_script : ℕ
psbt_out_witness_script = 0x01

abbrev pub psbt_out_bip32_derivation : ℕ
psbt_out_bip32_derivation = 0x02

abbrev pub psbt_out_amount : ℕ
psbt_out_amount = 0x03

abbrev pub psbt_out_script : ℕ
psbt_out_script = 0x04

abbrev pub psbt_out_tap_internal_key : ℕ
psbt_out_tap_internal_key = 0x05

abbrev pub psbt_out_tap_tree : ℕ
psbt_out_tap_tree = 0x06

abbrev pub psbt_out_tap_bip32_derivation : ℕ
psbt_out_tap_bip32_derivation = 0x07

abbrev pub psbt_out_sp_v0_info : ℕ
psbt_out_sp_v0_info = 0x09

abbrev pub psbt_out_sp_v0_label : ℕ
psbt_out_sp_v0_label = 0x0A

abbrev pub psbt_out_proprietary : ℕ
psbt_out_proprietary = 0xFC
