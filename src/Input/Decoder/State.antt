-- ===== src/Input/Decoder/State.antt =====
-- src/map/input.rs: the state of the decoder of an input map, and the end of the map.
use rust_psbt.Prelude.{
  ℕ, not, Option, none, List, is_empty, same, Outcome, ok, ok_or, fail_if, ◌>>=◌, ◌>>◌,
}
use rust_psbt.Ordered.{nat_ord, pair_ord}
use rust_psbt.BTreeMap.{BTreeMap, empty}
use rust_psbt.Primitives.{
  Byte, Txid, ScriptBuf, Witness, PublicKey, XOnlyPublicKey, TapLeafHash, KeySource, TxOut,
  Transaction, EcdsaSignature, TaprootSignature,
}
use rust_psbt.Codecs.{Codecs}
use rust_psbt.Keys.{Key, ProprietaryKey, key_ord, proprietary_ord}
use rust_psbt.Sighash.{PsbtSighashType}
use rust_psbt.Input.{Input}
use rust_psbt.Input.Decoder.Stage.{
  InputDecodeError, missing_previous_txid, missing_spent_output_index, sp_field_mismatch,
  DecoderStage, decoding_separator,
}

module _ (c : Codecs) where
  pub record InputDecoder : Type 0 where
    pub stage : DecoderStage c
    pub previous_txid : Option Txid
    pub spent_output_index : Option ℕ
    pub sequence : Option ℕ
    pub min_time : Option ℕ
    pub min_height : Option ℕ
    pub non_witness_utxo : Option Transaction
    pub witness_utxo : Option TxOut
    pub partial_sigs : BTreeMap PublicKey EcdsaSignature
    pub sighash_type : Option PsbtSighashType
    pub redeem_script : Option ScriptBuf
    pub witness_script : Option ScriptBuf
    pub bip32_derivations : BTreeMap PublicKey KeySource
    pub final_script_sig : Option ScriptBuf
    pub final_script_witness : Option Witness
    pub ripemd160_preimages : BTreeMap ℕ (List Byte)
    pub sha256_preimages : BTreeMap ℕ (List Byte)
    pub hash160_preimages : BTreeMap ℕ (List Byte)
    pub hash256_preimages : BTreeMap ℕ (List Byte)
    pub tap_key_sig : Option TaprootSignature
    pub tap_script_sigs : BTreeMap (XOnlyPublicKey × TapLeafHash) TaprootSignature
    pub tap_scripts : BTreeMap ℕ (ScriptBuf × ℕ)
    pub tap_key_origins : BTreeMap XOnlyPublicKey (List TapLeafHash × KeySource)
    pub tap_internal_key : Option XOnlyPublicKey
    pub tap_merkle_root : Option ℕ
    pub sp_ecdh_shares : BTreeMap PublicKey PublicKey
    pub sp_dleq_proofs : BTreeMap PublicKey ℕ
    pub proprietaries : BTreeMap ProprietaryKey (List Byte)
    pub unknowns : BTreeMap Key (List Byte)

  -- The decoder at a stage that has met no field, or whose fields are all taken.
  abbrev pub without_fields : DecoderStage c → InputDecoder
  without_fields stage = record {
    stage = stage;
    previous_txid = none;
    spent_output_index = none;
    sequence = none;
    min_time = none;
    min_height = none;
    non_witness_utxo = none;
    witness_utxo = none;
    partial_sigs = empty;
    sighash_type = none;
    redeem_script = none;
    witness_script = none;
    bip32_derivations = empty;
    final_script_sig = none;
    final_script_witness = none;
    ripemd160_preimages = empty;
    sha256_preimages = empty;
    hash160_preimages = empty;
    hash256_preimages = empty;
    tap_key_sig = none;
    tap_script_sigs = empty;
    tap_scripts = empty;
    tap_key_origins = empty;
    tap_internal_key = none;
    tap_merkle_root = none;
    sp_ecdh_shares = empty;
    sp_dleq_proofs = empty;
    proprietaries = empty;
    unknowns = empty;
  }

  abbrev pub default : InputDecoder
  default = without_fields decoding_separator

  -- The input that the fields make at the end of the map.
  unfoldable pub complete : InputDecoder → Outcome (InputDecodeError c) Input
  complete d = do
    previous_txid ← ok_or d.previous_txid missing_previous_txid
    spent_output_index ← ok_or d.spent_output_index missing_spent_output_index
    fail_if (not (same (is_empty d.sp_ecdh_shares) (is_empty d.sp_dleq_proofs))) sp_field_mismatch
    ok (record {
      previous_txid = previous_txid;
      spent_output_index = spent_output_index;
      sequence = d.sequence;
      min_time = d.min_time;
      min_height = d.min_height;
      non_witness_utxo = d.non_witness_utxo;
      witness_utxo = d.witness_utxo;
      partial_sigs = d.partial_sigs;
      sighash_type = d.sighash_type;
      redeem_script = d.redeem_script;
      witness_script = d.witness_script;
      bip32_derivations = d.bip32_derivations;
      final_script_sig = d.final_script_sig;
      final_script_witness = d.final_script_witness;
      ripemd160_preimages = d.ripemd160_preimages;
      sha256_preimages = d.sha256_preimages;
      hash160_preimages = d.hash160_preimages;
      hash256_preimages = d.hash256_preimages;
      tap_key_sig = d.tap_key_sig;
      tap_script_sigs = d.tap_script_sigs;
      tap_scripts = d.tap_scripts;
      tap_key_origins = d.tap_key_origins;
      tap_internal_key = d.tap_internal_key;
      tap_merkle_root = d.tap_merkle_root;
      sp_ecdh_shares = d.sp_ecdh_shares;
      sp_dleq_proofs = d.sp_dleq_proofs;
      proprietaries = d.proprietaries;
      unknowns = d.unknowns;
    })
