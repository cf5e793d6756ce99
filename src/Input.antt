-- ===== src/Input.antt =====
-- src/map/input.rs: the input map of a version 2 PSBT, with the features `silent-payments` and
-- `miniscript`.
pub mod Combine
pub mod Laws
pub mod Utxo
pub mod Funding
pub mod Decoder
pub mod Encoder
use rust_psbt.Prelude.{
  ℕ, ◌≡◌, Bool, true, false, not, ◌&&◌, ◌||◌, Option, none, some, List, [], is_some, is_none,
  unwrap_or, ◌==◌, Outcome, ok, err,
}
use rust_psbt.Ordered.{nat_ord, pair_ord, bytes_ord}
use rust_psbt.BTreeMap.{BTreeMap, empty, IsSorted}
use rust_psbt.Primitives.{
  Byte, Txid, ScriptBuf, Witness, PublicKey, XOnlyPublicKey, TapLeafHash, KeySource, LockTime,
  blocks, seconds, OutPoint, TxIn, TxOut, Transaction, EcdsaSignature, TaprootSignature,
  EcdsaSighashType, TapSighashType, sequence_max,
}
use rust_psbt.Sighash.{SighashTypes, PsbtSighashType, SighashError}
use rust_psbt.Sighash
use rust_psbt.Keys.{Key, ProprietaryKey, key_ord, proprietary_ord}

pub record Input : Type 0 where
  pub previous_txid : Txid
  pub spent_output_index : ℕ
  pub sequence : Option ℕ
  pub min_time : Option ℕ
  pub min_height : Option ℕ
  pub non_witness_utxo : Option Transaction
  pub witness_utxo : Option TxOut
  pub partial_sigs : BTreeMap PublicKey EcdsaSignature
  pub sighash_type : Option PsbtSighashType
  pub redeem_script : Option ScriptBuf
  pub witness_script : Option ScriptBuf
  pub bip32_derivations : BTreeMap PublicKey KeySource
  pub final_script_sig : Option ScriptBuf
  pub final_script_witness : Option Witness
  pub ripemd160_preimages : BTreeMap ℕ (List Byte)
  pub sha256_preimages : BTreeMap ℕ (List Byte)
  pub hash160_preimages : BTreeMap ℕ (List Byte)
  pub hash256_preimages : BTreeMap ℕ (List Byte)
  pub tap_key_sig : Option TaprootSignature
  pub tap_script_sigs : BTreeMap (XOnlyPublicKey × TapLeafHash) TaprootSignature
  pub tap_scripts : BTreeMap ℕ (ScriptBuf × ℕ)
  pub tap_key_origins : BTreeMap XOnlyPublicKey (List TapLeafHash × KeySource)
  pub tap_internal_key : Option XOnlyPublicKey
  pub tap_merkle_root : Option ℕ
  pub sp_ecdh_shares : BTreeMap PublicKey PublicKey
  pub sp_dleq_proofs : BTreeMap PublicKey ℕ
  pub proprietaries : BTreeMap ProprietaryKey (List Byte)
  pub unknowns : BTreeMap Key (List Byte)

-- What the type `BTreeMap` gives for each map of the input.
pub record IsWellFormed (i : Input) : Type 0 where
  pub partial_sigs : IsSorted i.partial_sigs
  pub bip32_derivations : IsSorted i.bip32_derivations
  pub ripemd160_preimages : IsSorted i.ripemd160_preimages
  pub sha256_preimages : IsSorted i.sha256_preimages
  pub hash160_preimages : IsSorted i.hash160_preimages
  pub hash256_preimages : IsSorted i.hash256_preimages
  pub tap_script_sigs : IsSorted i.tap_script_sigs
  pub tap_scripts : IsSorted i.tap_scripts
  pub tap_key_origins : IsSorted i.tap_key_origins
  pub sp_ecdh_shares : IsSorted i.sp_ecdh_shares
  pub sp_dleq_proofs : IsSorted i.sp_dleq_proofs
  pub proprietaries : IsSorted i.proprietaries
  pub unknowns : IsSorted i.unknowns

-- `Input::new`.
unfoldable pub new : OutPoint → Input
new previous_output = record {
  previous_txid = previous_output.txid;
  spent_output_index = previous_output.vout;
  sequence = none;
  min_time = none;
  min_height = none;
  non_witness_utxo = none;
  witness_utxo = none;
  partial_sigs = empty;
  sighash_type = none;
  redeem_script = none;
  witness_script = none;
  bip32_derivations = empty;
  final_script_sig = none;
  final_script_witness = none;
  ripemd160_preimages = empty;
  sha256_preimages = empty;
  hash160_preimages = empty;
  hash256_preimages = empty;
  tap_key_sig = none;
  tap_script_sigs = empty;
  tap_scripts = empty;
  tap_key_origins = empty;
  tap_internal_key = none;
  tap_merkle_root = none;
  sp_ecdh_shares = empty;
  sp_dleq_proofs = empty;
  proprietaries = empty;
  unknowns = empty;
}

-- The scripts that the Finalizer sets.
pub data FinalScripts : Type 0 where
  segwit : Witness → FinalScripts
  wrapped : ScriptBuf → Witness → FinalScripts
  legacy : ScriptBuf → FinalScripts

abbrev pub final_sig : FinalScripts → Option ScriptBuf
final_sig (segwit witness) = none
final_sig (wrapped script_sig witness) = some script_sig
final_sig (legacy script_sig) = some script_sig

abbrev pub final_witness : FinalScripts → Option Witness
final_witness (segwit witness) = some witness
final_witness (wrapped script_sig witness) = some witness
final_witness (legacy script_sig) = none

-- The input that `Input::finalize` builds: the fields that the unsigned transaction, the extractor's checks and BIP-174
-- need stay, and all others are cleared.
unfoldable pub finalized : Input → FinalScripts → Input
finalized i scripts = record {
  previous_txid = i.previous_txid;
  spent_output_index = i.spent_output_index;
  non_witness_utxo = i.non_witness_utxo;
  witness_utxo = i.witness_utxo;
  final_script_sig = final_sig scripts;
  final_script_witness = final_witness scripts;
  sequence = i.sequence;
  min_time = i.min_time;
  min_height = i.min_height;
  partial_sigs = empty;
  sighash_type = none;
  redeem_script = none;
  witness_script = none;
  bip32_derivations = empty;
  ripemd160_preimages = empty;
  sha256_preimages = empty;
  hash160_preimages = empty;
  hash256_preimages = empty;
  tap_key_sig = none;
  tap_script_sigs = empty;
  tap_scripts = empty;
  tap_key_origins = empty;
  tap_internal_key = none;
  tap_merkle_root = none;
  sp_ecdh_shares = i.sp_ecdh_shares;
  sp_dleq_proofs = i.sp_dleq_proofs;
  proprietaries = i.proprietaries;
  unknowns = i.unknowns;
}

-- `Input::lock_time`.
abbrev pub lock_time_of : Option ℕ → Option ℕ → LockTime
lock_time_of (some height) (some _) = blocks height
lock_time_of (some height) none = blocks height
lock_time_of none (some time) = seconds time
lock_time_of none none = blocks 0

unfoldable pub lock_time : Input → LockTime
lock_time i = lock_time_of i.min_height i.min_time

unfoldable pub has_lock_time : Input → Bool
has_lock_time i = is_some i.min_time || is_some i.min_height

unfoldable pub requires_time_based_lock_time : Input → Bool
requires_time_based_lock_time i = is_some i.min_time && is_none i.min_height

unfoldable pub requires_height_based_lock_time : Input → Bool
requires_height_based_lock_time i = is_some i.min_height && is_none i.min_time

unfoldable pub is_satisfied_with_height_based_lock_time : Input → Bool
unfolding requires_height_based_lock_time
is_satisfied_with_height_based_lock_time i =
    requires_height_based_lock_time i
    || (is_some i.min_time && is_some i.min_height || is_none i.min_time && is_none i.min_height)

-- `Input::is_finalized`.
unfoldable pub is_finalized : Input → Bool
is_finalized i = is_some i.final_script_sig || is_some i.final_script_witness

unfoldable pub out_point : Input → OutPoint
out_point i = record { txid = i.previous_txid; vout = i.spent_output_index }

unfoldable pub unsigned_tx_in : Input → TxIn
unfolding out_point
unsigned_tx_in i = record {
  previous_output = out_point i;
  script_sig = [];
  sequence = unwrap_or i.sequence sequence_max;
  witness = [];
}

unfoldable pub signed_tx_in : Input → TxIn
unfolding out_point
signed_tx_in i = record {
  previous_output = out_point i;
  script_sig = unwrap_or i.final_script_sig [];
  sequence = unwrap_or i.sequence sequence_max;
  witness = unwrap_or i.final_script_witness [];
}

module _ (s : SighashTypes) where
  -- An input with no sighash type signs with ALL, or with the taproot default.
  unfoldable pub ecdsa_hash_ty : Input → Outcome SighashError EcdsaSighashType
  ecdsa_hash_ty i = elim i.sighash_type [
    | none ↦ ok EcdsaSighashType.all
    | some t ↦ Sighash.ecdsa_hash_ty s t
  ]

  unfoldable pub taproot_hash_ty : Input → Outcome SighashError TapSighashType
  taproot_hash_ty i = elim i.sighash_type [
    | none ↦ ok TapSighashType.default
    | some t ↦ Sighash.taproot_hash_ty s t
  ]
