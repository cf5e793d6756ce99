-- ===== src/Output.antt =====
-- src/map/output.rs: the output map of a version 2 PSBT, with the feature `silent-payments`.
pub mod Combine
pub mod Laws
pub mod Decoder
pub mod Encoder
pub mod RoundTrip
use rust_psbt.Prelude.{
  ℕ, ◌≡◌, Bool, true, false, ◌&&◌, Option, none, some, List, [], ◌∷◌, ◌++◌, is_some, is_none,
  Outcome, ok, err, fail_if,
}
use rust_psbt.Ordered.{nat_ord, pair_ord}
use rust_psbt.BTreeMap.{BTreeMap, empty, IsSorted}
use rust_psbt.Primitives.{Byte, ScriptBuf, PublicKey, XOnlyPublicKey, TapLeafHash, KeySource, TxOut}
use rust_psbt.Keys.{Key, ProprietaryKey, key_ord, proprietary_ord}

-- `SpV0Info` of src/silent_payments/sp_v0_info.rs: the scan key and the spend key.
pub record SpV0Info : Type 0 where
  pub scan_key : PublicKey
  pub spend_key : PublicKey

pub record Output : Type 0 where
  pub amount : ℕ
  pub script_pubkey : ScriptBuf
  pub redeem_script : Option ScriptBuf
  pub witness_script : Option ScriptBuf
  pub bip32_derivations : BTreeMap PublicKey KeySource
  pub tap_internal_key : Option XOnlyPublicKey
  pub tap_tree : Option ℕ
  pub tap_key_origins : BTreeMap XOnlyPublicKey (List TapLeafHash × KeySource)
  pub sp_v0_info : Option SpV0Info
  pub sp_v0_label : Option ℕ
  pub proprietaries : BTreeMap ProprietaryKey (List Byte)
  pub unknowns : BTreeMap Key (List Byte)

-- What the type `BTreeMap` gives for each map of the output.
pub record IsWellFormed (o : Output) : Type 0 where
  pub bip32_derivations : IsSorted o.bip32_derivations
  pub tap_key_origins : IsSorted o.tap_key_origins
  pub proprietaries : IsSorted o.proprietaries
  pub unknowns : IsSorted o.unknowns

unfoldable pub new : TxOut → Output
new utxo = record {
  amount = utxo.value;
  script_pubkey = utxo.script_pubkey;
  redeem_script = none;
  witness_script = none;
  bip32_derivations = empty;
  tap_internal_key = none;
  tap_tree = none;
  tap_key_origins = empty;
  sp_v0_info = none;
  sp_v0_label = none;
  proprietaries = empty;
  unknowns = empty;
}

unfoldable pub tx_out : Output → TxOut
tx_out o = record { value = o.amount; script_pubkey = o.script_pubkey }

pub data ValidationError : Type 0 where
  sp_label_without_info : ValidationError

unfoldable pub validate : Output → Outcome ValidationError (Unit {0})
validate o = fail_if (is_some o.sp_v0_label && is_none o.sp_v0_info) sp_label_without_info

-- The output that identifies the transaction: a silent payment output stands there as a zero byte,
-- the scan key and the spend key. `to_bytes` is upstream's serialization of a compressed key.
unfoldable pub id_tx_out : (PublicKey → List Byte) → Output → TxOut
unfolding tx_out
id_tx_out to_bytes o = elim o.sp_v0_info [
  | none ↦ tx_out o
  | some info ↦ record {
    value = o.amount;
    script_pubkey = 0 ∷ (to_bytes info.scan_key ++ to_bytes info.spend_key);
  }
]
