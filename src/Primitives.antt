-- ===== src/Primitives.antt =====
-- Types of the `bitcoin` crate that rust-psbt stores, builds by literals and matches on.
-- A value of an upstream type with a fixed size (hash, public key, signature, index, amount) is a
-- number: its rank in the order of the type, which is finite. Scripts, witnesses and paths are
-- sequences. What upstream computes with such values is an argument of the definitions that call it.
use rust_psbt.Prelude.{ℕ, List}

abbrev pub Byte : Type 0
Byte = ℕ

abbrev pub Txid : Type 0
Txid = ℕ

abbrev pub ScriptBuf : Type 0
ScriptBuf = List Byte

abbrev pub Witness : Type 0
Witness = List (List Byte)

abbrev pub PublicKey : Type 0
PublicKey = ℕ

abbrev pub XOnlyPublicKey : Type 0
XOnlyPublicKey = ℕ

abbrev pub TapLeafHash : Type 0
TapLeafHash = ℕ

abbrev pub Fingerprint : Type 0
Fingerprint = ℕ

-- The child numbers of a derivation path.
abbrev pub DerivationPath : Type 0
DerivationPath = List ℕ

-- `bip32::KeySource`.
abbrev pub KeySource : Type 0
KeySource = Fingerprint × DerivationPath

-- `absolute::LockTime`, which `From<Height>` and `From<Time>` build.
pub data LockTime : Type 0 where
  blocks : ℕ → LockTime
  seconds : ℕ → LockTime

pub record OutPoint : Type 0 where
  pub txid : Txid
  pub vout : ℕ

pub record TxIn : Type 0 where
  pub previous_output : OutPoint
  pub script_sig : ScriptBuf
  pub sequence : ℕ
  pub witness : Witness

-- The value is in satoshis.
pub record TxOut : Type 0 where
  pub value : ℕ
  pub script_pubkey : ScriptBuf

pub record Transaction : Type 0 where
  pub version : ℕ
  pub lock_time : LockTime
  pub input : List TxIn
  pub output : List TxOut

-- `sighash::EcdsaSighashType` and `sighash::TapSighashType`.
pub data EcdsaSighashType : Type 0 where
  all none single : EcdsaSighashType
  all_plus_anyone_can_pay none_plus_anyone_can_pay single_plus_anyone_can_pay : EcdsaSighashType

pub data TapSighashType : Type 0 where
  default all none single : TapSighashType
  all_plus_anyone_can_pay none_plus_anyone_can_pay single_plus_anyone_can_pay : TapSighashType

-- `ecdsa::Signature` and `taproot::Signature`.
pub record EcdsaSignature : Type 0 where
  pub signature : ℕ
  pub sighash_type : EcdsaSighashType

pub record TaprootSignature : Type 0 where
  pub signature : ℕ
  pub sighash_type : TapSighashType

-- `Sequence::MAX` and `Sequence::ZERO`.
abbrev pub sequence_max : ℕ
sequence_max = 0xffff_ffff

abbrev pub sequence_zero : ℕ
sequence_zero = 0
