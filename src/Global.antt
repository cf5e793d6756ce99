-- ===== src/Global.antt =====
-- src/map/global.rs: the global map of a version 2 PSBT, with the feature `silent-payments`.
-- An extended public key stands for its rank, a count for a `usize`.
pub mod Combine
pub mod Xpubs
pub mod Laws
pub mod Decoder
pub mod Encoder
use rust_psbt.Prelude.{ℕ, Option, none, List}
use rust_psbt.Ordered.{nat_ord}
use rust_psbt.BTreeMap.{BTreeMap, empty, IsSorted}
use rust_psbt.Primitives.{Byte, PublicKey, KeySource, LockTime}
use rust_psbt.Flags
use rust_psbt.Flags.{TxModifiableFlags}
use rust_psbt.Keys.{Key, ProprietaryKey, key_ord, proprietary_ord}

abbrev pub Xpub : Type 0
Xpub = ℕ

pub record Global : Type 0 where
  pub version : ℕ
  pub tx_version : ℕ
  pub fallback_lock_time : Option LockTime
  pub tx_modifiable_flags : TxModifiableFlags
  pub input_count : ℕ
  pub output_count : ℕ
  pub xpubs : BTreeMap Xpub KeySource
  pub sp_ecdh_shares : BTreeMap PublicKey PublicKey
  pub sp_dleq_proofs : BTreeMap PublicKey ℕ
  pub proprietaries : BTreeMap ProprietaryKey (List Byte)
  pub unknowns : BTreeMap Key (List Byte)

-- What the type `BTreeMap` gives for each map of the global map.
pub record IsWellFormed (g : Global) : Type 0 where
  pub xpubs : IsSorted g.xpubs
  pub sp_ecdh_shares : IsSorted g.sp_ecdh_shares
  pub sp_dleq_proofs : IsSorted g.sp_dleq_proofs
  pub proprietaries : IsSorted g.proprietaries
  pub unknowns : IsSorted g.unknowns

-- `Global::new`, with `V2` and `transaction::Version::TWO`.
unfoldable pub new : Global
new = record {
  version = 2;
  tx_version = 2;
  fallback_lock_time = none;
  tx_modifiable_flags = Flags.new;
  input_count = 0;
  output_count = 0;
  xpubs = empty;
  sp_ecdh_shares = empty;
  sp_dleq_proofs = empty;
  proprietaries = empty;
  unknowns = empty;
}
