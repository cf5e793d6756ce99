-- ===== src/Roles/Updater.antt =====
-- src/roles/updater.rs: the Updater, which lends fields to a closure.
use rust_psbt.Prelude.{ℕ, ◌≡◌, refl, length, List, Outcome, map_ok, expect_ok, ◌>>=◌}
use rust_psbt.Primitives.{Byte, PublicKey, Txid, Transaction, KeySource}
use rust_psbt.BTreeMap.{BTreeMap}
use rust_psbt.Keys.{Key, ProprietaryKey}
use rust_psbt.Global.{Xpub}
use rust_psbt.Input.{Input}
use rust_psbt.Output.{Output}
use rust_psbt.Psbt as Psbts
use rust_psbt.Psbt.{Psbt, DetermineLockTimeError, determine_lock_time}
use rust_psbt.Roles.Constructor.{Updater}
use rust_psbt.Roles.Signer as Signers
use rust_psbt.Roles.Signer.{Signer}

-- The maps of the global map that an Updater writes.
pub record UpdaterGlobalView : Type 0 where
  pub xpubs : BTreeMap Xpub KeySource
  pub sp_ecdh_shares : BTreeMap PublicKey PublicKey
  pub sp_dleq_proofs : BTreeMap PublicKey ℕ
  pub proprietaries : BTreeMap ProprietaryKey (List Byte)
  pub unknowns : BTreeMap Key (List Byte)

-- `&mut [A]` of `n` elements: they can be written, none added or removed.
pub record Slice (A : Type 0) (n : ℕ) : Type 0 where
  pub items : List A
  pub count : length items ≡ n

pub record UpdaterView (n m : ℕ) : Type 0 where
  pub global : UpdaterGlobalView
  pub inputs : Slice Input n
  pub outputs : Slice Output m

-- The view of a PSBT.
abbrev pub ViewOf : Psbt → Type 0
ViewOf p = UpdaterView (length p.inputs) (length p.outputs)

unfoldable pub new : Psbt → Outcome DetermineLockTimeError Updater
new p = map_ok (λ _. record { psbt = p }) (determine_lock_time p)

-- `self.0.id().expect(..)`.
unfoldable pub id :
    (Transaction → Txid) → (PublicKey → List Byte) → Updater → Outcome DetermineLockTimeError Txid
id compute_txid to_bytes u = expect_ok (Psbts.id compute_txid to_bytes u.psbt)

unfoldable pub lend : (p : Psbt) → ViewOf p
lend p = record {
  global = record {
    xpubs = p.global.xpubs;
    sp_ecdh_shares = p.global.sp_ecdh_shares;
    sp_dleq_proofs = p.global.sp_dleq_proofs;
    proprietaries = p.global.proprietaries;
    unknowns = p.global.unknowns;
  };
  inputs = record { items = p.inputs; count = refl };
  outputs = record { items = p.outputs; count = refl };
}

-- What the PSBT is once the closure has written through the view.
unfoldable pub write_back : (p : Psbt) → ViewOf p → Psbt
write_back p v = record {
  global = record (p.global) {
    xpubs = v.global.xpubs;
    sp_ecdh_shares = v.global.sp_ecdh_shares;
    sp_dleq_proofs = v.global.sp_dleq_proofs;
    proprietaries = v.global.proprietaries;
    unknowns = v.global.unknowns;
  };
  inputs = v.inputs.items;
  outputs = v.outputs.items;
}

-- The closure gives its value and what it leaves in the view.
unfoldable pub update {ℓ} :
    {T : Type ℓ} (u : Updater) → (ViewOf u.psbt → T × ViewOf u.psbt) → T × Updater
unfolding lend write_back
update u f =
    let (value, view) = f (lend u.psbt) in (value, record { psbt = write_back u.psbt view })

unfoldable pub into_psbt : Updater → Outcome DetermineLockTimeError Psbt
into_psbt u = map_ok (λ _. u.psbt) (determine_lock_time u.psbt)

unfoldable pub signer : Updater → Outcome DetermineLockTimeError Signer
unfolding into_psbt
signer u = into_psbt u >>= Signers.new
