-- ===== src/Roles/Signer.antt =====
-- src/roles/signer.rs: the Signer's state, and `apply`, which writes signatures into the PSBT.
-- The cache of a Signer is the unsigned transaction it is committed to.
use rust_psbt.Prelude.{
  ℕ, Bool, List, [], ◌∷◌, length, set, ◌==◌, some, Outcome, ok, panicked, map_err, expect_ok, ◌>>=◌,
  if◌then◌else◌,
}
use rust_psbt.Primitives.{
  Txid, Byte, PublicKey, XOnlyPublicKey, TapLeafHash, Transaction, EcdsaSignature, TaprootSignature,
  EcdsaSighashType,
}
use rust_psbt.Ordered.{nat_ord, pair_ord}
use rust_psbt.BTreeMap.{insert}
use rust_psbt.Sighash.{SighashTypes, from_ecdsa, from_tap}
use rust_psbt.Input.{Input}
use rust_psbt.Input.Utxo.{SignError, index_out_of_bounds_inputs, index_out_of_bounds_count}
use rust_psbt.Psbt as Psbts
use rust_psbt.Psbt.{
  Psbt, DetermineLockTimeError, IndexOutOfBoundsError, checked_input, clear_tx_modifiable,
}

pub record Signer : Type 0 where
  pub psbt : Psbt
  pub cache : Transaction

unfoldable pub new : Psbt → Outcome DetermineLockTimeError Signer
new p = do tx ← Psbts.unsigned_tx p; ok (record { psbt = p; cache = tx })

unfoldable pub id :
    (Transaction → Txid) → (PublicKey → List Byte) → Signer → Outcome DetermineLockTimeError Txid
id compute_txid to_bytes s = expect_ok (Psbts.id compute_txid to_bytes s.psbt)

unfoldable pub unsigned_tx : Signer → Outcome DetermineLockTimeError Transaction
unsigned_tx s = expect_ok (Psbts.unsigned_tx s.psbt)

pub data TapKeyMaterial : Type 0 where
  key_path : XOnlyPublicKey → TapKeyMaterial
  script_path : XOnlyPublicKey × TapLeafHash → TapKeyMaterial

pub data TypedSigs : Type 0 where
  ecdsa : List (PublicKey × EcdsaSignature) → TypedSigs
  taproot : List (TapKeyMaterial × TaprootSignature) → TypedSigs

pub record InputSigs : Type 0 where
  pub index : ℕ
  pub signatures : TypedSigs

abbrev pub len : TypedSigs → ℕ
len (ecdsa items) = length items
len (taproot items) = length items

unfoldable pub is_empty : TypedSigs → Bool
is_empty s = len s == 0

-- `From<IndexOutOfBoundsError> for SignError`.
abbrev pub index_error : IndexOutOfBoundsError → SignError
index_error (Psbts.inputs index n) = index_out_of_bounds_inputs index n
index_error (Psbts.count index n) = index_out_of_bounds_count index n

-- `for (pk, sig) in signatures`, on the input.
unfoldable pub insert_ecdsa : List (PublicKey × EcdsaSignature) → Input → Input
insert_ecdsa [] i = i
insert_ecdsa ((pk, sig) ∷ rest) i =
    insert_ecdsa rest (record i { partial_sigs = insert pk sig i.partial_sigs })

abbrev pub insert_material : TapKeyMaterial → TaprootSignature → Input → Input
insert_material (key_path key) sig i = record i { tap_key_sig = some sig }
insert_material (script_path material) sig i = record i {
  tap_script_sigs = insert material sig i.tap_script_sigs;
}

-- `for (tap_key_material, sig) in signatures`, on the input.
unfoldable pub insert_taproot : List (TapKeyMaterial × TaprootSignature) → Input → Input
insert_taproot [] i = i
insert_taproot ((material, sig) ∷ rest) i = insert_taproot rest (insert_material material sig i)

abbrev pub write_input : ℕ → Input → Psbt → Psbt
write_input index i p = record p { inputs = set p.inputs index i }

module _ (s : SighashTypes) where
  -- The two arms; the `expect` on the first signature is behind the test for emptiness.
  unfoldable pub write_sigs : Psbt → ℕ → Input → TypedSigs → Outcome SignError Psbt
  write_sigs p index i (ecdsa []) = panicked
  write_sigs p index i (ecdsa ((pk, sig) ∷ rest)) = ok (
      clear_tx_modifiable s (from_ecdsa s sig.sighash_type)
        (write_input index (insert_ecdsa ((pk, sig) ∷ rest) i) p))
  write_sigs p index i (taproot []) = panicked
  write_sigs p index i (taproot ((material, sig) ∷ rest)) = ok (
      clear_tx_modifiable s (from_tap s sig.sighash_type)
        (write_input index (insert_taproot ((material, sig) ∷ rest) i) p))

  -- One round of the loop.
  unfoldable pub apply_one : Psbt → InputSigs → Outcome SignError Psbt
  apply_one p sigs = do
    i ← map_err index_error (checked_input p sigs.index)
    if is_empty sigs.signatures then ok p else write_sigs p sigs.index i sigs.signatures

  unfoldable pub apply_all : Psbt → List InputSigs → Outcome SignError Psbt
  apply_all p [] = ok p
  apply_all p (sigs ∷ rest) = apply_one p sigs >>= λ q. apply_all q rest

  -- `Signer::apply`.
  unfoldable pub apply : Signer → List InputSigs → Outcome SignError Psbt
  apply signer sigs = apply_all signer.psbt sigs

  unfoldable pub ecdsa_clear_tx_modifiable : EcdsaSighashType → Signer → Signer
  ecdsa_clear_tx_modifiable t signer = record signer {
    psbt = clear_tx_modifiable s (from_ecdsa s t) signer.psbt;
  }
