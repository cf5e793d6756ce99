-- ===== src/Roles/Finalizer.antt =====
-- src/roles/finalizer/role.rs: what a Finalizer asks of a PSBT.
use rust_psbt.Prelude.{
  ◌≡◌, ◌↔◌, refl, List, [], ◌∷◌, All, Outcome, ok, map_err, expect_ok, ◌>>=◌, ◌>>◌, >>=-eq-ok,
}
use rust_psbt.Primitives.{Transaction, Txid, TxOut, PublicKey, Byte, LockTime}
use rust_psbt.Sighash.{SighashTypes}
use rust_psbt.Input.{Input}
use rust_psbt.Input.Utxo.{FundingUtxoError, funding_utxo}
use rust_psbt.Psbt as Psbts
use rust_psbt.Psbt.{Psbt, DetermineLockTimeError, determine_lock_time}
use rust_psbt.Psbt.Combine.Zip.{map_err-eq-ok}
use rust_psbt.Psbt.PartialSigs.{
  PartialSigsSighashTypeError, check_partial_sigs_sighash_type, ReadsBack, Agrees,
  check_partial_sigs_iff,
}

pub record Finalizer : Type 0 where
  pub psbt : Psbt

-- `Error` of the Finalizer.
pub data Error : Type 0 where
  funding_utxo_error : FundingUtxoError → Error
  determine_lock_time_error : DetermineLockTimeError → Error
  partial_sigs_sighash_type : PartialSigsSighashTypeError → Error

module _ (compute_txid : Transaction → Txid) (s : SighashTypes) where
  -- `for input in psbt.inputs.iter() { let _ = input.funding_utxo()?; }`.
  unfoldable pub all_funded : List Input → Outcome Error (Unit {0})
  all_funded [] = ok tt
  all_funded (i ∷ is) = do
    utxo ← map_err funding_utxo_error (funding_utxo compute_txid i)
    all_funded is

  unfoldable pub new : Psbt → Outcome Error Finalizer
  unfolding all_funded
  new p = do
    all_funded p.inputs
    l ← map_err determine_lock_time_error (determine_lock_time p)
    map_err partial_sigs_sighash_type (check_partial_sigs_sighash_type s p)
    ok (record { psbt = p })

  unfoldable pub id : (PublicKey → List Byte) → Finalizer → Outcome Error Txid
  id to_bytes f = expect_ok (Psbts.id compute_txid to_bytes f.psbt)

  -- An input whose funding output is known.
  abbrev pub IsFunded : Input → Type 0
  IsFunded i = (t : TxOut) × (funding_utxo compute_txid i ≡ ok t)

  IsFunded-All : (is : List Input) → all_funded is ≡ ok tt → All IsFunded is
  unfolding all_funded
  IsFunded-All [] h = tt
  IsFunded-All (i ∷ is) h =
      let (t, e, k) = >>=-eq-ok (map_err funding_utxo_error (funding_utxo compute_txid i)) _ h in
      ((t, map_err-eq-ok funding_utxo_error _ e), IsFunded-All is k)

  all_funded_ok : (is : List Input) → All IsFunded is → all_funded is ≡ ok tt
  unfolding all_funded
  all_funded_ok [] h = refl
  all_funded_ok (i ∷ is) ((t, e), h) = rw e (all_funded_ok is h)

-- A Finalizer is made of exactly the PSBTs whose inputs all have a funding output, whose lock time
-- can be determined, and whose partial signatures have the sighash type of their input.
pub finalizable_iff :
    (compute_txid : Transaction → Txid) (s : SighashTypes) (p : Psbt)
    → ReadsBack s
    → (new compute_txid s p ≡ ok (record { psbt = p })) ↔ (
        All (IsFunded compute_txid s) p.inputs
        × ((l : LockTime) × (determine_lock_time p ≡ ok l))
        × All (Agrees s) p.inputs)
unfolding new
finalizable_iff c s p reads = (forth, λ (a, (l, d), g). back a l d g)
  where
    forth :
        new c s p ≡ ok (record { psbt = p })
        → All (IsFunded c s) p.inputs
          × ((l : LockTime) × (determine_lock_time p ≡ ok l))
          × All (Agrees s) p.inputs
    forth h =
        let (_, e, h1) = >>=-eq-ok (all_funded c s p.inputs) _ h in
        let (l, e1, h2) =
          >>=-eq-ok (map_err determine_lock_time_error (determine_lock_time p)) _ h1 in
        let (_, e2, h3) =
          >>=-eq-ok (map_err partial_sigs_sighash_type (check_partial_sigs_sighash_type s p)) _
            h2 in
        (
          IsFunded-All c s p.inputs e,
          (l, map_err-eq-ok determine_lock_time_error _ e1),
          (check_partial_sigs_iff s p reads).0 (map_err-eq-ok partial_sigs_sighash_type _ e2),
        )

    back :
        All (IsFunded c s) p.inputs
        → (l : LockTime) → determine_lock_time p ≡ ok l
        → All (Agrees s) p.inputs
        → new c s p ≡ ok (record { psbt = p })
    back a l d g = rw (all_funded_ok c s p.inputs a, d, (check_partial_sigs_iff s p reads).1 g) refl
