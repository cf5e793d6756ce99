-- ===== src/Psbt/Amounts.antt =====
-- `Psbt::fee`, `iter_funding_utxos` and the check of the sighash types of the partial signatures in
-- src/psbt.rs. Satoshis are `u64`: a sum is checked against `2^64`.
pub mod Laws
use rust_psbt.Prelude.{
  ℕ, ◌≡◌, Bool, true, false, Option, none, some, List, [], ◌∷◌, map, Outcome, ok, err, ok_or,
  map_err, ◌>>=◌, ◌>>◌, fail_if, not, ltb, ◌+◌, ◌-◌, ◌^◌, if◌then◌else◌,
}
use rust_psbt.Primitives.{Transaction, Txid, TxOut, PublicKey, EcdsaSignature, EcdsaSighashType}
use rust_psbt.Sighash.{SighashTypes, SighashError}
use rust_psbt.Input.{Input}
use rust_psbt.Input.Utxo.{FundingUtxoError, funding_utxo}
use rust_psbt.Output.{Output}
use rust_psbt.Psbt.{Psbt}

-- `FeeError`.
pub data FeeError : Type 0 where
  funding_utxo_error : FundingUtxoError → FeeError
  input_overflow output_overflow negative : FeeError

unfoldable pub checked_add : ℕ → ℕ → Option ℕ
checked_add a b = if ltb (a + b) (2 ^ 64) then some (a + b) else none

unfoldable pub checked_sub : ℕ → ℕ → Option ℕ
checked_sub a b = if ltb a b then none else some (a - b)

module _ (compute_txid : Transaction → Txid) where
  unfoldable pub iter_funding_utxos : Psbt → List (Outcome FundingUtxoError TxOut)
  iter_funding_utxos p = map (funding_utxo compute_txid) p.inputs

  -- `for input in self.iter_funding_utxos()`, from the value so far.
  unfoldable pub input_sum : ℕ → List (Outcome FundingUtxoError TxOut) → Outcome FeeError ℕ
  input_sum value [] = ok value
  input_sum value (input ∷ rest) = do
    utxo ← map_err funding_utxo_error input
    value' ← ok_or (checked_add value utxo.value) input_overflow
    input_sum value' rest

  -- `for output in &self.outputs`, from the value so far.
  unfoldable pub output_sum : ℕ → List Output → Outcome FeeError ℕ
  output_sum value [] = ok value
  output_sum value (output ∷ rest) = do
    value' ← ok_or (checked_add value output.amount) output_overflow
    output_sum value' rest

  unfoldable pub fee : Psbt → Outcome FeeError ℕ
  unfolding iter_funding_utxos
  fee p = do
    input_value ← input_sum 0 (iter_funding_utxos p)
    output_value ← output_sum 0 p.outputs
    ok_or (checked_sub input_value output_value) negative
