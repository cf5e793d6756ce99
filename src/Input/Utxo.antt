-- ===== src/Input/Utxo.antt =====
-- The output that an input spends: `funding_utxo`, `funding_utxo_untrusted` and the output types.
-- What upstream computes is an argument: the id of a transaction, and the classes of a script.
use rust_psbt.Prelude.{
  ℕ, Bool, true, false, not, ◌&&◌, ◌||◌, Option, none, some, ◌==◌, bytes_eq, get_elem?, length,
  Outcome, ok, err, panicked, map_err, map_ok, ok_or, ◌>>=◌, if◌then◌else◌,
}
use rust_psbt.Primitives.{Txid, ScriptBuf, TxOut, Transaction}
use rust_psbt.Input.{Input, FinalScripts, finalized}

-- `FundingUtxoError`.
pub data FundingUtxoError : Type 0 where
  mismatching_txid missing_utxo mismatching_utxos unverifiable_utxo : FundingUtxoError
  out_of_bounds : ℕ → ℕ → FundingUtxoError

-- The predicates of `Script`.
pub record ScriptClasses : Type 0 where
  pub is_witness_program : ScriptBuf → Bool
  pub is_p2sh : ScriptBuf → Bool
  pub is_p2wpkh : ScriptBuf → Bool
  pub is_p2wsh : ScriptBuf → Bool
  pub is_p2tr : ScriptBuf → Bool

-- `OutputType` and `SigningAlgorithm` of src/psbt.rs.
pub data OutputType : Type 0 where
  bare wpkh wsh sh_wpkh sh_wsh sh tr : OutputType

pub data SigningAlgorithm : Type 0 where
  ecdsa schnorr : SigningAlgorithm

abbrev pub algorithm : OutputType → SigningAlgorithm
algorithm tr = schnorr
algorithm _ = ecdsa

-- The variants of `SignError` that the modelled code returns.
pub data SignError : Type 0 where
  index_out_of_bounds_inputs : ℕ → ℕ → SignError
  index_out_of_bounds_count : ℕ → ℕ → SignError
  funding_utxo_error : FundingUtxoError → SignError
  invalid_sighash_type missing_redeem_script missing_witness_script unknown_output_type : SignError
  non_witness_sig redeem_script_mismatch witness_script_mismatch_wsh : SignError
  witness_script_mismatch_sh_wsh sighash_mismatch sighash_single_missing_output : SignError
  all_prevouts_required taproot_internal_key_mismatch : SignError

-- `TxOut == TxOut`, derived.
unfoldable pub tx_out_eq : TxOut → TxOut → Bool
tx_out_eq a b = (a.value == b.value) && bytes_eq a.script_pubkey b.script_pubkey

-- `tx.output.get(vout).ok_or(OutOfBounds { .. })`.
unfoldable pub output_at : Transaction → ℕ → Outcome FundingUtxoError TxOut
output_at tx vout = ok_or (get_elem? tx.output vout) (out_of_bounds vout (length tx.output))

-- The arms of `match (&self.witness_utxo, &self.non_witness_utxo)`, the guard of the first in front.
unfoldable pub select_utxo : Option TxOut → Option Transaction → ℕ → Outcome FundingUtxoError TxOut
unfolding output_at tx_out_eq
select_utxo (some utxo) none vout = ok utxo
select_utxo (some utxo) (some tx) vout = do
  txout ← output_at tx vout
  if not (tx_out_eq txout utxo) then err mismatching_utxos else ok utxo
select_utxo none (some tx) vout = output_at tx vout
select_utxo none none vout = err missing_utxo

module _ (compute_txid : Transaction → Txid) where
  unfoldable pub txid_differs : Option Transaction → Txid → Bool
  txid_differs none txid = false
  txid_differs (some tx) txid = not (compute_txid tx == txid)

  unfoldable pub funding_utxo : Input → Outcome FundingUtxoError TxOut
  unfolding txid_differs select_utxo
  funding_utxo i =
      if txid_differs i.non_witness_utxo i.previous_txid
      then err mismatching_txid
      else select_utxo i.witness_utxo i.non_witness_utxo i.spent_output_index

  unfoldable pub has_funding_utxo : Input → Bool
  has_funding_utxo i = elim (funding_utxo i) [ ok utxo ↦ true | _ ↦ false ]

  -- `Input::finalize`. The flag says whether the build has debug assertions, which panic.
  unfoldable pub finalize : Bool → Input → FinalScripts → Outcome FundingUtxoError Input
  unfolding has_funding_utxo
  finalize debug_assertions i scripts =
      if debug_assertions && not (has_funding_utxo i) then panicked else ok (finalized i scripts)

  module _ (c : ScriptClasses) where
    unfoldable pub funding_utxo_untrusted : Input → Outcome FundingUtxoError TxOut
    unfolding funding_utxo
    funding_utxo_untrusted i = elim i.witness_utxo [
      | none ↦ funding_utxo i
      | some utxo ↦ elim i.non_witness_utxo [
        | none ↦
            if not (c.is_p2tr utxo.script_pubkey) then err unverifiable_utxo else funding_utxo i
        | some tx ↦ funding_utxo i
      ]
    ]

    abbrev script_is : (ScriptBuf → Bool) → Option ScriptBuf → Bool
    script_is test none = false
    script_is test (some script) = test script

    unfoldable pub output_type_from_spk : Input → ScriptBuf → Outcome SignError OutputType
    output_type_from_spk i spk =
        if not (c.is_witness_program spk || c.is_p2sh spk)
        then ok bare
        else (if c.is_p2wpkh spk
            then ok wpkh
            else (if c.is_p2wsh spk
                then ok wsh
                else (if c.is_p2sh spk
                    then (if script_is c.is_p2wpkh i.redeem_script
                        then ok sh_wpkh
                        else (if script_is c.is_p2wsh i.redeem_script then ok sh_wsh else ok sh))
                    else (if c.is_p2tr spk then ok tr else err unknown_output_type))))

    unfoldable pub output_type : Input → Outcome SignError OutputType
    unfolding output_type_from_spk
    output_type i = do
      utxo ← map_err funding_utxo_error (funding_utxo i)
      output_type_from_spk i utxo.script_pubkey

    unfoldable pub output_type_untrusted : Input → Outcome SignError OutputType
    unfolding output_type_from_spk
    output_type_untrusted i = do
      utxo ← map_err funding_utxo_error (funding_utxo_untrusted i)
      output_type_from_spk i utxo.script_pubkey

    unfoldable pub signing_algorithm : Input → Outcome SignError SigningAlgorithm
    unfolding output_type
    signing_algorithm i = map_ok algorithm (output_type i)
