-- ===== src/Roles/Extractor.antt =====
-- src/roles/extractor.rs: the Extractor, with the feature `silent-payments`. The weight of a
-- transaction and its id come from upstream.
use rust_psbt.Prelude.{
  ℕ, Bool, true, false, not, ◌&&◌, any, map, min, ltb, ◌==◌, is_some, Option, none, some, List, [],
  ◌∷◌, suc, ◌*◌, ◌-◌, ◌^◌, ◌/◌, Outcome, ok, err, panicked, map_err, fail_if, ◌>>=◌, ◌>>◌,
  if◌then◌else◌,
}
use rust_psbt.Psbt as Psbts
use rust_psbt.Prelude.{expect_ok}
use rust_psbt.Primitives.{Byte, PublicKey, Transaction, Txid}
use rust_psbt.Input.{is_finalized, signed_tx_in}
use rust_psbt.Output.{Output, tx_out}
use rust_psbt.Psbt.{Psbt, DetermineLockTimeError, determine_lock_time, all_finalized}
use rust_psbt.Psbt.Amounts.{FeeError, fee}

pub record Extractor : Type 0 where
  pub psbt : Psbt

-- `ExtractError`, of `new`.
pub data ExtractError : Type 0 where
  psbt_not_finalized : ExtractError
  determine_lock_time_failed : DetermineLockTimeError → ExtractError
  silent_payment_output_script_not_computed : ℕ → ExtractError

-- `ExtractTxError`, of `internal_extract_tx`.
pub data ExtractTxError : Type 0 where
  unfinalized : ExtractTxError
  determine_lock_time_failed : DetermineLockTimeError → ExtractTxError
  silent_payment_output_script_not_computed : ℕ → ExtractTxError

-- `ExtractTxFeeRateError`; a fee rate is in satoshis per 1000 weight units.
pub data ExtractTxFeeRateError : Type 0 where
  fee_error : FeeError → ExtractTxFeeRateError
  extract_tx_error : ExtractTxError → ExtractTxFeeRateError
  fee_too_high : ℕ → ℕ → ExtractTxFeeRateError

abbrev pub is_uncomputed : Output → Bool
is_uncomputed o = is_some o.sp_v0_info && is_empty o.script_pubkey
  where
    is_empty : List ℕ → Bool
    is_empty [] = true
    is_empty (b ∷ bs) = false

-- `iter().position(..)`.
unfoldable pub position : List Output → Option ℕ
position [] = none
position (o ∷ os) =
    if is_uncomputed o then some 0 else (elim (position os) [ none ↦ none | some i ↦ some (suc i) ])

unfoldable pub uncomputed_silent_payment_output : Psbt → Option ℕ
uncomputed_silent_payment_output p = position p.outputs

-- `if let Some(index) = .. { return Err(..) }`.
abbrev pub refuse {ℓ} : {E : Type ℓ} → (ℕ → E) → Option ℕ → Outcome E (Unit {0})
refuse error none = ok tt
refuse error (some index) = err (error index)

unfoldable pub new : Psbt → Outcome ExtractError Extractor
unfolding uncomputed_silent_payment_output
new p = do
  fail_if (any (λ i. not (is_finalized i)) p.inputs) psbt_not_finalized
  l ← map_err ExtractError.determine_lock_time_failed (determine_lock_time p)
  refuse ExtractError.silent_payment_output_script_not_computed (uncomputed_silent_payment_output p)
  ok (record { psbt = p })

unfoldable pub internal_extract_tx : Extractor → Outcome ExtractTxError Transaction
unfolding uncomputed_silent_payment_output
internal_extract_tx x = do
  fail_if (not (all_finalized x.psbt)) unfinalized
  lock_time ← map_err ExtractTxError.determine_lock_time_failed (determine_lock_time x.psbt)
  refuse ExtractTxError.silent_payment_output_script_not_computed
      (uncomputed_silent_payment_output x.psbt)
  ok (record {
    version = x.psbt.global.tx_version;
    lock_time = lock_time;
    input = map signed_tx_in x.psbt.inputs;
    output = map tx_out x.psbt.outputs;
  })

-- `u64::saturating_mul`.
abbrev pub saturating_mul : ℕ → ℕ → ℕ
saturating_mul a b = min (a * b) (2 ^ 64 - 1)

-- 25,000 satoshis per virtual byte, a fourth of it per weight unit.
abbrev pub default_max_fee_rate : ℕ
default_max_fee_rate = 6_250_000

module _ (compute_txid : Transaction → Txid) (weight : Transaction → ℕ) where
  -- The division panics on a transaction of no weight.
  unfoldable pub fee_rate : ℕ → Transaction → Outcome ExtractTxFeeRateError ℕ
  fee_rate sats tx = if weight tx == 0 then panicked else ok (saturating_mul sats 1000 / weight tx)

  unfoldable pub internal_extract_tx_with_fee_rate_limit :
      ℕ → Extractor → Outcome ExtractTxFeeRateError Transaction
  unfolding internal_extract_tx fee_rate
  internal_extract_tx_with_fee_rate_limit max_fee_rate x = do
    sats ← map_err fee_error (fee compute_txid x.psbt)
    tx ← map_err extract_tx_error (internal_extract_tx x)
    rate ← fee_rate sats tx
    if ltb max_fee_rate rate then err (fee_too_high rate max_fee_rate) else ok tx

  unfoldable pub extract_tx : Extractor → Outcome ExtractTxFeeRateError Transaction
  unfolding internal_extract_tx_with_fee_rate_limit
  extract_tx x = internal_extract_tx_with_fee_rate_limit default_max_fee_rate x

  unfoldable pub extract_tx_with_fee_rate_limit :
      ℕ → Extractor → Outcome ExtractTxFeeRateError Transaction
  unfolding internal_extract_tx_with_fee_rate_limit
  extract_tx_with_fee_rate_limit limit x = internal_extract_tx_with_fee_rate_limit limit x

  unfoldable pub extract_tx_unchecked_fee_rate : Extractor → Outcome ExtractTxError Transaction
  extract_tx_unchecked_fee_rate x = internal_extract_tx x

unfoldable pub id :
    (Transaction → Txid) → (PublicKey → List Byte) → Extractor → Outcome ExtractError Txid
id compute_txid to_bytes x = expect_ok (Psbts.id compute_txid to_bytes x.psbt)
