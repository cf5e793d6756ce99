-- ===== src/Examples/Finishing.antt =====
-- The Finalizer, the Extractor, the fee and the version 0 report.
use rust_psbt.Prelude.{
  ℕ, ◌≡◌, ◌↔◌, ◌≤◌, ◌<◌, ◌+◌, ◌/◌, ◌^◌, refl, true, List, [], ◌∷◌, All, ok, some, any, all, arith,
}
use rust_psbt.Primitives.{Transaction, LockTime, blocks}
use rust_psbt.Input.{
  Input, segwit, finalized, has_lock_time, requires_time_based_lock_time,
  requires_height_based_lock_time, is_satisfied_with_height_based_lock_time, is_finalized,
  signed_tx_in,
}
use rust_psbt.Input.Utxo.{
  finalize, has_funding_utxo, funding_utxo, txid_differs, select_utxo, output_at,
}
use rust_psbt.Output.{tx_out}
use rust_psbt.Psbt.{
  Psbt, max_of, expect_max, choose_lock_time, determine_lock_time_of, determine_lock_time,
  unsigned_tx, all_finalized,
}
use rust_psbt.Psbt.Amounts.{fee}
use rust_psbt.Psbt.Amounts.Laws.{Spends, total, fee_iff}
use rust_psbt.Psbt.Finalized.{Finalizes, done, finish, finalize-unsigned_tx}
use rust_psbt.Psbt.PartialSigs.{Agrees}
use rust_psbt.Roles.Finalizer as Finalizers
use rust_psbt.Roles.Finalizer.{IsFunded, finalizable_iff}
use rust_psbt.Roles.Extractor.{
  Extractor, new, position, uncomputed_silent_payment_output, internal_extract_tx,
  internal_extract_tx_with_fee_rate_limit, saturating_mul, default_max_fee_rate,
}
use rust_psbt.Roles.Extraction.{
  unsign, IsExtractable, IsExtractable-iff, new-extract, extract_limited_iff,
}
use rust_psbt.V0.{PsbtV0, is_empty, degraded, NoSilentPayments, degraded_empty_iff}
use rust_psbt.Examples.{blank, payment, sample, waiting, types, types-ReadsBack, txid_of, weight_of}

-- The sample with a final witness.
abbrev sealed : Psbt
sealed = record sample {
  inputs = record waiting { final_script_witness = some ((9 ∷ []) ∷ []) } ∷ [];
}

abbrev extractor : Extractor
extractor = record { psbt = sealed }

sealed-new : new sealed ≡ ok extractor
unfolding blank payment sample new position uncomputed_silent_payment_output is_finalized
    determine_lock_time determine_lock_time_of choose_lock_time expect_max max_of any all
    has_lock_time requires_time_based_lock_time requires_height_based_lock_time
    is_satisfied_with_height_based_lock_time
sealed-new = refl

new-extract_example :
    (tx : Transaction) × (internal_extract_tx extractor ≡ ok tx)
    × (unsigned_tx sealed ≡ ok (unsign tx))
new-extract_example = new-extract sealed extractor sealed-new

IsExtractable-iff_example :
    (new sealed ≡ ok extractor)
    ↔ (IsExtractable sealed × (◌≡◌ {A = Extractor} (record { psbt = sealed }) extractor))
IsExtractable-iff_example = IsExtractable-iff sealed extractor

abbrev extracted : Transaction
extracted = record {
  version = 2;
  lock_time = blocks 100;
  input = signed_tx_in (record waiting { final_script_witness = some ((9 ∷ []) ∷ []) }) ∷ [];
  output = tx_out payment ∷ [];
}

extract_limited_iff_example :
    (internal_extract_tx_with_fee_rate_limit txid_of weight_of default_max_fee_rate extractor
      ≡ ok extracted)
    ↔ ((f : ℕ) × (fee txid_of sealed ≡ ok f)
        × (internal_extract_tx extractor ≡ ok extracted)
        × (saturating_mul f 1000 / 400 ≤ default_max_fee_rate))
extract_limited_iff_example =
    extract_limited_iff txid_of weight_of default_max_fee_rate extractor extracted
      (λ t. omega arith)

fee_iff_example : (fee txid_of sample ≡ ok 100) ↔ (
    (v : ℕ) × Spends txid_of sample.inputs v
    × (v < 2 ^ 64)
    × (total sample.outputs < 2 ^ 64)
    × (v ≡ total sample.outputs + 100))
fee_iff_example = fee_iff txid_of sample 100

abbrev finals : List Input
finals = finalized waiting (segwit ((9 ∷ []) ∷ [])) ∷ []

finals_finish : Finalizes txid_of true sample.inputs finals
unfolding sample blank finalize has_funding_utxo funding_utxo txid_differs select_utxo output_at
finals_finish =
    finish waiting (finalized waiting (segwit ((9 ∷ []) ∷ []))) [] [] (segwit ((9 ∷ []) ∷ [])) refl
      done

finalize-unsigned_tx_example :
    (all_finalized (record sample { inputs = finals }) ≡ true)
    × (unsigned_tx (record sample { inputs = finals }) ≡ unsigned_tx sample)
finalize-unsigned_tx_example = finalize-unsigned_tx txid_of true sample finals finals_finish

finalizable_iff_example : (Finalizers.new txid_of types sample ≡ ok (record { psbt = sample })) ↔ (
    All (IsFunded txid_of types) sample.inputs
    × ((l : LockTime) × (determine_lock_time sample ≡ ok l))
    × All (Agrees types) sample.inputs)
finalizable_iff_example = finalizable_iff txid_of types sample types-ReadsBack

abbrev old : PsbtV0
old = record { psbt = sample; lock_time = blocks 100 }

degraded_empty_iff_example : (is_empty (degraded old) ≡ true) ↔ NoSilentPayments sample
degraded_empty_iff_example = degraded_empty_iff old
