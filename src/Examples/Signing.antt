-- ===== src/Examples/Signing.antt =====
-- The Signer on an input with its funding transaction.
use rust_psbt.Prelude.{
  ◌≡◌, ◌⊎◌, refl, Bool, ◌&&◌, ◌||◌, List, [], ◌∷◌, ok, some, none, any, all, arith,
}
use rust_psbt.Primitives.{Transaction, EcdsaSighashType, EcdsaSignature, blocks}
use rust_psbt.Sighash as Sighash
use rust_psbt.Sighash.{sighash_all, from_ecdsa, is_none, is_single, is_anyone_can_pay}
use rust_psbt.Flags.{
  TxModifiableFlags, apply_sighash, is_inputs_modifiable, is_outputs_modifiable, has_sighash_single,
}
use rust_psbt.Flags.Laws.{Reads, reserved, apply_sighash-Reads}
use rust_psbt.Input as InputMap
use rust_psbt.Input.{
  Input, has_lock_time, requires_time_based_lock_time, requires_height_based_lock_time,
  is_satisfied_with_height_based_lock_time, unsigned_tx_in,
}
use rust_psbt.Input.Utxo.{
  wpkh, funding_utxo, funding_utxo_untrusted, txid_differs, select_utxo, output_at, output_type,
}
use rust_psbt.Input.Funding.{IsSpent, funding_utxo_checked, funding_utxo_untrusted_checked}
use rust_psbt.Output.{tx_out}
use rust_psbt.Psbt.{
  Psbt, max_of, expect_max, choose_lock_time, determine_lock_time_of, determine_lock_time,
  checked_input, clear_tx_modifiable, unsigned_tx,
}
use rust_psbt.Roles.Signer as Signers
use rust_psbt.Roles.Signer.{
  Signer, InputSigs, ecdsa, insert_ecdsa, write_input, is_empty, write_sigs, apply_one, apply_all,
  apply,
}
use rust_psbt.Roles.Signing.{Keeps, apply-Keeps}
use rust_psbt.Roles.Applies.{apply_total}
use rust_psbt.Roles.Signable.{SignableInput, verify, new}
use rust_psbt.Roles.SignableSets.Collecting.{Collected}
use rust_psbt.Roles.Running.{new-verify}
use rust_psbt.Examples.{blank, payment, sample, waiting, types, classes, upstream, txid_of, spent}

abbrev signature : EcdsaSignature
signature = record { signature = 77; sighash_type = EcdsaSighashType.all }

abbrev sigs : List InputSigs
sigs = record { index = 0; signatures = ecdsa ((11, signature) ∷ []) } ∷ []

abbrev tx : Transaction
tx = record {
  version = 2;
  lock_time = blocks 100;
  input = unsigned_tx_in waiting ∷ [];
  output = tx_out payment ∷ [];
}

abbrev signer : Signer
signer = record { psbt = sample; cache = tx }

abbrev signed : Psbt
signed =
    clear_tx_modifiable types (from_ecdsa types EcdsaSighashType.all)
      (write_input 0 (insert_ecdsa ((11, signature) ∷ []) waiting) sample)

sample-signer : Signers.new sample ≡ ok signer
unfolding blank payment sample Signers.new unsigned_tx unsigned_tx_in tx_out determine_lock_time
    determine_lock_time_of choose_lock_time expect_max max_of any all has_lock_time
    requires_time_based_lock_time requires_height_based_lock_time
    is_satisfied_with_height_based_lock_time
sample-signer = refl

sigs-apply : apply types signer sigs ≡ ok signed
unfolding blank payment sample apply apply_all apply_one checked_input write_sigs is_empty
sigs-apply = refl

apply-Keeps_example : Keeps sample signed × (unsigned_tx signed ≡ ok tx)
unfolding sample
apply-Keeps_example =
    apply-Keeps types sample signed signer sigs (omega arith) sample-signer sigs-apply

apply_total_example : (q : Psbt) × (apply types signer sigs ≡ ok q)
unfolding sample
apply_total_example = apply_total types signer sigs (omega arith) ((omega arith, omega arith), tt)

abbrev evidence : SignableInput
evidence = record {
  index = 0;
  output_type = wpkh;
  prevout = spent;
  script_code = 0 ∷ 5 ∷ [];
  sighash_ty = sighash_all;
}

abbrev open_flags : TxModifiableFlags
open_flags = record { bits = 3 }

apply_sighash-Reads_example :
    Reads
      (apply_sighash types sighash_all open_flags)
      (is_inputs_modifiable open_flags && is_anyone_can_pay types sighash_all)
      (is_outputs_modifiable open_flags && is_none types sighash_all)
      (has_sighash_single open_flags || is_single types sighash_all)
      (reserved open_flags)
apply_sighash-Reads_example = apply_sighash-Reads types sighash_all open_flags (omega arith)

new-verify_example :
    Collected sample (verify upstream sample) (new txid_of (verify upstream) sample)
new-verify_example = new-verify upstream sample

waiting_funded : funding_utxo txid_of waiting ≡ ok spent
unfolding blank funding_utxo txid_differs select_utxo output_at
waiting_funded = refl

funding_utxo_checked_example :
    (IsSpent txid_of waiting spent ⊎ (waiting.non_witness_utxo ≡ none))
    × ((waiting.witness_utxo ≡ none) ⊎ (waiting.witness_utxo ≡ some spent))
funding_utxo_checked_example = funding_utxo_checked txid_of waiting spent waiting_funded

waiting_trusted : funding_utxo_untrusted txid_of classes waiting ≡ ok spent
unfolding blank funding_utxo_untrusted funding_utxo txid_differs select_utxo output_at
waiting_trusted = refl

funding_utxo_untrusted_checked_example :
    IsSpent txid_of waiting spent
    ⊎ ((waiting.witness_utxo ≡ some spent) × (classes.is_p2tr spent.script_pubkey ≡ Bool.true))
funding_utxo_untrusted_checked_example =
    funding_utxo_untrusted_checked txid_of classes waiting spent waiting_trusted
