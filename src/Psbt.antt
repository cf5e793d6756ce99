-- ===== src/Psbt.antt =====
-- src/psbt.rs: the PSBT of version 2 as its global map, inputs and outputs.
pub mod LockTimes
pub mod Bip370
pub mod TxFields
pub mod Finalized
pub mod PartialSigs
pub mod Combine
pub mod Amounts
pub mod Decoder
use rust_psbt.Prelude.{
  ℕ, ◌≡◌, Bool, true, false, ◌&&◌, ◌||◌, Option, none, some, List, [], ◌∷◌, map, any, all, length,
  leb, get_elem?, set, unwrap_or, Outcome, ok, err, panicked, expect, map_ok, map_err, ◌>>=◌, ◌>>◌,
  if◌then◌else◌, ◌+◌, ◌-◌, ◌^◌, ltb,
}
use rust_psbt.Primitives.{
  Byte, Txid, PublicKey, LockTime, blocks, seconds, TxIn, TxOut, Transaction, sequence_zero,
}
use rust_psbt.Sighash.{SighashTypes, PsbtSighashType}
use rust_psbt.Flags.{apply_sighash}
use rust_psbt.Global.{Global}
use rust_psbt.Input.{
  Input, has_lock_time, requires_time_based_lock_time, requires_height_based_lock_time,
  is_satisfied_with_height_based_lock_time, is_finalized, unsigned_tx_in,
}
use rust_psbt.Output.{Output, tx_out, id_tx_out}
use Prim.Native.Nat.{max}

pub record Psbt : Type 0 where
  pub global : Global
  pub inputs : List Input
  pub outputs : List Output

pub data DetermineLockTimeError : Type 0 where
  determine_lock_time_error : DetermineLockTimeError

-- `max` of two options: `None` is below every value.
abbrev pub max_option : Option ℕ → Option ℕ → Option ℕ
max_option none b = b
max_option (some a) none = some a
max_option (some a) (some b) = some (max a b)

abbrev pub first_or_max : Option (Option ℕ) → Option ℕ → Option (Option ℕ)
first_or_max none a = some a
first_or_max (some m) a = some (max_option a m)

-- `iter().map(field).max()`: `none` where there is no input.
unfoldable pub max_of : (Input → Option ℕ) → List Input → Option (Option ℕ)
max_of field [] = none
max_of field (i ∷ is) = first_or_max (max_of field is) (field i)

-- The two `expect`s behind `max()`.
unfoldable pub expect_max {ℓ} : {E : Type ℓ} → (Input → Option ℕ) → List Input → Outcome E ℕ
unfolding max_of
expect_max field is = do m ← expect (max_of field is); expect m

-- The lock time once the conflict is ruled out.
unfoldable pub choose_lock_time :
    List Input → Option LockTime → Outcome DetermineLockTimeError LockTime
unfolding expect_max
choose_lock_time is fallback =
    if any has_lock_time is
    then (if all is_satisfied_with_height_based_lock_time is
        then map_ok blocks (expect_max (λ i. i.min_height) is)
        else map_ok seconds (expect_max (λ i. i.min_time) is))
    else ok (unwrap_or fallback (blocks 0))

unfoldable pub determine_lock_time_of :
    List Input → Option LockTime → Outcome DetermineLockTimeError LockTime
determine_lock_time_of is fallback =
    if any requires_time_based_lock_time is && any requires_height_based_lock_time is
    then err determine_lock_time_error
    else choose_lock_time is fallback

-- `Psbt::determine_lock_time`.
unfoldable pub determine_lock_time : Psbt → Outcome DetermineLockTimeError LockTime
determine_lock_time p = determine_lock_time_of p.inputs p.global.fallback_lock_time

unfoldable pub unsigned_tx : Psbt → Outcome DetermineLockTimeError Transaction
unsigned_tx p = do
  lock_time ← determine_lock_time p
  ok (record {
    version = p.global.tx_version;
    lock_time = lock_time;
    input = map unsigned_tx_in p.inputs;
    output = map tx_out p.outputs;
  })

abbrev pub zero_sequence : TxIn → TxIn
zero_sequence t = record t { sequence = sequence_zero }

-- The transaction whose id identifies the PSBT.
unfoldable pub id_tx : (PublicKey → List Byte) → Psbt → Outcome DetermineLockTimeError Transaction
unfolding unsigned_tx
id_tx to_bytes p = do
  tx ← unsigned_tx p
  ok (record tx { input = map zero_sequence tx.input; output = map (id_tx_out to_bytes) p.outputs })

-- `Psbt::id`, over upstream's `compute_txid`.
unfoldable pub id :
    (Transaction → Txid) → (PublicKey → List Byte) → Psbt → Outcome DetermineLockTimeError Txid
unfolding id_tx
id compute_txid to_bytes p = map_ok compute_txid (id_tx to_bytes p)

-- `Psbt::is_finalized`.
unfoldable pub all_finalized : Psbt → Bool
all_finalized p = all is_finalized p.inputs

pub data IndexOutOfBoundsError : Type 0 where
  inputs : ℕ → ℕ → IndexOutOfBoundsError
  count : ℕ → ℕ → IndexOutOfBoundsError

-- `Psbt::checked_input`; the last index into the vector panics out of range.
unfoldable pub checked_input : Psbt → ℕ → Outcome IndexOutOfBoundsError Input
checked_input p index =
    if leb (length p.inputs) index
    then err (inputs index (length p.inputs))
    else (if leb p.global.input_count index
        then err (count index p.global.input_count)
        else expect (get_elem? p.inputs index))

-- `Psbt::clear_tx_modifiable`.
unfoldable pub clear_tx_modifiable : SighashTypes → PsbtSighashType → Psbt → Psbt
clear_tx_modifiable s t p = record p {
  global = record (p.global) {
    tx_modifiable_flags = apply_sighash s t p.global.tx_modifiable_flags;
  };
}
