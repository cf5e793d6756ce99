-- ===== src/Flags.antt =====
-- src/tx_modifiable_flags.rs: the byte PSBT_GLOBAL_TX_MODIFIABLE.
pub mod Laws
pub mod Clean
use rust_psbt.Prelude.{ℕ, ◌-◌, Bool, true, false, not, bit_and, bit_or, ltb, ◌==◌, if◌then◌else◌}
use rust_psbt.Sighash.{SighashTypes, PsbtSighashType, is_anyone_can_pay, is_none, is_single}

abbrev pub inputs_modifiable : ℕ
inputs_modifiable = 0x01

abbrev pub outputs_modifiable : ℕ
outputs_modifiable = 0x02

abbrev pub sighash_single : ℕ
sighash_single = 0x04

abbrev pub inputs_and_outputs_modifiable : ℕ
inputs_and_outputs_modifiable = 0x03

-- The one field is a `u8`.
pub record TxModifiableFlags : Type 0 where
  pub bits : ℕ

-- `!mask` on a `u8`.
abbrev pub complement : ℕ → ℕ
complement mask = 0xff - mask

abbrev pub new : TxModifiableFlags
new = record { bits = 0x00 }

abbrev pub with_inputs_modifiable : TxModifiableFlags
with_inputs_modifiable = record { bits = inputs_modifiable }

abbrev pub with_outputs_modifiable : TxModifiableFlags
with_outputs_modifiable = record { bits = outputs_modifiable }

abbrev pub with_all_modifiable : TxModifiableFlags
with_all_modifiable = record { bits = inputs_and_outputs_modifiable }

unfoldable pub is_empty : TxModifiableFlags → Bool
is_empty f = f.bits == 0

unfoldable pub set_inputs_modifiable : TxModifiableFlags → TxModifiableFlags
set_inputs_modifiable f = record { bits = bit_or f.bits inputs_modifiable }

unfoldable pub set_outputs_modifiable : TxModifiableFlags → TxModifiableFlags
set_outputs_modifiable f = record { bits = bit_or f.bits outputs_modifiable }

unfoldable pub set_sighash_single : TxModifiableFlags → TxModifiableFlags
set_sighash_single f = record { bits = bit_or f.bits sighash_single }

unfoldable pub clear_inputs_modifiable : TxModifiableFlags → TxModifiableFlags
clear_inputs_modifiable f = record { bits = bit_and f.bits (complement inputs_modifiable) }

unfoldable pub clear_outputs_modifiable : TxModifiableFlags → TxModifiableFlags
clear_outputs_modifiable f = record { bits = bit_and f.bits (complement outputs_modifiable) }

unfoldable pub clear_sighash_single : TxModifiableFlags → TxModifiableFlags
clear_sighash_single f = record { bits = bit_and f.bits (complement sighash_single) }

unfoldable pub is_inputs_modifiable : TxModifiableFlags → Bool
is_inputs_modifiable f = ltb 0 (bit_and f.bits inputs_modifiable)

unfoldable pub is_outputs_modifiable : TxModifiableFlags → Bool
is_outputs_modifiable f = ltb 0 (bit_and f.bits outputs_modifiable)

unfoldable pub has_sighash_single : TxModifiableFlags → Bool
has_sighash_single f = ltb 0 (bit_and f.bits sighash_single)

-- The three `if` statements, one after the other.
unfoldable pub apply_sighash :
    SighashTypes → PsbtSighashType → TxModifiableFlags → TxModifiableFlags
apply_sighash s t f =
    let f1 = if not (is_anyone_can_pay s t) then clear_inputs_modifiable f else f in
    let f2 = if not (is_none s t) then clear_outputs_modifiable f1 else f1 in
    if is_single s t then set_sighash_single f2 else f2
