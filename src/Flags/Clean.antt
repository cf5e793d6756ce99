-- ===== src/Flags/Clean.antt =====
-- The flags that the builders write: a byte of the three flags alone stays one.
use rust_psbt.Prelude.{◌<◌, refl, ltb, arith}
use rust_psbt.Prelude.Table.{holds_below, holds_below_sound}
use rust_psbt.Flags.{
  TxModifiableFlags, set_inputs_modifiable, set_outputs_modifiable, set_sighash_single,
  clear_inputs_modifiable, clear_outputs_modifiable, clear_sighash_single,
}

module _ (f : TxModifiableFlags) (clean : f.bits < 8) where
  pub set_inputs-clean : (set_inputs_modifiable f).bits < 8
  unfolding holds_below set_inputs_modifiable
  set_inputs-clean = ground (
    arith,
    holds_below_sound 8 (λ n. ltb (set_inputs_modifiable (record { bits = n })).bits 8) f.bits refl
        clean,
  )

  pub set_outputs-clean : (set_outputs_modifiable f).bits < 8
  unfolding holds_below set_outputs_modifiable
  set_outputs-clean = ground (
    arith,
    holds_below_sound 8 (λ n. ltb (set_outputs_modifiable (record { bits = n })).bits 8) f.bits refl
        clean,
  )

  pub set_single-clean : (set_sighash_single f).bits < 8
  unfolding holds_below set_sighash_single
  set_single-clean = ground (
    arith,
    holds_below_sound 8 (λ n. ltb (set_sighash_single (record { bits = n })).bits 8) f.bits refl
        clean,
  )

  pub clear_inputs-clean : (clear_inputs_modifiable f).bits < 8
  unfolding holds_below clear_inputs_modifiable
  clear_inputs-clean = ground (
    arith,
    holds_below_sound 8 (λ n. ltb (clear_inputs_modifiable (record { bits = n })).bits 8) f.bits
        refl clean,
  )

  pub clear_outputs-clean : (clear_outputs_modifiable f).bits < 8
  unfolding holds_below clear_outputs_modifiable
  clear_outputs-clean = ground (
    arith,
    holds_below_sound 8 (λ n. ltb (clear_outputs_modifiable (record { bits = n })).bits 8) f.bits
        refl clean,
  )

  pub clear_single-clean : (clear_sighash_single f).bits < 8
  unfolding holds_below clear_sighash_single
  clear_single-clean = ground (
    arith,
    holds_below_sound 8 (λ n. ltb (clear_sighash_single (record { bits = n })).bits 8) f.bits refl
        clean,
  )
