-- ===== src/Roles/Creator.antt =====
-- src/roles/creator.rs: the Creator, a builder of the first PSBT, and its three Constructors.
use rust_psbt.Prelude.{ℕ, some, []}
use rust_psbt.Primitives.{LockTime}
use rust_psbt.Flags.{
  set_sighash_single, set_inputs_modifiable, set_outputs_modifiable, clear_inputs_modifiable,
  clear_outputs_modifiable, TxModifiableFlags,
}
use rust_psbt.Global as GlobalMap
use rust_psbt.Psbt.{Psbt}

pub record Creator : Type 0 where
  pub psbt : Psbt

-- The marker of a `Constructor`'s type.
pub data Mod : Type 0 where
  modifiable inputs_only_modifiable outputs_only_modifiable : Mod

-- `Constructor<T>` of src/roles/constructor.rs.
pub record Constructor (m : Mod) : Type 0 where
  pub psbt : Psbt

abbrev pub with_flags : (TxModifiableFlags → TxModifiableFlags) → Psbt → Psbt
with_flags f p = record p {
  global = record (p.global) { tx_modifiable_flags = f p.global.tx_modifiable_flags };
}

unfoldable pub new : Creator
unfolding GlobalMap.new
new = record { psbt = record { global = GlobalMap.new; inputs = []; outputs = [] } }

unfoldable pub fallback_lock_time : LockTime → Creator → Creator
fallback_lock_time fallback c =
    let p = c.psbt in
    record { psbt = record p { global = record (p.global) { fallback_lock_time = some fallback } } }

unfoldable pub sighash_single : Creator → Creator
sighash_single c = record { psbt = with_flags set_sighash_single c.psbt }

unfoldable pub inputs_modifiable : Creator → Creator
inputs_modifiable c = record { psbt = with_flags set_inputs_modifiable c.psbt }

unfoldable pub outputs_modifiable : Creator → Creator
outputs_modifiable c = record { psbt = with_flags set_outputs_modifiable c.psbt }

unfoldable pub transaction_version : ℕ → Creator → Creator
transaction_version version c =
    let p = c.psbt in
    record { psbt = record p { global = record (p.global) { tx_version = version } } }

unfoldable pub constructor_modifiable : Creator → Constructor modifiable
constructor_modifiable c = record {
  psbt = with_flags set_outputs_modifiable (with_flags set_inputs_modifiable c.psbt);
}

unfoldable pub constructor_inputs_only_modifiable : Creator → Constructor inputs_only_modifiable
constructor_inputs_only_modifiable c = record {
  psbt = with_flags clear_outputs_modifiable (with_flags set_inputs_modifiable c.psbt);
}

unfoldable pub constructor_outputs_only_modifiable : Creator → Constructor outputs_only_modifiable
constructor_outputs_only_modifiable c = record {
  psbt = with_flags set_outputs_modifiable (with_flags clear_inputs_modifiable c.psbt);
}
