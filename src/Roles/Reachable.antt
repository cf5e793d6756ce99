-- ===== src/Roles/Reachable.antt =====
-- The PSBTs that the Creator and the Constructor build, as a relation, and what all of them keep.
use rust_psbt.Prelude.{ℕ, ◌≡◌, ok}
use rust_psbt.Primitives.{LockTime}
use rust_psbt.Input.{Input}
use rust_psbt.Output.{Output}
use rust_psbt.Psbt.{Psbt}
use rust_psbt.Roles.Creator
use rust_psbt.Roles.Creator.{
  Mod, modifiable, inputs_only_modifiable, outputs_only_modifiable, with_flags,
}
use rust_psbt.Roles.Constructor.{
  no_more_inputs, no_more_outputs, into_psbt, new_modifiable, new_inputs_only, new_outputs_only,
  input, output, input_inputs_only, output_outputs_only,
}

-- What a caller can do with a Creator.
pub data Creates : Creator.Creator → Type 0 where
  created : Creates Creator.new
  with_fallback :
      (l : LockTime) (c : Creator.Creator) → Creates c → Creates (Creator.fallback_lock_time l c)
  with_version :
      (v : ℕ) (c : Creator.Creator) → Creates c → Creates (Creator.transaction_version v c)
  with_single : (c : Creator.Creator) → Creates c → Creates (Creator.sighash_single c)
  with_inputs : (c : Creator.Creator) → Creates c → Creates (Creator.inputs_modifiable c)
  with_outputs : (c : Creator.Creator) → Creates c → Creates (Creator.outputs_modifiable c)

-- What callers, which may pass the PSBT from one to another, can do with Constructors.
pub data Constructs : (m : Mod) → Creator.Constructor m → Type 0 where
  from_modifiable :
      (c : Creator.Creator) → Creates c → Constructs modifiable (Creator.constructor_modifiable c)
  from_inputs_only :
      (c : Creator.Creator)
      → Creates c
      → Constructs inputs_only_modifiable (Creator.constructor_inputs_only_modifiable c)
  from_outputs_only :
      (c : Creator.Creator)
      → Creates c
      → Constructs outputs_only_modifiable (Creator.constructor_outputs_only_modifiable c)
  with_input :
      (i : Input) (c : Creator.Constructor modifiable)
      → Constructs modifiable c
      → Constructs modifiable (input i c)
  with_output :
      (o : Output) (c d : Creator.Constructor modifiable)
      → Constructs modifiable c
      → output o c ≡ ok d
      → Constructs modifiable d
  with_input_only :
      (i : Input) (c : Creator.Constructor inputs_only_modifiable)
      → Constructs inputs_only_modifiable c
      → Constructs inputs_only_modifiable (input_inputs_only i c)
  with_output_only :
      (o : Output) (c d : Creator.Constructor outputs_only_modifiable)
      → Constructs outputs_only_modifiable c
      → output_outputs_only o c ≡ ok d
      → Constructs outputs_only_modifiable d
  without_inputs :
      {m : Mod} (c : Creator.Constructor m) → Constructs m c → Constructs m (no_more_inputs c)
  without_outputs :
      {m : Mod} (c : Creator.Constructor m) → Constructs m c → Constructs m (no_more_outputs c)
  passed_on :
      {m : Mod} (c : Creator.Constructor m) (p : Psbt) (d : Creator.Constructor modifiable)
      → Constructs m c
      → into_psbt c ≡ ok p
      → new_modifiable p ≡ ok d
      → Constructs modifiable d
  passed_on_inputs :
      {m : Mod} (c : Creator.Constructor m) (p : Psbt)
      (d : Creator.Constructor inputs_only_modifiable)
      → Constructs m c
      → into_psbt c ≡ ok p
      → new_inputs_only p ≡ ok d
      → Constructs inputs_only_modifiable d
  passed_on_outputs :
      {m : Mod} (c : Creator.Constructor m) (p : Psbt)
      (d : Creator.Constructor outputs_only_modifiable)
      → Constructs m c
      → into_psbt c ≡ ok p
      → new_outputs_only p ≡ ok d
      → Constructs outputs_only_modifiable d
  -- A Creator hands its PSBT, by `psbt`, to a Constructor that is another party.
  from_creator :
      (c : Creator.Creator) (d : Creator.Constructor modifiable)
      → Creates c
      → new_modifiable c.psbt ≡ ok d
      → Constructs modifiable d
  from_creator_inputs :
      (c : Creator.Creator) (d : Creator.Constructor inputs_only_modifiable)
      → Creates c
      → new_inputs_only c.psbt ≡ ok d
      → Constructs inputs_only_modifiable d
  from_creator_outputs :
      (c : Creator.Creator) (d : Creator.Constructor outputs_only_modifiable)
      → Creates c
      → new_outputs_only c.psbt ≡ ok d
      → Constructs outputs_only_modifiable d
