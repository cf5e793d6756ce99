-- ===== src/Roles/Constructor.antt =====
-- src/roles/constructor.rs: the Constructor, whose marker says what it may add.
use rust_psbt.Prelude.{
  ℕ, not, ◌++◌, [], ◌∷◌, ◌+◌, ◌%◌, ◌^◌, Outcome, ok, err, map_ok, ◌>>◌, if◌then◌else◌,
}
use rust_psbt.Flags.{
  clear_inputs_modifiable, clear_outputs_modifiable, is_inputs_modifiable, is_outputs_modifiable,
}
use rust_psbt.Input.{Input}
use rust_psbt.Output.{Output, ValidationError, validate}
use rust_psbt.Psbt.{Psbt, DetermineLockTimeError, determine_lock_time}
use rust_psbt.Roles.Creator.{
  Mod, modifiable, inputs_only_modifiable, outputs_only_modifiable, Constructor, with_flags,
}

-- `PsbtNotModifiableError`, of the two errors below it.
pub data NotModifiableError : Type 0 where
  inputs_not_modifiable outputs_not_modifiable : NotModifiableError

-- `count += 1` on the `usize` of `Count`, which wraps in a release build.
abbrev pub increment : ℕ → ℕ
increment count = (count + 1) % 2 ^ 64

unfoldable pub no_more_inputs : {m : Mod} → Constructor m → Constructor m
no_more_inputs c = record { psbt = with_flags clear_inputs_modifiable c.psbt }

unfoldable pub no_more_outputs : {m : Mod} → Constructor m → Constructor m
no_more_outputs c = record { psbt = with_flags clear_outputs_modifiable c.psbt }

-- `Constructor::psbt`.
unfoldable pub into_psbt : {m : Mod} → Constructor m → Outcome DetermineLockTimeError Psbt
into_psbt c = map_ok (λ _. c.psbt) (determine_lock_time c.psbt)

-- `Updater(Psbt)` of src/roles/updater.rs.
pub record Updater : Type 0 where
  pub psbt : Psbt

unfoldable pub updater : {m : Mod} → Constructor m → Outcome DetermineLockTimeError Updater
unfolding no_more_inputs no_more_outputs into_psbt
updater c = map_ok (λ p. record { psbt = p }) (into_psbt (no_more_outputs (no_more_inputs c)))

-- The three `new`s.
unfoldable pub new_modifiable : Psbt → Outcome NotModifiableError (Constructor modifiable)
new_modifiable p =
    if not (is_inputs_modifiable p.global.tx_modifiable_flags)
    then err inputs_not_modifiable
    else (if not (is_outputs_modifiable p.global.tx_modifiable_flags)
        then err outputs_not_modifiable
        else ok (record { psbt = p }))

unfoldable pub new_inputs_only :
    Psbt → Outcome NotModifiableError (Constructor inputs_only_modifiable)
new_inputs_only p =
    if is_inputs_modifiable p.global.tx_modifiable_flags
    then ok (record { psbt = p })
    else err inputs_not_modifiable

unfoldable pub new_outputs_only :
    Psbt → Outcome NotModifiableError (Constructor outputs_only_modifiable)
new_outputs_only p =
    if is_outputs_modifiable p.global.tx_modifiable_flags
    then ok (record { psbt = p })
    else err outputs_not_modifiable

-- The two statements of every `input` and every `output`.
abbrev pub push_input : Input → Psbt → Psbt
push_input i p = record p {
  inputs = p.inputs ++ (i ∷ []);
  global = record (p.global) { input_count = increment p.global.input_count };
}

abbrev pub push_output : Output → Psbt → Psbt
push_output o p = record p {
  outputs = p.outputs ++ (o ∷ []);
  global = record (p.global) { output_count = increment p.global.output_count };
}

unfoldable pub input : Input → Constructor modifiable → Constructor modifiable
input i c = record { psbt = push_input i c.psbt }

unfoldable pub output :
    Output → Constructor modifiable → Outcome ValidationError (Constructor modifiable)
output o c = do validate o; ok (record { psbt = push_output o c.psbt })

unfoldable pub input_inputs_only :
    Input → Constructor inputs_only_modifiable → Constructor inputs_only_modifiable
input_inputs_only i c = record { psbt = push_input i c.psbt }

unfoldable pub output_outputs_only :
    Output
    → Constructor outputs_only_modifiable
    → Outcome ValidationError (Constructor outputs_only_modifiable)
output_outputs_only o c = do validate o; ok (record { psbt = push_output o c.psbt })
