-- ===== src/Roles/Counted.antt =====
-- What every PSBT of the Creator and the Constructor keeps.
use rust_psbt.Prelude.{
  ℕ, ◌≡◌, ◌<◌, ◌%◌, ◌^◌, refl, List, [], ◌∷◌, ◌++◌, All, length, length-append, ok, arith,
}
use rust_psbt.Flags.{TxModifiableFlags}
use rust_psbt.Flags.Clean as Clean
use rust_psbt.Input.{Input}
use rust_psbt.Output.{Output, validate}
use rust_psbt.Psbt.{Psbt}
use rust_psbt.Roles.Creator
use rust_psbt.Roles.Creator.{
  Mod, modifiable, inputs_only_modifiable, outputs_only_modifiable, with_flags,
}
use rust_psbt.Roles.Constructor.{
  no_more_inputs, no_more_outputs, into_psbt, new_modifiable, new_inputs_only, new_outputs_only,
  push_input, push_output, input, output, input_inputs_only, output_outputs_only, increment,
}
use rust_psbt.Roles.Reachable.{
  Creates, created, with_fallback, with_version, with_single, with_inputs, with_outputs, Constructs,
  from_modifiable, from_inputs_only, from_outputs_only, with_input, with_output, with_input_only,
  with_output_only, without_inputs, without_outputs, passed_on, passed_on_inputs, passed_on_outputs,
  from_creator, from_creator_inputs, from_creator_outputs,
}

-- The counts are the lengths, up to the range of a `usize`; every output passes `validate`; the
-- flags are a byte whose reserved bits are clear; and the version is 2.
pub record IsCounted (p : Psbt) : Type 0 where
  pub input_count : p.global.input_count ≡ length p.inputs % 2 ^ 64
  pub output_count : p.global.output_count ≡ length p.outputs % 2 ^ 64
  pub valid : All (λ o. validate o ≡ ok tt) p.outputs
  pub byte : p.global.tx_modifiable_flags.bits < 8
  pub version : p.global.version ≡ 2

flags-IsCounted :
    (f : TxModifiableFlags → TxModifiableFlags)
    → ((g : TxModifiableFlags) → g.bits < 8 → (f g).bits < 8)
    → (p : Psbt) → IsCounted p
    → IsCounted (with_flags f p)
flags-IsCounted f h p c = record {
  input_count = c.input_count;
  output_count = c.output_count;
  valid = c.valid;
  byte = h _ c.byte;
  version = c.version;
}

count_push {ℓ} :
    {A : Type ℓ} (n : ℕ) (xs : List A) (x : A)
    → n ≡ length xs % 2 ^ 64
    → increment n ≡ length (xs ++ (x ∷ [])) % 2 ^ 64
count_push n xs x h = rw (length-append xs (x ∷ []), h) (omega arith)

All-push {ℓ} :
    {A : Type ℓ} (P : A → Type 0) (xs : List A) (x : A) → All P xs → P x → All P (xs ++ (x ∷ []))
All-push P [] x a p = (p, tt)
All-push P (y ∷ xs) x (q, a) p = (q, All-push P xs x a p)

push_input-IsCounted : (i : Input) (p : Psbt) → IsCounted p → IsCounted (push_input i p)
push_input-IsCounted i p c = record {
  input_count = count_push _ p.inputs i c.input_count;
  output_count = c.output_count;
  valid = c.valid;
  byte = c.byte;
  version = c.version;
}

push_output-IsCounted :
    (o : Output) (p : Psbt) → validate o ≡ ok tt → IsCounted p → IsCounted (push_output o p)
push_output-IsCounted o p v c = record {
  input_count = c.input_count;
  output_count = count_push _ p.outputs o c.output_count;
  valid = All-push _ p.outputs o c.valid v;
  byte = c.byte;
  version = c.version;
}

Creates-IsCounted : (c : Creator.Creator) → Creates c → IsCounted c.psbt
unfolding Creator.new Creator.fallback_lock_time Creator.transaction_version Creator.sighash_single
    Creator.inputs_modifiable Creator.outputs_modifiable
Creates-IsCounted c created = record {
  input_count = refl;
  output_count = refl;
  valid = tt;
  byte = omega arith;
  version = refl;
}
Creates-IsCounted c (with_fallback l d s) =
    let k = Creates-IsCounted d s in
    record {
      input_count = k.input_count;
      output_count = k.output_count;
      valid = k.valid;
      byte = k.byte;
      version = k.version;
    }
Creates-IsCounted c (with_version v d s) =
    let k = Creates-IsCounted d s in
    record {
      input_count = k.input_count;
      output_count = k.output_count;
      valid = k.valid;
      byte = k.byte;
      version = k.version;
    }
Creates-IsCounted c (with_single d s) =
    flags-IsCounted _ Clean.set_single-clean d.psbt (Creates-IsCounted d s)
Creates-IsCounted c (with_inputs d s) =
    flags-IsCounted _ Clean.set_inputs-clean d.psbt (Creates-IsCounted d s)
Creates-IsCounted c (with_outputs d s) =
    flags-IsCounted _ Clean.set_outputs-clean d.psbt (Creates-IsCounted d s)

output-parts :
    (o : Output) (c d : Creator.Constructor modifiable)
    → output o c ≡ ok d
    → (validate o ≡ ok tt) × (record { psbt = push_output o c.psbt } ≡ d)
unfolding output
output-parts o c d h = ground arith

output_only-parts :
    (o : Output) (c d : Creator.Constructor outputs_only_modifiable)
    → output_outputs_only o c ≡ ok d
    → (validate o ≡ ok tt) × (record { psbt = push_output o c.psbt } ≡ d)
unfolding output_outputs_only
output_only-parts o c d h = ground arith

into_psbt-same : {m : Mod} (c : Creator.Constructor m) (p : Psbt) → into_psbt c ≡ ok p → c.psbt ≡ p
unfolding into_psbt
into_psbt-same c p h = ground arith

new_modifiable-same :
    (p : Psbt) (d : Creator.Constructor modifiable) → new_modifiable p ≡ ok d → p ≡ d.psbt
unfolding new_modifiable
new_modifiable-same p d h = ground arith

new_inputs_only-same :
    (p : Psbt) (d : Creator.Constructor inputs_only_modifiable)
    → new_inputs_only p ≡ ok d
    → p ≡ d.psbt
unfolding new_inputs_only
new_inputs_only-same p d h = ground arith

new_outputs_only-same :
    (p : Psbt) (d : Creator.Constructor outputs_only_modifiable)
    → new_outputs_only p ≡ ok d
    → p ≡ d.psbt
unfolding new_outputs_only
new_outputs_only-same p d h = ground arith

-- Whatever is done with Creators and Constructors, the PSBT in a Constructor keeps `IsCounted`.
pub Constructs-IsCounted : (m : Mod) (c : Creator.Constructor m) → Constructs m c → IsCounted c.psbt
unfolding Creator.constructor_modifiable Creator.constructor_inputs_only_modifiable
    Creator.constructor_outputs_only_modifiable input input_inputs_only no_more_inputs
    no_more_outputs
Constructs-IsCounted m c (from_modifiable d s) =
    flags-IsCounted _ Clean.set_outputs-clean _
      (flags-IsCounted _ Clean.set_inputs-clean d.psbt (Creates-IsCounted d s))
Constructs-IsCounted m c (from_inputs_only d s) =
    flags-IsCounted _ Clean.clear_outputs-clean _
      (flags-IsCounted _ Clean.set_inputs-clean d.psbt (Creates-IsCounted d s))
Constructs-IsCounted m c (from_outputs_only d s) =
    flags-IsCounted _ Clean.set_outputs-clean _
      (flags-IsCounted _ Clean.clear_inputs-clean d.psbt (Creates-IsCounted d s))
Constructs-IsCounted m c (with_input i d s) =
    push_input-IsCounted i d.psbt (Constructs-IsCounted _ d s)
Constructs-IsCounted m c (with_input_only i d s) =
    push_input-IsCounted i d.psbt (Constructs-IsCounted _ d s)
Constructs-IsCounted m c (with_output o d _ s h) =
    let (v, e) = output-parts o d c h in
    rw (← e) (push_output-IsCounted o d.psbt v (Constructs-IsCounted _ d s))
Constructs-IsCounted m c (with_output_only o d _ s h) =
    let (v, e) = output_only-parts o d c h in
    rw (← e) (push_output-IsCounted o d.psbt v (Constructs-IsCounted _ d s))
Constructs-IsCounted m c (without_inputs d s) =
    flags-IsCounted _ Clean.clear_inputs-clean d.psbt (Constructs-IsCounted _ d s)
Constructs-IsCounted m c (without_outputs d s) =
    flags-IsCounted _ Clean.clear_outputs-clean d.psbt (Constructs-IsCounted _ d s)
Constructs-IsCounted m c (passed_on d p _ s h k) =
    rw (← new_modifiable-same p c k, ← into_psbt-same d p h) (Constructs-IsCounted _ d s)
Constructs-IsCounted m c (passed_on_inputs d p _ s h k) =
    rw (← new_inputs_only-same p c k, ← into_psbt-same d p h) (Constructs-IsCounted _ d s)
Constructs-IsCounted m c (passed_on_outputs d p _ s h k) =
    rw (← new_outputs_only-same p c k, ← into_psbt-same d p h) (Constructs-IsCounted _ d s)
Constructs-IsCounted m c (from_creator d _ s h) =
    rw (← new_modifiable-same d.psbt c h) (Creates-IsCounted d s)
Constructs-IsCounted m c (from_creator_inputs d _ s h) =
    rw (← new_inputs_only-same d.psbt c h) (Creates-IsCounted d s)
Constructs-IsCounted m c (from_creator_outputs d _ s h) =
    rw (← new_outputs_only-same d.psbt c h) (Creates-IsCounted d s)
