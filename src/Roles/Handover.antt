-- ===== src/Roles/Handover.antt =====
-- From the last Constructor over any updates to the Signer.
use rust_psbt.Prelude.{
  ◌≡◌, ◌%◌, ◌^◌, refl, sym, map, ap, ◌∙◌, false, length, length-map, ok, >>=-eq-ok, arith,
}
use rust_psbt.Primitives.{Transaction}
use rust_psbt.Flags.{is_inputs_modifiable, is_outputs_modifiable}
use rust_psbt.Input.{unsigned_tx_in}
use rust_psbt.Output.{tx_out}
use rust_psbt.Psbt.{Psbt, determine_lock_time, unsigned_tx}
use rust_psbt.Roles.Creator.{Mod, Constructor}
use rust_psbt.Roles.Constructor.{updater, Updater, no_more_inputs, no_more_outputs}
use rust_psbt.Roles.Reachable.{Constructs}
use rust_psbt.Roles.Updater.{ViewOf, lend, write_back, update, into_psbt, signer}
use rust_psbt.Roles.Updates.{updater-IsUpdatable, updater-parts, determined_map}
use rust_psbt.Roles.Signer as Signers
use rust_psbt.Roles.Signer.{Signer}

-- What any number of calls of `update` can make of an Updater.
pub data Updated (u : Updater) : Updater → Type 1 where
  untouched : Updated u u
  touched :
      {v : Updater} {T : Type 0}
      → Updated u v
      → (f : ViewOf v.psbt → T × ViewOf v.psbt) → Updated u ((update v f).1)

-- What no closure changes.
record Keeps (p q : Psbt) : Type 0 where
  version : q.global.version ≡ p.global.version
  tx_version : q.global.tx_version ≡ p.global.tx_version
  fallback : q.global.fallback_lock_time ≡ p.global.fallback_lock_time
  flags : q.global.tx_modifiable_flags ≡ p.global.tx_modifiable_flags
  input_count : q.global.input_count ≡ p.global.input_count
  output_count : q.global.output_count ≡ p.global.output_count
  inputs : length q.inputs ≡ length p.inputs
  outputs : length q.outputs ≡ length p.outputs

write_back-Keeps : (p : Psbt) (v : ViewOf p) → Keeps p (write_back p v)
unfolding write_back
write_back-Keeps p v = record {
  version = refl;
  tx_version = refl;
  fallback = refl;
  flags = refl;
  input_count = refl;
  output_count = refl;
  inputs = v.inputs.count;
  outputs = v.outputs.count;
}

Updated-Keeps : (u v : Updater) → Updated u v → Keeps u.psbt v.psbt
unfolding update
Updated-Keeps u v untouched = record {
  version = refl;
  tx_version = refl;
  fallback = refl;
  flags = refl;
  input_count = refl;
  output_count = refl;
  inputs = refl;
  outputs = refl;
}
Updated-Keeps u v (touched {v = w} r f) =
    let k = Updated-Keeps u w r in
    let k' = write_back-Keeps w.psbt ((f (lend w.psbt)).1) in
    record {
      version = k'.version ∙ k.version;
      tx_version = k'.tx_version ∙ k.tx_version;
      fallback = k'.fallback ∙ k.fallback;
      flags = k'.flags ∙ k.flags;
      input_count = k'.input_count ∙ k.input_count;
      output_count = k'.output_count ∙ k.output_count;
      inputs = k'.inputs ∙ k.inputs;
      outputs = k'.outputs ∙ k.outputs;
    }

-- What a Signer is given: the construction is closed, the counts are the lengths up to the range of
-- a `usize`, the transaction version and the fallback are those of the last Constructor, as are the
-- numbers of inputs and outputs, and the cached transaction is the unsigned transaction, with one
-- input for each input and one output for each output.
pub record IsHandedOn (p : Psbt) (s : Signer) : Type 0 where
  pub version : s.psbt.global.version ≡ 2
  pub no_inputs : is_inputs_modifiable s.psbt.global.tx_modifiable_flags ≡ false
  pub no_outputs : is_outputs_modifiable s.psbt.global.tx_modifiable_flags ≡ false
  pub input_count : s.psbt.global.input_count ≡ length s.psbt.inputs % 2 ^ 64
  pub output_count : s.psbt.global.output_count ≡ length s.psbt.outputs % 2 ^ 64
  pub inputs : length s.psbt.inputs ≡ length p.inputs
  pub outputs : length s.psbt.outputs ≡ length p.outputs
  pub tx_version : s.cache.version ≡ p.global.tx_version
  pub fallback : s.psbt.global.fallback_lock_time ≡ p.global.fallback_lock_time
  pub cache : unsigned_tx s.psbt ≡ ok s.cache
  pub tx_inputs : length s.cache.input ≡ length p.inputs
  pub tx_outputs : length s.cache.output ≡ length p.outputs

unsigned_tx-parts :
    (p : Psbt) (tx : Transaction)
    → unsigned_tx p ≡ ok tx
    → (tx.version ≡ p.global.tx_version)
      × (length tx.input ≡ length p.inputs)
      × (length tx.output ≡ length p.outputs)
unfolding unsigned_tx
unsigned_tx-parts p tx h =
    let (l, e, k) = >>=-eq-ok (determine_lock_time p) _ h in
    let same : record {
      version = p.global.tx_version;
      lock_time = l;
      input = map unsigned_tx_in p.inputs;
      output = map tx_out p.outputs;
    }
        ≡ tx =
      ground arith in
    rw (← same) (refl, length-map unsigned_tx_in p.inputs, length-map tx_out p.outputs)

signer-parts :
    (u : Updater) (s : Signer)
    → signer u ≡ ok s
    → (u.psbt ≡ s.psbt) × (unsigned_tx s.psbt ≡ ok s.cache)
unfolding signer into_psbt Signers.new
signer-parts u s h =
    let (p, e, k) = >>=-eq-ok (into_psbt u) _ h in
    let (d, q) = determined_map (determine_lock_time u.psbt) u.psbt e in
    let (tx, e', k') = >>=-eq-ok (unsigned_tx p) _ k in
    let same : record { psbt = p; cache = tx } ≡ s = ground arith in
    (q ∙ ap (λ (s : Signer). s.psbt) same, rw (← same) e')

-- Whatever updates come between the `updater` of a Constructor that callers reached and `signer`,
-- the Signer is given what `IsHandedOn` says of the Constructor's PSBT.
pub signer-IsHandedOn :
    (m : Mod) (c : Constructor m) (u v : Updater) (s : Signer)
    → Constructs m c
    → updater c ≡ ok u
    → Updated u v
    → signer v ≡ ok s
    → IsHandedOn c.psbt s
unfolding no_more_inputs no_more_outputs
signer-IsHandedOn m c u v s reached begun updated ended =
    let from = updater-IsUpdatable m c u reached begun in
    let (d, first) = updater-parts c u begun in
    let keeps = Updated-Keeps u v updated in
    let (last, cached) = signer-parts v s ended in
    let k : Keeps u.psbt s.psbt = rw last at keeps in
    let k' : Keeps (no_more_outputs (no_more_inputs c)).psbt s.psbt = rw (← first) at k in
    let (tx_version, tx_inputs, tx_outputs) = unsigned_tx-parts s.psbt s.cache cached in
    record {
      version = k.version ∙ from.counted.version;
      no_inputs = ap is_inputs_modifiable k.flags ∙ from.no_inputs;
      no_outputs = ap is_outputs_modifiable k.flags ∙ from.no_outputs;
      input_count = k.input_count ∙ from.counted.input_count ∙ ap (λ n. n % 2 ^ 64) (sym k.inputs);
      output_count =
          k.output_count ∙ from.counted.output_count ∙ ap (λ n. n % 2 ^ 64) (sym k.outputs);
      inputs = k'.inputs;
      outputs = k'.outputs;
      tx_version = tx_version ∙ k'.tx_version;
      fallback = k'.fallback;
      cache = cached;
      tx_inputs = tx_inputs ∙ k'.inputs;
      tx_outputs = tx_outputs ∙ k'.outputs;
    }
