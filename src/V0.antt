-- ===== src/V0.antt =====
-- src/v0.rs: `PsbtV0`, a PSBT about to be written as version 0, and `Degraded`.
use rust_psbt.Prelude.{
  ℕ, suc, ◌≡◌, ◌↔◌, refl, Bool, true, false, not, ◌&&◌, ◌||◌, ◌==◌, List, [], ◌∷◌, All, is_some,
  Option, none, some, Outcome, ok, ◌>>=◌, arith, if◌then◌else◌,
}
use rust_psbt.Primitives.{LockTime}
use rust_psbt.BTreeMap.{BTreeMap, len}
use rust_psbt.Input.{Input}
use rust_psbt.Output.{Output}
use rust_psbt.Psbt.{Psbt, DetermineLockTimeError, determine_lock_time}

pub record PsbtV0 : Type 0 where
  pub psbt : Psbt
  pub lock_time : LockTime

unfoldable pub from_psbt : Psbt → Outcome DetermineLockTimeError PsbtV0
from_psbt p = do l ← determine_lock_time p; ok (record { psbt = p; lock_time = l })

abbrev pub into_psbt : PsbtV0 → Psbt
into_psbt v = v.psbt

pub record Degraded : Type 0 where
  pub sp_ecdh_shares : ℕ
  pub sp_dleq_proofs : ℕ
  pub sp_dropped_inputs : ℕ
  pub sp_dropped_outputs : ℕ

-- `iter().filter(..).count()`.
unfoldable pub count_if {ℓ} : {A : Type ℓ} → (A → Bool) → List A → ℕ
count_if p [] = 0
count_if p (x ∷ xs) = if p x then suc (count_if p xs) else count_if p xs

abbrev pub input_drops : Input → Bool
input_drops i = not (len i.sp_ecdh_shares == 0) || not (len i.sp_dleq_proofs == 0)

abbrev pub output_drops : Output → Bool
output_drops o = is_some o.sp_v0_info || is_some o.sp_v0_label

unfoldable pub degraded : PsbtV0 → Degraded
unfolding count_if
degraded v = record {
  sp_ecdh_shares = len v.psbt.global.sp_ecdh_shares;
  sp_dleq_proofs = len v.psbt.global.sp_dleq_proofs;
  sp_dropped_inputs = count_if input_drops v.psbt.inputs;
  sp_dropped_outputs = count_if output_drops v.psbt.outputs;
}

unfoldable pub is_empty : Degraded → Bool
is_empty d =
    d.sp_ecdh_shares == 0
    && d.sp_dleq_proofs == 0
    && d.sp_dropped_inputs == 0
    && d.sp_dropped_outputs == 0

-- No field of silent payments is set.
pub record NoSilentPayments (p : Psbt) : Type 0 where
  pub shares : p.global.sp_ecdh_shares ≡ []
  pub proofs : p.global.sp_dleq_proofs ≡ []
  pub inputs : All (λ (i : Input). (i.sp_ecdh_shares ≡ []) × (i.sp_dleq_proofs ≡ [])) p.inputs
  pub outputs : All (λ (o : Output). (o.sp_v0_info ≡ none) × (o.sp_v0_label ≡ none)) p.outputs

len_zero {ℓ κ} : {K : Type ℓ} {V : Type κ} (m : BTreeMap K V) → len m ≡ 0 → m ≡ []
len_zero [] h = refl
len_zero (x ∷ m) h = absurd (omega arith)

is_some-false {ℓ} : {A : Type ℓ} (o : Option A) → is_some o ≡ false → o ≡ none
is_some-false none h = refl
is_some-false (some a) h = cc

inputs_clear :
    (is : List Input)
    → count_if input_drops is ≡ 0
    → All (λ (i : Input). (i.sp_ecdh_shares ≡ []) × (i.sp_dleq_proofs ≡ [])) is
unfolding count_if
inputs_clear [] h = tt
inputs_clear (i ∷ is) h = (
  (len_zero i.sp_ecdh_shares (ground arith), len_zero i.sp_dleq_proofs (ground arith)),
  inputs_clear is (ground arith),
)

outputs_clear :
    (os : List Output)
    → count_if output_drops os ≡ 0
    → All (λ (o : Output). (o.sp_v0_info ≡ none) × (o.sp_v0_label ≡ none)) os
unfolding count_if
outputs_clear [] h = tt
outputs_clear (o ∷ os) h = (
  (is_some-false o.sp_v0_info (ground arith), is_some-false o.sp_v0_label (ground arith)),
  outputs_clear os (ground arith),
)

clear_inputs :
    (is : List Input)
    → All (λ (i : Input). (i.sp_ecdh_shares ≡ []) × (i.sp_dleq_proofs ≡ [])) is
    → count_if input_drops is ≡ 0
unfolding count_if
clear_inputs [] h = refl
clear_inputs (i ∷ is) ((a, b), h) = rw (a, b) (clear_inputs is h)

clear_outputs :
    (os : List Output)
    → All (λ (o : Output). (o.sp_v0_info ≡ none) × (o.sp_v0_label ≡ none)) os
    → count_if output_drops os ≡ 0
unfolding count_if
clear_outputs [] h = refl
clear_outputs (o ∷ os) ((a, b), h) = rw (a, b) (clear_outputs os h)

-- `degraded` reports nothing exactly where no field of silent payments is set.
pub degraded_empty_iff : (v : PsbtV0) → (is_empty (degraded v) ≡ true) ↔ NoSilentPayments v.psbt
unfolding is_empty degraded
degraded_empty_iff v = (forth, back)
  where
    forth : is_empty (degraded v) ≡ true → NoSilentPayments v.psbt
    forth h = record {
      shares = len_zero v.psbt.global.sp_ecdh_shares (ground arith);
      proofs = len_zero v.psbt.global.sp_dleq_proofs (ground arith);
      inputs = inputs_clear v.psbt.inputs (ground arith);
      outputs = outputs_clear v.psbt.outputs (ground arith);
    }

    back : NoSilentPayments v.psbt → is_empty (degraded v) ≡ true
    back n =
        rw
          (
            n.shares,
            n.proofs,
            clear_inputs v.psbt.inputs n.inputs,
            clear_outputs v.psbt.outputs n.outputs,
          )
          refl
