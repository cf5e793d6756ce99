-- ===== src/Roles/Applies.antt =====
-- The Signer writes whatever it signed for inputs that the PSBT has.
use rust_psbt.Prelude.{
  ℕ, ◌≡◌, ◌<◌, inl, inr, refl, false, List, [], ◌∷◌, length, get_elem?_total, Bool-cases, All-imp,
  ok, arith, All,
}
use rust_psbt.Ordered.{nat_ord}
use rust_psbt.Sighash.{SighashTypes}
use rust_psbt.Input.{Input}
use rust_psbt.Psbt.{Psbt, checked_input}
use rust_psbt.Roles.Signer.{
  Signer, TypedSigs, ecdsa, taproot, InputSigs, is_empty, write_sigs, apply_one, apply_all, apply,
}
use rust_psbt.Roles.Signing.{apply_one-Keeps}

-- An index that `checked_input` accepts.
abbrev pub Indexes : Psbt → InputSigs → Type 0
Indexes p sigs = (sigs.index < length p.inputs) × (sigs.index < p.global.input_count)

module _ (s : SighashTypes) where
  write_sigs_total :
      (p : Psbt) (n : ℕ) (i : Input) (sigs : TypedSigs)
      → is_empty sigs ≡ false
      → (q : Psbt) × (write_sigs s p n i sigs ≡ ok q)
  unfolding write_sigs is_empty
  write_sigs_total p n i (ecdsa []) h = ground arith
  write_sigs_total p n i (taproot []) h = ground arith
  write_sigs_total p n i (ecdsa ((pk, sig) ∷ rest)) h = (_, refl)
  write_sigs_total p n i (taproot ((m, sig) ∷ rest)) h = (_, refl)

  checked_input_total :
      (p : Psbt) (x : InputSigs) → Indexes p x → (i : Input) × (checked_input p x.index ≡ ok i)
  unfolding checked_input
  checked_input_total p x (h, k) =
      let (i, e) = get_elem?_total p.inputs x.index h in (i, ground arith)

  apply_one_total : (p : Psbt) (x : InputSigs) → Indexes p x → (q : Psbt) × (apply_one s p x ≡ ok q)
  unfolding apply_one
  apply_one_total p x h =
      let (i, e) = checked_input_total p x h in
      elim (Bool-cases (is_empty x.signatures)) [
        | inl unsigned ↦ (p, rw (e, unsigned) refl)
        | inr signed ↦
            let (q, k) = write_sigs_total p x.index i x.signatures signed in (q, rw (e, signed) k)
      ]

  apply_all_total :
      (p : Psbt) (xs : List InputSigs)
      → p.global.tx_modifiable_flags.bits < 256
      → All (Indexes p) xs
      → (q : Psbt) × (apply_all s p xs ≡ ok q)
  unfolding apply_all
  apply_all_total p [] b a = (p, refl)
  apply_all_total p (x ∷ xs) b (h, a) =
      let (r, e) = apply_one_total p x h in
      let k = apply_one-Keeps s p r x b e in
      let moved =
        All-imp (Indexes p) (Indexes r) (λ y g. (rw k.length (g.0), rw k.input_count (g.1))) xs a in
      let (q, f) = apply_all_total r xs k.byte moved in (q, rw e f)

-- A Signer whose PSBT has a byte of flags applies every list of signatures whose indices lie inside
-- the inputs and the input count.
pub apply_total :
    (s : SighashTypes) (signer : Signer) (sigs : List InputSigs)
    → signer.psbt.global.tx_modifiable_flags.bits < 256
    → All (Indexes signer.psbt) sigs
    → (q : Psbt) × (apply s signer sigs ≡ ok q)
unfolding apply
apply_total s signer sigs b a = apply_all_total s signer.psbt sigs b a
