-- ===== src/Psbt/PartialSigs.antt =====
-- `Psbt::check_partial_sigs_sighash_type` of src/psbt.rs.
use rust_psbt.Prelude.{
  ℕ, suc, ◌≡◌, ◌↔◌, refl, sym, not, ◌==◌, ==_refl, List, [], ◌∷◌, All, Option, none, some, Outcome,
  ok, map_err, ok_or, fail_if, ◌>>=◌, ◌>>◌, >>=-eq-ok, arith,
}
use rust_psbt.Primitives.{PublicKey, EcdsaSignature, EcdsaSighashType}
use rust_psbt.Sighash as Sighash
use rust_psbt.Sighash.{SighashTypes, SighashError, PsbtSighashType}
use rust_psbt.BTreeMap.{BTreeMap}
use rust_psbt.Input.{Input}
use rust_psbt.Psbt.{Psbt}

-- `PartialSigsSighashTypeError`.
pub data PartialSigsSighashTypeError : Type 0 where
  non_standard_input_sighash_type : ℕ → SighashError → PartialSigsSighashTypeError
  non_standard_partial_sigs_sighash_type : ℕ → ℕ → PartialSigsSighashTypeError
  wrong_sighash_flag :
      ℕ → EcdsaSighashType → EcdsaSighashType → PublicKey → PartialSigsSighashTypeError

-- The derived equality, on the ranks of the variants.
abbrev pub rank : EcdsaSighashType → ℕ
rank EcdsaSighashType.all = 0
rank EcdsaSighashType.none = 1
rank EcdsaSighashType.single = 2
rank EcdsaSighashType.all_plus_anyone_can_pay = 3
rank EcdsaSighashType.none_plus_anyone_can_pay = 4
rank EcdsaSighashType.single_plus_anyone_can_pay = 5

module _ (s : SighashTypes) where
  abbrev pub target :
      ℕ → Option PsbtSighashType → Outcome PartialSigsSighashTypeError EcdsaSighashType
  target index none = ok EcdsaSighashType.all
  target index (some t) =
      map_err (non_standard_input_sighash_type index) (Sighash.ecdsa_hash_ty s t)

  -- `for (key, ecdsa_sig) in &input.partial_sigs`.
  unfoldable pub check_sigs :
      ℕ
      → EcdsaSighashType
      → BTreeMap PublicKey EcdsaSignature
      → Outcome PartialSigsSighashTypeError (Unit {0})
  check_sigs index required [] = ok tt
  check_sigs index required ((key, sig) ∷ rest) = do
    flag ←
        ok_or (s.from_standard (s.ecdsa_as_u32 sig.sighash_type))
          (non_standard_partial_sigs_sighash_type index (s.ecdsa_as_u32 sig.sighash_type))
    fail_if (not (rank required == rank flag)) (wrong_sighash_flag index required flag key)
    check_sigs index required rest

  -- `for (input_index, input) in self.inputs.iter().enumerate()`.
  unfoldable pub check_inputs : ℕ → List Input → Outcome PartialSigsSighashTypeError (Unit {0})
  unfolding check_sigs
  check_inputs index [] = ok tt
  check_inputs index (i ∷ is) = do
    required ← target index i.sighash_type
    check_sigs index required i.partial_sigs
    check_inputs (suc index) is

  unfoldable pub check_partial_sigs_sighash_type :
      Psbt → Outcome PartialSigsSighashTypeError (Unit {0})
  unfolding check_inputs
  check_partial_sigs_sighash_type p = check_inputs 0 p.inputs

-- Upstream's reader of a number as a standard type reads back each type.
abbrev pub ReadsBack : SighashTypes → Type 0
ReadsBack s = (t : EcdsaSighashType) → s.from_standard (s.ecdsa_as_u32 t) ≡ some t

-- The type that the input asks for, ALL if it declares none, and every signature has it.
abbrev pub Agrees : SighashTypes → Input → Type 0
Agrees s i =
    (t : EcdsaSighashType) × (target s 0 i.sighash_type ≡ ok t)
    × All (λ (e : PublicKey × EcdsaSignature). e.1.sighash_type ≡ t) i.partial_sigs

rank_injective : (a b : EcdsaSighashType) → rank a ≡ rank b → a ≡ b
rank_injective a b h = ground arith

module _ (s : SighashTypes) (reads : ReadsBack s) where
  sig_step :
      (n : ℕ) (t : EcdsaSighashType) (key : PublicKey) (sig : EcdsaSignature)
      (rest : BTreeMap PublicKey EcdsaSignature)
      → check_sigs s n t ((key, sig) ∷ rest) ≡ ok tt
      → (rank t ≡ rank sig.sighash_type) × (check_sigs s n t rest ≡ ok tt)
  unfolding check_sigs
  sig_step n t key sig rest h = ground (arith, reads sig.sighash_type)

  check_sigs-All :
      (n : ℕ) (t : EcdsaSighashType) (sigs : BTreeMap PublicKey EcdsaSignature)
      → check_sigs s n t sigs ≡ ok tt
      → All (λ (e : PublicKey × EcdsaSignature). e.1.sighash_type ≡ t) sigs
  check_sigs-All n t [] h = tt
  check_sigs-All n t ((key, sig) ∷ rest) h =
      let (e, k) = sig_step n t key sig rest h in
      (sym (rank_injective t sig.sighash_type e), check_sigs-All n t rest k)

  All-check_sigs :
      (n : ℕ) (t : EcdsaSighashType) (sigs : BTreeMap PublicKey EcdsaSignature)
      → All (λ (e : PublicKey × EcdsaSignature). e.1.sighash_type ≡ t) sigs
      → check_sigs s n t sigs ≡ ok tt
  unfolding check_sigs
  All-check_sigs n t [] h = refl
  All-check_sigs n t ((key, sig) ∷ rest) (e, h) =
      rw (reads sig.sighash_type, e, ==_refl (rank t)) (All-check_sigs n t rest h)

  target_index :
      (n m : ℕ) (o : Option PsbtSighashType) (t : EcdsaSighashType)
      → target s n o ≡ ok t
      → target s m o ≡ ok t
  target_index n m o t h = ground arith

  inputs_agree : (n : ℕ) (is : List Input) → check_inputs s n is ≡ ok tt → All (Agrees s) is
  unfolding check_inputs
  inputs_agree n [] h = tt
  inputs_agree n (i ∷ is) h =
      let (t, e, h1) = >>=-eq-ok (target s n i.sighash_type) _ h in
      let (_, e', h2) = >>=-eq-ok (check_sigs s n t i.partial_sigs) _ h1 in
      (
        (t, target_index n 0 i.sighash_type t e, check_sigs-All n t i.partial_sigs e'),
        inputs_agree (suc n) is h2,
      )

  agree_inputs : (n : ℕ) (is : List Input) → All (Agrees s) is → check_inputs s n is ≡ ok tt
  unfolding check_inputs
  agree_inputs n [] h = refl
  agree_inputs n (i ∷ is) ((t, e, a), h) =
      rw (target_index 0 n i.sighash_type t e, All-check_sigs n t i.partial_sigs a)
        (agree_inputs (suc n) is h)

pub check_partial_sigs_iff :
    (s : SighashTypes) (p : Psbt)
    → ReadsBack s
    → (check_partial_sigs_sighash_type s p ≡ ok tt) ↔ All (Agrees s) p.inputs
unfolding check_partial_sigs_sighash_type
check_partial_sigs_iff s p reads =
    (inputs_agree s reads 0 p.inputs, agree_inputs s reads 0 p.inputs)
