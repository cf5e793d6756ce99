-- ===== src/Roles/Signing.antt =====
-- What the Signer keeps.
use rust_psbt.Prelude.{
  ℕ, ◌≡◌, ◌<◌, ◌⊎◌, inl, inr, refl, ap, sym, ◌∙◌, Bool, true, false, ◌&&◌, ◌||◌, List, [], ◌∷◌,
  length, length-set, get_elem?, some, ok, map_err, >>=-eq-ok, arith,
}
use rust_psbt.Primitives.{EcdsaSignature, TaprootSignature, PublicKey}
use rust_psbt.Ordered.{nat_ord}
use rust_psbt.Flags.{is_inputs_modifiable, is_outputs_modifiable, has_sighash_single}
use rust_psbt.Flags.Laws.{apply_sighash-Reads}
use rust_psbt.Sighash.{SighashTypes, PsbtSighashType, from_ecdsa, from_tap}
use rust_psbt.Input.{Input, out_point}
use rust_psbt.Psbt as Psbts
use rust_psbt.Psbt.{
  Psbt, DetermineLockTimeError, IndexOutOfBoundsError, checked_input, clear_tx_modifiable,
}
use rust_psbt.Psbt.Combine.Zip.{map_err-eq-ok}
use rust_psbt.Psbt.TxFields.{tx_fields, SameTx, SameTx-unsigned_tx, set-tx_fields}
use rust_psbt.Roles.Signer.{
  Signer, new, TapKeyMaterial, key_path, script_path, TypedSigs, ecdsa, taproot, InputSigs,
  index_error, insert_ecdsa, insert_taproot, insert_material, write_input, write_sigs, apply_one,
  apply_all, apply,
}

insert_ecdsa-tx_fields :
    (sigs : List (PublicKey × EcdsaSignature)) (i : Input)
    → tx_fields (insert_ecdsa sigs i) ≡ tx_fields i
unfolding insert_ecdsa out_point
insert_ecdsa-tx_fields [] i = refl
insert_ecdsa-tx_fields ((pk, sig) ∷ rest) i = insert_ecdsa-tx_fields rest _

insert_material-tx_fields :
    (m : TapKeyMaterial) (sig : TaprootSignature) (i : Input)
    → tx_fields (insert_material m sig i) ≡ tx_fields i
unfolding out_point
insert_material-tx_fields (key_path key) sig i = refl
insert_material-tx_fields (script_path key) sig i = refl

insert_taproot-tx_fields :
    (sigs : List (TapKeyMaterial × TaprootSignature)) (i : Input)
    → tx_fields (insert_taproot sigs i) ≡ tx_fields i
unfolding insert_taproot out_point
insert_taproot-tx_fields [] i = refl
insert_taproot-tx_fields ((m, sig) ∷ rest) i =
    insert_taproot-tx_fields rest _ ∙ insert_material-tx_fields m sig i

-- What a Signer's write keeps: the fields of the transaction, the number of the inputs and the
-- counts; and it makes nothing modifiable that was not.
pub record Keeps (p q : Psbt) : Type 0 where
  pub tx : SameTx q p
  pub length : length q.inputs ≡ length p.inputs
  pub input_count : q.global.input_count ≡ p.global.input_count
  pub output_count : q.global.output_count ≡ p.global.output_count
  pub byte : q.global.tx_modifiable_flags.bits < 256
  pub inputs_modifiable :
      is_inputs_modifiable q.global.tx_modifiable_flags ≡ true
      → is_inputs_modifiable p.global.tx_modifiable_flags ≡ true
  pub outputs_modifiable :
      is_outputs_modifiable q.global.tx_modifiable_flags ≡ true
      → is_outputs_modifiable p.global.tx_modifiable_flags ≡ true
  pub single :
      has_sighash_single p.global.tx_modifiable_flags ≡ true
      → has_sighash_single q.global.tx_modifiable_flags ≡ true

Keeps-refl : (p : Psbt) → p.global.tx_modifiable_flags.bits < 256 → Keeps p p
Keeps-refl p b = record {
  tx = record { inputs = refl; outputs = refl; version = refl; fallback = refl };
  length = refl;
  input_count = refl;
  output_count = refl;
  byte = b;
  inputs_modifiable = λ h. h;
  outputs_modifiable = λ h. h;
  single = λ h. h;
}

Keeps-trans : (p q r : Psbt) → Keeps p q → Keeps q r → Keeps p r
Keeps-trans p q r k l = record {
  tx = record {
    inputs = l.tx.inputs ∙ k.tx.inputs;
    outputs = l.tx.outputs ∙ k.tx.outputs;
    version = l.tx.version ∙ k.tx.version;
    fallback = l.tx.fallback ∙ k.tx.fallback;
  };
  length = l.length ∙ k.length;
  input_count = l.input_count ∙ k.input_count;
  output_count = l.output_count ∙ k.output_count;
  byte = l.byte;
  inputs_modifiable = λ h. k.inputs_modifiable (l.inputs_modifiable h);
  outputs_modifiable = λ h. k.outputs_modifiable (l.outputs_modifiable h);
  single = λ h. l.single (k.single h);
}

and_left : (a b : Bool) → (a && b) ≡ true → a ≡ true
and_left true b h = refl
and_left false b h = h

or_left : (a b : Bool) → a ≡ true → (a || b) ≡ true
or_left true b h = refl
or_left false b h = cc

checked_input-get :
    (p : Psbt) (n : ℕ) (i : Input) → checked_input p n ≡ ok i → get_elem? p.inputs n ≡ some i
unfolding checked_input
checked_input-get p n i h = ground arith

module _ (s : SighashTypes) where
  write-Keeps :
      (p : Psbt) (n : ℕ) (i j : Input) (t : PsbtSighashType)
      → p.global.tx_modifiable_flags.bits < 256
      → get_elem? p.inputs n ≡ some i
      → tx_fields j ≡ tx_fields i
      → Keeps p (clear_tx_modifiable s t (write_input n j p))
  unfolding clear_tx_modifiable
  write-Keeps p n i j t b h e =
      let r = apply_sighash-Reads s t p.global.tx_modifiable_flags b in
      record {
        tx = record {
          inputs = set-tx_fields p.inputs n i j h e;
          outputs = refl;
          version = refl;
          fallback = refl;
        };
        length = length-set p.inputs n j;
        input_count = refl;
        output_count = refl;
        byte = r.byte;
        inputs_modifiable = λ k. and_left _ _ (sym r.inputs ∙ k);
        outputs_modifiable = λ k. and_left _ _ (sym r.outputs ∙ k);
        single = λ k. r.single ∙ or_left _ _ k;
      }

  write_sigs-Keeps :
      (p q : Psbt) (n : ℕ) (i : Input) (sigs : TypedSigs)
      → p.global.tx_modifiable_flags.bits < 256
      → get_elem? p.inputs n ≡ some i
      → write_sigs s p n i sigs ≡ ok q
      → Keeps p q
  write_sigs-Keeps p q n i (ecdsa []) b h e = unfold write_sigs in cc
  write_sigs-Keeps p q n i (taproot []) b h e = unfold write_sigs in cc
  write_sigs-Keeps p q n i (ecdsa ((pk, sig) ∷ rest)) b h e =
      let k : clear_tx_modifiable s (from_ecdsa s sig.sighash_type)
            (write_input n (insert_ecdsa ((pk, sig) ∷ rest) i) p)
          ≡ q =
        unfold write_sigs in ground arith in
      rw (← k) (write-Keeps p n i _ _ b h (insert_ecdsa-tx_fields ((pk, sig) ∷ rest) i))
  write_sigs-Keeps p q n i (taproot ((m, sig) ∷ rest)) b h e =
      let k : clear_tx_modifiable s (from_tap s sig.sighash_type)
            (write_input n (insert_taproot ((m, sig) ∷ rest) i) p)
          ≡ q =
        unfold write_sigs in ground arith in
      rw (← k) (write-Keeps p n i _ _ b h (insert_taproot-tx_fields ((m, sig) ∷ rest) i))

  apply_one-parts :
      (p q : Psbt) (sigs : InputSigs)
      → apply_one s p sigs ≡ ok q
      → (i : Input) × (get_elem? p.inputs sigs.index ≡ some i)
        × ((p ≡ q) ⊎ (write_sigs s p sigs.index i sigs.signatures ≡ ok q))
  unfolding apply_one
  apply_one-parts p q sigs h =
      let (i, e, k) = >>=-eq-ok (map_err index_error (checked_input p sigs.index)) _ h in
      (i, checked_input-get p sigs.index i (map_err-eq-ok index_error _ e), ground arith)

  pub apply_one-Keeps :
      (p q : Psbt) (sigs : InputSigs)
      → p.global.tx_modifiable_flags.bits < 256
      → apply_one s p sigs ≡ ok q
      → Keeps p q
  apply_one-Keeps p q sigs b h =
      let (i, e, k) = apply_one-parts p q sigs h in
      elim k [
        | inl same ↦ rw (← same) (Keeps-refl p b)
        | inr wrote ↦ write_sigs-Keeps p q sigs.index i sigs.signatures b e wrote
      ]

  apply_all-step :
      (p q : Psbt) (x : InputSigs) (xs : List InputSigs)
      → apply_all s p (x ∷ xs) ≡ ok q
      → (r : Psbt) × (apply_one s p x ≡ ok r) × (apply_all s r xs ≡ ok q)
  unfolding apply_all
  apply_all-step p q x xs h = >>=-eq-ok (apply_one s p x) (λ r. apply_all s r xs) h

  apply_all-Keeps :
      (p q : Psbt) (sigs : List InputSigs)
      → p.global.tx_modifiable_flags.bits < 256
      → apply_all s p sigs ≡ ok q
      → Keeps p q
  apply_all-Keeps p q [] b h =
      let e : p ≡ q = unfold apply_all in ground arith in rw (← e) (Keeps-refl p b)
  apply_all-Keeps p q (x ∷ xs) b h =
      let (r, e, k) = apply_all-step p q x xs h in
      let first = apply_one-Keeps p r x b e in
      Keeps-trans p r q first (apply_all-Keeps r q xs first.byte k)

-- Whatever signatures a Signer made by `new` applies to a PSBT whose flags are a byte, if it succeeds
-- the PSBT keeps what `Keeps` says, and its unsigned transaction is the one the Signer cached.
pub apply-Keeps :
    (s : SighashTypes) (p q : Psbt) (signer : Signer) (sigs : List InputSigs)
    → p.global.tx_modifiable_flags.bits < 256
    → new p ≡ ok signer
    → apply s signer sigs ≡ ok q
    → Keeps p q × (Psbts.unsigned_tx q ≡ ok signer.cache)
unfolding new apply
apply-Keeps s p q signer sigs b h k =
    let (tx, e, f) = >>=-eq-ok (Psbts.unsigned_tx p) _ h in
    let same : p ≡ signer.psbt = ground arith in
    let cached : tx ≡ signer.cache = ground arith in
    let kept = apply_all-Keeps s p q sigs b (rw same k) in
    (kept, SameTx-unsigned_tx q p kept.tx ∙ e ∙ ap ok cached)
