-- ===== src/Roles/SignableSets.antt =====
-- The steps of the checks of an input.
pub mod Collecting
pub mod Evidence
use rust_psbt.Prelude.{
  ℕ, ◌≡◌, refl, ap, sym, ◌∙◌, Bool, true, false, ◌&&◌, leb, [], length, is_some, Outcome, ok,
  map_err, fail_if, >>=-eq-ok, arith,
}
use rust_psbt.Primitives.{TxOut}
use rust_psbt.Ordered.{nat_ord}
use rust_psbt.Sighash.{is_single}
use rust_psbt.Input.{Input}
use rust_psbt.Input.Utxo.{
  SignError, funding_utxo, funding_utxo_untrusted, output_type, funding_utxo_error,
  unknown_output_type, non_witness_sig, sighash_single_missing_output, sighash_mismatch,
}
use rust_psbt.Psbt.{Psbt, checked_input}
use rust_psbt.Psbt.Combine.Zip.{map_err-eq-ok}
use rust_psbt.Roles.Signer.{index_error}
use rust_psbt.Roles.Signable.{
  Upstream, SignableInput, sighash_ty_of, script_code_of, check_algorithm, check_data, verify,
  has_mismatch, is_bare, check_redeem_script, check_witness_script, check_internal_key,
}

fail_if-eq-ok {ℓ} : {E : Type ℓ} (b : Bool) (e : E) {u : Unit {0}} → fail_if b e ≡ ok u → b ≡ false
fail_if-eq-ok true e h = cc
fail_if-eq-ok false e h = refl

-- The steps that `check_data` has taken.
pub record Steps (u : Upstream) (p : Psbt) (n : ℕ) (x : SignableInput) : Type 0 where
  pub input : Input
  pub found : checked_input p n ≡ ok input
  pub index : x.index ≡ n
  pub prevout : funding_utxo u.compute_txid input ≡ ok x.prevout
  pub output_type : output_type u.compute_txid u.classes input ≡ ok x.output_type
  pub witness : (is_some input.witness_utxo && is_bare x.output_type) ≡ false
  pub sighash : x.sighash_ty ≡ sighash_ty_of u input.sighash_type x.output_type
  pub single : (is_single u.sighash x.sighash_ty && leb (length p.outputs) n) ≡ false
  pub script_code : script_code_of x.output_type x.prevout input ≡ ok x.script_code
  pub algorithm : check_algorithm u x.output_type input ≡ ok tt

pub check_data-Steps :
    (u : Upstream) (p : Psbt) (n : ℕ) (x : SignableInput) → check_data u p n ≡ ok x → Steps u p n x
unfolding check_data
check_data-Steps u p n x h =
    let (i, e1, h1) = >>=-eq-ok (map_err index_error (checked_input p n)) _ h in
    let (t, e2, h2) = >>=-eq-ok (map_err funding_utxo_error (funding_utxo u.compute_txid i)) _ h1 in
    let (o, e3, h3) =
      >>=-eq-ok (map_err (λ _. unknown_output_type) (output_type u.compute_txid u.classes i)) _
        h2 in
    let (_, e4, h4) =
      >>=-eq-ok (fail_if (is_some i.witness_utxo && is_bare o) non_witness_sig) _ h3 in
    let (_, e5, h5) =
      >>=-eq-ok
        (fail_if
          (is_single u.sighash (sighash_ty_of u i.sighash_type o) && leb (length p.outputs) n)
          sighash_single_missing_output)
        _ h4 in
    let (c, e6, h6) = >>=-eq-ok (script_code_of o t i) _ h5 in
    let (_, e7, h7) = >>=-eq-ok (check_algorithm u o i) _ h6 in
    let k : record {
      index = n;
      output_type = o;
      prevout = t;
      script_code = c;
      sighash_ty = sighash_ty_of u i.sighash_type o;
    }
        ≡ x =
      ground arith in
    rw (← k) (record {
      input = i;
      found = map_err-eq-ok index_error _ e1;
      index = refl;
      prevout = map_err-eq-ok funding_utxo_error _ e2;
      output_type = map_err-eq-ok (λ _. unknown_output_type) _ e3;
      witness = fail_if-eq-ok _ non_witness_sig e4;
      sighash = refl;
      single = fail_if-eq-ok _ sighash_single_missing_output e5;
      script_code = e6;
      algorithm = e7;
    })

-- What `verify` adds to it.
verify-parts :
    (u : Upstream) (p : Psbt) (n : ℕ) (x : SignableInput)
    → verify u p n ≡ ok x
    → (check_data u p n ≡ ok x)
      × ((i : Input) × (checked_input p n ≡ ok i)
          × ((t : TxOut) × (funding_utxo_untrusted u.compute_txid u.classes i ≡ ok t))
          × (has_mismatch u x.sighash_ty i ≡ false))
unfolding verify
verify-parts u p n x h =
    let (y, e, h0) = >>=-eq-ok (check_data u p n) _ h in
    let (i, e1, h1) = >>=-eq-ok (map_err index_error (checked_input p n)) _ h0 in
    let (t, e2, h2) =
      >>=-eq-ok (map_err funding_utxo_error (funding_utxo_untrusted u.compute_txid u.classes i)) _
        h1 in
    let (_, e3, h3) =
      >>=-eq-ok (check_redeem_script u i.redeem_script y.prevout.script_pubkey) _ h2 in
    let (_, e4, h4) =
      >>=-eq-ok
        (check_witness_script u y.output_type i.witness_script i.redeem_script
          y.prevout.script_pubkey)
        _ h3 in
    let (_, e5, h5) =
      >>=-eq-ok (check_internal_key u y.output_type i y.prevout.script_pubkey) _ h4 in
    let (_, e6, h6) = >>=-eq-ok (fail_if (has_mismatch u y.sighash_ty i) sighash_mismatch) _ h5 in
    let k : y ≡ x = ground arith in
    (
      e ∙ ap ok k,
      (
        i,
        map_err-eq-ok index_error _ e1,
        (t, map_err-eq-ok funding_utxo_error _ e2),
        ap (λ (z : SignableInput). has_mismatch u z.sighash_ty i) (sym k)
            ∙ fail_if-eq-ok _ sighash_mismatch e6,
      ),
    )

-- A check that sees the input and its funding output.
abbrev pub Sees : Upstream → (Psbt → ℕ → Outcome SignError SignableInput) → Type 0
Sees u check =
    (p : Psbt) (n : ℕ) (x : SignableInput)
    → check p n ≡ ok x
    → (i : Input) × (checked_input p n ≡ ok i) × (funding_utxo u.compute_txid i ≡ ok x.prevout)

pub check_data-Sees : (u : Upstream) → Sees u (check_data u)
check_data-Sees u p n x h = let c = check_data-Steps u p n x h in (c.input, c.found, c.prevout)

pub verify-Sees : (u : Upstream) → Sees u (verify u)
verify-Sees u p n x h = check_data-Sees u p n x ((verify-parts u p n x h).0)
