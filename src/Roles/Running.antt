-- ===== src/Roles/Running.antt =====
-- The checks of the Signer never panic.
use rust_psbt.Prelude.{
  ℕ, ◌≡◌, ◌≢◌, refl, Bool, true, false, Option, some, none, Outcome, ok, err, panicked, map_err,
  fail_if, ok_or, ◌>>=◌, ◌>>◌, arith, leb, length, ◌&&◌, is_some, sym, ap, ◌∙◌, get_elem?_total,
}
use rust_psbt.Primitives.{Transaction, TxOut, ScriptBuf}
use rust_psbt.Input.{Input, ecdsa_hash_ty, taproot_hash_ty}
use rust_psbt.Sighash as Sighash
use rust_psbt.Sighash.{is_single}
use rust_psbt.Input.Utxo.{
  SignError, funding_utxo_error, unknown_output_type, non_witness_sig,
  sighash_single_missing_output, invalid_sighash_type, sighash_mismatch, OutputType, funding_utxo,
  funding_utxo_untrusted, select_utxo, output_at, output_type, output_type_from_spk,
}
use rust_psbt.Psbt.{Psbt, checked_input}
use rust_psbt.Roles.Signer.{index_error}
use rust_psbt.Roles.Signable.{
  Upstream, check_data, verify, script_code_of, check_algorithm, checked, check_redeem_script,
  check_witness_script, check_internal_key, is_bare, sighash_ty_of, has_mismatch, new,
}
use rust_psbt.Roles.SignableSets.{verify-Sees}
use rust_psbt.Roles.SignableSets.Collecting.{Collected, new-Collected}

-- The run ends with a value or an error.
abbrev runs {ℓ κ} : {E : Type ℓ} {A : Type κ} → Outcome E A → Bool
runs (ok a) = true
runs (err e) = true
runs panicked = false

bind_runs {ℓ κ μ} :
    {E : Type ℓ} {A : Type κ} {B : Type μ} (m : Outcome E A) (f : A → Outcome E B)
    → runs m ≡ true
    → ((a : A) → runs (f a) ≡ true)
    → runs (m >>= f) ≡ true
bind_runs (ok a) f h k = k a
bind_runs (err e) f h k = refl
bind_runs panicked f h k = h

map_err-runs {ℓ κ μ} :
    {E : Type ℓ} {F : Type κ} {A : Type μ} (f : E → F) (m : Outcome E A)
    → runs m ≡ true
    → runs (map_err f m) ≡ true
map_err-runs f (ok a) h = refl
map_err-runs f (err e) h = refl
map_err-runs f panicked h = h

fail_if-runs {ℓ} : {E : Type ℓ} (b : Bool) (e : E) → runs (fail_if b e) ≡ true
fail_if-runs true e = refl
fail_if-runs false e = refl

guard_runs {ℓ κ} :
    {E : Type ℓ} {A : Type κ} (b : Bool) (e : E) (m : Outcome E A)
    → runs m ≡ true
    → runs (fail_if b e >> m) ≡ true
guard_runs true e m h = refl
guard_runs false e m h = h

ok_or-runs {ℓ κ} : {E : Type ℓ} {A : Type κ} (o : Option A) (e : E) → runs (ok_or o e) ≡ true
ok_or-runs none e = refl
ok_or-runs (some a) e = refl

checked_input-runs : (p : Psbt) (n : ℕ) → runs (checked_input p n) ≡ true
unfolding checked_input
checked_input-runs p n = ground (arith, get_elem?_total p.inputs n)

select_utxo-runs :
    (w : Option TxOut) (t : Option Transaction) (n : ℕ) → runs (select_utxo w t n) ≡ true
unfolding select_utxo output_at
select_utxo-runs w t n = ground arith

module _ (u : Upstream) where
  funding_utxo-runs : (i : Input) → runs (funding_utxo u.compute_txid i) ≡ true
  unfolding funding_utxo
  funding_utxo-runs i =
      ground (arith, select_utxo-runs i.witness_utxo i.non_witness_utxo i.spent_output_index)

  untrusted_runs : (i : Input) → runs (funding_utxo_untrusted u.compute_txid u.classes i) ≡ true
  unfolding funding_utxo_untrusted
  untrusted_runs i = ground (arith, funding_utxo-runs i)

  from_spk_runs :
      (i : Input) (spk : ScriptBuf)
      → runs (output_type_from_spk u.compute_txid u.classes i spk) ≡ true
  unfolding output_type_from_spk
  from_spk_runs i spk = ground arith

  output_type_runs : (i : Input) → runs (output_type u.compute_txid u.classes i) ≡ true
  unfolding output_type
  output_type_runs i =
      bind_runs (map_err funding_utxo_error (funding_utxo u.compute_txid i)) _
        (map_err-runs funding_utxo_error _ (funding_utxo-runs i))
        (λ t. from_spk_runs i t.script_pubkey)

  checked-runs {ℓ κ} :
      {E : Type ℓ} {A : Type κ} (e : SignError) (m : Outcome E A)
      → runs m ≡ true
      → runs (checked e m) ≡ true
  checked-runs e (ok a) h = refl
  checked-runs e (err _) h = refl
  checked-runs e panicked h = h

  ecdsa_runs : (i : Input) → runs (ecdsa_hash_ty u.sighash i) ≡ true
  unfolding ecdsa_hash_ty Sighash.ecdsa_hash_ty
  ecdsa_runs i = ground arith

  taproot_runs : (i : Input) → runs (taproot_hash_ty u.sighash i) ≡ true
  unfolding taproot_hash_ty Sighash.taproot_hash_ty
  taproot_runs i = ground arith

  algorithm_runs : (o : OutputType) (i : Input) → runs (check_algorithm u o i) ≡ true
  algorithm_runs o i = ground (
    arith,
    checked-runs invalid_sighash_type _ (ecdsa_runs i),
    checked-runs invalid_sighash_type _ (taproot_runs i),
  )

  script_code_runs : (o : OutputType) (t : TxOut) (i : Input) → runs (script_code_of o t i) ≡ true
  script_code_runs o t i = ground arith

  check_data-runs : (p : Psbt) (n : ℕ) → runs (check_data u p n) ≡ true
  unfolding check_data
  check_data-runs p n =
      bind_runs (map_err index_error (checked_input p n)) _
        (map_err-runs index_error _ (checked_input-runs p n))
        (λ i.
          bind_runs (map_err funding_utxo_error (funding_utxo u.compute_txid i)) _
            (map_err-runs funding_utxo_error _ (funding_utxo-runs i))
            (λ t.
              bind_runs
                (map_err (λ _. unknown_output_type) (output_type u.compute_txid u.classes i)) _
                (map_err-runs (λ _. unknown_output_type) _ (output_type_runs i))
                (λ o. guard_runs (is_some i.witness_utxo && is_bare o) non_witness_sig _ (
                  guard_runs
                    (is_single u.sighash (sighash_ty_of u i.sighash_type o)
                      && leb (length p.outputs) n)
                    sighash_single_missing_output _
                    (bind_runs (script_code_of o t i) _ (script_code_runs o t i) (λ c.
                      bind_runs (check_algorithm u o i) _ (algorithm_runs o i) (λ _. refl)))))))

  redeem_runs : (r : Option ScriptBuf) (spk : ScriptBuf) → runs (check_redeem_script u r spk) ≡ true
  redeem_runs r spk = ground arith

  witness_runs :
      (o : OutputType) (w r : Option ScriptBuf) (spk : ScriptBuf)
      → runs (check_witness_script u o w r spk) ≡ true
  witness_runs o w r spk = ground arith

  key_runs :
      (o : OutputType) (i : Input) (spk : ScriptBuf) → runs (check_internal_key u o i spk) ≡ true
  key_runs o i spk = ground arith

  verify-runs : (p : Psbt) (n : ℕ) → runs (verify u p n) ≡ true
  unfolding verify
  verify-runs p n = bind_runs (check_data u p n) _ (check_data-runs p n) (λ x.
      bind_runs (map_err index_error (checked_input p n)) _
        (map_err-runs index_error _ (checked_input-runs p n))
        (λ i.
          bind_runs (map_err funding_utxo_error (funding_utxo_untrusted u.compute_txid u.classes i))
            _ (map_err-runs funding_utxo_error _ (untrusted_runs i))
            (λ t.
              bind_runs (check_redeem_script u i.redeem_script x.prevout.script_pubkey) _
                (redeem_runs i.redeem_script x.prevout.script_pubkey)
                (λ _.
                  bind_runs
                    (check_witness_script u x.output_type i.witness_script i.redeem_script
                      x.prevout.script_pubkey)
                    _
                    (witness_runs x.output_type i.witness_script i.redeem_script
                      x.prevout.script_pubkey)
                    (λ _.
                      bind_runs (check_internal_key u x.output_type i x.prevout.script_pubkey) _
                        (key_runs x.output_type i x.prevout.script_pubkey)
                        (λ _.
                          guard_runs (has_mismatch u x.sighash_ty i) sighash_mismatch _ refl))))))

no_panic {ℓ κ} : {E : Type ℓ} {A : Type κ} (m : Outcome E A) → runs m ≡ true → m ≢ panicked
no_panic m h e = true≢false (sym h ∙ ap runs e)
  where
    true≢false : true ≡ false → ⊥
    true≢false k = cc

-- The complete set of inputs of a PSBT, each checked by `verify`, is built without a panic. It is the
-- errors of exactly the inputs that fail, if there is one, or else all the inputs up to the input
-- count, in their order and each one verified, with the outputs that they spend.
pub new-verify :
    (u : Upstream) (p : Psbt) → Collected p (verify u p) (new u.compute_txid (verify u) p)
new-verify u p =
    new-Collected u (verify u) (verify-Sees u) (λ q n. no_panic (verify u q n) (verify-runs u q n))
      p
