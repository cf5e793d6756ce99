-- ===== src/Roles/Signable.antt =====
-- `SignableInput` of src/roles/signer.rs: the evidence that an input can be signed. The scripts of
-- hashes and of output keys come from upstream.
use rust_psbt.Prelude.{
  ℕ, zero, suc, ◌++◌, expect_ok, Bool, true, false, not, ◌&&◌, ◌||◌, List, [], ◌∷◌, any, length,
  leb, bytes_eq, is_some, Option, some, none, Outcome, ok, err, panicked, map_err, ok_or, fail_if,
  ◌>>=◌, ◌>>◌,
}
use rust_psbt.Primitives.{
  Txid, ScriptBuf, Transaction, TxOut, XOnlyPublicKey, EcdsaSignature, TaprootSignature,
  TapSighashType,
}
use rust_psbt.Ordered.{nat_ord}
use rust_psbt.BTreeMap.{BTreeMap, values, insert}
use rust_psbt.Sighash.{
  SighashTypes, PsbtSighashType, sighash_all, sighash_eq, from_ecdsa, from_tap, is_single,
  is_anyone_can_pay,
}
use rust_psbt.Input as InputMap
use rust_psbt.Input.{Input}
use rust_psbt.Input.Utxo.{
  SignError, ScriptClasses, OutputType, bare, wpkh, wsh, sh_wpkh, sh_wsh, sh, tr,
  funding_utxo_error, invalid_sighash_type, missing_redeem_script, missing_witness_script,
  unknown_output_type, non_witness_sig, redeem_script_mismatch, witness_script_mismatch_wsh,
  witness_script_mismatch_sh_wsh, sighash_mismatch, sighash_single_missing_output,
  all_prevouts_required, taproot_internal_key_mismatch, funding_utxo, funding_utxo_untrusted,
  output_type,
}
use rust_psbt.Psbt.{Psbt, checked_input}
use rust_psbt.Roles.Signer.{index_error}

-- What upstream computes.
pub record Upstream : Type 0 where
  pub compute_txid : Transaction → Txid
  pub classes : ScriptClasses
  pub sighash : SighashTypes
  pub p2sh_of : ScriptBuf → ScriptBuf
  pub p2wsh_of : ScriptBuf → ScriptBuf
  pub p2tr_of : XOnlyPublicKey → Option ℕ → ScriptBuf

pub record SignableInput : Type 0 where
  pub index : ℕ
  pub output_type : OutputType
  pub prevout : TxOut
  pub script_code : ScriptBuf
  pub sighash_ty : PsbtSighashType

abbrev pub is_bare : OutputType → Bool
is_bare bare = true
is_bare _ = false

abbrev pub is_tr : OutputType → Bool
is_tr tr = true
is_tr _ = false

-- The script code that the sighash engine consumes.
abbrev pub script_code_of : OutputType → TxOut → Input → Outcome SignError ScriptBuf
script_code_of bare prevout i = ok prevout.script_pubkey
script_code_of wpkh prevout i = ok prevout.script_pubkey
script_code_of sh prevout i = ok_or i.redeem_script missing_redeem_script
script_code_of sh_wpkh prevout i = ok_or i.redeem_script missing_redeem_script
script_code_of wsh prevout i = ok_or i.witness_script missing_witness_script
script_code_of sh_wsh prevout i = ok_or i.witness_script missing_witness_script
script_code_of tr prevout i = ok []

-- `map_err(|_| e)?`, of which only the success matters.
abbrev pub checked {ℓ κ} :
    {E : Type ℓ} {A : Type κ} → SignError → Outcome E A → Outcome SignError (Unit {0})
checked e (ok a) = ok tt
checked e (err _) = err e
checked e panicked = panicked

module _ (u : Upstream) where
  -- The type declared by the input, or the default of its output type.
  abbrev pub sighash_ty_of : Option PsbtSighashType → OutputType → PsbtSighashType
  sighash_ty_of (some t) o = t
  sighash_ty_of none tr = from_tap u.sighash TapSighashType.default
  sighash_ty_of none _ = sighash_all

  abbrev pub check_algorithm : OutputType → Input → Outcome SignError (Unit {0})
  check_algorithm tr i = checked invalid_sighash_type (InputMap.taproot_hash_ty u.sighash i)
  check_algorithm _ i = checked invalid_sighash_type (InputMap.ecdsa_hash_ty u.sighash i)

  unfoldable pub check_data : Psbt → ℕ → Outcome SignError SignableInput
  check_data p index = do
    i ← map_err index_error (checked_input p index)
    prevout ← map_err funding_utxo_error (funding_utxo u.compute_txid i)
    o ← map_err (λ _. unknown_output_type) (output_type u.compute_txid u.classes i)
    fail_if (is_some i.witness_utxo && is_bare o) non_witness_sig
    fail_if (is_single u.sighash (sighash_ty_of i.sighash_type o) && leb (length p.outputs) index)
        sighash_single_missing_output
    script_code ← script_code_of o prevout i
    check_algorithm o i
    ok (record {
      index = index;
      output_type = o;
      prevout = prevout;
      script_code = script_code;
      sighash_ty = sighash_ty_of i.sighash_type o;
    })

  unfoldable pub assume_checked : Psbt → ℕ → Outcome SignError SignableInput
  assume_checked p index = check_data p index

  abbrev pub check_redeem_script : Option ScriptBuf → ScriptBuf → Outcome SignError (Unit {0})
  check_redeem_script none spk = ok tt
  check_redeem_script (some redeem) spk =
      fail_if (not (bytes_eq (u.p2sh_of redeem) spk)) redeem_script_mismatch

  -- `match input.output_type`, with a witness script.
  abbrev pub check_witness :
      OutputType → ScriptBuf → Option ScriptBuf → ScriptBuf → Outcome SignError (Unit {0})
  check_witness wsh witness redeem spk =
      fail_if (not (bytes_eq (u.p2wsh_of witness) spk)) witness_script_mismatch_wsh
  check_witness sh_wsh witness (some redeem) spk =
      fail_if (not (bytes_eq (u.p2wsh_of witness) redeem) || not (bytes_eq (u.p2sh_of redeem) spk))
        witness_script_mismatch_sh_wsh
  check_witness _ witness redeem spk = ok tt

  abbrev pub check_witness_script :
      OutputType → Option ScriptBuf → Option ScriptBuf → ScriptBuf → Outcome SignError (Unit {0})
  check_witness_script o none redeem spk = ok tt
  check_witness_script o (some witness) redeem spk = check_witness o witness redeem spk

  abbrev pub check_internal_key : OutputType → Input → ScriptBuf → Outcome SignError (Unit {0})
  check_internal_key tr i spk = elim i.tap_internal_key [
    | none ↦ ok tt
    | some key ↦
        fail_if (not (bytes_eq (u.p2tr_of key i.tap_merkle_root) spk)) taproot_internal_key_mismatch
  ]
  check_internal_key _ i spk = ok tt

  abbrev pub differs_tap : PsbtSighashType → TaprootSignature → Bool
  differs_tap t sig = not (sighash_eq (from_tap u.sighash sig.sighash_type) t)

  abbrev pub differs_ecdsa : PsbtSighashType → EcdsaSignature → Bool
  differs_ecdsa t sig = not (sighash_eq (from_ecdsa u.sighash sig.sighash_type) t)

  abbrev pub key_sig_differs : PsbtSighashType → Option TaprootSignature → Bool
  key_sig_differs t none = false
  key_sig_differs t (some sig) = differs_tap t sig

  unfoldable pub has_mismatch : PsbtSighashType → Input → Bool
  has_mismatch t i =
      key_sig_differs t i.tap_key_sig
      || (any (differs_tap t) (values i.tap_script_sigs)
          || any (differs_ecdsa t) (values i.partial_sigs))

  unfoldable pub verify : Psbt → ℕ → Outcome SignError SignableInput
  unfolding check_data has_mismatch
  verify p index = do
    input ← check_data p index
    i ← map_err index_error (checked_input p index)
    utxo ← map_err funding_utxo_error (funding_utxo_untrusted u.compute_txid u.classes i)
    check_redeem_script i.redeem_script input.prevout.script_pubkey
    check_witness_script input.output_type i.witness_script i.redeem_script
        input.prevout.script_pubkey
    check_internal_key input.output_type i input.prevout.script_pubkey
    fail_if (has_mismatch input.sighash_ty i) sighash_mismatch
    ok input

  -- `SigningSession::signable_input`.
  unfoldable pub signable_input : Psbt → ℕ → Outcome SignError SignableInput
  unfolding verify
  signable_input p index = do
    input ← verify p index
    fail_if (is_tr input.output_type && not (is_anyone_can_pay u.sighash input.sighash_ty))
        all_prevouts_required
    ok input

-- `AllSignableInputs`.
pub record AllSignableInputs : Type 0 where
  pub inputs : List SignableInput
  pub prevouts : List TxOut

-- The three variables of the loop: the two vectors, and the errors by index.
abbrev pub Found : Type 0
Found = AllSignableInputs × BTreeMap ℕ SignError

module _ (compute_txid : Transaction → Txid)
    (check : Psbt → ℕ → Outcome SignError SignableInput) where
  -- The arms of `match check(psbt, index)`, with the two `expect`s of the first.
  abbrev pub note_check {ℓ} :
      {E : Type ℓ} → Psbt → ℕ → Found → Outcome SignError SignableInput → Outcome E Found
  note_check p index (found, errors) (ok input) = do
    i ← expect_ok (checked_input p index)
    prevout ← expect_ok (funding_utxo compute_txid i)
    ok (
      record { inputs = found.inputs ++ (input ∷ []); prevouts = found.prevouts ++ (prevout ∷ []) },
      errors,
    )
  note_check p index (found, errors) (err e) = ok (found, insert index e errors)
  note_check p index found panicked = panicked

  -- `for index in 0..input_count`, with the number of rounds left.
  unfoldable pub collect {ℓ} : {E : Type ℓ} → Psbt → ℕ → ℕ → Found → Outcome E Found
  collect p zero index found = ok found
  collect p (suc rounds) index found =
      note_check p index found (check p index) >>= λ found'. collect p rounds (suc index) found'

  -- The test for errors after the loop.
  abbrev pub without_errors : Found → Outcome (BTreeMap ℕ SignError) AllSignableInputs
  without_errors (found, []) = ok found
  without_errors (found, e ∷ errors) = err (e ∷ errors)

  -- `AllSignableInputs::new`.
  unfoldable pub new : Psbt → Outcome (BTreeMap ℕ SignError) AllSignableInputs
  unfolding collect
  new p =
      collect p p.global.input_count 0 (record { inputs = []; prevouts = [] }, [])
      >>= without_errors

-- The other constructors of a `SigningSession`.
module _ (u : Upstream) where
  unfoldable pub assume_checked_input : Psbt → ℕ → Outcome SignError SignableInput
  unfolding assume_checked
  assume_checked_input p index = do
    input ← assume_checked u p index
    fail_if (is_tr input.output_type && not (is_anyone_can_pay u.sighash input.sighash_ty))
        all_prevouts_required
    ok input

  unfoldable pub signable_inputs : Psbt → Outcome (BTreeMap ℕ SignError) AllSignableInputs
  signable_inputs p = new u.compute_txid (verify u) p

  unfoldable pub assume_checked_inputs : Psbt → Outcome (BTreeMap ℕ SignError) AllSignableInputs
  assume_checked_inputs p = new u.compute_txid (assume_checked u) p
