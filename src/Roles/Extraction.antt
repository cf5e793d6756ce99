-- ===== src/Roles/Extraction.antt =====
-- What the Extractor guarantees.
use rust_psbt.Prelude.{
  ℕ, ◌≡◌, ◌≢◌, ◌⊎◌, inl, inr, ◌↔◌, ◌≤◌, ◌/◌, refl, ap, true, false, not, any, any-not, all-true,
  all_of_All, All, All-imp, Option-cases, fail_if, map, Option, none, some, List, [], ◌∷◌, ok,
  >>=-eq-ok, map_err, arith,
}
use rust_psbt.Primitives.{ScriptBuf, Witness, Transaction, Txid, TxIn, LockTime}
use rust_psbt.Input.{Input, is_finalized, signed_tx_in, unsigned_tx_in}
use rust_psbt.Output.{Output, SpV0Info, tx_out}
use rust_psbt.Psbt.{Psbt, determine_lock_time, unsigned_tx, all_finalized}
use rust_psbt.Psbt.Amounts.{fee}
use rust_psbt.Psbt.Combine.Zip.{map_err-eq-ok}
use rust_psbt.Roles.Extractor.{
  Extractor, ExtractError, is_uncomputed, position, uncomputed_silent_payment_output, new, refuse,
  psbt_not_finalized, internal_extract_tx, internal_extract_tx_with_fee_rate_limit, fee_rate,
  saturating_mul, fee_error, extract_tx_error,
}

-- The transaction with its signatures taken out.
abbrev pub unsign_in : TxIn → TxIn
unsign_in t = record t { script_sig = []; witness = [] }

abbrev pub unsign : Transaction → Transaction
unsign tx = record tx { input = map unsign_in tx.input }

unsign_inputs : (is : List Input) → map unsign_in (map signed_tx_in is) ≡ map unsigned_tx_in is
unfolding signed_tx_in unsigned_tx_in
unsign_inputs [] = refl
unsign_inputs (i ∷ is) = simp (unsign_inputs is)

-- The input has a final script or a final witness.
abbrev pub IsFinal : Input → Type 0
IsFinal i =
    ((script : ScriptBuf) × (i.final_script_sig ≡ some script))
    ⊎ ((witness : Witness) × (i.final_script_witness ≡ some witness))

-- The output has a script, or is no silent payment.
abbrev pub IsComputed : Output → Type 0
IsComputed o = (o.sp_v0_info ≡ none) ⊎ (o.script_pubkey ≢ [])

-- The PSBT that an Extractor takes: each input has a final script or witness, the lock time can be
-- determined, and no silent payment output is without its script.
pub record IsExtractable (p : Psbt) : Type 0 where
  pub finalized : All IsFinal p.inputs
  pub determined : (l : LockTime) × (determine_lock_time p ≡ ok l)
  pub computed : All IsComputed p.outputs

is_finalized-IsFinal : (i : Input) → (is_finalized i ≡ true) ↔ IsFinal i
unfolding is_finalized
is_finalized-IsFinal i = (forth, λ h. ground arith)
  where
    forth : is_finalized i ≡ true → IsFinal i
    forth h = elim (Option-cases i.final_script_sig) [
      | inr (s, e) ↦ inl (s, e)
      | inl e ↦ elim (Option-cases i.final_script_witness) [
        | inr (w, k) ↦ inr (w, k)
        | inl k ↦ absurd (ground arith)
      ]
    ]

IsComputed-cases :
    (o : Output)
    → ((is_uncomputed o ≡ true) × (IsComputed o → ⊥)) ⊎ ((is_uncomputed o ≡ false) × IsComputed o)
IsComputed-cases o = go o.sp_v0_info o.script_pubkey refl refl
  where
    go :
        (info : Option SpV0Info) (script : ScriptBuf)
        → o.sp_v0_info ≡ info
        → o.script_pubkey ≡ script
        → ((is_uncomputed o ≡ true) × (IsComputed o → ⊥))
          ⊎ ((is_uncomputed o ≡ false) × IsComputed o)
    go none script e k = inr (ground arith, inl e)
    go (some info) [] e k = inl (ground arith, λ h. ground arith)
    go (some info) (b ∷ script) e k = inr (ground arith, inr (λ h. ground arith))

position-IsComputed : (os : List Output) → (position os ≡ none) ↔ All IsComputed os
unfolding position
position-IsComputed [] = (λ h. tt, λ h. refl)
position-IsComputed (o ∷ os) =
    let (forth, back) = position-IsComputed os in
    elim (IsComputed-cases o) [
      | inl (e, n) ↦ (λ h. absurd (ground arith), λ h. absurd (n h.0))
      | inr (e, c) ↦ (λ h. (c, forth (ground arith)), λ h. ground (arith, back h.1))
    ]

all-IsFinal : (p : Psbt) → (all_finalized p ≡ true) ↔ All IsFinal p.inputs
unfolding all_finalized
all-IsFinal p = (
  λ h. All-imp _ _ (λ i. (is_finalized-IsFinal i).0) p.inputs (all-true is_finalized p.inputs h),
  λ h. all_of_All is_finalized p.inputs (All-imp _ _ (λ i. (is_finalized-IsFinal i).1) p.inputs h),
)

uncomputed-IsComputed :
    (p : Psbt) → (uncomputed_silent_payment_output p ≡ none) ↔ All IsComputed p.outputs
unfolding uncomputed_silent_payment_output
uncomputed-IsComputed p = position-IsComputed p.outputs

extract_with :
    (x : Extractor) (l : LockTime)
    → IsExtractable x.psbt
    → determine_lock_time x.psbt ≡ ok l
    → internal_extract_tx x
      ≡ ok (record {
        version = x.psbt.global.tx_version;
        lock_time = l;
        input = map signed_tx_in x.psbt.inputs;
        output = map tx_out x.psbt.outputs;
      })
unfolding internal_extract_tx
extract_with x l e d =
    rw ((all-IsFinal x.psbt).1 e.finalized, d, (uncomputed-IsComputed x.psbt).1 e.computed)

refuse-eq-ok {ℓ} :
    {E : Type ℓ} (error : ℕ → E) (o : Option ℕ) {u : Unit {0}} → refuse error o ≡ ok u → o ≡ none
refuse-eq-ok error none h = refl
refuse-eq-ok error (some n) h = cc

-- An Extractor is made of exactly the PSBTs that `IsExtractable` describes, and holds the PSBT.
pub IsExtractable-iff :
    (p : Psbt) (x : Extractor) → (new p ≡ ok x) ↔ (IsExtractable p × (record { psbt = p } ≡ x))
unfolding new all_finalized
IsExtractable-iff p x = (forth, λ h. back (h.0) (h.1))
  where
    forth : new p ≡ ok x → IsExtractable p × (record { psbt = p } ≡ x)
    forth h =
        let (u, e, h1) =
          >>=-eq-ok (fail_if (any (λ i. not (is_finalized i)) p.inputs) psbt_not_finalized) _ h in
        let (l, d, h2) =
          >>=-eq-ok (map_err ExtractError.determine_lock_time_failed (determine_lock_time p)) _
            h1 in
        let (v, c, h3) =
          >>=-eq-ok
            (refuse ExtractError.silent_payment_output_script_not_computed
              (uncomputed_silent_payment_output p))
            _ h2 in
        (
          record {
            finalized = (all-IsFinal p).0 (ground (arith, any-not is_finalized p.inputs));
            determined = (l, map_err-eq-ok ExtractError.determine_lock_time_failed _ d);
            computed =
                (uncomputed-IsComputed p).0
                  (refuse-eq-ok ExtractError.silent_payment_output_script_not_computed _ c);
          },
          ground arith,
        )

    back : IsExtractable p → record { psbt = p } ≡ x → new p ≡ ok x
    back e k =
        rw
          (
            any-not is_finalized p.inputs,
            (all-IsFinal p).1 e.finalized,
            e.determined.1,
            (uncomputed-IsComputed p).1 e.computed,
          )
          (ap ok k)

-- An Extractor made by `new` always yields a transaction, and without its signatures that is the PSBT's unsigned
-- transaction.
pub new-extract :
    (p : Psbt) (x : Extractor)
    → new p ≡ ok x
    → (tx : Transaction) × (internal_extract_tx x ≡ ok tx) × (unsigned_tx p ≡ ok (unsign tx))
unfolding unsigned_tx
new-extract p x h =
    let (e, k) = (IsExtractable-iff p x).0 h in
    let (l, d) = e.determined in
    rw (← k) (_, extract_with (record { psbt = p }) l e d, rw (d, unsign_inputs p.inputs) refl)

-- Where every transaction has some weight, an Extractor passes its transaction on exactly where it
-- has one, the fee can be computed and the fee rate is not above the limit.
pub extract_limited_iff :
    (compute_txid : Transaction → Txid) (weight : Transaction → ℕ) (limit : ℕ) (x : Extractor)
    (tx : Transaction)
    → ((t : Transaction) → 1 ≤ weight t)
    → (internal_extract_tx_with_fee_rate_limit compute_txid weight limit x ≡ ok tx) ↔ (
        (f : ℕ) × (fee compute_txid x.psbt ≡ ok f)
        × (internal_extract_tx x ≡ ok tx)
        × (saturating_mul f 1000 / weight tx ≤ limit))
unfolding internal_extract_tx_with_fee_rate_limit fee_rate
extract_limited_iff c weight limit x tx w = (forth, λ (f, e, k, b). ground (arith, w tx))
  where
    forth :
        internal_extract_tx_with_fee_rate_limit c weight limit x ≡ ok tx
        → (f : ℕ) × (fee c x.psbt ≡ ok f)
          × (internal_extract_tx x ≡ ok tx)
          × (saturating_mul f 1000 / weight tx ≤ limit)
    forth h =
        let (f, e, h1) = >>=-eq-ok (map_err fee_error (fee c x.psbt)) _ h in
        let (t, e', h2) = >>=-eq-ok (map_err extract_tx_error (internal_extract_tx x)) _ h1 in
        let (r, e'', h3) = >>=-eq-ok (fee_rate c weight f t) _ h2 in
        let q : t ≡ tx = ground arith in
        (
          f,
          map_err-eq-ok fee_error _ e,
          rw (← q) (map_err-eq-ok extract_tx_error _ e'),
          rw (← q) (ground (arith, w t)),
        )
