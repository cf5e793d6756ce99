-- ===== src/Input/Funding.antt =====
-- What a funding output that the accessors return was checked against.
use rust_psbt.Prelude.{
  ℕ, ◌≡◌, ◌⊎◌, inl, inr, refl, ap, true, Option, none, some, bytes_eq→eq, get_elem?, ok, arith,
  Option-cases, bytes_eq_refl,
}
use rust_psbt.Primitives.{Txid, TxOut, Transaction}
use rust_psbt.Input.{Input}
use rust_psbt.Input.Utxo.{
  ScriptClasses, tx_out_eq, output_at, select_utxo, funding_utxo, funding_utxo_untrusted,
}

pub tx_out_eq→eq : (a b : TxOut) → tx_out_eq a b ≡ true → a ≡ b
unfolding tx_out_eq
tx_out_eq→eq a b h = ground (arith, bytes_eq→eq a.script_pubkey b.script_pubkey)

pub tx_out_eq_refl : (a : TxOut) → tx_out_eq a a ≡ true
unfolding tx_out_eq
tx_out_eq_refl a = ground (arith, bytes_eq_refl a.script_pubkey)

output_at_ok :
    (tx : Transaction) (vout : ℕ) (u : TxOut)
    → output_at tx vout ≡ ok u
    → get_elem? tx.output vout ≡ some u
unfolding output_at
output_at_ok tx vout u h = ground arith

-- The output comes from where the two fields say, and both agree.
select_utxo_both :
    (w : TxOut) (tx : Transaction) (vout : ℕ) (u : TxOut)
    → select_utxo (some w) (some tx) vout ≡ ok u
    → (get_elem? tx.output vout ≡ some u) × (w ≡ u)
unfolding select_utxo output_at
select_utxo_both w tx vout u h = elim (Option-cases (get_elem? tx.output vout)) [
  | inl e ↦ ground arith
  | inr (t, e) ↦ ground (arith, tx_out_eq→eq t w)
]

module _ (compute_txid : Transaction → Txid) where
  -- The output of the transaction that the input names, at the index that the input names.
  pub record IsSpent (i : Input) (u : TxOut) : Type 0 where
    pub tx : Transaction
    pub given : i.non_witness_utxo ≡ some tx
    pub named : compute_txid tx ≡ i.previous_txid
    pub at : get_elem? tx.output i.spent_output_index ≡ some u

  by_fields :
      (i : Input) (w : Option TxOut) (n : Option Transaction) (u : TxOut)
      → i.witness_utxo ≡ w
      → i.non_witness_utxo ≡ n
      → funding_utxo compute_txid i ≡ ok u
      → (IsSpent i u ⊎ (i.non_witness_utxo ≡ none)) × ((w ≡ none) ⊎ (w ≡ some u))
  unfolding funding_utxo select_utxo
  by_fields i none none u p q h = ground arith
  by_fields i (some w) none u p q h = (inr q, ground arith)
  by_fields i none (some tx) u p q h =
      let named : compute_txid tx ≡ i.previous_txid = ground arith in
      let at : get_elem? tx.output i.spent_output_index ≡ some u =
        output_at_ok tx i.spent_output_index u (ground arith) in
      (inl (record { tx = tx; given = q; named = named; at = at }), inl refl)
  by_fields i (some w) (some tx) u p q h =
      let named : compute_txid tx ≡ i.previous_txid = ground arith in
      let both : select_utxo (some w) (some tx) i.spent_output_index ≡ ok u = ground arith in
      let (at, e) = select_utxo_both w tx i.spent_output_index u both in
      (inl (record { tx = tx; given = q; named = named; at = at }), inr (ap some e))

  -- An output that `funding_utxo` returns is the one that the input spends, if the full transaction
  -- is there, and the witness UTXO, if that is there.
  pub funding_utxo_checked :
      (i : Input) (u : TxOut)
      → funding_utxo compute_txid i ≡ ok u
      → (IsSpent i u ⊎ (i.non_witness_utxo ≡ none))
        × ((i.witness_utxo ≡ none) ⊎ (i.witness_utxo ≡ some u))
  funding_utxo_checked i u h = by_fields i i.witness_utxo i.non_witness_utxo u refl refl h

  module _ (c : ScriptClasses) where
    untrusted_witness_only :
        (i : Input) (w u : TxOut)
        → i.witness_utxo ≡ some w
        → i.non_witness_utxo ≡ none
        → funding_utxo_untrusted compute_txid c i ≡ ok u
        → (i.witness_utxo ≡ some u) × (c.is_p2tr u.script_pubkey ≡ true)
    unfolding funding_utxo_untrusted select_utxo
    untrusted_witness_only i w u p q h = ground arith

    untrusted_other :
        (i : Input) (u : TxOut)
        → (i.witness_utxo ≡ none) ⊎ ((tx : Transaction) × (i.non_witness_utxo ≡ some tx))
        → funding_utxo_untrusted compute_txid c i ≡ ok u
        → funding_utxo compute_txid i ≡ ok u
    unfolding funding_utxo_untrusted
    untrusted_other i u (inl p) h = ground arith
    untrusted_other i u (inr (tx, q)) h = ground arith

    pub nothing_given :
        (i : Input) (u : TxOut)
        → i.witness_utxo ≡ none
        → i.non_witness_utxo ≡ none
        → funding_utxo compute_txid i ≡ ok u
        → ⊥
    unfolding funding_utxo select_utxo
    nothing_given i u p q h = ground arith

    IsSpent-of_given :
        (i : Input) (u : TxOut) {A : Type 0}
        → (i.non_witness_utxo ≡ none → ⊥)
        → (IsSpent i u ⊎ (i.non_witness_utxo ≡ none))
        → IsSpent i u ⊎ A
    IsSpent-of_given i u n (inl s) = inl s
    IsSpent-of_given i u n (inr e) = absurd (n e)

    -- An output that `funding_utxo_untrusted` returns was found in the full transaction that the
    -- input names, or pays to taproot and stands in the witness UTXO.
    pub funding_utxo_untrusted_checked :
        (i : Input) (u : TxOut)
        → funding_utxo_untrusted compute_txid c i ≡ ok u
        → IsSpent i u ⊎ ((i.witness_utxo ≡ some u) × (c.is_p2tr u.script_pubkey ≡ true))
    funding_utxo_untrusted_checked i u h = elim (Option-cases i.non_witness_utxo) [
      | inr (tx, q) ↦
          IsSpent-of_given i u (λ n. cc)
            (funding_utxo_checked i u (untrusted_other i u (inr (tx, q)) h)).0
      | inl q ↦ elim (Option-cases i.witness_utxo) [
        | inr (w, p) ↦ inr (untrusted_witness_only i w u p q h)
        | inl p ↦ absurd (nothing_given i u p q (untrusted_other i u (inl p) h))
      ]
    ]
