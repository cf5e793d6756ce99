-- ===== src/Psbt/Amounts/Laws.antt =====
-- `Psbt::fee` against the sums over the natural numbers.
use rust_psbt.Prelude.{
  ℕ, ◌≡◌, ◌<◌, ◌+◌, ◌^◌, ◌↔◌, List, [], ◌∷◌, map, ok, >>=-eq-ok, arith, map_err, ok_or,
}
use rust_psbt.Primitives.{Transaction, Txid, TxOut}
use rust_psbt.Input.{Input}
use rust_psbt.Input.Utxo.{funding_utxo}
use rust_psbt.Output.{Output}
use rust_psbt.Psbt.{Psbt}
use rust_psbt.Psbt.Combine.Zip.{map_err-eq-ok}
use rust_psbt.Psbt.Amounts.{
  funding_utxo_error, input_overflow, checked_add, checked_sub, input_sum, output_sum,
  iter_funding_utxos, fee,
}

module _ (compute_txid : Transaction → Txid) where
  -- The inputs spend outputs worth `v` satoshis together.
  pub data Spends : List Input → ℕ → Type 0 where
    spends_none : Spends [] 0
    spends_cons :
        (i : Input) (is : List Input) (utxo : TxOut) (v : ℕ)
        → funding_utxo compute_txid i ≡ ok utxo
        → Spends is v
        → Spends (i ∷ is) (utxo.value + v)

abbrev pub total : List Output → ℕ
total [] = 0
total (o ∷ os) = o.amount + total os

output_sum-total :
    (compute_txid : Transaction → Txid) (value : ℕ) (os : List Output)
    → value + total os < 2 ^ 64
    → output_sum compute_txid value os ≡ ok (value + total os)
unfolding output_sum checked_add
output_sum-total c value [] h = ground arith
output_sum-total c value (o ∷ os) h = ground (arith, output_sum-total c (value + o.amount) os)

output_sum_bound :
    (compute_txid : Transaction → Txid) (value : ℕ) (os : List Output) (r : ℕ)
    → value < 2 ^ 64
    → output_sum compute_txid value os ≡ ok r
    → (r ≡ value + total os) × (r < 2 ^ 64)
unfolding output_sum checked_add
output_sum_bound c value [] r b h = (ground arith, ground arith)
output_sum_bound c value (o ∷ os) r b h =
    let (p, q) = output_sum_bound c (value + o.amount) os r (ground arith) (ground arith) in
    (omega arith, q)

input_sum-Spends :
    (compute_txid : Transaction → Txid) (value v : ℕ) (is : List Input)
    → Spends compute_txid is v
    → value + v < 2 ^ 64
    → input_sum compute_txid value (map (funding_utxo compute_txid) is) ≡ ok (value + v)
unfolding input_sum checked_add
input_sum-Spends c value v is spends_none h = ground arith
input_sum-Spends c value v is (spends_cons i is' utxo w e s) h =
    ground (arith, input_sum-Spends c (value + utxo.value) w is' s)

input_sum_bound :
    (compute_txid : Transaction → Txid) (value : ℕ) (is : List Input) (r : ℕ)
    → value < 2 ^ 64
    → input_sum compute_txid value (map (funding_utxo compute_txid) is) ≡ ok r
    → (v : ℕ) × Spends compute_txid is v × (r ≡ value + v) × (r < 2 ^ 64)
unfolding input_sum checked_add
input_sum_bound c value [] r b h = (0, spends_none, ground arith, ground arith)
input_sum_bound c value (i ∷ is) r b h =
    let (utxo, e, k) = >>=-eq-ok (map_err funding_utxo_error (funding_utxo c i)) _ h in
    let (value', e', k') = >>=-eq-ok (ok_or (checked_add value utxo.value) input_overflow) _ k in
    let q : value' ≡ value + utxo.value = ground arith in
    let l : value' < 2 ^ 64 = ground arith in
    let (v, s, t, u) = input_sum_bound c value' is r l k' in
    (
      utxo.value + v,
      spends_cons i is utxo v (map_err-eq-ok funding_utxo_error _ e) s,
      omega arith,
      u,
    )

-- `fee` returns `f` exactly where every input has a funding output, the values of the inputs and of
-- the outputs each add up to less than `2^64`, and the inputs are worth `f` more than the outputs.
pub fee_iff :
    (compute_txid : Transaction → Txid) (p : Psbt) (f : ℕ)
    → (fee compute_txid p ≡ ok f) ↔ (
        (v : ℕ) × Spends compute_txid p.inputs v
        × (v < 2 ^ 64)
        × (total p.outputs < 2 ^ 64)
        × (v ≡ total p.outputs + f))
unfolding fee checked_sub iter_funding_utxos
fee_iff c p f = (forth, back)
  where
    forth :
        fee c p ≡ ok f
        → (v : ℕ) × Spends c p.inputs v
          × (v < 2 ^ 64)
          × (total p.outputs < 2 ^ 64)
          × (v ≡ total p.outputs + f)
    forth h =
        let (a, e, k) = >>=-eq-ok (input_sum c 0 (map (funding_utxo c) p.inputs)) _ h in
        let (b, e', k') = >>=-eq-ok (output_sum c 0 p.outputs) _ k in
        let (v, s, t, u) = input_sum_bound c 0 p.inputs a (omega arith) e in
        let (t', u') = output_sum_bound c 0 p.outputs b (omega arith) e' in
        (v, s, omega arith, omega arith, ground arith)

    back :
        ((v : ℕ) × Spends c p.inputs v
          × (v < 2 ^ 64)
          × (total p.outputs < 2 ^ 64)
          × (v ≡ total p.outputs + f))
        → fee c p ≡ ok f
    back (v, s, b, b', e) = ground (
      arith,
      input_sum-Spends c 0 v p.inputs s (omega arith),
      output_sum-total c 0 p.outputs (omega arith),
    )
