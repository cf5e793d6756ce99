-- ===== src/BTreeMap/Last.antt =====
-- Entries that arrive in the order of their keys are entered at the end.
use rust_psbt.Prelude.{◌≡◌, refl, [], ◌∷◌, ◌++◌, none, arith}
use Prim.Native.Nat.Ordering.{lt, gt}
use rust_psbt.Ordered.{Ord}
use rust_psbt.BTreeMap.{BTreeMap, get, insert, Above, IsSorted}

module _ {ℓ κ} {K : Type ℓ} {V : Type κ} ⦃o : Ord K⦄ where
  Above-entry :
      (b : K) (before : BTreeMap K V) (k : K) (v : V) (m : BTreeMap K V)
      → Above b (before ++ ((k, v) ∷ m))
      → o.cmp b k ≡ lt
  Above-entry b [] k v m h = h.0
  Above-entry b (x ∷ before) k v m h = Above-entry b before k v m h.1

  pub insert_last :
      (before : BTreeMap K V) (k : K) (v : V) (m : BTreeMap K V)
      → IsSorted (before ++ ((k, v) ∷ m))
      → (get k before ≡ none) × (insert k v before ≡ before ++ ((k, v) ∷ []))
  unfolding get insert
  insert_last [] k v m h = (refl, refl)
  insert_last ((k', v') ∷ before) k v m h =
      let after : o.cmp k k' ≡ gt = o.gt_of_lt k' k (Above-entry k' before k v m h.0) in
      let (absent, last) = insert_last before k v m h.1 in
      (ground (arith, after, absent), ground (arith, after, last))
