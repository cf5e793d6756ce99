-- ===== src/BTreeMap.antt =====
-- `alloc::collections::BTreeMap`, as far as the crate uses it: the entries in the order of their
-- keys. `BTreeMap/Laws` proves what the other modules need.
pub mod Laws
pub mod Last
use rust_psbt.Prelude.{ℕ, ◌≡◌, Bool, List, [], ◌∷◌, Option, none, some, length, is_some, map}
use rust_psbt.Ordered.{Ord}
use Prim.Native.Nat.Ordering.{lt, eq, gt}

abbrev pub BTreeMap {ℓ κ} : Type ℓ → Type κ → Type (ℓ ⊔ κ)
BTreeMap K V = List (K × V)

module _ {ℓ κ} {K : Type ℓ} {V : Type κ} where
  abbrev pub empty : BTreeMap K V
  empty = []

  abbrev pub len : BTreeMap K V → ℕ
  len m = length m

  abbrev pub keys : BTreeMap K V → List K
  keys m = map (λ e. e.0) m

  abbrev pub values : BTreeMap K V → List V
  values m = map (λ e. e.1) m

module _ {ℓ κ} {K : Type ℓ} {V : Type κ} ⦃o : Ord K⦄ where
  unfoldable pub get : K → BTreeMap K V → Option V
  get q [] = none
  get q ((k, v) ∷ m) = elim (o.cmp q k) [ lt ↦ none | eq ↦ some v | gt ↦ get q m ]

  abbrev pub contains_key : K → BTreeMap K V → Bool
  contains_key q m = is_some (get q m)

  unfoldable pub insert : K → V → BTreeMap K V → BTreeMap K V
  insert q w [] = (q, w) ∷ []
  insert q w ((k, v) ∷ m) = elim (o.cmp q k) [
    | lt ↦ (q, w) ∷ (k, v) ∷ m
    | eq ↦ (q, w) ∷ m
    | gt ↦ (k, v) ∷ insert q w m
  ]

  -- `self.extend(other)`: the entries of `other` are inserted one by one.
  unfoldable pub extend : BTreeMap K V → BTreeMap K V → BTreeMap K V
  extend m [] = m
  extend m ((k, v) ∷ n) = extend (insert k v m) n

  -- The keys rise: what every value of the type satisfies.
  abbrev pub Above : K → BTreeMap K V → Type 0
  Above b [] = Unit
  Above b ((k, v) ∷ m) = (o.cmp b k ≡ lt) × Above b m

  abbrev pub IsSorted : BTreeMap K V → Type 0
  IsSorted [] = Unit
  IsSorted ((k, v) ∷ m) = Above k m × IsSorted m
