-- ===== src/Decoding/Fields.antt =====
-- What the map decoders do with a decoded value, and with the decoder of a stage.
use rust_psbt.Prelude.{
  ◌≡◌, ap, Option, none, some, List, [], ◌∷◌, ◌++◌, Outcome, ok, err, panicked, map_err, map_ok,
  fail_if, ◌>>◌, arith,
}
use rust_psbt.Ordered.{Ord}
use rust_psbt.BTreeMap.{BTreeMap, insert, contains_key, IsSorted}
use rust_psbt.BTreeMap.Last.{insert_last}
use rust_psbt.BTreeMap.Laws.{insert-IsSorted}
use rust_psbt.Primitives.{Byte}
use rust_psbt.Decoding.{Decoder, Pushed}

module _ {ℓ μ} {A : Type ℓ} {E : Type μ} where
  -- `if self.field.is_some() { return Err(e) } self.field = Some(value)`.
  unfoldable pub set_once : Option A → A → E → Outcome E (Option A)
  set_once none value e = ok (some value)
  set_once (some old) value e = err e

-- `match self.field.entry(k) { Vacant(e) => e.insert(value), Occupied(_) => return Err(e) }`.
module _ {ℓ κ μ} {K : Type ℓ} {A : Type κ} {E : Type μ} ⦃o : Ord K⦄ where
  unfoldable pub insert_vacant : K → A → BTreeMap K A → E → Outcome E (BTreeMap K A)
  insert_vacant k value m e = do fail_if (contains_key k m) e; ok (insert k value m)

abbrev pub restage : {S T : Type 0} → (S → T) → Pushed S → Pushed T
restage stage p = record { decoder = stage p.decoder; rest = p.rest; status = p.status }

-- `decoder.push_bytes(bytes).map_err(..)?` on the decoder that a stage holds.
unfoldable pub push_in :
    {A S E : Type 0} (d : Decoder A)
    → (d.State → S)
    → (d.Error → E)
    → d.State
    → List Byte
    → Outcome E (Pushed S)
push_in d stage error decoder bytes =
    map_ok (restage stage) (map_err error (d.push_bytes decoder bytes))

-- The value of a loop on enough fuel.
abbrev pub expect_fuel : {E A : Type 0} → Option (Outcome E A) → Outcome E A
expect_fuel none = panicked
expect_fuel (some outcome) = outcome

pub expect_fuel-eq-ok :
    {E A : Type 0} {m : Option (Outcome E A)} {a : A} → expect_fuel m ≡ ok a → m ≡ some (ok a)
expect_fuel-eq-ok {m = none} run = cc
expect_fuel-eq-ok {m = some outcome} run = ap some run

pub insert_vacant-IsSorted {ℓ κ μ} :
    {K : Type ℓ} {A : Type κ} {E : Type μ} ⦃o : Ord K⦄ (k : K) (value : A) (m : BTreeMap K A)
    (e : E) {m' : BTreeMap K A}
    → insert_vacant k value m e ≡ ok m'
    → IsSorted m
    → IsSorted m'
unfolding insert_vacant
insert_vacant-IsSorted k value m e run s = ground (arith, insert-IsSorted k value m s)

pub insert_vacant_last {ℓ κ μ} :
    {K : Type ℓ} {A : Type κ} {E : Type μ} ⦃o : Ord K⦄ (before : BTreeMap K A) (k : K) (value : A)
    (m : BTreeMap K A) (e : E)
    → IsSorted (before ++ ((k, value) ∷ m))
    → insert_vacant k value before e ≡ ok (before ++ ((k, value) ∷ []))
unfolding insert_vacant
insert_vacant_last before k value m e sorted =
    let (absent, last) = insert_last before k value m sorted in ground (arith, absent, last)
