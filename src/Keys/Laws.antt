-- ===== src/Keys/Laws.antt =====
-- What the two merge macros do to one field.
use rust_psbt.Prelude.{◌≡◌, refl, Option, none, some, or_else}
use rust_psbt.Ordered.{Ord}
use rust_psbt.BTreeMap.{BTreeMap, IsSorted, get}
use rust_psbt.BTreeMap.Laws.{extend_self, extend_assoc, extend-IsSorted, get-extend}
use rust_psbt.Keys.{combine_option, combine_map}

pub combine_option-or_else {ℓ} : {A : Type ℓ} (a b : Option A) → combine_option a b ≡ or_else a b
unfolding combine_option
combine_option-or_else none none = refl
combine_option-or_else none (some b) = refl
combine_option-or_else (some a) b = refl

pub combine_option_self {ℓ} : {A : Type ℓ} (a : Option A) → combine_option a a ≡ a
unfolding combine_option
combine_option_self none = refl
combine_option_self (some a) = refl

pub combine_option_assoc {ℓ} :
    {A : Type ℓ} (a b c : Option A)
    → combine_option (combine_option a b) c ≡ combine_option a (combine_option b c)
unfolding combine_option
combine_option_assoc none none none = refl
combine_option_assoc none none (some c) = refl
combine_option_assoc none (some b) none = refl
combine_option_assoc none (some b) (some c) = refl
combine_option_assoc (some a) b c = refl

module _ {ℓ κ} {K : Type ℓ} {V : Type κ} ⦃o : Ord K⦄ where
  pub combine_map_self : (m : BTreeMap K V) → IsSorted m → combine_map m m ≡ m
  unfolding combine_map
  combine_map_self m s = extend_self m s

  pub combine_map_assoc :
      (a b c : BTreeMap K V)
      → IsSorted a
      → IsSorted b
      → IsSorted c
      → combine_map (combine_map a b) c ≡ combine_map a (combine_map b c)
  unfolding combine_map
  combine_map_assoc a b c sa sb sc = extend_assoc a b c sa sb sc

  pub combine_map-IsSorted : (a b : BTreeMap K V) → IsSorted a → IsSorted (combine_map a b)
  unfolding combine_map
  combine_map-IsSorted a b s = extend-IsSorted a b s

  pub get-combine_map :
      (k : K) (a b : BTreeMap K V)
      → IsSorted b
      → get k (combine_map a b) ≡ or_else (get k b) (get k a)
  unfolding combine_map
  get-combine_map k a b s = get-extend k a b s
