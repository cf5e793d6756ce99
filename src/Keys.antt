-- ===== src/Keys.antt =====
-- src/map/mod.rs: the keys of a PSBT map, and the two macros that merge fields.
pub mod Laws
pub mod Codec
use rust_psbt.Prelude.{ℕ, ◌≡◌, Option, none, some, List, ap, refl, ◌∙◌, arith}
use rust_psbt.Ordered.{Ord, IsLawful, nat_ord, bytes_ord, pair_ord, cmp_pair}
use rust_psbt.BTreeMap.{BTreeMap, extend}
use rust_psbt.Primitives.{Byte}
use Prim.Native.Nat.{Ordering}

pub record Key : Type 0 where
  pub type_value : ℕ
  pub key : List Byte

pub record ProprietaryKey : Type 0 where
  pub prefix : List Byte
  pub subtype : ℕ
  pub key : List Byte

-- A derived order compares field by field.
module _ {ℓ κ} {A : Type ℓ} {B : Type κ} (fields : A → B)
    (injective : (a b : A) → fields a ≡ fields b → a ≡ b) (o : Ord B) where
  pub by_fields-IsLawful : IsLawful (λ (a b : A). o.cmp (fields a) (fields b))
  by_fields-IsLawful = record {
    cmp_refl = λ a. o.cmp_refl (fields a);
    eq_of_cmp = λ a b h. injective a b (o.eq_of_cmp _ _ h);
    lt_of_gt = λ a b. o.lt_of_gt _ _;
    gt_of_lt = λ a b. o.gt_of_lt _ _;
    lt_trans = λ a b c. o.lt_trans _ _ _;
  }

abbrev pub key_fields : Key → ℕ × List Byte
key_fields k = (k.type_value, k.key)

abbrev pub proprietary_fields : ProprietaryKey → List Byte × (ℕ × List Byte)
proprietary_fields k = (k.prefix, (k.subtype, k.key))

key_fields_injective : (a b : Key) → key_fields a ≡ key_fields b → a ≡ b
key_fields_injective a b h = λ i. record { type_value = (h i).0; key = (h i).1 }

proprietary_fields_injective :
    (a b : ProprietaryKey) → proprietary_fields a ≡ proprietary_fields b → a ≡ b
proprietary_fields_injective a b h =
    λ i. record { prefix = (h i).0; subtype = (h i).1.0; key = (h i).1.1 }

pub key-IsLawful : IsLawful (λ (a b : Key). cmp_pair (key_fields a) (key_fields b))
key-IsLawful = by_fields-IsLawful key_fields key_fields_injective pair_ord

instance abbrev pub key_ord : Ord Key
key_ord = record { cmp = λ a b. cmp_pair (key_fields a) (key_fields b); lawful = key-IsLawful }

pub proprietary-IsLawful :
    IsLawful (λ (a b : ProprietaryKey). cmp_pair (proprietary_fields a) (proprietary_fields b))
proprietary-IsLawful = by_fields-IsLawful proprietary_fields proprietary_fields_injective pair_ord

instance abbrev pub proprietary_ord : Ord ProprietaryKey
proprietary_ord = record {
  cmp = λ a b. cmp_pair (proprietary_fields a) (proprietary_fields b);
  lawful = proprietary-IsLawful;
}

-- `v2_combine_option!`: a field that is unset takes the other's value.
unfoldable pub combine_option {ℓ} : {A : Type ℓ} → Option A → Option A → Option A
combine_option none (some thing) = some thing
combine_option none none = none
combine_option (some mine) other = some mine

-- `v2_combine_map!`: the other's entries are inserted.
unfoldable pub combine_map {ℓ κ} :
    {K : Type ℓ} {V : Type κ} ⦃o : Ord K⦄ → BTreeMap K V → BTreeMap K V → BTreeMap K V
combine_map mine other = extend mine other
