-- ===== src/Psbt/TxFields.antt =====
-- The unsigned transaction depends on five fields of each input alone.
use rust_psbt.Prelude.{
  ℕ, zero, suc, ◌≡◌, refl, ap, List, [], ◌∷◌, map, any-map, all-map, get_elem?, set, Option, some,
  arith,
}
use rust_psbt.Primitives.{LockTime}
use rust_psbt.Input as InputMap
use rust_psbt.Input.{
  Input, has_lock_time, requires_time_based_lock_time, requires_height_based_lock_time,
  is_satisfied_with_height_based_lock_time, out_point, unsigned_tx_in, finalized, FinalScripts,
}
use rust_psbt.Psbt.{
  Psbt, first_or_max, max_of, expect_max, choose_lock_time, determine_lock_time_of,
  determine_lock_time, unsigned_tx,
}

-- The input with nothing but the fields that the unsigned transaction needs.
abbrev pub tx_fields : Input → Input
tx_fields i = record (InputMap.new (out_point i)) {
  sequence = i.sequence;
  min_time = i.min_time;
  min_height = i.min_height;
}

max_of-map :
    (field : Input → Option ℕ) (is : List Input)
    → ((i : Input) → field (tx_fields i) ≡ field i)
    → max_of field (map tx_fields is) ≡ max_of field is
unfolding max_of
max_of-map field [] h = refl
max_of-map field (i ∷ is) h = rw (max_of-map field is h) (ap (first_or_max (max_of field is)) (h i))

determine-tx_fields :
    (is : List Input) (fallback : Option LockTime)
    → determine_lock_time_of (map tx_fields is) fallback ≡ determine_lock_time_of is fallback
unfolding determine_lock_time_of choose_lock_time expect_max InputMap.new has_lock_time
    requires_time_based_lock_time requires_height_based_lock_time
    is_satisfied_with_height_based_lock_time
determine-tx_fields is fallback =
    rw
      (
        any-map requires_time_based_lock_time tx_fields is (λ i. refl),
        any-map requires_height_based_lock_time tx_fields is (λ i. refl),
        any-map has_lock_time tx_fields is (λ i. refl),
        all-map is_satisfied_with_height_based_lock_time tx_fields is (λ i. refl),
        max_of-map (λ i. i.min_time) is (λ i. refl),
        max_of-map (λ i. i.min_height) is (λ i. refl),
      )
      refl

unsigned-tx_fields :
    (is : List Input) → map unsigned_tx_in (map tx_fields is) ≡ map unsigned_tx_in is
unfolding unsigned_tx_in out_point InputMap.new
unsigned-tx_fields [] = refl
unsigned-tx_fields (i ∷ is) = simp (unsigned-tx_fields is)

-- Two PSBTs that differ in other fields only.
pub record SameTx (p q : Psbt) : Type 0 where
  pub inputs : map tx_fields p.inputs ≡ map tx_fields q.inputs
  pub outputs : p.outputs ≡ q.outputs
  pub version : p.global.tx_version ≡ q.global.tx_version
  pub fallback : p.global.fallback_lock_time ≡ q.global.fallback_lock_time

pub SameTx-unsigned_tx : (p q : Psbt) → SameTx p q → unsigned_tx p ≡ unsigned_tx q
unfolding unsigned_tx determine_lock_time
SameTx-unsigned_tx p q s =
    rw
      (
        ← determine-tx_fields p.inputs p.global.fallback_lock_time,
        ← determine-tx_fields q.inputs q.global.fallback_lock_time,
        ← unsigned-tx_fields p.inputs,
        ← unsigned-tx_fields q.inputs,
        s.inputs,
        s.outputs,
        s.version,
        s.fallback,
      )
      refl

pub set-tx_fields :
    (is : List Input) (n : ℕ) (i j : Input)
    → get_elem? is n ≡ some i
    → tx_fields j ≡ tx_fields i
    → map tx_fields (set is n j) ≡ map tx_fields is
set-tx_fields [] n i j h e = refl
set-tx_fields (k ∷ is) zero i j h e = let q : k ≡ i = ground arith in rw (q, e) refl
set-tx_fields (k ∷ is) (suc n) i j h e = rw (set-tx_fields is n i j h e) refl
