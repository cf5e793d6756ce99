-- ===== src/Ordered.antt =====
-- The trait bound `K: Ord`, with the laws that the trait asks of `cmp`, and the orders of the key
-- types: numbers, byte strings (lexicographic, as slices compare) and pairs.
use rust_psbt.Prelude.{ℕ, ◌≡◌, refl, List, [], ◌∷◌, arith}
use Prim.Native.Nat.{compare, Ordering}
use Prim.Native.Nat.Ordering.{lt, eq, gt}

-- What the documentation of the trait asks of `cmp`: it is transitive and antisymmetric in its strict
-- answers, and answers `Equal` on equal keys alone.
pub record IsLawful {ℓ} {K : Type ℓ} (cmp : K → K → Ordering) : Type ℓ where
  pub lt_trans : (x y z : K) → cmp x y ≡ lt → cmp y z ≡ lt → cmp x z ≡ lt
  pub gt_of_lt : (x y : K) → cmp x y ≡ lt → cmp y x ≡ gt
  pub lt_of_gt : (x y : K) → cmp x y ≡ gt → cmp y x ≡ lt
  pub eq_of_cmp : (x y : K) → cmp x y ≡ eq → x ≡ y
  pub cmp_refl : (x : K) → cmp x x ≡ eq

pub record Ord {ℓ} (Key : Type ℓ) : Type ℓ where
  pub cmp : Key → Key → Ordering
  pub lawful : IsLawful cmp
  pub open lawful use *

pub compare-IsLawful : IsLawful compare
compare-IsLawful = ground arith

instance abbrev pub nat_ord : Ord ℕ
nat_ord = record { lawful = compare-IsLawful; cmp = compare }

-- `Ordering::then`.
abbrev pub and_then : Ordering → Ordering → Ordering
and_then lt second = lt
and_then gt second = gt
and_then eq second = second

module _ {ℓ κ} {A : Type ℓ} {B : Type κ} ⦃first : Ord A⦄ ⦃second : Ord B⦄ where
  abbrev pub cmp_pair : A × B → A × B → Ordering
  cmp_pair p q = and_then (first.cmp p.0 q.0) (second.cmp p.1 q.1)

  cmp_pair_trans : (p q r : A × B) → cmp_pair p q ≡ lt → cmp_pair q r ≡ lt → cmp_pair p r ≡ lt
  cmp_pair_trans p q r =
      grind
        (arith, first.lt_trans, second.lt_trans, first.eq_of_cmp p.0 q.0, first.eq_of_cmp q.0 r.0)

  cmp_pair_flip :
      (p q : A × B)
      → (cmp_pair p q ≡ gt → cmp_pair q p ≡ lt) × (cmp_pair p q ≡ lt → cmp_pair q p ≡ gt)
  cmp_pair_flip p q = ground (
    arith,
    first.eq_of_cmp p.0 q.0,
    first.lt_of_gt p.0 q.0,
    first.gt_of_lt p.0 q.0,
    second.lt_of_gt p.1 q.1,
    second.gt_of_lt p.1 q.1,
    first.cmp_refl p.0,
  )

  cmp_pair-eq : (p q : A × B) → cmp_pair p q ≡ eq → p ≡ q
  cmp_pair-eq p q = ground (arith, second.eq_of_cmp p.1 q.1, first.eq_of_cmp p.0 q.0)

  pub cmp_pair-IsLawful : IsLawful {K = A × B} cmp_pair
  cmp_pair-IsLawful = record {
    lt_trans = cmp_pair_trans;
    gt_of_lt = λ p q. (cmp_pair_flip p q).1;
    lt_of_gt = λ p q. (cmp_pair_flip p q).0;
    eq_of_cmp = cmp_pair-eq;
    cmp_refl = λ p. simp (first.cmp_refl, second.cmp_refl);
  }

  instance abbrev pub pair_ord : Ord (A × B)
  pair_ord = record { lawful = cmp_pair-IsLawful; cmp = cmp_pair }

unfoldable pub cmp_bytes : List ℕ → List ℕ → Ordering
cmp_bytes [] [] = eq
cmp_bytes [] (b ∷ bs) = lt
cmp_bytes (a ∷ as') [] = gt
cmp_bytes (a ∷ as') (b ∷ bs) = and_then (compare a b) (cmp_bytes as' bs)

cmp_bytes_refl : (a : List ℕ) → cmp_bytes a a ≡ eq
unfolding cmp_bytes
cmp_bytes_refl [] = refl
cmp_bytes_refl (a ∷ as') = ground (arith, cmp_bytes_refl as')

cmp_bytes-eq : (a b : List ℕ) → cmp_bytes a b ≡ eq → a ≡ b
unfolding cmp_bytes
cmp_bytes-eq [] [] h = refl
cmp_bytes-eq [] (b ∷ bs) h = ground arith
cmp_bytes-eq (a ∷ as') [] h = ground arith
cmp_bytes-eq (a ∷ as') (b ∷ bs) h = ground (arith, cmp_bytes-eq as' bs)

cmp_bytes_flip :
    (a b : List ℕ)
    → (cmp_bytes a b ≡ gt → cmp_bytes b a ≡ lt) × (cmp_bytes a b ≡ lt → cmp_bytes b a ≡ gt)
unfolding cmp_bytes
cmp_bytes_flip [] [] = ground arith
cmp_bytes_flip [] (b ∷ bs) = ground arith
cmp_bytes_flip (a ∷ as') [] = ground arith
cmp_bytes_flip (a ∷ as') (b ∷ bs) = ground (arith, cmp_bytes_flip as' bs)

cmp_bytes_trans : (a b c : List ℕ) → cmp_bytes a b ≡ lt → cmp_bytes b c ≡ lt → cmp_bytes a c ≡ lt
unfolding cmp_bytes
cmp_bytes_trans [] [] c h k = ground arith
cmp_bytes_trans [] (b ∷ bs) [] h k = ground arith
cmp_bytes_trans [] (b ∷ bs) (c ∷ cs) h k = refl
cmp_bytes_trans (a ∷ as') [] c h k = ground arith
cmp_bytes_trans (a ∷ as') (b ∷ bs) [] h k = ground arith
cmp_bytes_trans (a ∷ as') (b ∷ bs) (c ∷ cs) h k = ground (arith, cmp_bytes_trans as' bs cs)

pub cmp_bytes-IsLawful : IsLawful cmp_bytes
cmp_bytes-IsLawful = record {
  cmp_refl = cmp_bytes_refl;
  eq_of_cmp = cmp_bytes-eq;
  lt_of_gt = λ a b. (cmp_bytes_flip a b).0;
  gt_of_lt = λ a b. (cmp_bytes_flip a b).1;
  lt_trans = cmp_bytes_trans;
}

instance abbrev pub bytes_ord : Ord (List ℕ)
bytes_ord = record { cmp = cmp_bytes; lawful = cmp_bytes-IsLawful }
