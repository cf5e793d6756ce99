-- ===== src/Psbt/LockTimes.antt =====
-- `Psbt::determine_lock_time` against BIP-370: the lock time is the largest requirement of the one
-- kind that every input supports.
use rust_psbt.Prelude.{
  ℕ, max, ◌≡◌, ◌⊎◌, ◌≤◌, inl, inr, refl, true, false, Option, none, some, List, [], ◌∷◌, any, all,
  All, Any, any-true, any-false, all-true, all-false, any_of_Any, All-imp, Any-imp, All-and,
  Any-and, is_some, ok, arith, ◌&&◌,
}
use rust_psbt.Primitives.{LockTime, blocks, seconds}
use rust_psbt.Input.{
  Input, has_lock_time, requires_time_based_lock_time, requires_height_based_lock_time,
  is_satisfied_with_height_based_lock_time,
}
use rust_psbt.Psbt.{DetermineLockTimeError, max_option, max_of, expect_max}

-- The largest value of a field, `none` where no input has the field.
abbrev best : (Input → Option ℕ) → List Input → Option ℕ
best field [] = none
best field (i ∷ is) = max_option (field i) (best field is)

max_of-best :
    (field : Input → Option ℕ) (i : Input) (is : List Input)
    → max_of field (i ∷ is) ≡ some (best field (i ∷ is))
unfolding max_of
max_of-best field i [] = ground arith
max_of-best field i (j ∷ is) = ground (arith, max_of-best field j is)

abbrev AtMost : Option ℕ → ℕ → Type 0
AtMost none m = Unit
AtMost (some v) m = v ≤ m

AtMost-max_option : (a b : Option ℕ) (m : ℕ) → AtMost (max_option a b) m → AtMost a m × AtMost b m
AtMost-max_option none b m h = (tt, h)
AtMost-max_option (some a) none m h = (h, tt)
AtMost-max_option (some a) (some b) m h = omega arith

best_bounds :
    (field : Input → Option ℕ) (is : List Input) (m : ℕ)
    → AtMost (best field is) m
    → All (λ i. AtMost (field i) m) is
best_bounds field [] m h = tt
best_bounds field (i ∷ is) m h =
    let (p, q) = AtMost-max_option (field i) (best field is) m h in (p, best_bounds field is m q)

max_option_cases : (a b : Option ℕ) (m : ℕ) → max_option a b ≡ some m → (a ≡ some m) ⊎ (b ≡ some m)
max_option_cases none b m h = inr h
max_option_cases (some a) none m h = inl h
max_option_cases (some a) (some b) m h = ground arith

best_attained :
    (field : Input → Option ℕ) (is : List Input) (m : ℕ)
    → best field is ≡ some m
    → Any (λ i. field i ≡ some m) is
best_attained field [] m h = ground arith
best_attained field (i ∷ is) m h = elim (max_option_cases (field i) (best field is) m h) [
  | inl e ↦ inl e
  | inr e ↦ inr (best_attained field is m e)
]

max_some_left : (a b : Option ℕ) → is_some a ≡ true → (m : ℕ) × (max_option a b ≡ some m)
max_some_left none b h = absurd (cc)
max_some_left (some a) none h = (a, refl)
max_some_left (some a) (some b) h = (max a b, refl)

max_some_right : (a b : Option ℕ) (m : ℕ) → b ≡ some m → (n : ℕ) × (max_option a b ≡ some n)
max_some_right none b m h = (m, h)
max_some_right (some a) b m h = (max a m, rw h)

best-some :
    (field : Input → Option ℕ) (is : List Input)
    → Any (λ i. is_some (field i) ≡ true) is
    → (m : ℕ) × (best field is ≡ some m)
best-some field [] h = elim h [ ]
best-some field (i ∷ is) (inl h) = max_some_left (field i) (best field is) h
best-some field (i ∷ is) (inr h) =
    let (m, e) = best-some field is h in max_some_right (field i) (best field is) m e

-- What BIP-370 asks of the lock time of a transaction with this input: it is of a kind that the
-- input supports, and at least what the input requires of that kind.
abbrev FitsField : Option ℕ → Option ℕ → ℕ → Type 0
FitsField (some required) other limit = required ≤ limit
FitsField none (some other) limit = ⊥
FitsField none none limit = Unit

abbrev pub Fits : LockTime → Input → Type 0
Fits (blocks height) i = FitsField i.min_height i.min_time height
Fits (seconds time) i = FitsField i.min_time i.min_height time

-- The input requires exactly this lock time.
abbrev pub Requires : LockTime → Input → Type 0
Requires (blocks height) i = i.min_height ≡ some height
Requires (seconds time) i = i.min_time ≡ some time

expect_max_ok :
    (field : Input → Option ℕ) (is : List Input)
    → Any (λ i. is_some (field i) ≡ true) is
    → (m : ℕ) × (expect_max {E = DetermineLockTimeError} field is ≡ ok m)
      × All (λ i. AtMost (field i) m) is
      × Any (λ i. field i ≡ some m) is
unfolding expect_max
expect_max_ok field [] h = elim h [ ]
expect_max_ok field (i ∷ is) h =
    let (m, e) = best-some field (i ∷ is) h in
    (
      m,
      rw (max_of-best field i is, e),
      best_bounds field (i ∷ is) m (rw e (omega arith)),
      best_attained field (i ∷ is) m e,
    )

-- The four facts about one input, on its two fields.
has_height :
    (i : Input)
    → has_lock_time i ≡ true
    → is_satisfied_with_height_based_lock_time i ≡ true
    → is_some i.min_height ≡ true
unfolding has_lock_time is_satisfied_with_height_based_lock_time requires_height_based_lock_time
has_height i h k = ground arith

Fits-height :
    (i : Input) (m : ℕ)
    → is_satisfied_with_height_based_lock_time i ≡ true
    → AtMost i.min_height m
    → Fits (blocks m) i
unfolding is_satisfied_with_height_based_lock_time requires_height_based_lock_time
Fits-height i m h k = ground arith

needs_time :
    (i : Input)
    → is_satisfied_with_height_based_lock_time i ≡ false
    → requires_time_based_lock_time i ≡ true
unfolding is_satisfied_with_height_based_lock_time requires_height_based_lock_time
    requires_time_based_lock_time
needs_time i h = ground arith

Fits-time :
    (i : Input) (m : ℕ)
    → requires_height_based_lock_time i ≡ false
    → AtMost i.min_time m
    → Fits (seconds m) i
unfolding requires_height_based_lock_time
Fits-time i m h k = ground arith

has_time : (i : Input) → requires_time_based_lock_time i ≡ true → is_some i.min_time ≡ true
unfolding requires_time_based_lock_time
has_time i h = ground arith

-- A lock time that all inputs can live with, and that one of them asks for.
abbrev pub IsLeast : List Input → LockTime → Type 0
IsLeast is l = All (Fits l) is × Any (Requires l) is

module _ (is : List Input) where
  pub height_chosen :
      any has_lock_time is ≡ true
      → all is_satisfied_with_height_based_lock_time is ≡ true
      → (m : ℕ) × (expect_max {E = DetermineLockTimeError} (λ i. i.min_height) is ≡ ok m)
        × IsLeast is (blocks m)
  height_chosen h k =
      let sat = all-true is_satisfied_with_height_based_lock_time is k in
      let some_height =
        Any-imp _ _ (λ i p. has_height i p.0 p.1) is
          (Any-and _ _ is (any-true has_lock_time is h) sat) in
      let (m, e, bound, asks) = expect_max_ok (λ i. i.min_height) is some_height in
      (m, e, (All-imp _ _ (λ i p. Fits-height i m p.0 p.1) is (All-and _ _ is sat bound), asks))

  pub time_chosen :
      (any requires_time_based_lock_time is && any requires_height_based_lock_time is) ≡ false
      → all is_satisfied_with_height_based_lock_time is ≡ false
      → (m : ℕ) × (expect_max {E = DetermineLockTimeError} (λ i. i.min_time) is ≡ ok m)
        × IsLeast is (seconds m)
  time_chosen h k =
      let needs =
        Any-imp _ _ needs_time is (all-false is_satisfied_with_height_based_lock_time is k) in
      let none_height : any requires_height_based_lock_time is ≡ false =
        ground (arith, any_of_Any requires_time_based_lock_time is needs) in
      let free = any-false requires_height_based_lock_time is none_height in
      let (m, e, bound, asks) =
        expect_max_ok (λ i. i.min_time) is (Any-imp _ _ has_time is needs) in
      (m, e, (All-imp _ _ (λ i p. Fits-time i m p.0 p.1) is (All-and _ _ is free bound), asks))
