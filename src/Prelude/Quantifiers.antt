-- ===== src/Prelude/Quantifiers.antt =====
-- `any` and `all` as statements about the elements.
use rust_psbt.Prelude.Lists.{any, all, All}
use mathlib.Core.Path.{◌≡◌, refl}
use mathlib.Core.Bool.{Bool, true, false, not}
use mathlib.Core.Logic.{◌⊎◌, inl, inr}
use mathlib.Core.List.{List, [], ◌∷◌}
use native.Mathlib.Omega.{arith}

module _ {ℓ} {A : Type ℓ} where
  abbrev pub Any : (A → Type 0) → List A → Type 0
  Any P [] = ⊥
  Any P (x ∷ xs) = P x ⊎ Any P xs

  pub any-true : (p : A → Bool) (xs : List A) → any p xs ≡ true → Any (λ x. p x ≡ true) xs
  unfolding any
  any-true p [] h = ground arith
  any-true p (x ∷ xs) h = ground (arith, any-true p xs)

  pub any-false : (p : A → Bool) (xs : List A) → any p xs ≡ false → All (λ x. p x ≡ false) xs
  unfolding any
  any-false p [] h = tt
  any-false p (x ∷ xs) h = ground (arith, any-false p xs)

  pub all-true : (p : A → Bool) (xs : List A) → all p xs ≡ true → All (λ x. p x ≡ true) xs
  unfolding all
  all-true p [] h = tt
  all-true p (x ∷ xs) h = ground (arith, all-true p xs)

  pub all-false : (p : A → Bool) (xs : List A) → all p xs ≡ false → Any (λ x. p x ≡ false) xs
  unfolding all
  all-false p [] h = ground arith
  all-false p (x ∷ xs) h = ground (arith, all-false p xs)

  pub any_of_Any : (p : A → Bool) (xs : List A) → Any (λ x. p x ≡ true) xs → any p xs ≡ true
  unfolding any
  any_of_Any p [] h = elim h [ ]
  any_of_Any p (x ∷ xs) (inl h) = ground arith
  any_of_Any p (x ∷ xs) (inr h) = ground (arith, any_of_Any p xs h)

  pub all_of_All : (p : A → Bool) (xs : List A) → All (λ x. p x ≡ true) xs → all p xs ≡ true
  unfolding all
  all_of_All p [] h = refl
  all_of_All p (x ∷ xs) h = ground (arith, all_of_All p xs h.1, h.0)

  pub all_cons :
      (p : A → Bool) (x : A) (xs : List A) → p x ≡ true → all p xs ≡ true → all p (x ∷ xs) ≡ true
  unfolding all
  all_cons p x xs h k = rw (h, k) refl

  pub any-not : (p : A → Bool) (xs : List A) → any (λ x. not (p x)) xs ≡ not (all p xs)
  unfolding any all
  any-not p [] = refl
  any-not p (x ∷ xs) = ground (arith, any-not p xs)

module _ {ℓ} {A : Type ℓ} (P Q : A → Type 0) where
  pub All-imp : ((x : A) → P x → Q x) → (xs : List A) → All P xs → All Q xs
  All-imp f [] a = tt
  All-imp f (x ∷ xs) (p, a) = (f x p, All-imp f xs a)

  pub Any-imp : ((x : A) → P x → Q x) → (xs : List A) → Any P xs → Any Q xs
  Any-imp f [] a = elim a [ ]
  Any-imp f (x ∷ xs) (inl p) = inl (f x p)
  Any-imp f (x ∷ xs) (inr a) = inr (Any-imp f xs a)

  pub All-and : (xs : List A) → All P xs → All Q xs → All (λ x. P x × Q x) xs
  All-and [] a b = tt
  All-and (x ∷ xs) (p, a) (q, b) = ((p, q), All-and xs a b)

  pub Any-and : (xs : List A) → Any P xs → All Q xs → Any (λ x. P x × Q x) xs
  Any-and [] a b = elim a [ ]
  Any-and (x ∷ xs) (inl p) (q, b) = inl (p, q)
  Any-and (x ∷ xs) (inr a) (q, b) = inr (Any-and xs a b)

  -- Something holds of no element that something else holds of.
  pub Any-clash : ((x : A) → P x → Q x → ⊥) → (xs : List A) → Any P xs → All Q xs → ⊥
  Any-clash f [] a b = elim a [ ]
  Any-clash f (x ∷ xs) (inl p) (q, b) = f x p q
  Any-clash f (x ∷ xs) (inr a) (q, b) = Any-clash f xs a b
