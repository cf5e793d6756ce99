-- ===== src/Prelude/Tests.antt =====
-- Boolean tests on the native numbers, byte strings and options, and the conditional.
use Prim.Native.Nat.{ℕ, compare, Ordering}
use mathlib.Core.Path.{◌≡◌, refl}
use mathlib.Core.Logic.{◌↔◌, ◌⊎◌, inl, inr}
use mathlib.Core.Bool.{Bool, true, false, ◌&&◌}
use mathlib.Core.Option.{Option, none, some}
use mathlib.Core.List.{List, [], ◌∷◌}
use native.Mathlib.Omega.{arith}

abbrev pub ltb : ℕ → ℕ → Bool
ltb a b = elim (compare a b) [ Ordering.lt ↦ true | _ ↦ false ]

abbrev pub leb : ℕ → ℕ → Bool
leb a b = elim (compare a b) [ Ordering.gt ↦ false | _ ↦ true ]

infix 50 ◌==◌
abbrev pub ◌==◌ : ℕ → ℕ → Bool
a == b = elim (compare a b) [ Ordering.eq ↦ true | _ ↦ false ]

infix 1 if◌then◌else◌
abbrev pub if◌then◌else◌ {ℓ} : {A : Type ℓ} → Bool → A → A → A
if true then x else y = x
if false then x else y = y

pub ==_iff : (a b : ℕ) → ((a == b) ≡ true) ↔ (a ≡ b)
==_iff a b = ground arith

pub ==_refl : (a : ℕ) → (a == a) ≡ true
==_refl a = ground arith

-- Equality of byte strings, and of any sequence of numbers.
unfoldable pub bytes_eq : List ℕ → List ℕ → Bool
bytes_eq [] [] = true
bytes_eq [] (b ∷ bs) = false
bytes_eq (a ∷ as') [] = false
bytes_eq (a ∷ as') (b ∷ bs) = (a == b) && bytes_eq as' bs

pub bytes_eq→eq : (a b : List ℕ) → bytes_eq a b ≡ true → a ≡ b
unfolding bytes_eq
bytes_eq→eq [] [] h = refl
bytes_eq→eq [] (b ∷ bs) h = ground arith
bytes_eq→eq (a ∷ as') [] h = ground arith
bytes_eq→eq (a ∷ as') (b ∷ bs) h = ground (arith, bytes_eq→eq as' bs)

pub bytes_eq_refl : (a : List ℕ) → bytes_eq a a ≡ true
unfolding bytes_eq
bytes_eq_refl [] = refl
bytes_eq_refl (a ∷ as') = ground (arith, bytes_eq_refl as')

module _ {ℓ} {A : Type ℓ} where
  abbrev pub is_some : Option A → Bool
  is_some none = false
  is_some (some a) = true

  abbrev pub is_none : Option A → Bool
  is_none none = true
  is_none (some a) = false

  abbrev pub unwrap_or : Option A → A → A
  unwrap_or none d = d
  unwrap_or (some a) d = a

  -- The value of the first option, or else the second option.
  abbrev pub or_else : Option A → Option A → Option A
  or_else none b = b
  or_else (some a) b = some a

  pub or_else_self : (o : Option A) → or_else o o ≡ o
  or_else_self none = refl
  or_else_self (some a) = refl

  pub or_else_none : (o : Option A) → or_else o none ≡ o
  or_else_none none = refl
  or_else_none (some a) = refl

  pub or_else_assoc : (a b c : Option A) → or_else a (or_else b c) ≡ or_else (or_else a b) c
  or_else_assoc none b c = refl
  or_else_assoc (some a) b c = refl

  pub Option-cases : (o : Option A) → (o ≡ none) ⊎ ((a : A) × (o ≡ some a))
  Option-cases none = inl refl
  Option-cases (some a) = inr (a, refl)

pub Bool-cases : (b : Bool) → (b ≡ true) ⊎ (b ≡ false)
Bool-cases true = inl refl
Bool-cases false = inr refl

module _ {ℓ} {A : Type ℓ} where
  abbrev pub is_empty : List A → Bool
  is_empty [] = true
  is_empty (x ∷ xs) = false

  pub is_empty→eq : (xs : List A) → is_empty xs ≡ true → xs ≡ []
  is_empty→eq [] h = refl
  is_empty→eq (x ∷ xs) h = ground arith

-- Equality of Boolean values.
abbrev pub same : Bool → Bool → Bool
same true b = b
same false true = false
same false false = true
