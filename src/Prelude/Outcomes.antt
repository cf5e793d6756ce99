-- ===== src/Prelude/Outcomes.antt =====
-- Rust's `Result`, with one more value for a run that aborts: `panicked` is the end of a failed
-- `expect`, of an index or a slice out of range, and of an arithmetic overflow.
use mathlib.Core.Path.{◌≡◌, refl}
use mathlib.Core.Logic.{◌⊎◌, inl, inr}
use mathlib.Core.Option.{Option, none, some}
use mathlib.Core.Bool.{Bool, true, false}

pub data Outcome {ℓ κ} (E : Type ℓ) (A : Type κ) : Type (ℓ ⊔ κ) where
  ok : A → Outcome E A
  err : E → Outcome E A
  panicked : Outcome E A

-- The operator `?`.
abbrev pub ◌>>=◌ {ℓ κ μ} :
    {E : Type ℓ} {A : Type κ} {B : Type μ} → Outcome E A → (A → Outcome E B) → Outcome E B
panicked >>= next = panicked
err e >>= next = err e
ok value >>= next = next value

-- `map_err(f)?` and `map`.
abbrev pub map_err {ℓ κ μ} :
    {E : Type ℓ} {F : Type κ} {A : Type μ} → (E → F) → Outcome E A → Outcome F A
map_err f (ok a) = ok a
map_err f (err e) = err (f e)
map_err f panicked = panicked

abbrev pub map_ok {ℓ κ μ} :
    {E : Type ℓ} {A : Type κ} {B : Type μ} → (A → B) → Outcome E A → Outcome E B
map_ok f (ok a) = ok (f a)
map_ok f (err e) = err e
map_ok f panicked = panicked

-- A statement whose value is not used.
abbrev pub ◌>>◌ {ℓ κ} : {E : Type ℓ} {B : Type κ} → Outcome E (Unit {0}) → Outcome E B → Outcome E B
check >> next = check >>= λ _. next

infixl 5 ◌>>=◌ ◌>>◌
-- `ok_or(e)` and `expect(..)`.
abbrev pub ok_or {ℓ κ} : {E : Type ℓ} {A : Type κ} → Option A → E → Outcome E A
ok_or none e = err e
ok_or (some a) e = ok a

abbrev pub expect {ℓ κ} : {E : Type ℓ} {A : Type κ} → Option A → Outcome E A
expect none = panicked
expect (some a) = ok a

-- `expect(..)` on a result.
abbrev pub expect_ok {ℓ κ μ} : {E : Type ℓ} {F : Type κ} {A : Type μ} → Outcome E A → Outcome F A
expect_ok (ok a) = ok a
expect_ok (err e) = panicked
expect_ok panicked = panicked

-- `if test { return Err(e) }`.
abbrev pub fail_if {ℓ} : {E : Type ℓ} → Bool → E → Outcome E (Unit {0})
fail_if true e = err e
fail_if false e = ok tt

abbrev pub is_ok {ℓ κ} : {E : Type ℓ} {A : Type κ} → Outcome E A → Bool
is_ok (ok a) = true
is_ok (err e) = false
is_ok panicked = false

-- A bind that succeeds has a first step that does, and passes its value on.
pub >>=-eq-ok {ℓ κ μ} :
    {E : Type ℓ} {A : Type κ} {B : Type μ} (first : Outcome E A) (next : A → Outcome E B)
    {result : B}
    → first >>= next ≡ ok result
    → (value : A) × (first ≡ ok value) × (next value ≡ ok result)
>>=-eq-ok panicked next run = cc
>>=-eq-ok (err _) next run = cc
>>=-eq-ok (ok value) next run = (value, refl, run)

pub Outcome-cases {ℓ κ} :
    {E : Type ℓ} {A : Type κ} (m : Outcome E A)
    → ((a : A) × (m ≡ ok a)) ⊎ (((e : E) × (m ≡ err e)) ⊎ (m ≡ panicked))
Outcome-cases (ok a) = inl (a, refl)
Outcome-cases (err e) = inr (inl (e, refl))
Outcome-cases panicked = inr (inr refl)
