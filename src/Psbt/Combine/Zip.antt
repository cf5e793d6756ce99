-- ===== src/Psbt/Combine/Zip.antt =====
-- The loop over the zipped inputs or outputs of two PSBTs.
use rust_psbt.Prelude.{
  ℕ, zero, suc, ◌≡◌, refl, ap, none, some, List, [], ◌∷◌, All, length, get_elem?, Outcome, ok, err,
  panicked, map_err, >>=-eq-ok, arith,
}
use rust_psbt.Psbt.Combine.{zip_with}

pub map_err-eq-ok {ℓ κ μ} :
    {E : Type ℓ} {F : Type κ} {A : Type μ} (f : E → F) (m : Outcome E A) {a : A}
    → map_err f m ≡ ok a
    → m ≡ ok a
map_err-eq-ok f (ok x) h = ground arith
map_err-eq-ok f (err e) h = cc
map_err-eq-ok f panicked h = cc

module _ {ℓ κ} {E : Type ℓ} {A : Type κ} (f : A → A → Outcome E A) where
  pub zip_with_self : (xs : List A) → All (λ x. f x x ≡ ok x) xs → zip_with f xs xs ≡ ok xs
  unfolding zip_with
  zip_with_self [] h = refl
  zip_with_self (x ∷ xs) (h, hs) = rw (h, zip_with_self xs hs)

  zip_with_step :
      (x y : A) (xs ys zs : List A)
      → zip_with f (x ∷ xs) (y ∷ ys) ≡ ok zs
      → (z : A) × (rest : List A) × (f x y ≡ ok z) × (zip_with f xs ys ≡ ok rest) × (z ∷ rest ≡ zs)
  unfolding zip_with
  zip_with_step x y xs ys zs h =
      let (z, e, k) = >>=-eq-ok (f x y) _ h in
      let (rest, e', k') = >>=-eq-ok (zip_with f xs ys) _ k in (z, rest, e, e', ground arith)

  -- The result is as long as the first list, and joins each pair of elements in place.
  pub zip_with_length : (xs ys zs : List A) → zip_with f xs ys ≡ ok zs → length zs ≡ length xs
  zip_with_length [] ys zs h = unfold zip_with in ground arith
  zip_with_length (x ∷ xs) [] zs h = unfold zip_with in ground arith
  zip_with_length (x ∷ xs) (y ∷ ys) zs h =
      let (z, rest, e, e', k) = zip_with_step x y xs ys zs h in
      rw (← k) (ap suc (zip_with_length xs ys rest e'))

  pub zip_with_get :
      (xs ys zs : List A) (i : ℕ) {x y : A}
      → zip_with f xs ys ≡ ok zs
      → get_elem? xs i ≡ some x
      → get_elem? ys i ≡ some y
      → (z : A) × (get_elem? zs i ≡ some z) × (f x y ≡ ok z)
  zip_with_get [] ys zs i h p q = cc
  zip_with_get (x ∷ xs) [] zs i h p q = cc
  zip_with_get (x ∷ xs) (y ∷ ys) zs zero h p q =
      let (z, rest, e, e', k) = zip_with_step x y xs ys zs h in (z, rw (← k) refl, ground arith)
  zip_with_get (x ∷ xs) (y ∷ ys) zs (suc i) h p q =
      let (z, rest, e, e', k) = zip_with_step x y xs ys zs h in
      rw (← k) (zip_with_get xs ys rest i e' p q)

  pub zip_with_rest :
      (xs ys zs : List A) (i : ℕ)
      → zip_with f xs ys ≡ ok zs
      → get_elem? ys i ≡ none
      → get_elem? zs i ≡ get_elem? xs i
  zip_with_rest [] ys zs i h q = let e : [] ≡ zs = unfold zip_with in ground arith in rw (← e) refl
  zip_with_rest (x ∷ xs) [] zs i h q =
      let e : x ∷ xs ≡ zs = unfold zip_with in ground arith in rw (← e) refl
  zip_with_rest (x ∷ xs) (y ∷ ys) zs zero h q = cc
  zip_with_rest (x ∷ xs) (y ∷ ys) zs (suc i) h q =
      let (z, rest, e, e', k) = zip_with_step x y xs ys zs h in
      rw (← k) (zip_with_rest xs ys rest i e' q)

pub All-get {ℓ} :
    {A : Type ℓ} (P : A → Type 0) (xs : List A) (i : ℕ) {x : A}
    → All P xs
    → get_elem? xs i ≡ some x
    → P x
All-get P [] i h e = cc
All-get P (y ∷ xs) zero {x = x} h e = let k : y ≡ x = ground arith in rw (← k) (h.0)
All-get P (y ∷ xs) (suc i) h e = All-get P xs i (h.1) e
