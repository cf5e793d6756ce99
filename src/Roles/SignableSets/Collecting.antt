-- ===== src/Roles/SignableSets/Collecting.antt =====
-- What a complete set of the inputs of a PSBT vouches for.
use rust_psbt.Prelude.{
  ℕ, zero, suc, ◌+◌, ◌≡◌, ◌≢◌, ◌<◌, ◌↔◌, ◌⊎◌, inl, inr, Outcome-cases, Bool-cases, ◌==◌, ==_iff,
  refl, ap, sym, ◌∙◌, List, [], ◌∷◌, ◌++◌, map, none, some, Outcome, ok, err, panicked, arith,
}
use rust_psbt.Ordered.{nat_ord}
use rust_psbt.BTreeMap.{BTreeMap, get, insert}
use rust_psbt.BTreeMap.Laws.{get-insert_self, get-insert_ne}
use rust_psbt.Input.Utxo.{SignError}
use rust_psbt.Psbt.{Psbt}
use rust_psbt.Roles.Signable.{
  Upstream, SignableInput, AllSignableInputs, Found, note_check, collect, new,
}
use rust_psbt.Roles.SignableSets.{Sees}

-- The numbers below `n`, from 0 on.
abbrev pub upto : ℕ → List ℕ
upto zero = []
upto (suc n) = upto n ++ (n ∷ [])

-- The result of collecting what `check` gives for each index: the errors of all the inputs that
-- fail, of which there are some, or the inputs, each one checked, with their outputs.
pub data Collected (p : Psbt) (check : ℕ → Outcome SignError SignableInput)
    : Outcome (BTreeMap ℕ SignError) AllSignableInputs → Type 0 where
  failing :
      (errors : BTreeMap ℕ SignError)
      → errors ≢ []
      → ((n : ℕ) (e : SignError)
          → (get n errors ≡ some e) ↔ ((n < p.global.input_count) × (check n ≡ err e)))
      → Collected p check (err errors)
  complete :
      (a : AllSignableInputs)
      → map check (upto p.global.input_count) ≡ map ok a.inputs
      → a.prevouts ≡ map (λ x. x.prevout) a.inputs
      → Collected p check (ok a)

map-push {ℓ κ} :
    {A : Type ℓ} {B : Type κ} (f : A → B) (xs : List A) (x : A)
    → map f (xs ++ (x ∷ [])) ≡ map f xs ++ (f x ∷ [])
map-push f [] x = refl
map-push f (y ∷ xs) x = ap (λ ys. f y ∷ ys) (map-push f xs x)

insert-not-empty : (n : ℕ) (e : SignError) (m : BTreeMap ℕ SignError) → insert n e m ≢ []
unfolding get
insert-not-empty n e m h =
    let k : get n (insert n e m) ≡ none = ap (λ m. get n m) h in
    let k' = get-insert_self n e m in absurd (cc)

eq_cases : (m n : ℕ) → (m ≡ n) ⊎ (m ≢ n)
eq_cases m n = elim (Bool-cases (m == n)) [
  | inl e ↦ inl ((==_iff m n).0 e)
  | inr e ↦ inr (λ h. ground (arith, ==_iff m n))
]

-- What the loop has established before round `n`.
record Visits (check : ℕ → Outcome SignError SignableInput) (n : ℕ) (f : Found) : Type 0 where
  aligned : f.0.prevouts ≡ map (λ x. x.prevout) f.0.inputs
  failed : (m : ℕ) (e : SignError) → m < n → check m ≡ err e → get m f.1 ≡ some e
  only : (m : ℕ) (e : SignError) → get m f.1 ≡ some e → (m < n) × (check m ≡ err e)
  checked : f.1 ≡ [] → map check (upto n) ≡ map ok f.0.inputs

module _ (check : ℕ → Outcome SignError SignableInput) (n : ℕ) (a : AllSignableInputs)
    (errors : BTreeMap ℕ SignError) (v : Visits check n (a, errors)) where
  visit_ok :
      (x : SignableInput)
      → check n ≡ ok x
      → Visits check (suc n) (
        record { inputs = a.inputs ++ (x ∷ []); prevouts = a.prevouts ++ (x.prevout ∷ []) },
        errors,
      )
  visit_ok x h = record {
    aligned = rw (v.aligned, map-push (λ (y : SignableInput). y.prevout) a.inputs x) refl;
    failed = λ m e below k. elim (eq_cases m n) [
      | inl same ↦ absurd (let k' = sym h ∙ ap check (sym same) ∙ k in cc)
      | inr other ↦ v.failed m e (omega (arith, other)) k
    ];
    only = λ m e k. let (below, k') = v.only m e k in (omega (arith, below), k');
    checked = λ empty.
        rw
          (
            map-push check (upto n) n,
            map-push {B = Outcome SignError SignableInput} ok a.inputs x,
            v.checked empty,
            h,
          )
          refl;
  }

  visit_err : (x : SignError) → check n ≡ err x → Visits check (suc n) (a, insert n x errors)
  visit_err x h = record {
    aligned = v.aligned;
    failed = λ m e below k. elim (eq_cases m n) [
      | inl same ↦
          let e' : err x ≡ err e = sym h ∙ ap check (sym same) ∙ k in
          rw same (get-insert_self n x errors ∙ ground (arith, e'))
      | inr other ↦ get-insert_ne m n x errors other ∙ v.failed m e (omega (arith, other)) k
    ];
    only = λ m e k. elim (eq_cases m n) [
      | inl same ↦
          let k' : some x ≡ some e =
            sym (get-insert_self n x errors) ∙ ap (λ i. get i (insert n x errors)) (sym same) ∙ k in
          (omega (arith, same), ap check same ∙ h ∙ ground (arith, k'))
      | inr other ↦
          let (below, h') = v.only m e (sym (get-insert_ne m n x errors other) ∙ k) in
          (omega (arith, below), h')
    ];
    checked = λ empty. absurd (insert-not-empty n x errors empty);
  }

module _ (u : Upstream) (check : Psbt → ℕ → Outcome SignError SignableInput) (sees : Sees u check)
    (runs : (p : Psbt) (n : ℕ) → check p n ≢ panicked) (p : Psbt) where
  abbrev Errors : Type 0
  Errors = BTreeMap ℕ SignError

  note_round :
      (n : ℕ) (f : Found)
      → Visits (check p) n f
      → (g : Found) × (note_check u.compute_txid check {E = Errors} p n f (check p n) ≡ ok g)
        × Visits (check p) (suc n) g
  note_round n (a, errors) v = elim (Outcome-cases (check p n)) [
    | inl (x, h) ↦
        let (i, e, t) = sees p n x h in rw (h, e, t) (_, refl, visit_ok (check p) n a errors v x h)
    | inr (inl (x, h)) ↦ rw h (_, refl, visit_err (check p) n a errors v x h)
    | inr (inr h) ↦ absurd (runs p n h)
  ]

  collect-Visits :
      (rounds n m : ℕ) (f : Found)
      → n + rounds ≡ m
      → Visits (check p) n f
      → (g : Found) × (collect u.compute_txid check {E = Errors} p rounds n f ≡ ok g)
        × Visits (check p) m g
  unfolding collect
  collect-Visits zero n m f e v = let e' : n ≡ m = omega arith in (f, refl, rw (← e') v)
  collect-Visits (suc rounds) n m f e v =
      let (g, e', v') = note_round n f v in
      let (h, e'', v'') = collect-Visits rounds (suc n) m g (omega arith) v' in
      (h, rw (e', e'') refl, v'')

  after_loop :
      (a : AllSignableInputs) (errors : Errors)
      → collect u.compute_txid check {E = Errors} p p.global.input_count 0
          (record { inputs = []; prevouts = [] }, [])
        ≡ ok (a, errors)
      → Visits (check p) p.global.input_count (a, errors)
      → Collected p (check p) (new u.compute_txid check p)
  unfolding new
  after_loop a [] e v = rw e (complete a (v.checked refl) v.aligned)
  after_loop a (x ∷ xs) e v = rw e (
      failing (x ∷ xs) (λ h. ground arith)
        (λ n k. (v.only n k, λ (below, h). v.failed n k below h)))

  pub new-Collected : Collected p (check p) (new u.compute_txid check p)
  unfolding get
  new-Collected =
      let (g, e, v) =
        collect-Visits p.global.input_count 0 p.global.input_count
          (record { inputs = []; prevouts = [] }, []) (omega arith)
          (record {
            aligned = refl;
            failed = λ m e below k. absurd (omega (arith, below));
            only = λ m e k. absurd (cc);
            checked = λ empty. refl;
          }) in
      after_loop g.0 g.1 e v
