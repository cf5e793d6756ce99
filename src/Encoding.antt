-- ===== src/Encoding.antt =====
-- src/encoding/mod.rs: the loop of a map encoder over its states. An inner encoder stands for the
-- bytes that it yields, as one chunk; an encoder is drained chunk by chunk.
use rust_psbt.Prelude.{
  ℕ, ◌≡◌, ◌<◌, ◌≤◌, ◌⊎◌, inl, inr, Option-cases, Bool-cases, is_empty→eq, refl, zero, suc, is_empty,
  Option, none, some, List, [], ◌++◌, arith, if◌then◌else◌, ap,
}
use rust_psbt.Primitives.{Byte}

module _ {S : Type 0} (next_state : S → Option S) (current_chunk : S → List Byte) where
  -- `advance` when the inner encoder has finished: the next state that is not empty, if any.
  unfoldable pub advance : ℕ → S → Option S
  advance zero s = none
  advance (suc fuel) s = elim (next_state s) [
    | none ↦ none
    | some s' ↦ if is_empty (current_chunk s') then advance fuel s' else some s'
  ]

  -- `drain_to_vec`: each chunk, from the state of the encoder on.
  unfoldable pub drain : ℕ → S → List Byte
  unfolding advance
  drain zero s = []
  drain (suc fuel) s =
      current_chunk s ++ (elim (advance fuel s) [ none ↦ [] | some s' ↦ drain fuel s' ])

  -- The chunks of all states in their order, the empty ones too.
  unfoldable pub walk : ℕ → S → List Byte
  walk zero s = []
  walk (suc fuel) s =
      current_chunk s ++ (elim (next_state s) [ none ↦ [] | some s' ↦ walk fuel s' ])

  module _ (rank : S → ℕ) (falls : (s s' : S) → next_state s ≡ some s' → rank s' < rank s) where
    falls_from : (s : S) → (next_state s ≡ none) ⊎ (0 < rank s)
    falls_from s = elim (Option-cases (next_state s)) [
      | inl e ↦ inl e
      | inr (s', e) ↦ let less : rank s' < rank s = falls s s' e in inr (omega arith)
    ]

    -- What follows a state, empty states skipped or not.
    rest-walk :
        (f g h : ℕ) (s : S)
        → rank s ≤ f
        → rank s ≤ g
        → rank s ≤ h
        → (elim (advance f s) [ none ↦ [] | some s' ↦ drain g s' ])
          ≡ (elim (next_state s) [ none ↦ [] | some s' ↦ walk h s' ])
    unfolding advance drain walk
    rest-walk zero g h s p q r = ground (arith, falls_from s)
    rest-walk (suc f) zero h s p q r = ground (arith, falls_from s)
    rest-walk (suc f) (suc g) zero s p q r = ground (arith, falls_from s)
    rest-walk (suc f) (suc g) (suc h) s p q r = elim (Option-cases (next_state s)) [
      | inl e ↦ rw e refl
      | inr (s', e) ↦
          let less : rank s' < rank s = falls s s' e in
          elim (Bool-cases (is_empty (current_chunk s'))) [
            | inl empty ↦
                rw (e, empty, is_empty→eq (current_chunk s') empty)
                  (rest-walk f (suc g) h s' (omega arith) (omega arith) (omega arith))
            | inr more ↦
                rw (e, more)
                  (ap (λ t. current_chunk s' ++ t)
                    (rest-walk g g h s' (omega arith) (omega arith) (omega arith)))
          ]
    ]

    -- Skipping the empty states changes no byte.
    pub drain-walk : (n : ℕ) (s : S) → rank s ≤ n → drain (suc n) s ≡ walk (suc n) s
    unfolding drain walk
    drain-walk n s p = ap (λ t. current_chunk s ++ t) (rest-walk n n n s p p p)
