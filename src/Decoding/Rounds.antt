-- ===== src/Decoding/Rounds.antt =====
-- A `loop` whose rounds go on with fewer bytes, the first perhaps with as many, ends.
use rust_psbt.Prelude.{
  ℕ, ◌≡◌, sym, ap, ◌∙◌, ◌<◌, ◌≤◌, ◌≢◌, zero, suc, List, none, Outcome, ok, arith, length,
  Outcome-cases, inl, inr, refl, >>=-eq-ok,
}
use rust_psbt.Primitives.{Byte}
use rust_psbt.Codecs.{Codecs}
use rust_psbt.Framing.{framed}
use rust_psbt.Keys.Codec.{key_decoder, key_push_bytes}
use rust_psbt.Framing.Laws.{map_err-eq-ok, value_decoder-Shrinks, value_decoder-Consumes}
use rust_psbt.Decoding.{Decoder, Pushed, ready, Round, return, continue, rounds, round_of, advance}
use rust_psbt.Decoding.Contracts.{Shrinks, Consumes}
use rust_psbt.Decoding.Ensures.{Status-cases}
use rust_psbt.Decoding.Fields.{push_in}

-- What upstream's decoders of length-prefixed values keep.
pub record IsFramed {A : Type 0} (d : Decoder A) : Type 0 where
  pub shrinks : Shrinks d
  pub consumes : Consumes d

pub framed-IsFramed :
    (c : Codecs) {A : Type 0} (value : Decoder A)
    → IsFramed c.compact_size
    → Shrinks value
    → IsFramed (framed c value)
framed-IsFramed c value prefix shrinks = record {
  shrinks = value_decoder-Shrinks c.compact_size value prefix.shrinks shrinks;
  consumes = value_decoder-Consumes c.compact_size value prefix.shrinks shrinks prefix.consumes;
}

pub key_decoder-IsFramed : (c : Codecs) → IsFramed c.byte_vec → IsFramed (key_decoder c)
unfolding key_push_bytes
key_decoder-IsFramed c f = record {
  shrinks = λ s bytes p run. f.shrinks s bytes p (map_err-eq-ok _ _ run);
  consumes = λ bytes p run. f.consumes bytes p (map_err-eq-ok _ _ run);
}

module _ {A S E : Type 0} (d : Decoder A) (f : IsFramed d) (stage : d.State → S)
    (error : d.Error → E) where
  -- The decoder of a stage gives no byte back, and takes one to be ready if it is fresh.
  pub push_in_lem :
      (s : d.State) (bytes : List Byte) (p : Pushed S)
      → push_in d stage error s bytes ≡ ok p
      → (length p.rest ≤ length bytes)
        × (s ≡ d.default → p.status ≡ ready → length p.rest < length bytes)
  unfolding push_in
  push_in_lem s bytes p run = elim (Outcome-cases (d.push_bytes s bytes)) [
    | inl (q, e) ↦ (
      ground (arith, e, f.shrinks s bytes q e),
      λ new done.
          let e' : d.push_bytes d.default bytes ≡ ok q =
            ap (λ s. d.push_bytes s bytes) (sym new) ∙ e in
          ground (arith, e, f.consumes bytes q e'),
    )
    | inr (inl (x, e)) ↦ absurd (ground (arith, e))
    | inr (inr e) ↦ absurd (ground (arith, e))
  ]

module _ {S E : Type 0} (IsFresh : S → Type 0) (round : S → List Byte → Outcome E (Round S))
    (goes_on : (d : S) (bytes : List Byte) (d' : S) (rest : List Byte)
      → round d bytes ≡ ok (continue d' rest)
      → IsFresh d' × (length rest ≤ length bytes))
    (consumes : (d : S) (bytes : List Byte) (d' : S) (rest : List Byte)
      → IsFresh d
      → round d bytes ≡ ok (continue d' rest)
      → length rest < length bytes) where
  rounds_fresh-total :
      (fuel : ℕ) (d : S) (bytes : List Byte)
      → IsFresh d
      → length bytes < fuel
      → rounds round fuel d bytes ≢ none
  unfolding rounds
  rounds_fresh-total zero d bytes h enough = absurd (omega arith)
  rounds_fresh-total (suc fuel) d bytes h enough = elim (Outcome-cases (round d bytes)) [
    | inl (return q, e) ↦ ground (arith, e)
    | inl (continue d' rest, e) ↦
        let less : length rest < length bytes = consumes d bytes d' rest h e in
        let fresh : IsFresh d' = (goes_on d bytes d' rest e).0 in
        ground (arith, e, rounds_fresh-total fuel d' rest fresh (omega (arith, less)))
    | inr (inl (x, e)) ↦ ground (arith, e)
    | inr (inr e) ↦ ground (arith, e)
  ]

  -- As many rounds as bytes are enough, with two more.
  pub rounds-total :
      (d : S) (bytes : List Byte) → rounds round (suc (suc (length bytes))) d bytes ≢ none
  unfolding rounds
  rounds-total d bytes = elim (Outcome-cases (round d bytes)) [
    | inl (return q, e) ↦ ground (arith, e)
    | inl (continue d' rest, e) ↦
        let (fresh, less) = goes_on d bytes d' rest e in
        ground
          (arith, e, rounds_fresh-total (suc (length bytes)) d' rest fresh (omega (arith, less)))
    | inr (inl (x, e)) ↦ ground (arith, e)
    | inr (inr e) ↦ ground (arith, e)
  ]

-- The same for the rounds of a map decoder, from what holds of their three parts.
module _ {S E : Type 0} (IsFresh : S → Type 0) (separator : S → List Byte → Outcome E (Round S))
    (push : S → List Byte → Outcome E (Pushed S)) (finish : S → List Byte → Outcome E (Round S))
    (separator_lem : (d : S) (bytes : List Byte) (d' : S) (rest : List Byte)
      → separator d bytes ≡ ok (continue d' rest)
      → (rest ≡ bytes) × (IsFresh d → IsFresh d'))
    (push_lem : (d : S) (bytes : List Byte) (p : Pushed S)
      → push d bytes ≡ ok p
      → (length p.rest ≤ length bytes)
        × (IsFresh d → p.status ≡ ready → length p.rest < length bytes))
    (finish_lem : (d : S) (bytes : List Byte) (d' : S) (rest : List Byte)
      → finish d bytes ≡ ok (continue d' rest)
      → IsFresh d' × (rest ≡ bytes)) where
  advance_lem :
      (r : Round S) (d : S) (bytes : List Byte) (d' : S) (rest : List Byte)
      → r ≡ continue d bytes
      → advance push finish r ≡ ok (continue d' rest)
      → IsFresh d' × (length rest ≤ length bytes) × (IsFresh d → length rest < length bytes)
  unfolding advance
  advance_lem (return q) d bytes d' rest e run = absurd (ground (arith, e))
  advance_lem (continue d0 bytes0) d bytes d' rest e run =
      let (p, pushed, next) = >>=-eq-ok (push d0 bytes0) _ run in
      let same_d : d0 ≡ d = ground (arith, e) in
      let same_bytes : bytes0 ≡ bytes = ground (arith, e) in
      let (le, lt) = push_lem d0 bytes0 p pushed in
      elim (Status-cases p.status) [
        | inl is_ready ↦
            let (fresh, same) = finish_lem p.decoder p.rest d' rest (rw is_ready at next) in
            (
              fresh,
              rw (← same_bytes, same) le,
              λ h. rw (← same_bytes, same) (lt (rw same_d h) is_ready),
            )
        | inr waits ↦ absurd (ground (arith, waits, next))
      ]

  round_lem :
      (d : S) (bytes : List Byte) (d' : S) (rest : List Byte)
      → round_of separator push finish d bytes ≡ ok (continue d' rest)
      → IsFresh d' × (length rest ≤ length bytes) × (IsFresh d → length rest < length bytes)
  unfolding round_of advance
  round_lem d bytes d' rest run = elim (Outcome-cases (separator d bytes)) [
    | inl (return q, e) ↦ absurd (ground (arith, e))
    | inl (continue d0 bytes0, e) ↦
        let (same, keeps) = separator_lem d bytes d0 bytes0 e in
        let (fresh, le, lt) =
          advance_lem (continue d0 bytes0) d0 bytes0 d' rest refl (rw e at run) in
        (fresh, rw (← same) le, λ h. rw (← same) (lt (keeps h)))
    | inr (inl (x, e)) ↦ absurd (ground (arith, e))
    | inr (inr e) ↦ absurd (ground (arith, e))
  ]

  pub round_of-total :
      (d : S) (bytes : List Byte)
      → rounds (round_of separator push finish) (suc (suc (length bytes))) d bytes ≢ none
  round_of-total =
      rounds-total IsFresh (round_of separator push finish)
        (λ d bytes d' rest run. let (fresh, le, lt) = round_lem d bytes d' rest run in (fresh, le))
        (λ d bytes d' rest fresh run. (round_lem d bytes d' rest run).2 fresh)
