-- ===== src/Decoding/Ensures.antt =====
-- What holds of a decoder before and after each round of its `loop` holds after the `loop`.
use rust_psbt.Prelude.{
  ℕ, zero, suc, ◌≡◌, refl, List, some, Outcome, ok, >>=-eq-ok, Outcome-cases, inl, inr, ◌⊎◌, arith,
}
use rust_psbt.Primitives.{Byte}
use rust_psbt.Decoding.{
  Round, return, continue, Pushed, ready, needs_more, Status, rounds, round_of, advance, Decoder,
}

-- The decoder that a round leaves satisfies `P`.
abbrev pub OfRound : {S : Type 0} → (S → Type 0) → Round S → Type 0
OfRound P (return p) = P p.decoder
OfRound P (continue d bytes) = P d

pub Status-cases : (s : Status) → (s ≡ ready) ⊎ (s ≡ needs_more)
Status-cases ready = inl refl
Status-cases needs_more = inr refl

module _ {S E : Type 0} (P : S → Type 0) where
  pub rounds-keep :
      (round : S → List Byte → Outcome E (Round S))
      → ((d : S) (bytes : List Byte) (r : Round S) → round d bytes ≡ ok r → P d → OfRound P r)
      → (fuel : ℕ) (d : S) (bytes : List Byte) {p : Pushed S}
      → rounds round fuel d bytes ≡ some (ok p)
      → P d
      → P p.decoder
  unfolding rounds
  rounds-keep round keeps zero d bytes run h = cc
  rounds-keep round keeps (suc fuel) d bytes {p} run h = elim (Outcome-cases (round d bytes)) [
    | inl (return q, e) ↦
        let same : q ≡ p = ground (arith, e, run) in rw (← same) (keeps d bytes (return q) e h)
    | inl (continue d' rest, e) ↦
        rounds-keep round keeps fuel d' rest {p = p} (ground (arith, e, run)) (keeps d bytes _ e h)
    | inr (inl (x, e)) ↦ absurd (ground (arith, e, run))
    | inr (inr e) ↦ absurd (ground (arith, e, run))
  ]

  module _ (push : S → List Byte → Outcome E (Pushed S))
      (finish : S → List Byte → Outcome E (Round S))
      (push_keeps : (d : S) (bytes : List Byte) (p : Pushed S)
        → push d bytes ≡ ok p
        → P d
        → P p.decoder)
      (finish_keeps : (d : S) (bytes : List Byte) (r : Round S)
        → finish d bytes ≡ ok r
        → P d
        → OfRound P r) where
    pub advance-keeps : (q r : Round S) → advance push finish q ≡ ok r → OfRound P q → OfRound P r
    unfolding advance
    advance-keeps (return q) r run h =
        let same : return q ≡ r = ground (arith, run) in rw (← same) h
    advance-keeps (continue d unread) r run h =
        let (p, pushed, next) = >>=-eq-ok (push d unread) _ run in
        let left : P p.decoder = push_keeps d unread p pushed h in
        elim (Status-cases p.status) [
          | inl is_ready ↦ finish_keeps p.decoder p.rest r (rw is_ready at next) left
          | inr waits ↦ let same : return p ≡ r = ground (arith, waits, next) in rw (← same) left
        ]

    pub round_of-keeps :
        (separator : S → List Byte → Outcome E (Round S))
        → ((d : S) (bytes : List Byte) (r : Round S) → separator d bytes ≡ ok r → P d → OfRound P r)
        → (d : S) (bytes : List Byte) (r : Round S) → round_of separator push finish d bytes ≡ ok r
        → P d
        → OfRound P r
    unfolding round_of
    round_of-keeps separator separator_keeps d bytes r run h =
        let (q, e, next) = >>=-eq-ok (separator d bytes) _ run in
        advance-keeps q r next (separator_keeps d bytes q e h)

-- The states of a decoder that is fed any bytes, in any number of calls that succeed.
pub data Fed {A : Type 0} (d : Decoder A) : d.State → Type 0 where
  fresh : Fed d d.default
  fed :
      {s : d.State} (bytes : List Byte) (p : Pushed d.State)
      → Fed d s
      → d.push_bytes s bytes ≡ ok p
      → Fed d p.decoder

pub Fed-keeps :
    {A : Type 0} (d : Decoder A) (P : d.State → Type 0)
    → P d.default
    → ((s : d.State) (bytes : List Byte) (p : Pushed d.State)
        → d.push_bytes s bytes ≡ ok p
        → P s
        → P p.decoder)
    → {s : d.State} → Fed d s
    → P s
Fed-keeps d P start keeps fresh = start
Fed-keeps d P start keeps (fed {s} bytes p before run) =
    keeps s bytes p run (Fed-keeps d P start keeps before)
