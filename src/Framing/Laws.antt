-- ===== src/Framing/Laws.antt =====
-- The frame of a value: a decoder of values takes the bytes of one value, and as many as declared.
use mathlib.Core.List.{append_assoc}
use rust_psbt.Prelude.{
  ℕ, ◌≡◌, refl, ◌+◌, ◌-◌, ◌<◌, ◌≤◌, List, ◌++◌, length, length-append, Outcome, ok, err, arith,
  ==_refl, >>=-eq-ok, map_err, inl, inr,
}
use rust_psbt.Primitives.{Byte}
use rust_psbt.Decoding.{Decoder, Pushed, ready}
use rust_psbt.Decoding.Contracts.{Shrinks, Consumes, Reads}
use rust_psbt.Decoding.Ensures.{Status-cases}
use rust_psbt.Framing.{
  value_decoder, value_push_bytes, value_end, value_default, push_prefix, after_prefix, push_value,
  declared_length, reading_prefix, reading_value, errored, ValueState, ValueDecoderState,
}

-- `map_err` keeps a success and its value.
pub map_err-eq-ok :
    {E F A : Type 0} (f : E → F) (m : Outcome E A) {a : A} → map_err f m ≡ ok a → m ≡ ok a
map_err-eq-ok f (ok a) run = cc
map_err-eq-ok f (err e) run = cc
map_err-eq-ok f Outcome.panicked run = cc

module _ (compact_size : Decoder ℕ) {A : Type 0} (value : Decoder A)
    (prefix_shrinks : Shrinks compact_size) (value_shrinks : Shrinks value) where
  push_prefix-le :
      (s : ValueDecoderState compact_size.State) (bytes : List Byte) (p : Pushed _)
      → push_prefix compact_size value s bytes ≡ ok p
      → length p.rest ≤ length bytes
  unfolding push_prefix
  push_prefix-le (reading_prefix prefix) bytes p run =
      let (q, pushed, next) = >>=-eq-ok (map_err _ (compact_size.push_bytes prefix bytes)) _ run in
      ground (arith, prefix_shrinks prefix bytes q (map_err-eq-ok _ _ pushed), next)
  push_prefix-le (reading_value declared) bytes p run = ground arith
  push_prefix-le errored bytes p run = ground arith

  push_value-le :
      (d : ValueState compact_size value) (bytes : List Byte) (p : Pushed _)
      → push_value compact_size value d bytes ≡ ok p
      → length p.rest ≤ length bytes
  unfolding push_value
  push_value-le d bytes p run =
      let (q, pushed, next) = >>=-eq-ok (map_err _ (value.push_bytes d.inner bytes)) _ run in
      ground (arith, value_shrinks d.inner bytes q (map_err-eq-ok _ _ pushed), next)

  after_prefix-le :
      (d : ValueState compact_size value) (q : Pushed _) (p : Pushed _)
      → after_prefix compact_size value d q ≡ ok p
      → length p.rest ≤ length q.rest
  unfolding after_prefix
  after_prefix-le d q p run = elim (Status-cases q.status) [
    | inl h ↦ push_value-le _ q.rest p (rw h at run)
    | inr h ↦ ground (arith, h, run)
  ]

  pub value_decoder-Shrinks : Shrinks (value_decoder compact_size value)
  unfolding value_push_bytes
  value_decoder-Shrinks d bytes p run =
      let (q, pushed, next) = >>=-eq-ok (push_prefix compact_size value d.state bytes) _ run in
      omega (arith, push_prefix-le d.state bytes q pushed, after_prefix-le d q p next)

  fresh_prefix-lt :
      Consumes compact_size
      → (bytes : List Byte) (q : Pushed _)
      → push_prefix compact_size value (reading_prefix compact_size.default) bytes ≡ ok q
      → q.status ≡ ready
      → length q.rest < length bytes
  unfolding push_prefix
  fresh_prefix-lt consumes bytes q run done =
      let (r, pushed, next) =
        >>=-eq-ok (map_err _ (compact_size.push_bytes compact_size.default bytes)) _ run in
      elim (Status-cases r.status) [
        | inl h ↦ ground (arith, h, next, consumes bytes r (map_err-eq-ok _ _ pushed) h)
        | inr h ↦ ground (arith, h, next, done)
      ]

  after_prefix-ready :
      (d : ValueState compact_size value) (q : Pushed _) (p : Pushed _)
      → after_prefix compact_size value d q ≡ ok p
      → p.status ≡ ready
      → q.status ≡ ready
  unfolding after_prefix
  after_prefix-ready d q p run done = elim (Status-cases q.status) [
    | inl h ↦ h
    | inr h ↦ ground (arith, h, run, done)
  ]

  pub value_decoder-Consumes : Consumes compact_size → Consumes (value_decoder compact_size value)
  unfolding value_push_bytes value_default
  value_decoder-Consumes consumes bytes p run done =
      let (q, pushed, next) =
        >>=-eq-ok (push_prefix compact_size value (reading_prefix compact_size.default) bytes) _
          run in
      omega (
        arith,
        after_prefix-le (value_default compact_size value) q p next,
        fresh_prefix-lt consumes bytes q pushed (after_prefix-ready _ q p next done),
      )

module _ (compact_size : Decoder ℕ) {A : Type 0} (value : Decoder A) (a : A)
    (size code : List Byte) where
  -- What the value took.
  counted : (code rest : List Byte) → 0 + (length (code ++ rest) - length rest) ≡ length code
  counted code rest = omega (arith, length-append {0} code rest)

  pub value_decoder-Reads :
      Reads compact_size (length code) size
      → Reads value a code
      → Reads (value_decoder compact_size value) a (size ++ code)
  unfolding value_push_bytes value_default value_end push_prefix after_prefix push_value
      declared_length
  value_decoder-Reads prefix_reads value_reads rest =
      let (s, pushed, ended) = prefix_reads (code ++ rest) in
      let (t, taken, done) = value_reads rest in
      (
        record { inner = t; state = reading_value (length code); consumed = length code },
        rw (append_assoc size code rest, pushed, ended, taken, counted code rest) refl,
        rw (done, ==_refl (length code)) refl,
      )
