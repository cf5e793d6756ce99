-- ===== src/Output/Decoder/Laws.antt =====
-- What every decoder of an output map satisfies, whatever bytes it was fed.
use rust_psbt.Prelude.{ℕ, ◌≡◌, some, List, [], ◌∷◌, ok, arith}
use rust_psbt.Ordered.{nat_ord}
use rust_psbt.BTreeMap.{IsSorted}
use rust_psbt.BTreeMap.Laws.{insert-IsSorted}
use rust_psbt.Primitives.{Byte}
use rust_psbt.Keys.{key_ord, proprietary_ord}
use rust_psbt.Codecs.{Codecs}
use rust_psbt.Decoding.{Round, Pushed}
use rust_psbt.Decoding.Fields.{set_once, insert_vacant, push_in, expect_fuel-eq-ok}
use rust_psbt.Decoding.Ensures.{OfRound, rounds-keep, round_of-keeps, Fed, Fed-keeps}
use rust_psbt.Output.{Output, IsWellFormed, validate}
use rust_psbt.Output.Decoder.Stage
use rust_psbt.Output.Decoder.Stage.{DecoderStage, done}
use rust_psbt.Output.Decoder.{
  OutputDecoder, complete, at_separator, separator_round, push_round, finish, round, push_from, end,
  output_decoder,
}

module _ (c : Codecs) where
  abbrev pub DecodesValid : DecoderStage c → Type 0
  DecodesValid (done o) = IsWellFormed o × (validate o ≡ ok tt)
  DecodesValid stage = Unit

  pub record IsSound (d : OutputDecoder c) : Type 0 where
    pub stage : DecodesValid d.stage
    pub bip32_derivations : IsSorted d.bip32_derivations
    pub tap_key_origins : IsSorted d.tap_key_origins
    pub proprietaries : IsSorted d.proprietaries
    pub unknowns : IsSorted d.unknowns

  from_key-DecodesValid :
      (key : _) (s : DecoderStage c) → Stage.from_key c key ≡ ok s → DecodesValid s
  unfolding Stage.from_key
  from_key-DecodesValid key s run = ground arith

  pub finish-IsSound :
      (s : DecoderStage c) (d : OutputDecoder c) (rest : List Byte) (r : Round (OutputDecoder c))
      → finish c s d rest ≡ ok r
      → IsSound d
      → DecodesValid s
      → OfRound IsSound r
  unfolding finish set_once insert_vacant
  finish-IsSound s d rest r run h v = grind (arith, insert-IsSorted, from_key-DecodesValid)

  complete-IsWellFormed :
      (d : OutputDecoder c) (o : Output)
      → complete c d ≡ ok o
      → IsSound d
      → IsWellFormed o × (validate o ≡ ok tt)
  unfolding complete
  complete-IsWellFormed d o run h = ground arith

  at_separator-IsSound :
      (d : OutputDecoder c) (bytes : List Byte) (r : Round (OutputDecoder c))
      → at_separator c d bytes ≡ ok r
      → IsSound d
      → OfRound IsSound r
  unfolding at_separator
  at_separator-IsSound d [] r run h = ground arith
  at_separator-IsSound d (b ∷ rest) r run h = grind (arith, complete-IsWellFormed)

  separator_round-IsSound :
      (s : DecoderStage c) (d : OutputDecoder c) (bytes : List Byte) (r : Round (OutputDecoder c))
      → separator_round c s d bytes ≡ ok r
      → IsSound d
      → OfRound IsSound r
  unfolding separator_round
  separator_round-IsSound Stage.decoding_separator d bytes r run h =
      at_separator-IsSound d bytes r run h
  separator_round-IsSound s d bytes r run h = ground arith

  push_stage-DecodesValid :
      (s : DecoderStage c) (bytes : List Byte) (p : Pushed (DecoderStage c))
      → Stage.push_stage c s bytes ≡ ok p
      → DecodesValid s
      → DecodesValid p.decoder
  unfolding Stage.push_stage push_in
  push_stage-DecodesValid s bytes p run h = ground arith

  push_round-IsSound :
      (d : OutputDecoder c) (bytes : List Byte) (p : Pushed (OutputDecoder c))
      → push_round c d bytes ≡ ok p
      → IsSound d
      → IsSound p.decoder
  unfolding push_round
  push_round-IsSound d bytes p run h = grind (arith, push_stage-DecodesValid)

  round-IsSound :
      (d : OutputDecoder c) (bytes : List Byte) (r : Round (OutputDecoder c))
      → round c d bytes ≡ ok r
      → IsSound d
      → OfRound IsSound r
  unfolding round
  round-IsSound =
      round_of-keeps IsSound (push_round c) (λ d bytes. finish c d.stage d bytes) push_round-IsSound
        (λ d bytes r run h. finish-IsSound d.stage d bytes r run h h.stage)
        (λ d bytes. separator_round c d.stage d bytes)
        (λ d bytes r run h. separator_round-IsSound d.stage d bytes r run h)

  push_from-IsSound :
      (fuel : ℕ) (s : DecoderStage c) (d : OutputDecoder c) (bytes : List Byte)
      {p : Pushed (OutputDecoder c)}
      → push_from c fuel s d bytes ≡ some (ok p)
      → IsSound d
      → IsSound p.decoder
  unfolding push_from
  push_from-IsSound fuel (Stage.done o) d bytes run h = ground arith
  push_from-IsSound fuel s d bytes {p} run h =
      rounds-keep IsSound (round c) round-IsSound fuel d bytes {p = p} run h

  Fed-IsSound : {d : OutputDecoder c} → Fed (output_decoder c) d → IsSound d
  Fed-IsSound =
      Fed-keeps (output_decoder c) IsSound (ground arith)
        (λ d bytes p run h. push_from-IsSound _ d.stage d bytes (expect_fuel-eq-ok run) h)

  end-DecodesValid :
      (s : DecoderStage c) {o : Output}
      → end c s ≡ ok o
      → DecodesValid s
      → IsWellFormed o × (validate o ≡ ok tt)
  unfolding end
  end-DecodesValid (Stage.done o) run h = grind arith
  end-DecodesValid s run h = ground arith

  -- Whatever bytes a decoder was fed, in whatever pieces, the output that it ends in has passed
  -- `Output::validate`, and the keys of each of its maps rise, each one once.
  pub Fed-end_valid :
      {d : OutputDecoder c} {o : Output}
      → Fed (output_decoder c) d
      → end c d.stage ≡ ok o
      → IsWellFormed o × (validate o ≡ ok tt)
  Fed-end_valid {d} fed_bytes ended = end-DecodesValid d.stage ended (Fed-IsSound fed_bytes).stage
