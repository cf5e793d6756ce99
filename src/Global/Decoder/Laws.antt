-- ===== src/Global/Decoder/Laws.antt =====
-- What every decoder of the global map satisfies, whatever bytes it was fed.
use rust_psbt.Prelude.{ℕ, ◌≡◌, is_empty, Option, none, some, List, [], ◌∷◌, ok, arith}
use rust_psbt.Ordered.{nat_ord}
use rust_psbt.BTreeMap.{IsSorted}
use rust_psbt.BTreeMap.Laws.{insert-IsSorted}
use rust_psbt.Primitives.{Byte}
use rust_psbt.Keys.{key_ord, proprietary_ord}
use rust_psbt.Codecs.{Codecs, Encoders}
use rust_psbt.Decoding.{Round, Pushed}
use rust_psbt.Decoding.Fields.{set_once, insert_vacant, push_in, expect_fuel-eq-ok}
use rust_psbt.Decoding.Ensures.{OfRound, rounds-keep, round_of-keeps, Fed, Fed-keeps}
use rust_psbt.Global.{Global, IsWellFormed}
use rust_psbt.Global.Decoder.Stage
use rust_psbt.Global.Decoder.Stage.{DecoderStage, done}
use rust_psbt.Global.Decoder.{
  GlobalDecoder, complete, at_separator, separator_round, push_round, finish, round, push_from, end,
  global_decoder,
}

module _ (c : Codecs) (e : Encoders) where
  abbrev pub IsTwo : Option ℕ → Type 0
  IsTwo none = Unit
  IsTwo (some v) = v ≡ 2

  -- What a decoded global map satisfies: it is of version 2, and shares of silent payments stand
  -- with their proofs.
  pub record IsDecoded (g : Global) : Type 0 where
    pub version : g.version ≡ 2
    pub paired : is_empty g.sp_ecdh_shares ≡ is_empty g.sp_dleq_proofs
    pub well_formed : IsWellFormed g

  abbrev pub DecodesValid : DecoderStage c → Type 0
  DecodesValid (done g) = IsDecoded g
  DecodesValid stage = Unit

  pub record IsSound (d : GlobalDecoder c e) : Type 0 where
    pub stage : DecodesValid d.stage
    pub version : IsTwo d.version
    pub xpubs : IsSorted d.xpubs
    pub sp_ecdh_shares : IsSorted d.sp_ecdh_shares
    pub sp_dleq_proofs : IsSorted d.sp_dleq_proofs
    pub proprietaries : IsSorted d.proprietaries
    pub unknowns : IsSorted d.unknowns

  from_key-DecodesValid :
      (key : _) (s : DecoderStage c) → Stage.from_key c key ≡ ok s → DecodesValid s
  unfolding Stage.from_key
  from_key-DecodesValid key s run = ground arith

  pub finish-IsSound :
      (s : DecoderStage c) (d : GlobalDecoder c e) (rest : List Byte)
      (r : Round (GlobalDecoder c e))
      → finish c e s d rest ≡ ok r
      → IsSound d
      → DecodesValid s
      → OfRound IsSound r
  unfolding finish set_once insert_vacant
  finish-IsSound s d rest r run h v = grind (arith, insert-IsSorted, from_key-DecodesValid)

  complete-IsDecoded :
      (d : GlobalDecoder c e) (o : Global) → complete c e d ≡ ok o → IsSound d → IsDecoded o
  unfolding complete
  complete-IsDecoded d o run h = ground arith

  at_separator-IsSound :
      (d : GlobalDecoder c e) (bytes : List Byte) (r : Round (GlobalDecoder c e))
      → at_separator c e d bytes ≡ ok r
      → IsSound d
      → OfRound IsSound r
  unfolding at_separator
  at_separator-IsSound d [] r run h = ground arith
  at_separator-IsSound d (b ∷ rest) r run h = grind (arith, complete-IsDecoded)

  separator_round-IsSound :
      (s : DecoderStage c) (d : GlobalDecoder c e) (bytes : List Byte)
      (r : Round (GlobalDecoder c e))
      → separator_round c e s d bytes ≡ ok r
      → IsSound d
      → OfRound IsSound r
  unfolding separator_round
  separator_round-IsSound Stage.decoding_separator d bytes r run h =
      at_separator-IsSound d bytes r run h
  separator_round-IsSound s d bytes r run h = ground arith

  push_stage-DecodesValid :
      (s : DecoderStage c) (bytes : List Byte) (p : Pushed (DecoderStage c))
      → Stage.push_stage c s bytes ≡ ok p
      → DecodesValid s
      → DecodesValid p.decoder
  unfolding Stage.push_stage push_in
  push_stage-DecodesValid s bytes p run h = ground arith

  push_round-IsSound :
      (d : GlobalDecoder c e) (bytes : List Byte) (p : Pushed (GlobalDecoder c e))
      → push_round c e d bytes ≡ ok p
      → IsSound d
      → IsSound p.decoder
  unfolding push_round
  push_round-IsSound d bytes p run h = grind (arith, push_stage-DecodesValid)

  round-IsSound :
      (d : GlobalDecoder c e) (bytes : List Byte) (r : Round (GlobalDecoder c e))
      → round c e d bytes ≡ ok r
      → IsSound d
      → OfRound IsSound r
  unfolding round
  round-IsSound =
      round_of-keeps IsSound (push_round c e) (λ d bytes. finish c e d.stage d bytes)
        push_round-IsSound (λ d bytes r run h. finish-IsSound d.stage d bytes r run h h.stage)
        (λ d bytes. separator_round c e d.stage d bytes)
        (λ d bytes r run h. separator_round-IsSound d.stage d bytes r run h)

  push_from-IsSound :
      (fuel : ℕ) (s : DecoderStage c) (d : GlobalDecoder c e) (bytes : List Byte)
      {p : Pushed (GlobalDecoder c e)}
      → push_from c e fuel s d bytes ≡ some (ok p)
      → IsSound d
      → IsSound p.decoder
  unfolding push_from
  push_from-IsSound fuel (Stage.done o) d bytes run h = ground arith
  push_from-IsSound fuel s d bytes {p} run h =
      rounds-keep IsSound (round c e) round-IsSound fuel d bytes {p = p} run h

  Fed-IsSound : {d : GlobalDecoder c e} → Fed (global_decoder c e) d → IsSound d
  Fed-IsSound =
      Fed-keeps (global_decoder c e) IsSound (ground arith)
        (λ d bytes p run h. push_from-IsSound _ d.stage d bytes (expect_fuel-eq-ok run) h)

  end-DecodesValid :
      (s : DecoderStage c) {o : Global} → end c e s ≡ ok o → DecodesValid s → IsDecoded o
  unfolding end
  end-DecodesValid (Stage.done o) run h = grind arith
  end-DecodesValid s run h = ground arith

  -- Whatever bytes a decoder was fed, in whatever pieces, the global map that it ends in is of
  -- version 2, has shares of silent payments exactly if it has proofs of them, and the keys of each
  -- of its maps rise, each one once.
  pub Fed-end-IsDecoded :
      {d : GlobalDecoder c e} {o : Global}
      → Fed (global_decoder c e) d
      → end c e d.stage ≡ ok o
      → IsDecoded o
  Fed-end-IsDecoded {d} fed_bytes ended =
      end-DecodesValid d.stage ended (Fed-IsSound fed_bytes).stage
