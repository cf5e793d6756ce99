-- ===== src/Psbt/Decoder/Ends.antt =====
-- The `loop` of the decoder of a PSBT ends: the stages follow one another.
use rust_psbt.Prelude.{
  ℕ, zero, suc, ◌≡◌, ◌≢◌, ◌<◌, none, List, ok, arith, inl, inr, Outcome-cases, >>=-eq-ok,
}
use rust_psbt.Primitives.{Byte, Txid, Transaction}
use rust_psbt.Codecs.{Codecs, Encoders}
use rust_psbt.Decoding.{Containers, Pushed, return, continue, rounds, advance}
use rust_psbt.Decoding.Ensures.{Status-cases}
use rust_psbt.Psbt.Decoder.{DecoderStage, push_stage, finish, round}

module _ (c : Codecs) (e : Encoders) (compute_txid : Transaction → Txid) (v : Containers) where
  -- The stages that are still to come.
  rank : DecoderStage c e compute_txid v → ℕ
  rank (DecoderStage.magic s) = 5
  rank DecoderStage.separator = 4
  rank (DecoderStage.global s) = 3
  rank (DecoderStage.inputs g s) = 2
  rank (DecoderStage.outputs g is s) = 1
  rank (DecoderStage.done p) = 0
  rank DecoderStage.errored = 0

  push_stage-rank :
      (s : DecoderStage c e compute_txid v) (bytes : List Byte) (p : Pushed _)
      → push_stage c e compute_txid v s bytes ≡ ok p
      → rank p.decoder ≡ rank s
  unfolding push_stage rank
  push_stage-rank s bytes p run = ground arith

  finish-rank :
      (s : DecoderStage c e compute_txid v) (bytes : List Byte) (s' : _) (rest : List Byte)
      → finish c e compute_txid v s bytes ≡ ok (continue s' rest)
      → rank s' < rank s
  unfolding finish rank
  finish-rank s bytes s' rest run = ground arith

  round-rank :
      (s : DecoderStage c e compute_txid v) (bytes : List Byte) (s' : _) (rest : List Byte)
      → round c e compute_txid v s bytes ≡ ok (continue s' rest)
      → rank s' < rank s
  unfolding round advance
  round-rank s bytes s' rest run =
      let (p, pushed, next) = >>=-eq-ok (push_stage c e compute_txid v s bytes) _ run in
      elim (Status-cases p.status) [
        | inl is_ready ↦
            let falls = finish-rank p.decoder p.rest s' rest (rw is_ready at next) in
            rw (← push_stage-rank s bytes p pushed) falls
        | inr waits ↦ absurd (ground (arith, waits, next))
      ]

  ranked-total :
      (fuel : ℕ) (s : DecoderStage c e compute_txid v) (bytes : List Byte)
      → rank s < fuel
      → rounds (round c e compute_txid v) fuel s bytes ≢ none
  unfolding rounds
  ranked-total zero s bytes enough = absurd (omega arith)
  ranked-total (suc fuel) s bytes enough = elim (Outcome-cases (round c e compute_txid v s bytes)) [
    | inl (return q, run) ↦ ground (arith, run)
    | inl (continue s' rest, run) ↦
        let falls = round-rank s bytes s' rest run in
        ground (arith, run, ranked-total fuel s' rest (omega (arith, falls)))
    | inr (inl (x, run)) ↦ ground (arith, run)
    | inr (inr run) ↦ ground (arith, run)
  ]

  rank-lt : (s : DecoderStage c e compute_txid v) → rank s < 7
  unfolding rank
  rank-lt s = grind arith

  -- `push_bytes` of `PsbtV2Decoder` on any state and any bytes ends: seven turns of its loop are
  -- enough.
  pub psbt_rounds-total :
      (s : DecoderStage c e compute_txid v) (bytes : List Byte)
      → rounds (round c e compute_txid v) 7 s bytes ≢ none
  psbt_rounds-total s bytes = ranked-total 7 s bytes (rank-lt s)
