-- ===== src/Psbt/Decoder/Laws.antt =====
-- What a decoded PSBT satisfies, whatever bytes the decoder was fed, and that the decoder ends.
use rust_psbt.Prelude.{ℕ, ◌≡◌, All, List, [], ◌∷◌, ok, length, arith, >>=-eq-ok, map_err}
use rust_psbt.Primitives.{Byte, Txid, Transaction}
use rust_psbt.Decoding.{Decoder, VecDecoder, Containers, Pushed, Round, continue}
use rust_psbt.Decoding.Ensures.{OfRound, rounds-keep, advance-keeps, Fed, Fed-keeps}
use rust_psbt.Decoding.Ensures
use rust_psbt.Decoding.Fields.{expect_fuel-eq-ok}
use rust_psbt.Framing.Laws.{map_err-eq-ok}
use rust_psbt.Codecs.{Codecs, Encoders}
use rust_psbt.Global.Decoder.{global_decoder}
use rust_psbt.Global.Decoder.Laws.{Fed-end-IsDecoded}
use rust_psbt.Input.{Input}
use rust_psbt.Input.Decoder.{input_decoder}
use rust_psbt.Input.Decoder.Laws.{Fed-end_funded, Funds}
use rust_psbt.Output.{Output, validate}
use rust_psbt.Output.Decoder.{output_decoder}
use rust_psbt.Output.Decoder.Laws.{Fed-end_valid}
use rust_psbt.Psbt.{Psbt}
use rust_psbt.Psbt.Combine.Laws.{IsWellFormed}
use rust_psbt.Psbt.Decoder.{
  inputs_decoder, outputs_decoder, DecoderStage, push_stage, finish, round, end, psbt_decoder,
}

-- The states of a decoder of `n` values that is fed any bytes.
pub data VecFed {A : Type 0} (v : VecDecoder A) (n : ℕ) : v.State → Type 0 where
  fresh : VecFed v n (v.new n)
  fed :
      {s : v.State} (bytes : List Byte) (p : Pushed v.State)
      → VecFed v n s
      → v.push_bytes s bytes ≡ ok p
      → VecFed v n p.decoder

-- A value that the decoder `d` can end in.
pub record IsDecodedBy {A : Type 0} (d : Decoder A) (a : A) : Type 0 where
  pub state : d.State
  pub was_fed : Fed d state
  pub ended : d.end state ≡ ok a

-- What upstream documents of `ExactVecDecoderWith::new(n)`: it ends in `n` values, each one decoded
-- by the decoder that it is made of.
abbrev pub DecodesExactly : Containers → Type 1
DecodesExactly v =
    (A : Type 0) (d : Decoder A) (n : ℕ) (s : (v.exact_vec A d).State) (xs : List A)
    → VecFed (v.exact_vec A d) n s
    → (v.exact_vec A d).end s ≡ ok xs
    → (length xs ≡ n) × All (IsDecodedBy d) xs

module _ (c : Codecs) (e : Encoders) (compute_txid : Transaction → Txid) (v : Containers)
    (exactly : DecodesExactly v) where
  -- A PSBT whose parts are decoded, in the numbers that its global map counts.
  pub record IsDecodedPsbt (p : Psbt) : Type 0 where
    pub global : IsDecodedBy (global_decoder c e) p.global
    pub input_count : length p.inputs ≡ p.global.input_count
    pub inputs : All (IsDecodedBy (input_decoder c compute_txid)) p.inputs
    pub output_count : length p.outputs ≡ p.global.output_count
    pub outputs : All (IsDecodedBy (output_decoder c)) p.outputs

  -- What each stage has established.
  abbrev pub IsSound : DecoderStage c e compute_txid v → Type 0
  IsSound (DecoderStage.magic s) = Unit
  IsSound DecoderStage.separator = Unit
  IsSound (DecoderStage.global s) = Fed (global_decoder c e) s
  IsSound (DecoderStage.inputs g s) =
      IsDecodedBy (global_decoder c e) g
      × VecFed (inputs_decoder c e compute_txid v) g.input_count s
  IsSound (DecoderStage.outputs g is s) =
      IsDecodedBy (global_decoder c e) g
      × (length is ≡ g.input_count)
      × All (IsDecodedBy (input_decoder c compute_txid)) is
      × VecFed (outputs_decoder c e compute_txid v) g.output_count s
  IsSound (DecoderStage.done p) = IsDecodedPsbt p
  IsSound DecoderStage.errored = Unit

  push_stage-IsSound :
      (s : DecoderStage c e compute_txid v) (bytes : List Byte) (p : Pushed _)
      → push_stage c e compute_txid v s bytes ≡ ok p
      → IsSound s
      → IsSound p.decoder
  unfolding push_stage
  push_stage-IsSound (DecoderStage.magic s) bytes p run h = ground arith
  push_stage-IsSound DecoderStage.separator [] p run h = ground arith
  push_stage-IsSound DecoderStage.separator (b ∷ bytes) p run h = ground arith
  push_stage-IsSound (DecoderStage.global s) bytes p run h =
      let (q, pushed, next) =
        >>=-eq-ok (map_err _ ((global_decoder c e).push_bytes s bytes)) _ run in
      let kept : Fed (global_decoder c e) q.decoder =
        Ensures.fed bytes q h (map_err-eq-ok _ _ pushed) in
      ground (arith, kept, next)
  push_stage-IsSound (DecoderStage.inputs g s) bytes p run h =
      let d = inputs_decoder c e compute_txid v in
      let (q, pushed, next) = >>=-eq-ok (map_err _ (d.push_bytes s bytes)) _ run in
      let kept : VecFed d g.input_count q.decoder =
        VecFed.fed bytes q h.1 (map_err-eq-ok _ _ pushed) in
      ground (arith, kept, next)
  push_stage-IsSound (DecoderStage.outputs g is s) bytes p run h =
      let d = outputs_decoder c e compute_txid v in
      let (q, pushed, next) = >>=-eq-ok (map_err _ (d.push_bytes s bytes)) _ run in
      let kept : VecFed d g.output_count q.decoder =
        VecFed.fed bytes q h.3 (map_err-eq-ok _ _ pushed) in
      ground (arith, kept, next)
  push_stage-IsSound (DecoderStage.done psbt) bytes p run h = ground arith
  push_stage-IsSound DecoderStage.errored bytes p run h = absurd (ground arith)

  finish-IsSound :
      (s : DecoderStage c e compute_txid v) (bytes : List Byte) (r : Round _)
      → finish c e compute_txid v s bytes ≡ ok r
      → IsSound s
      → OfRound IsSound r
  unfolding finish
  finish-IsSound (DecoderStage.magic s) bytes r run h = ground arith
  finish-IsSound DecoderStage.separator [] r run h = absurd (ground arith)
  finish-IsSound DecoderStage.separator (b ∷ bytes) r run h =
      let start : Fed (global_decoder c e) (global_decoder c e).default = Ensures.fresh in
      ground (arith, start)
  finish-IsSound (DecoderStage.global s) bytes r run h =
      let d = global_decoder c e in
      let (g, ended, next) = >>=-eq-ok (map_err _ (d.end s)) _ run in
      let decoded : IsDecodedBy d g = record {
        state = s;
        was_fed = h;
        ended = map_err-eq-ok _ _ ended;
      } in
      let start : VecFed (inputs_decoder c e compute_txid v) g.input_count _ = VecFed.fresh in
      ground (arith, decoded, start, next)
  finish-IsSound (DecoderStage.inputs g s) bytes r run h =
      let d = inputs_decoder c e compute_txid v in
      let (is, ended, next) = >>=-eq-ok (map_err _ (d.end s)) _ run in
      let (count, each) =
        exactly Input (input_decoder c compute_txid) g.input_count s is h.1
          (map_err-eq-ok _ _ ended) in
      let start : VecFed (outputs_decoder c e compute_txid v) g.output_count _ = VecFed.fresh in
      ground (arith, count, each, start, next)
  finish-IsSound (DecoderStage.outputs g is s) bytes r run h =
      let d = outputs_decoder c e compute_txid v in
      let (os, ended, next) = >>=-eq-ok (map_err _ (d.end s)) _ run in
      let (count, each) =
        exactly Output (output_decoder c) g.output_count s os h.3 (map_err-eq-ok _ _ ended) in
      ground (arith, count, each, next)
  finish-IsSound (DecoderStage.done psbt) bytes r run h = ground arith
  finish-IsSound DecoderStage.errored bytes r run h = absurd (ground arith)

  Fed-IsSound :
      {s : DecoderStage c e compute_txid v} → Fed (psbt_decoder c e compute_txid v) s → IsSound s
  unfolding round
  Fed-IsSound = Fed-keeps (psbt_decoder c e compute_txid v) IsSound tt (λ s bytes p run h.
      rounds-keep IsSound (round c e compute_txid v)
        (λ s bytes r run h.
          advance-keeps IsSound (push_stage c e compute_txid v) (finish c e compute_txid v)
            push_stage-IsSound finish-IsSound (continue s bytes) r run h)
        7 s bytes {p = p} (expect_fuel-eq-ok run) h)

  end-IsDecodedPsbt :
      (s : DecoderStage c e compute_txid v) {p : Psbt}
      → end c e compute_txid v s ≡ ok p
      → IsSound s
      → IsDecodedPsbt p
  unfolding end
  end-IsDecodedPsbt (DecoderStage.done q) {p} run h =
      let same : q ≡ p = ground arith in rw (← same) h
  end-IsDecodedPsbt s run h = absurd (ground arith)

  All-map :
      {A : Type 0} {P Q : A → Type 0} (xs : List A) → ((a : A) → P a → Q a) → All P xs → All Q xs
  All-map [] f h = tt
  All-map (x ∷ xs) f h = (f x h.0, All-map xs f h.1)

  -- Over a decoder of `n` values that ends in `n` values, each one decoded: whatever bytes the
  -- decoder of a PSBT was fed, in whatever pieces, the PSBT that it ends in is of version 2, has
  -- as many inputs and outputs as its global map counts, each input carries no transaction but the
  -- one that it spends, each output has passed `Output::validate`, and the keys of every map rise,
  -- each one once.
  pub Fed-end_consistent :
      {s : DecoderStage c e compute_txid v} {p : Psbt}
      → Fed (psbt_decoder c e compute_txid v) s
      → end c e compute_txid v s ≡ ok p
      → (p.global.version ≡ 2)
        × (length p.inputs ≡ p.global.input_count)
        × (length p.outputs ≡ p.global.output_count)
        × All (λ i. Funds c compute_txid i i.non_witness_utxo) p.inputs
        × All (λ o. validate o ≡ ok tt) p.outputs
        × IsWellFormed p
  Fed-end_consistent {s} {p} was_fed ended =
      let d = end-IsDecodedPsbt s ended (Fed-IsSound was_fed) in
      let g = Fed-end-IsDecoded c e d.global.was_fed d.global.ended in
      let funded : (i : Input) → IsDecodedBy (input_decoder c compute_txid) i → _ =
        λ i k. Fed-end_funded c compute_txid k.was_fed k.ended in
      let valid : (o : Output) → IsDecodedBy (output_decoder c) o → _ =
        λ o k. Fed-end_valid c k.was_fed k.ended in
      (
        g.version,
        d.input_count,
        d.output_count,
        All-map p.inputs (λ i k. (funded i k).2) d.inputs,
        All-map p.outputs (λ o k. (valid o k).1) d.outputs,
        record {
          global = g.well_formed;
          inputs = All-map p.inputs (λ i k. (funded i k).0) d.inputs;
          outputs = All-map p.outputs (λ o k. (valid o k).0) d.outputs;
        },
      )
