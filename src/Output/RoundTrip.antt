-- ===== src/Output/RoundTrip.antt =====
-- src/map/output.rs: the decoder of an output map reads back what the encoder writes.
pub mod Pairs
pub mod Singles
pub mod Entries
pub mod Written
pub mod Sequence
use rust_psbt.Prelude.{
  ℕ, suc, ◌≡◌, ◌∙◌, ap, refl, ◌&&◌, true, false, Option, none, some, List, [], ◌∷◌, ◌++◌, length,
  is_some, is_empty, ok,
}
use rust_psbt.Primitives.{Byte, ScriptBuf}
use rust_psbt.Consts.{psbt_separator}
use rust_psbt.Codecs.{Codecs, Encoders}
use rust_psbt.Decoding.{return, ready, rounds, round_of, advance}
use rust_psbt.Decoding.Contracts.{Reads}
use rust_psbt.Decoding.Fields.{expect_fuel}
use rust_psbt.Decoding.Runs.{rounds_agree, rounds_return, after}
use rust_psbt.Output.{Output, SpV0Info, validate}
use rust_psbt.Output.Decoder.Stage.{decoding_separator, done}
use rust_psbt.Output.Decoder.{
  OutputDecoder, default, without_fields, take_script_pubkey, complete, at_separator,
  separator_round, round, push_from, end, output_decoder,
}
use rust_psbt.Output.Decoder.Ends.{ReadsOutputs, push_from-total}
use rust_psbt.Output.Encoder.{encode}
use rust_psbt.Output.RoundTrip.Written.{encode_lem}
use rust_psbt.Output.RoundTrip.Sequence.{IsReadable, full, read_amount_on}

module _ (c : Codecs) (e : Encoders) where
  -- A script that was left out is the empty one.
  take_written :
      (d : OutputDecoder c) (script : ScriptBuf) (info : Option SpV0Info)
      → take_script_pubkey c (record d {
        script_pubkey = elim (is_some info && is_empty script) [
          | true ↦ none
          | false ↦ some script
        ];
        sp_v0_info = info;
      })
        ≡ ok script
  unfolding take_script_pubkey
  take_written d [] none = refl
  take_written d [] (some info) = refl
  take_written d (b ∷ script) none = refl
  take_written d (b ∷ script) (some info) = refl

  module _ (o : Output) where
    complete-full : validate o ≡ ok tt → complete c (full c e o) ≡ ok o
    unfolding complete
    complete-full valid = rw (take_written (full c e o) o.script_pubkey o.sp_v0_info, valid) refl

    round-full :
        (rest : List Byte)
        → validate o ≡ ok tt
        → round c (full c e o) (psbt_separator ∷ rest)
          ≡ ok
              (return (record { decoder = without_fields c (done o); rest = rest; status = ready }))
    unfolding round round_of separator_round at_separator advance
    round-full rest valid = rw (complete-full valid) refl

    module _ (h : IsReadable c e o) (rest : List Byte) where
      -- Once the pairs are read, one round more ends the map.
      rounds_all :
          (n : ℕ) × (rounds (round c) n (default c) (encode e o ++ rest)
            ≡ some
                (ok (record { decoder = without_fields c (done o); rest = rest; status = ready })))
      rounds_all =
          let (n, runs) = read_amount_on c e o h rest in
          let last =
            rounds_return (round c) (full c e o) (psbt_separator ∷ rest) _
              (round-full rest h.valid) in
          (after n 1, rw (encode_lem e o) (runs 1 ∙ last))

  -- If no decoder of a value gives bytes back, and those with a frame of their own, fresh, take a
  -- byte to be ready, then a valid output with sorted maps, whose pairs are each read back by the
  -- decoders of its keys and values, is read back from the bytes that its encoder writes, whatever
  -- bytes follow, and these are left.
  pub output_decoder-Reads :
      (o : Output) → ReadsOutputs c → IsReadable c e o → Reads (output_decoder c) o (encode e o)
  unfolding push_from end
  output_decoder-Reads o reads h rest =
      let (n, run) = rounds_all o h rest in
      let bytes = encode e o ++ rest in
      let ends = push_from-total c reads decoding_separator (default c) bytes in
      let pushed = rounds_agree (round c) n (suc (suc (length bytes))) (default c) bytes run ends in
      (without_fields c (done o), ap expect_fuel pushed, refl)
