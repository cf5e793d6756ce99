-- ===== src/Output/Decoder/Ends.antt =====
-- The `loop` of the decoder of an output map ends, over decoders of values that take a length first.
use rust_psbt.Prelude.{
  suc, ◌≡◌, ◌≢◌, ◌<◌, ◌≤◌, refl, none, List, [], ◌∷◌, ok, length, arith, >>=-eq-ok,
}
use rust_psbt.Primitives.{Byte}
use rust_psbt.Codecs.{Codecs}
use rust_psbt.Framing.{framed}
use rust_psbt.Keys.{Key}
use rust_psbt.Keys.Codec.{key_decoder}
use rust_psbt.Decoding.{continue, Pushed, ready}
use rust_psbt.Decoding.Contracts.{Shrinks}
use rust_psbt.Decoding.Rounds.{
  IsFramed, framed-IsFramed, key_decoder-IsFramed, push_in_lem, round_of-total,
}
use rust_psbt.Output.Decoder.Stage
use rust_psbt.Output.Decoder.Stage.{DecoderStage, from_key, push_stage}
use rust_psbt.Output.Decoder.{
  OutputDecoder, at_separator, separator_round, push_round, finish, round, push_from,
}

-- What the decoder of an output map relies on in the decoders of its values.
pub record ReadsOutputs (c : Codecs) : Type 0 where
  pub compact_size : IsFramed c.compact_size
  pub script : IsFramed c.script
  pub key_source : IsFramed c.key_source
  pub tap_tree : IsFramed c.tap_tree
  pub tap_key_origin : IsFramed c.tap_key_origin
  pub byte_vec : IsFramed c.byte_vec
  pub amount : Shrinks c.amount
  pub xonly_public_key : Shrinks c.xonly_public_key
  pub sp_v0_info : Shrinks c.sp_v0_info
  pub sp_v0_label : Shrinks c.sp_v0_label

module _ (c : Codecs) (reads : ReadsOutputs c) where
  -- The decoder of the stage is new.
  abbrev pub IsFresh : DecoderStage c → Type 0
  IsFresh Stage.decoding_separator = Unit
  IsFresh (Stage.decoding_key s) = s ≡ (key_decoder c).default
  IsFresh (Stage.decoding_amount key s) = s ≡ (framed c c.amount).default
  IsFresh (Stage.decoding_script key s) = s ≡ c.script.default
  IsFresh (Stage.decoding_redeem_script key s) = s ≡ c.script.default
  IsFresh (Stage.decoding_witness_script key s) = s ≡ c.script.default
  IsFresh (Stage.decoding_bip32_derivation key s) = s ≡ c.key_source.default
  IsFresh (Stage.decoding_tap_internal_key key s) = s ≡ (framed c c.xonly_public_key).default
  IsFresh (Stage.decoding_tap_tree key s) = s ≡ c.tap_tree.default
  IsFresh (Stage.decoding_tap_bip32_derivation key s) = s ≡ c.tap_key_origin.default
  IsFresh (Stage.decoding_sp_v0_info key s) = s ≡ (framed c c.sp_v0_info).default
  IsFresh (Stage.decoding_sp_v0_label key s) = s ≡ (framed c c.sp_v0_label).default
  IsFresh (Stage.decoding_proprietary key s) = s ≡ c.byte_vec.default
  IsFresh (Stage.decoding_unknown key s) = s ≡ c.byte_vec.default
  IsFresh (Stage.done value) = ⊥
  IsFresh Stage.errored = ⊥

  push_stage_lem :
      (s : DecoderStage c) (bytes : List Byte) (p : Pushed (DecoderStage c))
      → push_stage c s bytes ≡ ok p
      → (length p.rest ≤ length bytes)
        × (IsFresh s → p.status ≡ ready → length p.rest < length bytes)
  unfolding push_stage
  push_stage_lem (Stage.decoding_key s) bytes p run =
      push_in_lem (key_decoder c) (key_decoder-IsFramed c reads.byte_vec) _ _ s bytes p run
  push_stage_lem (Stage.decoding_amount key s) bytes p run =
      push_in_lem (framed c c.amount) (framed-IsFramed c c.amount reads.compact_size reads.amount) _
        _ s bytes p run
  push_stage_lem (Stage.decoding_script key s) bytes p run =
      push_in_lem c.script reads.script _ _ s bytes p run
  push_stage_lem (Stage.decoding_redeem_script key s) bytes p run =
      push_in_lem c.script reads.script _ _ s bytes p run
  push_stage_lem (Stage.decoding_witness_script key s) bytes p run =
      push_in_lem c.script reads.script _ _ s bytes p run
  push_stage_lem (Stage.decoding_bip32_derivation key s) bytes p run =
      push_in_lem c.key_source reads.key_source _ _ s bytes p run
  push_stage_lem (Stage.decoding_tap_internal_key key s) bytes p run =
      push_in_lem (framed c c.xonly_public_key)
        (framed-IsFramed c c.xonly_public_key reads.compact_size reads.xonly_public_key) _ _ s bytes
        p run
  push_stage_lem (Stage.decoding_tap_tree key s) bytes p run =
      push_in_lem c.tap_tree reads.tap_tree _ _ s bytes p run
  push_stage_lem (Stage.decoding_tap_bip32_derivation key s) bytes p run =
      push_in_lem c.tap_key_origin reads.tap_key_origin _ _ s bytes p run
  push_stage_lem (Stage.decoding_sp_v0_info key s) bytes p run =
      push_in_lem (framed c c.sp_v0_info)
        (framed-IsFramed c c.sp_v0_info reads.compact_size reads.sp_v0_info) _ _ s bytes p run
  push_stage_lem (Stage.decoding_sp_v0_label key s) bytes p run =
      push_in_lem (framed c c.sp_v0_label)
        (framed-IsFramed c c.sp_v0_label reads.compact_size reads.sp_v0_label) _ _ s bytes p run
  push_stage_lem (Stage.decoding_proprietary key s) bytes p run =
      push_in_lem c.byte_vec reads.byte_vec _ _ s bytes p run
  push_stage_lem (Stage.decoding_unknown key s) bytes p run =
      push_in_lem c.byte_vec reads.byte_vec _ _ s bytes p run
  push_stage_lem (Stage.done value) bytes p run = (ground arith, λ fresh. absurd fresh)
  push_stage_lem Stage.decoding_separator bytes p run = absurd (ground arith)
  push_stage_lem Stage.errored bytes p run = absurd (ground arith)

  from_key-IsFresh : (key : Key) (s : DecoderStage c) → from_key c key ≡ ok s → IsFresh s
  unfolding from_key
  from_key-IsFresh key s run = ground arith

  finish-IsFresh :
      (s : DecoderStage c) (d : OutputDecoder c) (bytes : List Byte) (d' : OutputDecoder c)
      (rest : List Byte)
      → finish c s d bytes ≡ ok (continue d' rest)
      → IsFresh d'.stage × (rest ≡ bytes)
  unfolding finish
  finish-IsFresh (Stage.decoding_key s) d bytes d' rest run = grind (arith, from_key-IsFresh)
  finish-IsFresh s d bytes d' rest run = ground arith

  separator_round_lem :
      (s : DecoderStage c) (d : OutputDecoder c) (bytes : List Byte) (d' : OutputDecoder c)
      (rest : List Byte)
      → separator_round c s d bytes ≡ ok (continue d' rest)
      → d.stage ≡ s
      → (rest ≡ bytes) × (IsFresh s → IsFresh d'.stage)
  unfolding separator_round at_separator
  separator_round_lem Stage.decoding_separator d [] d' rest run e = ground arith
  separator_round_lem Stage.decoding_separator d (b ∷ bytes) d' rest run e = ground arith
  separator_round_lem s d bytes d' rest run e = (ground arith, λ h. ground arith)

  push_round_lem :
      (d : OutputDecoder c) (bytes : List Byte) (p : Pushed (OutputDecoder c))
      → push_round c d bytes ≡ ok p
      → (length p.rest ≤ length bytes)
        × (IsFresh d.stage → p.status ≡ ready → length p.rest < length bytes)
  unfolding push_round
  push_round_lem d bytes p run =
      let (q, pushed, next) = >>=-eq-ok (push_stage c d.stage bytes) _ run in
      let (le, lt) = push_stage_lem d.stage bytes q pushed in
      (ground (arith, next), λ fresh done. ground (arith, next, lt fresh))

  -- `push_bytes` on any state and any bytes comes to an end: as many turns of its loop as bytes are
  -- enough, with two more.
  pub push_from-total :
      (s : DecoderStage c) (d : OutputDecoder c) (bytes : List Byte)
      → push_from c (suc (suc (length bytes))) s d bytes ≢ none
  unfolding push_from round
  push_from-total (Stage.done value) d bytes = ground arith
  push_from-total s d bytes =
      round_of-total (λ d. IsFresh d.stage) (λ d bytes. separator_round c d.stage d bytes)
        (push_round c) (λ d bytes. finish c d.stage d bytes)
        (λ d bytes d' rest run. separator_round_lem d.stage d bytes d' rest run refl) push_round_lem
        (λ d bytes d' rest run. finish-IsFresh d.stage d bytes d' rest run) d bytes
