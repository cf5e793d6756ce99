-- ===== src/Global/Decoder/Ends.antt =====
-- The `loop` of the decoder of the global map ends, over decoders of values that take a length first.
use rust_psbt.Prelude.{
  suc, ◌≡◌, ◌≢◌, ◌<◌, ◌≤◌, refl, none, List, [], ◌∷◌, ok, length, arith, >>=-eq-ok,
}
use rust_psbt.Primitives.{Byte}
use rust_psbt.Codecs.{Codecs, Encoders}
use rust_psbt.Framing.{framed}
use rust_psbt.Keys.{Key}
use rust_psbt.Keys.Codec.{key_decoder}
use rust_psbt.Decoding.{continue, Pushed, ready}
use rust_psbt.Decoding.Contracts.{Shrinks}
use rust_psbt.Decoding.Rounds.{
  IsFramed, framed-IsFramed, key_decoder-IsFramed, push_in_lem, round_of-total,
}
use rust_psbt.Global.Decoder.Stage
use rust_psbt.Global.Decoder.Stage.{DecoderStage, from_key, push_stage, version_decoder}
use rust_psbt.Global.Decoder.{
  GlobalDecoder, at_separator, separator_round, push_round, finish, round, push_from,
}

-- What the decoder of the global map relies on in the decoders of its values.
pub record ReadsGlobals (c : Codecs) : Type 0 where
  pub compact_size : IsFramed c.compact_size
  pub key_source : IsFramed c.key_source
  pub byte_vec : IsFramed c.byte_vec
  pub version : Shrinks (version_decoder c)
  pub tx_version : Shrinks c.tx_version
  pub lock_time : Shrinks c.lock_time
  pub count : Shrinks c.count
  pub flags : Shrinks c.flags
  pub compressed_public_key : Shrinks c.compressed_public_key
  pub dleq_proof : Shrinks c.dleq_proof

module _ (c : Codecs) (e : Encoders) (reads : ReadsGlobals c) where
  -- The decoder of the stage is new.
  abbrev pub IsFresh : DecoderStage c → Type 0
  IsFresh Stage.decoding_separator = Unit
  IsFresh (Stage.decoding_key s) = s ≡ (key_decoder c).default
  IsFresh (Stage.decoding_version key s) = s ≡ (framed c (version_decoder c)).default
  IsFresh (Stage.decoding_tx_version key s) = s ≡ (framed c c.tx_version).default
  IsFresh (Stage.decoding_lock_time key s) = s ≡ (framed c c.lock_time).default
  IsFresh (Stage.decoding_input_count key s) = s ≡ (framed c c.count).default
  IsFresh (Stage.decoding_output_count key s) = s ≡ (framed c c.count).default
  IsFresh (Stage.decoding_tx_modifiable key s) = s ≡ (framed c c.flags).default
  IsFresh (Stage.decoding_xpub key s) = s ≡ c.key_source.default
  IsFresh (Stage.decoding_proprietary key s) = s ≡ c.byte_vec.default
  IsFresh (Stage.decoding_sp_ecdh_share key s) = s ≡ (framed c c.compressed_public_key).default
  IsFresh (Stage.decoding_sp_dleq_proof key s) = s ≡ (framed c c.dleq_proof).default
  IsFresh (Stage.decoding_unknown key s) = s ≡ c.byte_vec.default
  IsFresh (Stage.done value) = ⊥
  IsFresh Stage.errored = ⊥

  push_stage_lem :
      (s : DecoderStage c) (bytes : List Byte) (p : Pushed (DecoderStage c))
      → push_stage c s bytes ≡ ok p
      → (length p.rest ≤ length bytes)
        × (IsFresh s → p.status ≡ ready → length p.rest < length bytes)
  unfolding push_stage
  push_stage_lem (Stage.decoding_key s) bytes p run =
      push_in_lem (key_decoder c) (key_decoder-IsFramed c reads.byte_vec) _ _ s bytes p run
  push_stage_lem (Stage.decoding_version key s) bytes p run =
      push_in_lem (framed c (version_decoder c))
        (framed-IsFramed c (version_decoder c) reads.compact_size reads.version) _ _ s bytes p run
  push_stage_lem (Stage.decoding_tx_version key s) bytes p run =
      push_in_lem (framed c c.tx_version)
        (framed-IsFramed c c.tx_version reads.compact_size reads.tx_version) _ _ s bytes p run
  push_stage_lem (Stage.decoding_lock_time key s) bytes p run =
      push_in_lem (framed c c.lock_time)
        (framed-IsFramed c c.lock_time reads.compact_size reads.lock_time) _ _ s bytes p run
  push_stage_lem (Stage.decoding_input_count key s) bytes p run =
      push_in_lem (framed c c.count) (framed-IsFramed c c.count reads.compact_size reads.count) _ _
        s bytes p run
  push_stage_lem (Stage.decoding_output_count key s) bytes p run =
      push_in_lem (framed c c.count) (framed-IsFramed c c.count reads.compact_size reads.count) _ _
        s bytes p run
  push_stage_lem (Stage.decoding_tx_modifiable key s) bytes p run =
      push_in_lem (framed c c.flags) (framed-IsFramed c c.flags reads.compact_size reads.flags) _ _
        s bytes p run
  push_stage_lem (Stage.decoding_xpub key s) bytes p run =
      push_in_lem c.key_source reads.key_source _ _ s bytes p run
  push_stage_lem (Stage.decoding_proprietary key s) bytes p run =
      push_in_lem c.byte_vec reads.byte_vec _ _ s bytes p run
  push_stage_lem (Stage.decoding_sp_ecdh_share key s) bytes p run =
      push_in_lem (framed c c.compressed_public_key)
        (framed-IsFramed c c.compressed_public_key reads.compact_size reads.compressed_public_key) _
        _ s bytes p run
  push_stage_lem (Stage.decoding_sp_dleq_proof key s) bytes p run =
      push_in_lem (framed c c.dleq_proof)
        (framed-IsFramed c c.dleq_proof reads.compact_size reads.dleq_proof) _ _ s bytes p run
  push_stage_lem (Stage.decoding_unknown key s) bytes p run =
      push_in_lem c.byte_vec reads.byte_vec _ _ s bytes p run
  push_stage_lem (Stage.done value) bytes p run = (ground arith, λ fresh. absurd fresh)
  push_stage_lem Stage.decoding_separator bytes p run = absurd (ground arith)
  push_stage_lem Stage.errored bytes p run = absurd (ground arith)

  from_key-IsFresh : (key : Key) (s : DecoderStage c) → from_key c key ≡ ok s → IsFresh s
  unfolding from_key
  from_key-IsFresh key s run = ground arith

  finish-IsFresh :
      (s : DecoderStage c) (d : GlobalDecoder c e) (bytes : List Byte) (d' : GlobalDecoder c e)
      (rest : List Byte)
      → finish c e s d bytes ≡ ok (continue d' rest)
      → IsFresh d'.stage × (rest ≡ bytes)
  unfolding finish
  finish-IsFresh (Stage.decoding_key s) d bytes d' rest run = grind (arith, from_key-IsFresh)
  finish-IsFresh s d bytes d' rest run = ground arith

  separator_round_lem :
      (s : DecoderStage c) (d : GlobalDecoder c e) (bytes : List Byte) (d' : GlobalDecoder c e)
      (rest : List Byte)
      → separator_round c e s d bytes ≡ ok (continue d' rest)
      → d.stage ≡ s
      → (rest ≡ bytes) × (IsFresh s → IsFresh d'.stage)
  unfolding separator_round at_separator
  separator_round_lem Stage.decoding_separator d [] d' rest run e = ground arith
  separator_round_lem Stage.decoding_separator d (b ∷ bytes) d' rest run e = ground arith
  separator_round_lem s d bytes d' rest run e = (ground arith, λ h. ground arith)

  push_round_lem :
      (d : GlobalDecoder c e) (bytes : List Byte) (p : Pushed (GlobalDecoder c e))
      → push_round c e d bytes ≡ ok p
      → (length p.rest ≤ length bytes)
        × (IsFresh d.stage → p.status ≡ ready → length p.rest < length bytes)
  unfolding push_round
  push_round_lem d bytes p run =
      let (q, pushed, next) = >>=-eq-ok (push_stage c d.stage bytes) _ run in
      let (le, lt) = push_stage_lem d.stage bytes q pushed in
      (ground (arith, next), λ fresh done. ground (arith, next, lt fresh))

  -- `push_bytes` on any state and any bytes comes to an end: as many turns of its loop as bytes are
  -- enough, with two more.
  pub push_from-total :
      (s : DecoderStage c) (d : GlobalDecoder c e) (bytes : List Byte)
      → push_from c e (suc (suc (length bytes))) s d bytes ≢ none
  unfolding push_from round
  push_from-total (Stage.done value) d bytes = ground arith
  push_from-total s d bytes =
      round_of-total (λ d. IsFresh d.stage) (λ d bytes. separator_round c e d.stage d bytes)
        (push_round c e) (λ d bytes. finish c e d.stage d bytes)
        (λ d bytes d' rest run. separator_round_lem d.stage d bytes d' rest run refl) push_round_lem
        (λ d bytes d' rest run. finish-IsFresh d.stage d bytes d' rest run) d bytes
