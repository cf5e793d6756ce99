-- ===== src/Input/Decoder/Ends.antt =====
-- The `loop` of the decoder of an input map ends, over decoders of values that take a length first.
use rust_psbt.Prelude.{
  suc, ◌≡◌, ◌≢◌, ◌<◌, ◌≤◌, refl, none, List, [], ◌∷◌, ok, length, arith, >>=-eq-ok,
}
use rust_psbt.Primitives.{Byte, Txid, Transaction}
use rust_psbt.Codecs.{Codecs}
use rust_psbt.Framing.{framed}
use rust_psbt.Keys.{Key}
use rust_psbt.Keys.Codec.{key_decoder}
use rust_psbt.Decoding.{continue, Pushed, ready}
use rust_psbt.Decoding.Contracts.{Shrinks}
use rust_psbt.Decoding.Rounds.{
  IsFramed, framed-IsFramed, key_decoder-IsFramed, push_in_lem, round_of-total,
}
use rust_psbt.Input.Decoder.Stage
use rust_psbt.Input.Decoder.Stage.{DecoderStage, from_key, push_stage}
use rust_psbt.Input.Decoder.State.{InputDecoder}
use rust_psbt.Input.Decoder.{at_separator, separator_round, push_round, finish, round, push_from}

-- What the decoder of an input map relies on in the decoders of its values.
pub record ReadsInputs (c : Codecs) : Type 0 where
  pub compact_size : IsFramed c.compact_size
  pub script : IsFramed c.script
  pub taproot_signature : IsFramed c.taproot_signature
  pub ecdsa_signature : IsFramed c.ecdsa_signature
  pub key_source : IsFramed c.key_source
  pub byte_vec : IsFramed c.byte_vec
  pub leaf_script : IsFramed c.leaf_script
  pub tap_key_origin : IsFramed c.tap_key_origin
  pub txid : Shrinks c.txid
  pub vout : Shrinks c.vout
  pub sequence : Shrinks c.sequence
  pub time : Shrinks c.time
  pub height : Shrinks c.height
  pub transaction : Shrinks c.transaction
  pub tx_out : Shrinks c.tx_out
  pub sighash_type : Shrinks c.sighash_type
  pub witness : Shrinks c.witness
  pub xonly_public_key : Shrinks c.xonly_public_key
  pub tap_node_hash : Shrinks c.tap_node_hash
  pub compressed_public_key : Shrinks c.compressed_public_key
  pub dleq_proof : Shrinks c.dleq_proof

module _ (c : Codecs) (compute_txid : Transaction → Txid) (reads : ReadsInputs c) where
  -- The decoder of the stage is new.
  abbrev pub IsFresh : DecoderStage c → Type 0
  IsFresh Stage.decoding_separator = Unit
  IsFresh (Stage.decoding_key s) = s ≡ (key_decoder c).default
  IsFresh (Stage.decoding_previous_txid key s) = s ≡ (framed c c.txid).default
  IsFresh (Stage.decoding_output_index key s) = s ≡ (framed c c.vout).default
  IsFresh (Stage.decoding_sequence key s) = s ≡ (framed c c.sequence).default
  IsFresh (Stage.decoding_min_time key s) = s ≡ (framed c c.time).default
  IsFresh (Stage.decoding_min_height key s) = s ≡ (framed c c.height).default
  IsFresh (Stage.decoding_non_witness_utxo key s) = s ≡ (framed c c.transaction).default
  IsFresh (Stage.decoding_witness_utxo key s) = s ≡ (framed c c.tx_out).default
  IsFresh (Stage.decoding_sighash_type key s) = s ≡ (framed c c.sighash_type).default
  IsFresh (Stage.decoding_redeem_script key s) = s ≡ c.script.default
  IsFresh (Stage.decoding_witness_script key s) = s ≡ c.script.default
  IsFresh (Stage.decoding_final_script_sig key s) = s ≡ c.script.default
  IsFresh (Stage.decoding_final_script_witness key s) = s ≡ (framed c c.witness).default
  IsFresh (Stage.decoding_tap_key_sig key s) = s ≡ c.taproot_signature.default
  IsFresh (Stage.decoding_tap_internal_key key s) = s ≡ (framed c c.xonly_public_key).default
  IsFresh (Stage.decoding_tap_merkle_root key s) = s ≡ (framed c c.tap_node_hash).default
  IsFresh (Stage.decoding_partial_sig key s) = s ≡ c.ecdsa_signature.default
  IsFresh (Stage.decoding_bip32_derivation key s) = s ≡ c.key_source.default
  IsFresh (Stage.decoding_ripemd160 key s) = s ≡ c.byte_vec.default
  IsFresh (Stage.decoding_sha256 key s) = s ≡ c.byte_vec.default
  IsFresh (Stage.decoding_hash160 key s) = s ≡ c.byte_vec.default
  IsFresh (Stage.decoding_hash256 key s) = s ≡ c.byte_vec.default
  IsFresh (Stage.decoding_tap_script_sig key s) = s ≡ c.taproot_signature.default
  IsFresh (Stage.decoding_leaf_script key s) = s ≡ c.leaf_script.default
  IsFresh (Stage.decoding_tap_bip32_derivation key s) = s ≡ c.tap_key_origin.default
  IsFresh (Stage.decoding_proprietary key s) = s ≡ c.byte_vec.default
  IsFresh (Stage.decoding_sp_ecdh_share key s) = s ≡ (framed c c.compressed_public_key).default
  IsFresh (Stage.decoding_sp_dleq_proof key s) = s ≡ (framed c c.dleq_proof).default
  IsFresh (Stage.decoding_unknown key s) = s ≡ c.byte_vec.default
  IsFresh (Stage.done value) = ⊥
  IsFresh Stage.errored = ⊥

  push_stage_lem :
      (s : DecoderStage c) (bytes : List Byte) (p : Pushed (DecoderStage c))
      → push_stage c s bytes ≡ ok p
      → (length p.rest ≤ length bytes)
        × (IsFresh s → p.status ≡ ready → length p.rest < length bytes)
  unfolding push_stage
  push_stage_lem (Stage.decoding_key s) bytes p run =
      push_in_lem (key_decoder c) (key_decoder-IsFramed c reads.byte_vec) _ _ s bytes p run
  push_stage_lem (Stage.decoding_previous_txid key s) bytes p run =
      push_in_lem (framed c c.txid) (framed-IsFramed c c.txid reads.compact_size reads.txid) _ _ s
        bytes p run
  push_stage_lem (Stage.decoding_output_index key s) bytes p run =
      push_in_lem (framed c c.vout) (framed-IsFramed c c.vout reads.compact_size reads.vout) _ _ s
        bytes p run
  push_stage_lem (Stage.decoding_sequence key s) bytes p run =
      push_in_lem (framed c c.sequence)
        (framed-IsFramed c c.sequence reads.compact_size reads.sequence) _ _ s bytes p run
  push_stage_lem (Stage.decoding_min_time key s) bytes p run =
      push_in_lem (framed c c.time) (framed-IsFramed c c.time reads.compact_size reads.time) _ _ s
        bytes p run
  push_stage_lem (Stage.decoding_min_height key s) bytes p run =
      push_in_lem (framed c c.height) (framed-IsFramed c c.height reads.compact_size reads.height) _
        _ s bytes p run
  push_stage_lem (Stage.decoding_non_witness_utxo key s) bytes p run =
      push_in_lem (framed c c.transaction)
        (framed-IsFramed c c.transaction reads.compact_size reads.transaction) _ _ s bytes p run
  push_stage_lem (Stage.decoding_witness_utxo key s) bytes p run =
      push_in_lem (framed c c.tx_out) (framed-IsFramed c c.tx_out reads.compact_size reads.tx_out) _
        _ s bytes p run
  push_stage_lem (Stage.decoding_sighash_type key s) bytes p run =
      push_in_lem (framed c c.sighash_type)
        (framed-IsFramed c c.sighash_type reads.compact_size reads.sighash_type) _ _ s bytes p run
  push_stage_lem (Stage.decoding_redeem_script key s) bytes p run =
      push_in_lem c.script reads.script _ _ s bytes p run
  push_stage_lem (Stage.decoding_witness_script key s) bytes p run =
      push_in_lem c.script reads.script _ _ s bytes p run
  push_stage_lem (Stage.decoding_final_script_sig key s) bytes p run =
      push_in_lem c.script reads.script _ _ s bytes p run
  push_stage_lem (Stage.decoding_final_script_witness key s) bytes p run =
      push_in_lem (framed c c.witness)
        (framed-IsFramed c c.witness reads.compact_size reads.witness) _ _ s bytes p run
  push_stage_lem (Stage.decoding_tap_key_sig key s) bytes p run =
      push_in_lem c.taproot_signature reads.taproot_signature _ _ s bytes p run
  push_stage_lem (Stage.decoding_tap_internal_key key s) bytes p run =
      push_in_lem (framed c c.xonly_public_key)
        (framed-IsFramed c c.xonly_public_key reads.compact_size reads.xonly_public_key) _ _ s bytes
        p run
  push_stage_lem (Stage.decoding_tap_merkle_root key s) bytes p run =
      push_in_lem (framed c c.tap_node_hash)
        (framed-IsFramed c c.tap_node_hash reads.compact_size reads.tap_node_hash) _ _ s bytes p run
  push_stage_lem (Stage.decoding_partial_sig key s) bytes p run =
      push_in_lem c.ecdsa_signature reads.ecdsa_signature _ _ s bytes p run
  push_stage_lem (Stage.decoding_bip32_derivation key s) bytes p run =
      push_in_lem c.key_source reads.key_source _ _ s bytes p run
  push_stage_lem (Stage.decoding_ripemd160 key s) bytes p run =
      push_in_lem c.byte_vec reads.byte_vec _ _ s bytes p run
  push_stage_lem (Stage.decoding_sha256 key s) bytes p run =
      push_in_lem c.byte_vec reads.byte_vec _ _ s bytes p run
  push_stage_lem (Stage.decoding_hash160 key s) bytes p run =
      push_in_lem c.byte_vec reads.byte_vec _ _ s bytes p run
  push_stage_lem (Stage.decoding_hash256 key s) bytes p run =
      push_in_lem c.byte_vec reads.byte_vec _ _ s bytes p run
  push_stage_lem (Stage.decoding_tap_script_sig key s) bytes p run =
      push_in_lem c.taproot_signature reads.taproot_signature _ _ s bytes p run
  push_stage_lem (Stage.decoding_leaf_script key s) bytes p run =
      push_in_lem c.leaf_script reads.leaf_script _ _ s bytes p run
  push_stage_lem (Stage.decoding_tap_bip32_derivation key s) bytes p run =
      push_in_lem c.tap_key_origin reads.tap_key_origin _ _ s bytes p run
  push_stage_lem (Stage.decoding_proprietary key s) bytes p run =
      push_in_lem c.byte_vec reads.byte_vec _ _ s bytes p run
  push_stage_lem (Stage.decoding_sp_ecdh_share key s) bytes p run =
      push_in_lem (framed c c.compressed_public_key)
        (framed-IsFramed c c.compressed_public_key reads.compact_size reads.compressed_public_key) _
        _ s bytes p run
  push_stage_lem (Stage.decoding_sp_dleq_proof key s) bytes p run =
      push_in_lem (framed c c.dleq_proof)
        (framed-IsFramed c c.dleq_proof reads.compact_size reads.dleq_proof) _ _ s bytes p run
  push_stage_lem (Stage.decoding_unknown key s) bytes p run =
      push_in_lem c.byte_vec reads.byte_vec _ _ s bytes p run
  push_stage_lem (Stage.done value) bytes p run = (ground arith, λ fresh. absurd fresh)
  push_stage_lem Stage.decoding_separator bytes p run = absurd (ground arith)
  push_stage_lem Stage.errored bytes p run = absurd (ground arith)

  from_key-IsFresh : (key : Key) (s : DecoderStage c) → from_key c key ≡ ok s → IsFresh s
  unfolding from_key
  from_key-IsFresh key s run = ground arith

  finish-IsFresh :
      (s : DecoderStage c) (d : InputDecoder c) (bytes : List Byte) (d' : InputDecoder c)
      (rest : List Byte)
      → finish c compute_txid s d bytes ≡ ok (continue d' rest)
      → IsFresh d'.stage × (rest ≡ bytes)
  unfolding finish
  finish-IsFresh (Stage.decoding_key s) d bytes d' rest run = grind (arith, from_key-IsFresh)
  finish-IsFresh s d bytes d' rest run = ground arith

  separator_round_lem :
      (s : DecoderStage c) (d : InputDecoder c) (bytes : List Byte) (d' : InputDecoder c)
      (rest : List Byte)
      → separator_round c compute_txid s d bytes ≡ ok (continue d' rest)
      → d.stage ≡ s
      → (rest ≡ bytes) × (IsFresh s → IsFresh d'.stage)
  unfolding separator_round at_separator
  separator_round_lem Stage.decoding_separator d [] d' rest run e = ground arith
  separator_round_lem Stage.decoding_separator d (b ∷ bytes) d' rest run e = ground arith
  separator_round_lem s d bytes d' rest run e = (ground arith, λ h. ground arith)

  push_round_lem :
      (d : InputDecoder c) (bytes : List Byte) (p : Pushed (InputDecoder c))
      → push_round c compute_txid d bytes ≡ ok p
      → (length p.rest ≤ length bytes)
        × (IsFresh d.stage → p.status ≡ ready → length p.rest < length bytes)
  unfolding push_round
  push_round_lem d bytes p run =
      let (q, pushed, next) = >>=-eq-ok (push_stage c d.stage bytes) _ run in
      let (le, lt) = push_stage_lem d.stage bytes q pushed in
      (ground (arith, next), λ fresh done. ground (arith, next, lt fresh))

  -- If no decoder of a value gives bytes back, and those with a frame of their own, fresh, take a
  -- byte to be ready, `push_bytes` on any state and any bytes comes to an end: as many turns of
  -- its loop as bytes are enough, with two more.
  pub push_from-total :
      (s : DecoderStage c) (d : InputDecoder c) (bytes : List Byte)
      → push_from c compute_txid (suc (suc (length bytes))) s d bytes ≢ none
  unfolding push_from round
  push_from-total (Stage.done value) d bytes = ground arith
  push_from-total s d bytes =
      round_of-total (λ d. IsFresh d.stage)
        (λ d bytes. separator_round c compute_txid d.stage d bytes) (push_round c compute_txid)
        (λ d bytes. finish c compute_txid d.stage d bytes)
        (λ d bytes d' rest run. separator_round_lem d.stage d bytes d' rest run refl) push_round_lem
        (λ d bytes d' rest run. finish-IsFresh d.stage d bytes d' rest run) d bytes
