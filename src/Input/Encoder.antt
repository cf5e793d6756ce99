-- ===== src/Input/Encoder.antt =====
-- src/map/input.rs: the encoder of an input map, a machine over the fields in their order.
use rust_psbt.Prelude.{ℕ, ◌≡◌, ◌<◌, arith, Option, none, some, List, [], ◌∷◌, flat_map}
use rust_psbt.Primitives.{Byte}
use rust_psbt.Consts.{
  psbt_separator, psbt_in_previous_txid, psbt_in_output_index, psbt_in_sequence,
  psbt_in_required_time_locktime, psbt_in_required_height_locktime, psbt_in_non_witness_utxo,
  psbt_in_witness_utxo, psbt_in_partial_sig, psbt_in_sighash_type, psbt_in_redeem_script,
  psbt_in_witness_script, psbt_in_bip32_derivation, psbt_in_final_scriptsig,
  psbt_in_final_scriptwitness, psbt_in_ripemd160, psbt_in_sha256, psbt_in_hash160, psbt_in_hash256,
  psbt_in_tap_key_sig, psbt_in_tap_script_sig, psbt_in_tap_leaf_script,
  psbt_in_tap_bip32_derivation, psbt_in_tap_internal_key, psbt_in_tap_merkle_root,
  psbt_in_sp_ecdh_share, psbt_in_sp_dleq,
}
use rust_psbt.Codecs.{Encoders}
use rust_psbt.Encoding.{drain}
use rust_psbt.Framing.{from_sized_kv, key_value_iter, bytes_key_value_iter}
use rust_psbt.Keys.Codec.{proprietary_pair, unknown_pair}
use rust_psbt.Input.{Input}

-- A state holds the bytes of its pair or of its group of pairs.
pub data EncoderState : Type 0 where
  previous_txid : List Byte → EncoderState
  output_index : List Byte → EncoderState
  sequence : List Byte → EncoderState
  min_time : List Byte → EncoderState
  min_height : List Byte → EncoderState
  non_witness_utxo : List Byte → EncoderState
  witness_utxo : List Byte → EncoderState
  partial_sigs : List Byte → EncoderState
  sighash_type : List Byte → EncoderState
  redeem_script : List Byte → EncoderState
  witness_script : List Byte → EncoderState
  bip32_derivations : List Byte → EncoderState
  final_script_sig : List Byte → EncoderState
  final_script_witness : List Byte → EncoderState
  ripemd160 : List Byte → EncoderState
  sha256 : List Byte → EncoderState
  hash160 : List Byte → EncoderState
  hash256 : List Byte → EncoderState
  tap_key_sig : List Byte → EncoderState
  tap_script_sigs : List Byte → EncoderState
  tap_scripts : List Byte → EncoderState
  tap_key_origins : List Byte → EncoderState
  tap_internal_key : List Byte → EncoderState
  tap_merkle_root : List Byte → EncoderState
  ecdh : List Byte → EncoderState
  dleq : List Byte → EncoderState
  proprietaries : List Byte → EncoderState
  unknowns : List Byte → EncoderState
  separator : List Byte → EncoderState

unfoldable pub current_chunk : EncoderState → List Byte
current_chunk (previous_txid chunk) = chunk
current_chunk (output_index chunk) = chunk
current_chunk (sequence chunk) = chunk
current_chunk (min_time chunk) = chunk
current_chunk (min_height chunk) = chunk
current_chunk (non_witness_utxo chunk) = chunk
current_chunk (witness_utxo chunk) = chunk
current_chunk (partial_sigs chunk) = chunk
current_chunk (sighash_type chunk) = chunk
current_chunk (redeem_script chunk) = chunk
current_chunk (witness_script chunk) = chunk
current_chunk (bip32_derivations chunk) = chunk
current_chunk (final_script_sig chunk) = chunk
current_chunk (final_script_witness chunk) = chunk
current_chunk (ripemd160 chunk) = chunk
current_chunk (sha256 chunk) = chunk
current_chunk (hash160 chunk) = chunk
current_chunk (hash256 chunk) = chunk
current_chunk (tap_key_sig chunk) = chunk
current_chunk (tap_script_sigs chunk) = chunk
current_chunk (tap_scripts chunk) = chunk
current_chunk (tap_key_origins chunk) = chunk
current_chunk (tap_internal_key chunk) = chunk
current_chunk (tap_merkle_root chunk) = chunk
current_chunk (ecdh chunk) = chunk
current_chunk (dleq chunk) = chunk
current_chunk (proprietaries chunk) = chunk
current_chunk (unknowns chunk) = chunk
current_chunk (separator chunk) = chunk

-- The states that are still to come.
pub rank : EncoderState → ℕ
rank (previous_txid chunk) = 28
rank (output_index chunk) = 27
rank (sequence chunk) = 26
rank (min_time chunk) = 25
rank (min_height chunk) = 24
rank (non_witness_utxo chunk) = 23
rank (witness_utxo chunk) = 22
rank (partial_sigs chunk) = 21
rank (sighash_type chunk) = 20
rank (redeem_script chunk) = 19
rank (witness_script chunk) = 18
rank (bip32_derivations chunk) = 17
rank (final_script_sig chunk) = 16
rank (final_script_witness chunk) = 15
rank (ripemd160 chunk) = 14
rank (sha256 chunk) = 13
rank (hash160 chunk) = 12
rank (hash256 chunk) = 11
rank (tap_key_sig chunk) = 10
rank (tap_script_sigs chunk) = 9
rank (tap_scripts chunk) = 8
rank (tap_key_origins chunk) = 7
rank (tap_internal_key chunk) = 6
rank (tap_merkle_root chunk) = 5
rank (ecdh chunk) = 4
rank (dleq chunk) = 3
rank (proprietaries chunk) = 2
rank (unknowns chunk) = 1
rank (separator chunk) = 0

module _ (e : Encoders) where
  unfoldable pub unknowns_state : Input → EncoderState
  unknowns_state i = unknowns (flat_map (unknown_pair e) i.unknowns)

  unfoldable pub proprietaries_state : Input → EncoderState
  proprietaries_state i = proprietaries (flat_map (proprietary_pair e) i.proprietaries)

  unfoldable pub dleq_state : Input → EncoderState
  dleq_state i = dleq (
      key_value_iter e.compact_size psbt_in_sp_dleq e.compressed_public_key e.dleq_proof
        i.sp_dleq_proofs)

  unfoldable pub ecdh_state : Input → EncoderState
  ecdh_state i = ecdh (
      key_value_iter e.compact_size psbt_in_sp_ecdh_share e.compressed_public_key
        e.compressed_public_key i.sp_ecdh_shares)

  unfoldable pub tap_merkle_root_state : Input → Option EncoderState
  unfolding ecdh_state
  tap_merkle_root_state i = elim i.tap_merkle_root [
    | some value ↦ some (
        tap_merkle_root (
          from_sized_kv e.compact_size (e.compact_size psbt_in_tap_merkle_root)
            (e.tap_node_hash value)))
    | none ↦ some (ecdh_state i)
  ]

  unfoldable pub tap_internal_key_state : Input → Option EncoderState
  unfolding tap_merkle_root_state
  tap_internal_key_state i = elim i.tap_internal_key [
    | some value ↦ some (
        tap_internal_key (
          from_sized_kv e.compact_size (e.compact_size psbt_in_tap_internal_key)
            (e.xonly_public_key value)))
    | none ↦ tap_merkle_root_state i
  ]

  unfoldable pub tap_key_origins_state : Input → EncoderState
  tap_key_origins_state i = tap_key_origins (
      key_value_iter e.compact_size psbt_in_tap_bip32_derivation e.xonly_public_key e.tap_key_origin
        i.tap_key_origins)

  unfoldable pub tap_scripts_state : Input → EncoderState
  tap_scripts_state i = tap_scripts (
      key_value_iter e.compact_size psbt_in_tap_leaf_script e.control_block e.leaf_script
        i.tap_scripts)

  unfoldable pub tap_script_sigs_state : Input → EncoderState
  tap_script_sigs_state i = tap_script_sigs (
      key_value_iter e.compact_size psbt_in_tap_script_sig e.xonly_leaf_hash e.taproot_signature
        i.tap_script_sigs)

  unfoldable pub tap_key_sig_state : Input → Option EncoderState
  unfolding tap_script_sigs_state
  tap_key_sig_state i = elim i.tap_key_sig [
    | some value ↦ some (
        tap_key_sig (
          from_sized_kv e.compact_size (e.compact_size psbt_in_tap_key_sig)
            (e.taproot_signature value)))
    | none ↦ some (tap_script_sigs_state i)
  ]

  unfoldable pub hash256_state : Input → EncoderState
  hash256_state i =
      hash256 (bytes_key_value_iter e.compact_size psbt_in_hash256 e.hash256 i.hash256_preimages)

  unfoldable pub hash160_state : Input → EncoderState
  hash160_state i =
      hash160 (bytes_key_value_iter e.compact_size psbt_in_hash160 e.hash160 i.hash160_preimages)

  unfoldable pub sha256_state : Input → EncoderState
  sha256_state i =
      sha256 (bytes_key_value_iter e.compact_size psbt_in_sha256 e.sha256 i.sha256_preimages)

  unfoldable pub ripemd160_state : Input → EncoderState
  ripemd160_state i =
      ripemd160
        (bytes_key_value_iter e.compact_size psbt_in_ripemd160 e.ripemd160 i.ripemd160_preimages)

  unfoldable pub final_script_witness_state : Input → Option EncoderState
  unfolding ripemd160_state
  final_script_witness_state i = elim i.final_script_witness [
    | some value ↦ some (
        final_script_witness (
          from_sized_kv e.compact_size (e.compact_size psbt_in_final_scriptwitness)
            (e.witness value)))
    | none ↦ some (ripemd160_state i)
  ]

  unfoldable pub final_script_sig_state : Input → Option EncoderState
  unfolding final_script_witness_state
  final_script_sig_state i = elim i.final_script_sig [
    | some value ↦ some (
        final_script_sig
          (from_sized_kv e.compact_size (e.compact_size psbt_in_final_scriptsig) (e.script value)))
    | none ↦ final_script_witness_state i
  ]

  unfoldable pub bip32_derivations_state : Input → EncoderState
  bip32_derivations_state i = bip32_derivations (
      key_value_iter e.compact_size psbt_in_bip32_derivation e.public_key e.key_source
        i.bip32_derivations)

  unfoldable pub witness_script_state : Input → Option EncoderState
  unfolding bip32_derivations_state
  witness_script_state i = elim i.witness_script [
    | some value ↦ some (
        witness_script
          (from_sized_kv e.compact_size (e.compact_size psbt_in_witness_script) (e.script value)))
    | none ↦ some (bip32_derivations_state i)
  ]

  unfoldable pub redeem_script_state : Input → Option EncoderState
  unfolding witness_script_state
  redeem_script_state i = elim i.redeem_script [
    | some value ↦ some (
        redeem_script
          (from_sized_kv e.compact_size (e.compact_size psbt_in_redeem_script) (e.script value)))
    | none ↦ witness_script_state i
  ]

  unfoldable pub sighash_type_state : Input → Option EncoderState
  unfolding redeem_script_state
  sighash_type_state i = elim i.sighash_type [
    | some value ↦ some (
        sighash_type (
          from_sized_kv e.compact_size (e.compact_size psbt_in_sighash_type)
            (e.sighash_type value)))
    | none ↦ redeem_script_state i
  ]

  unfoldable pub partial_sigs_state : Input → EncoderState
  partial_sigs_state i = partial_sigs (
      key_value_iter e.compact_size psbt_in_partial_sig e.public_key e.ecdsa_signature
        i.partial_sigs)

  unfoldable pub witness_utxo_state : Input → Option EncoderState
  unfolding partial_sigs_state
  witness_utxo_state i = elim i.witness_utxo [
    | some value ↦ some (
        witness_utxo
          (from_sized_kv e.compact_size (e.compact_size psbt_in_witness_utxo) (e.tx_out value)))
    | none ↦ some (partial_sigs_state i)
  ]

  unfoldable pub non_witness_utxo_state : Input → Option EncoderState
  unfolding witness_utxo_state
  non_witness_utxo_state i = elim i.non_witness_utxo [
    | some value ↦ some (
        non_witness_utxo (
          from_sized_kv e.compact_size (e.compact_size psbt_in_non_witness_utxo)
            (e.transaction value)))
    | none ↦ witness_utxo_state i
  ]

  unfoldable pub min_height_state : Input → Option EncoderState
  unfolding non_witness_utxo_state
  min_height_state i = elim i.min_height [
    | some value ↦ some (
        min_height (
          from_sized_kv e.compact_size (e.compact_size psbt_in_required_height_locktime)
            (e.height value)))
    | none ↦ non_witness_utxo_state i
  ]

  unfoldable pub min_time_state : Input → Option EncoderState
  unfolding min_height_state
  min_time_state i = elim i.min_time [
    | some value ↦ some (
        min_time (
          from_sized_kv e.compact_size (e.compact_size psbt_in_required_time_locktime)
            (e.time value)))
    | none ↦ min_height_state i
  ]

  unfoldable pub sequence_state : Input → Option EncoderState
  unfolding min_time_state
  sequence_state i = elim i.sequence [
    | some value ↦ some (
        sequence
          (from_sized_kv e.compact_size (e.compact_size psbt_in_sequence) (e.sequence value)))
    | none ↦ min_time_state i
  ]

  unfoldable pub output_index_state : Input → EncoderState
  output_index_state i = output_index (
      from_sized_kv e.compact_size (e.compact_size psbt_in_output_index)
        (e.vout i.spent_output_index))

  unfoldable pub previous_txid_state : Input → EncoderState
  previous_txid_state i =
      previous_txid (
        from_sized_kv e.compact_size (e.compact_size psbt_in_previous_txid)
          (e.txid i.previous_txid))

  -- The next state in the order of the fields, if any.
  unfoldable pub next_state : Input → EncoderState → Option EncoderState
  unfolding output_index_state sequence_state min_time_state min_height_state non_witness_utxo_state
      witness_utxo_state partial_sigs_state sighash_type_state redeem_script_state
      witness_script_state bip32_derivations_state final_script_sig_state final_script_witness_state
      ripemd160_state sha256_state hash160_state hash256_state tap_key_sig_state
      tap_script_sigs_state tap_scripts_state tap_key_origins_state tap_internal_key_state
      tap_merkle_root_state ecdh_state dleq_state proprietaries_state unknowns_state
  next_state i (previous_txid chunk) = some (output_index_state i)
  next_state i (output_index chunk) = sequence_state i
  next_state i (sequence chunk) = min_time_state i
  next_state i (min_time chunk) = min_height_state i
  next_state i (min_height chunk) = non_witness_utxo_state i
  next_state i (non_witness_utxo chunk) = witness_utxo_state i
  next_state i (witness_utxo chunk) = some (partial_sigs_state i)
  next_state i (partial_sigs chunk) = sighash_type_state i
  next_state i (sighash_type chunk) = redeem_script_state i
  next_state i (redeem_script chunk) = witness_script_state i
  next_state i (witness_script chunk) = some (bip32_derivations_state i)
  next_state i (bip32_derivations chunk) = final_script_sig_state i
  next_state i (final_script_sig chunk) = final_script_witness_state i
  next_state i (final_script_witness chunk) = some (ripemd160_state i)
  next_state i (ripemd160 chunk) = some (sha256_state i)
  next_state i (sha256 chunk) = some (hash160_state i)
  next_state i (hash160 chunk) = some (hash256_state i)
  next_state i (hash256 chunk) = tap_key_sig_state i
  next_state i (tap_key_sig chunk) = some (tap_script_sigs_state i)
  next_state i (tap_script_sigs chunk) = some (tap_scripts_state i)
  next_state i (tap_scripts chunk) = some (tap_key_origins_state i)
  next_state i (tap_key_origins chunk) = tap_internal_key_state i
  next_state i (tap_internal_key chunk) = tap_merkle_root_state i
  next_state i (tap_merkle_root chunk) = some (ecdh_state i)
  next_state i (ecdh chunk) = some (dleq_state i)
  next_state i (dleq chunk) = some (proprietaries_state i)
  next_state i (proprietaries chunk) = some (unknowns_state i)
  next_state i (unknowns chunk) = some (separator (psbt_separator ∷ []))
  next_state i (separator chunk) = none

  -- The bytes of the map. There are 29 states.
  unfoldable pub encode : Input → List Byte
  unfolding previous_txid_state next_state current_chunk
  encode i = drain (next_state i) current_chunk 29 (previous_txid_state i)

next_state-rank :
    (e : Encoders) (i : Input) (s s' : EncoderState) → next_state e i s ≡ some s' → rank s' < rank s
unfolding next_state rank
next_state-rank e i s s' run = ground arith
