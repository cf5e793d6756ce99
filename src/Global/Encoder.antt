-- ===== src/Global/Encoder.antt =====
-- src/map/global.rs: the encoder of the global map, a machine over the fields in their order.
use rust_psbt.Prelude.{ℕ, ◌≡◌, ◌<◌, arith, Option, none, some, List, [], ◌∷◌, flat_map}
use rust_psbt.Primitives.{Byte}
use rust_psbt.Consts.{
  psbt_separator, psbt_global_version, psbt_global_tx_version, psbt_global_fallback_locktime,
  psbt_global_input_count, psbt_global_output_count, psbt_global_tx_modifiable, psbt_global_xpub,
  psbt_global_sp_ecdh_share, psbt_global_sp_dleq,
}
use rust_psbt.Codecs.{Encoders}
use rust_psbt.Encoding.{drain}
use rust_psbt.Framing.{from_sized_kv, key_value_iter}
use rust_psbt.Keys.Codec.{proprietary_pair, unknown_pair}
use rust_psbt.Global.{Global}

-- A state holds the bytes of its pair or of its group of pairs.
pub data EncoderState : Type 0 where
  version : List Byte → EncoderState
  tx_version : List Byte → EncoderState
  fallback_lock_time : List Byte → EncoderState
  input_count : List Byte → EncoderState
  output_count : List Byte → EncoderState
  flags : List Byte → EncoderState
  xpubs : List Byte → EncoderState
  ecdh : List Byte → EncoderState
  dleq : List Byte → EncoderState
  proprietaries : List Byte → EncoderState
  unknowns : List Byte → EncoderState
  separator : List Byte → EncoderState

unfoldable pub current_chunk : EncoderState → List Byte
current_chunk (version chunk) = chunk
current_chunk (tx_version chunk) = chunk
current_chunk (fallback_lock_time chunk) = chunk
current_chunk (input_count chunk) = chunk
current_chunk (output_count chunk) = chunk
current_chunk (flags chunk) = chunk
current_chunk (xpubs chunk) = chunk
current_chunk (ecdh chunk) = chunk
current_chunk (dleq chunk) = chunk
current_chunk (proprietaries chunk) = chunk
current_chunk (unknowns chunk) = chunk
current_chunk (separator chunk) = chunk

-- The states that are still to come.
pub rank : EncoderState → ℕ
rank (version chunk) = 11
rank (tx_version chunk) = 10
rank (fallback_lock_time chunk) = 9
rank (input_count chunk) = 8
rank (output_count chunk) = 7
rank (flags chunk) = 6
rank (xpubs chunk) = 5
rank (ecdh chunk) = 4
rank (dleq chunk) = 3
rank (proprietaries chunk) = 2
rank (unknowns chunk) = 1
rank (separator chunk) = 0

module _ (e : Encoders) where
  unfoldable pub unknowns_state : Global → EncoderState
  unknowns_state g = unknowns (flat_map (unknown_pair e) g.unknowns)

  unfoldable pub proprietaries_state : Global → EncoderState
  proprietaries_state g = proprietaries (flat_map (proprietary_pair e) g.proprietaries)

  unfoldable pub dleq_state : Global → EncoderState
  dleq_state g = dleq (
      key_value_iter e.compact_size psbt_global_sp_dleq e.compressed_public_key e.dleq_proof
        g.sp_dleq_proofs)

  unfoldable pub ecdh_state : Global → EncoderState
  ecdh_state g = ecdh (
      key_value_iter e.compact_size psbt_global_sp_ecdh_share e.compressed_public_key
        e.compressed_public_key g.sp_ecdh_shares)

  unfoldable pub xpubs_state : Global → EncoderState
  xpubs_state g = xpubs (key_value_iter e.compact_size psbt_global_xpub e.xpub e.key_source g.xpubs)

  unfoldable pub flags_state : Global → EncoderState
  flags_state g = flags (
      from_sized_kv e.compact_size (e.compact_size psbt_global_tx_modifiable)
        (e.flags g.tx_modifiable_flags))

  unfoldable pub output_count_state : Global → EncoderState
  output_count_state g = output_count (
      from_sized_kv e.compact_size (e.compact_size psbt_global_output_count)
        (e.count g.output_count))

  unfoldable pub input_count_state : Global → EncoderState
  input_count_state g = input_count (
      from_sized_kv e.compact_size (e.compact_size psbt_global_input_count) (e.count g.input_count))

  unfoldable pub fallback_lock_time_state : Global → Option EncoderState
  unfolding input_count_state
  fallback_lock_time_state g = elim g.fallback_lock_time [
    | some value ↦ some (
        fallback_lock_time (
          from_sized_kv e.compact_size (e.compact_size psbt_global_fallback_locktime)
            (e.lock_time value)))
    | none ↦ some (input_count_state g)
  ]

  unfoldable pub tx_version_state : Global → EncoderState
  tx_version_state g = tx_version (
      from_sized_kv e.compact_size (e.compact_size psbt_global_tx_version)
        (e.tx_version g.tx_version))

  unfoldable pub version_state : Global → EncoderState
  version_state g =
      version
        (from_sized_kv e.compact_size (e.compact_size psbt_global_version) (e.version g.version))

  -- The next state in the order of the fields, if any.
  unfoldable pub next_state : Global → EncoderState → Option EncoderState
  unfolding tx_version_state fallback_lock_time_state input_count_state output_count_state
      flags_state xpubs_state ecdh_state dleq_state proprietaries_state unknowns_state
  next_state g (version chunk) = some (tx_version_state g)
  next_state g (tx_version chunk) = fallback_lock_time_state g
  next_state g (fallback_lock_time chunk) = some (input_count_state g)
  next_state g (input_count chunk) = some (output_count_state g)
  next_state g (output_count chunk) = some (flags_state g)
  next_state g (flags chunk) = some (xpubs_state g)
  next_state g (xpubs chunk) = some (ecdh_state g)
  next_state g (ecdh chunk) = some (dleq_state g)
  next_state g (dleq chunk) = some (proprietaries_state g)
  next_state g (proprietaries chunk) = some (unknowns_state g)
  next_state g (unknowns chunk) = some (separator (psbt_separator ∷ []))
  next_state g (separator chunk) = none

  -- The bytes of the map. There are 12 states.
  unfoldable pub encode : Global → List Byte
  unfolding version_state next_state current_chunk
  encode g = drain (next_state g) current_chunk 12 (version_state g)

next_state-rank :
    (e : Encoders) (g : Global) (s s' : EncoderState)
    → next_state e g s ≡ some s'
    → rank s' < rank s
unfolding next_state rank
next_state-rank e g s s' run = ground arith
