-- ===== src/Output/Encoder.antt =====
-- src/map/output.rs: the encoder of an output map, a machine over the fields in their order.
use rust_psbt.Prelude.{
  ℕ, ◌≡◌, ◌<◌, ◌&&◌, arith, true, false, Option, none, some, List, [], ◌∷◌, is_some, is_empty,
  flat_map,
}
use rust_psbt.Primitives.{Byte}
use rust_psbt.Consts.{
  psbt_separator, psbt_out_amount, psbt_out_script, psbt_out_redeem_script, psbt_out_witness_script,
  psbt_out_bip32_derivation, psbt_out_tap_internal_key, psbt_out_tap_tree,
  psbt_out_tap_bip32_derivation, psbt_out_sp_v0_info, psbt_out_sp_v0_label,
}
use rust_psbt.Codecs.{Encoders}
use rust_psbt.Encoding.{drain}
use rust_psbt.Framing.{from_sized_kv, key_value_iter}
use rust_psbt.Keys.Codec.{proprietary_pair, unknown_pair}
use rust_psbt.Output.{Output}

-- A state holds the bytes of its pair or of its group of pairs.
pub data EncoderState : Type 0 where
  amount : List Byte → EncoderState
  script : List Byte → EncoderState
  redeem_script : List Byte → EncoderState
  witness_script : List Byte → EncoderState
  bip32_derivations : List Byte → EncoderState
  tap_internal_key : List Byte → EncoderState
  tap_tree : List Byte → EncoderState
  tap_key_origins : List Byte → EncoderState
  sp_v0_info : List Byte → EncoderState
  sp_v0_label : List Byte → EncoderState
  proprietaries : List Byte → EncoderState
  unknowns : List Byte → EncoderState
  separator : List Byte → EncoderState

unfoldable pub current_chunk : EncoderState → List Byte
current_chunk (amount chunk) = chunk
current_chunk (script chunk) = chunk
current_chunk (redeem_script chunk) = chunk
current_chunk (witness_script chunk) = chunk
current_chunk (bip32_derivations chunk) = chunk
current_chunk (tap_internal_key chunk) = chunk
current_chunk (tap_tree chunk) = chunk
current_chunk (tap_key_origins chunk) = chunk
current_chunk (sp_v0_info chunk) = chunk
current_chunk (sp_v0_label chunk) = chunk
current_chunk (proprietaries chunk) = chunk
current_chunk (unknowns chunk) = chunk
current_chunk (separator chunk) = chunk

-- The states that are still to come.
unfoldable pub rank : EncoderState → ℕ
rank (amount chunk) = 12
rank (script chunk) = 11
rank (redeem_script chunk) = 10
rank (witness_script chunk) = 9
rank (bip32_derivations chunk) = 8
rank (tap_internal_key chunk) = 7
rank (tap_tree chunk) = 6
rank (tap_key_origins chunk) = 5
rank (sp_v0_info chunk) = 4
rank (sp_v0_label chunk) = 3
rank (proprietaries chunk) = 2
rank (unknowns chunk) = 1
rank (separator chunk) = 0

module _ (e : Encoders) where
  unfoldable pub unknowns_state : Output → EncoderState
  unknowns_state o = unknowns (flat_map (unknown_pair e) o.unknowns)

  unfoldable pub proprietaries_state : Output → EncoderState
  proprietaries_state o = proprietaries (flat_map (proprietary_pair e) o.proprietaries)

  unfoldable pub sp_v0_label_state : Output → Option EncoderState
  unfolding proprietaries_state
  sp_v0_label_state o = elim o.sp_v0_label [
    | some value ↦ some (
        sp_v0_label (
          from_sized_kv e.compact_size (e.compact_size psbt_out_sp_v0_label) (e.sp_v0_label value)))
    | none ↦ some (proprietaries_state o)
  ]

  unfoldable pub sp_v0_info_state : Output → Option EncoderState
  unfolding sp_v0_label_state
  sp_v0_info_state o = elim o.sp_v0_info [
    | some value ↦ some (
        sp_v0_info
          (from_sized_kv e.compact_size (e.compact_size psbt_out_sp_v0_info) (e.sp_v0_info value)))
    | none ↦ sp_v0_label_state o
  ]

  unfoldable pub tap_key_origins_state : Output → EncoderState
  tap_key_origins_state o = tap_key_origins (
      key_value_iter e.compact_size psbt_out_tap_bip32_derivation e.xonly_public_key
        e.tap_key_origin o.tap_key_origins)

  unfoldable pub tap_tree_state : Output → Option EncoderState
  unfolding tap_key_origins_state
  tap_tree_state o = elim o.tap_tree [
    | some value ↦ some (
        tap_tree
          (from_sized_kv e.compact_size (e.compact_size psbt_out_tap_tree) (e.tap_tree value)))
    | none ↦ some (tap_key_origins_state o)
  ]

  unfoldable pub tap_internal_key_state : Output → Option EncoderState
  unfolding tap_tree_state
  tap_internal_key_state o = elim o.tap_internal_key [
    | some value ↦ some (
        tap_internal_key (
          from_sized_kv e.compact_size (e.compact_size psbt_out_tap_internal_key)
            (e.xonly_public_key value)))
    | none ↦ tap_tree_state o
  ]

  unfoldable pub bip32_derivations_state : Output → EncoderState
  bip32_derivations_state o = bip32_derivations (
      key_value_iter e.compact_size psbt_out_bip32_derivation e.public_key e.key_source
        o.bip32_derivations)

  unfoldable pub witness_script_state : Output → Option EncoderState
  unfolding bip32_derivations_state
  witness_script_state o = elim o.witness_script [
    | some value ↦ some (
        witness_script
          (from_sized_kv e.compact_size (e.compact_size psbt_out_witness_script) (e.script value)))
    | none ↦ some (bip32_derivations_state o)
  ]

  unfoldable pub redeem_script_state : Output → Option EncoderState
  unfolding witness_script_state
  redeem_script_state o = elim o.redeem_script [
    | some value ↦ some (
        redeem_script
          (from_sized_kv e.compact_size (e.compact_size psbt_out_redeem_script) (e.script value)))
    | none ↦ witness_script_state o
  ]

  -- An underived silent payment output has no script: the field is left out.
  unfoldable pub script_state : Output → Option EncoderState
  unfolding redeem_script_state
  script_state o = elim (is_some o.sp_v0_info && is_empty o.script_pubkey) [
    | true ↦ redeem_script_state o
    | false ↦ some (
        script (
          from_sized_kv e.compact_size (e.compact_size psbt_out_script) (e.script o.script_pubkey)))
  ]

  unfoldable pub amount_state : Output → EncoderState
  amount_state o =
      amount (from_sized_kv e.compact_size (e.compact_size psbt_out_amount) (e.amount o.amount))

  -- The next state in the order of the fields, if any.
  unfoldable pub next_state : Output → EncoderState → Option EncoderState
  unfolding script_state redeem_script_state witness_script_state bip32_derivations_state
      tap_internal_key_state tap_tree_state tap_key_origins_state sp_v0_info_state sp_v0_label_state
      proprietaries_state unknowns_state
  next_state o (amount chunk) = script_state o
  next_state o (script chunk) = redeem_script_state o
  next_state o (redeem_script chunk) = witness_script_state o
  next_state o (witness_script chunk) = some (bip32_derivations_state o)
  next_state o (bip32_derivations chunk) = tap_internal_key_state o
  next_state o (tap_internal_key chunk) = tap_tree_state o
  next_state o (tap_tree chunk) = some (tap_key_origins_state o)
  next_state o (tap_key_origins chunk) = sp_v0_info_state o
  next_state o (sp_v0_info chunk) = sp_v0_label_state o
  next_state o (sp_v0_label chunk) = some (proprietaries_state o)
  next_state o (proprietaries chunk) = some (unknowns_state o)
  next_state o (unknowns chunk) = some (separator (psbt_separator ∷ []))
  next_state o (separator chunk) = none

  -- The bytes of the map. There are 13 states.
  unfoldable pub encode : Output → List Byte
  unfolding amount_state next_state current_chunk
  encode o = drain (next_state o) current_chunk 13 (amount_state o)

pub next_state-rank :
    (e : Encoders) (o : Output) (s s' : EncoderState)
    → next_state e o s ≡ some s'
    → rank s' < rank s
unfolding next_state rank
next_state-rank e o s s' run = ground arith
