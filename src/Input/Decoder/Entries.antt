-- ===== src/Input/Decoder/Entries.antt =====
-- src/map/input.rs: the transitions that enter a pair in a map of the input, by the key data.
use rust_psbt.Prelude.{
  ◌==◌, not, List, length, is_empty, take, drop, Outcome, ok, map_err, ok_or, fail_if, ◌>>=◌, ◌>>◌,
}
use rust_psbt.Ordered.{nat_ord, pair_ord}
use rust_psbt.Primitives.{Byte}
use rust_psbt.Decoding.{Round, continue}
use rust_psbt.Decoding.Fields.{insert_vacant}
use rust_psbt.Codecs.{Codecs}
use rust_psbt.Framing.{framed}
use rust_psbt.Keys.{Key, key_ord, proprietary_ord}
use rust_psbt.Keys.Codec.{try_from, invalid_key_data, invalid_proprietary_key}
use rust_psbt.Input.Decoder.Stage.{
  InputDecodeError, duplicate_key, invalid_hash, invalid_public_key, invalid_control_block,
  decoding_separator,
}
use rust_psbt.Input.Decoder.State.{InputDecoder}

module _ (c : Codecs) where
  unfoldable pub finish_partial_sig :
      Key
      → c.ecdsa_signature.State
      → InputDecoder c
      → List Byte
      → Outcome (InputDecodeError c) (Round (InputDecoder c))
  finish_partial_sig key decoder d rest = do
    value ← map_err InputDecodeError.partial_sig (c.ecdsa_signature.end decoder)
    k ← map_err invalid_public_key (c.public_key_from_slice key.key)
    partial_sigs' ← insert_vacant k value d.partial_sigs (duplicate_key key)
    ok (continue (record d { partial_sigs = partial_sigs'; stage = decoding_separator }) rest)

  unfoldable pub finish_bip32_derivation :
      Key
      → c.key_source.State
      → InputDecoder c
      → List Byte
      → Outcome (InputDecodeError c) (Round (InputDecoder c))
  finish_bip32_derivation key decoder d rest = do
    value ← map_err InputDecodeError.bip32_derivation (c.key_source.end decoder)
    k ← map_err invalid_public_key (c.public_key_from_slice key.key)
    bip32_derivations' ← insert_vacant k value d.bip32_derivations (duplicate_key key)
    ok (
        continue (record d { bip32_derivations = bip32_derivations'; stage = decoding_separator })
          rest)

  unfoldable pub finish_ripemd160 :
      Key
      → c.byte_vec.State
      → InputDecoder c
      → List Byte
      → Outcome (InputDecodeError c) (Round (InputDecoder c))
  finish_ripemd160 key decoder d rest = do
    value ← map_err InputDecodeError.ripemd160_preimage (c.byte_vec.end decoder)
    k ← map_err invalid_hash (c.ripemd160_from_slice key.key)
    ripemd160_preimages' ← insert_vacant k value d.ripemd160_preimages (duplicate_key key)
    ok (
        continue
          (record d { ripemd160_preimages = ripemd160_preimages'; stage = decoding_separator })
          rest)

  unfoldable pub finish_sha256 :
      Key
      → c.byte_vec.State
      → InputDecoder c
      → List Byte
      → Outcome (InputDecodeError c) (Round (InputDecoder c))
  finish_sha256 key decoder d rest = do
    value ← map_err InputDecodeError.sha256_preimage (c.byte_vec.end decoder)
    k ← map_err invalid_hash (c.sha256_from_slice key.key)
    sha256_preimages' ← insert_vacant k value d.sha256_preimages (duplicate_key key)
    ok (
        continue (record d { sha256_preimages = sha256_preimages'; stage = decoding_separator })
          rest)

  unfoldable pub finish_hash160 :
      Key
      → c.byte_vec.State
      → InputDecoder c
      → List Byte
      → Outcome (InputDecodeError c) (Round (InputDecoder c))
  finish_hash160 key decoder d rest = do
    value ← map_err InputDecodeError.hash160_preimage (c.byte_vec.end decoder)
    k ← map_err invalid_hash (c.hash160_from_slice key.key)
    hash160_preimages' ← insert_vacant k value d.hash160_preimages (duplicate_key key)
    ok (
        continue (record d { hash160_preimages = hash160_preimages'; stage = decoding_separator })
          rest)

  unfoldable pub finish_hash256 :
      Key
      → c.byte_vec.State
      → InputDecoder c
      → List Byte
      → Outcome (InputDecodeError c) (Round (InputDecoder c))
  finish_hash256 key decoder d rest = do
    value ← map_err InputDecodeError.hash256_preimage (c.byte_vec.end decoder)
    k ← map_err invalid_hash (c.hash256_from_slice key.key)
    hash256_preimages' ← insert_vacant k value d.hash256_preimages (duplicate_key key)
    ok (
        continue (record d { hash256_preimages = hash256_preimages'; stage = decoding_separator })
          rest)

  unfoldable pub finish_tap_script_sig :
      Key
      → c.taproot_signature.State
      → InputDecoder c
      → List Byte
      → Outcome (InputDecodeError c) (Round (InputDecoder c))
  finish_tap_script_sig key decoder d rest = do
    value ← map_err InputDecodeError.tap_script_sig (c.taproot_signature.end decoder)
    fail_if (not (length key.key == 64)) (InputDecodeError.key_decode (invalid_key_data key))
    xonly ←
        map_err (λ e. InputDecodeError.key_decode (invalid_key_data key))
          (c.xonly_from_slice (take 32 key.key))
    leaf_hash ←
        map_err (λ e. InputDecodeError.key_decode (invalid_key_data key))
          (c.tap_leaf_hash_from_slice (drop 32 key.key))
    tap_script_sigs' ← insert_vacant (xonly, leaf_hash) value d.tap_script_sigs (duplicate_key key)
    ok (continue (record d { tap_script_sigs = tap_script_sigs'; stage = decoding_separator }) rest)

  unfoldable pub finish_leaf_script :
      Key
      → c.leaf_script.State
      → InputDecoder c
      → List Byte
      → Outcome (InputDecodeError c) (Round (InputDecoder c))
  finish_leaf_script key decoder d rest = do
    value ← map_err InputDecodeError.leaf_script (c.leaf_script.end decoder)
    k ← ok_or (c.control_block_decode key.key) invalid_control_block
    tap_scripts' ← insert_vacant k value d.tap_scripts (duplicate_key key)
    ok (continue (record d { tap_scripts = tap_scripts'; stage = decoding_separator }) rest)

  unfoldable pub finish_tap_bip32_derivation :
      Key
      → c.tap_key_origin.State
      → InputDecoder c
      → List Byte
      → Outcome (InputDecodeError c) (Round (InputDecoder c))
  finish_tap_bip32_derivation key decoder d rest = do
    value ← map_err InputDecodeError.tap_bip32_derivation (c.tap_key_origin.end decoder)
    k ←
        map_err (λ e. InputDecodeError.key_decode (invalid_key_data key))
          (c.xonly_from_slice key.key)
    tap_key_origins' ← insert_vacant k value d.tap_key_origins (duplicate_key key)
    ok (continue (record d { tap_key_origins = tap_key_origins'; stage = decoding_separator }) rest)

  unfoldable pub finish_proprietary :
      Key
      → c.byte_vec.State
      → InputDecoder c
      → List Byte
      → Outcome (InputDecodeError c) (Round (InputDecoder c))
  finish_proprietary key decoder d rest = do
    value ← map_err InputDecodeError.proprietary_value (c.byte_vec.end decoder)
    k ← map_err (λ e. InputDecodeError.key_decode invalid_proprietary_key) (try_from c key)
    proprietaries' ← insert_vacant k value d.proprietaries (duplicate_key key)
    ok (continue (record d { proprietaries = proprietaries'; stage = decoding_separator }) rest)

  unfoldable pub finish_unknown :
      Key
      → c.byte_vec.State
      → InputDecoder c
      → List Byte
      → Outcome (InputDecodeError c) (Round (InputDecoder c))
  finish_unknown key decoder d rest = do
    value ← map_err InputDecodeError.unknown_value (c.byte_vec.end decoder)
    unknowns' ← insert_vacant key value d.unknowns (duplicate_key key)
    ok (continue (record d { unknowns = unknowns'; stage = decoding_separator }) rest)

  unfoldable pub finish_sp_ecdh_share :
      Key
      → (framed c c.compressed_public_key).State
      → InputDecoder c
      → List Byte
      → Outcome (InputDecodeError c) (Round (InputDecoder c))
  finish_sp_ecdh_share key decoder d rest = do
    value ← map_err InputDecodeError.sp_ecdh ((framed c c.compressed_public_key).end decoder)
    fail_if (is_empty key.key) (InputDecodeError.key_decode (invalid_key_data key))
    k ←
        map_err (λ e. InputDecodeError.key_decode (invalid_key_data key))
          (c.compressed_from_slice key.key)
    sp_ecdh_shares' ← insert_vacant k value d.sp_ecdh_shares (duplicate_key key)
    ok (continue (record d { sp_ecdh_shares = sp_ecdh_shares'; stage = decoding_separator }) rest)

  unfoldable pub finish_sp_dleq_proof :
      Key
      → (framed c c.dleq_proof).State
      → InputDecoder c
      → List Byte
      → Outcome (InputDecodeError c) (Round (InputDecoder c))
  finish_sp_dleq_proof key decoder d rest = do
    value ← map_err InputDecodeError.sp_dleq ((framed c c.dleq_proof).end decoder)
    fail_if (is_empty key.key) (InputDecodeError.key_decode (invalid_key_data key))
    k ←
        map_err (λ e. InputDecodeError.key_decode (invalid_key_data key))
          (c.compressed_from_slice key.key)
    sp_dleq_proofs' ← insert_vacant k value d.sp_dleq_proofs (duplicate_key key)
    ok (continue (record d { sp_dleq_proofs = sp_dleq_proofs'; stage = decoding_separator }) rest)
