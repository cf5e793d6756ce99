-- ===== src/Codecs.antt =====
-- src/encoding: the decoders and encoders of the single values of the maps, as an interface. The
-- maps reach each value through the traits `PsbtDecode` and `PsbtEncode`; many implementations are
-- upstream's (src/encoding/delegates.rs). An encoder stands for the bytes that it yields.
use rust_psbt.Prelude.{ℕ, List, Option, Outcome}
use rust_psbt.Primitives.{
  Byte, Txid, ScriptBuf, Witness, PublicKey, XOnlyPublicKey, TapLeafHash, KeySource, LockTime,
  TxOut, Transaction, EcdsaSignature, TaprootSignature,
}
use rust_psbt.Sighash.{PsbtSighashType}
use rust_psbt.Flags.{TxModifiableFlags}
use rust_psbt.Output.{SpV0Info}
use rust_psbt.Decoding.{Decoder}

pub record Codecs : Type 1 where
  -- `CompactSizeDecoder`, `CompactSizeU64Decoder`, `ByteVecDecoder` and the pair of the last two.
  pub compact_size : Decoder ℕ
  pub compact_size_u64 : Decoder ℕ
  pub byte_vec : Decoder (List Byte)
  pub prefix_and_subtype : Decoder (List Byte × ℕ)
  -- Values behind a length, each with a decoder of its own for the frame.
  pub script : Decoder ScriptBuf
  pub key_source : Decoder KeySource
  pub tap_tree : Decoder ℕ
  pub tap_key_origin : Decoder (List TapLeafHash × KeySource)
  pub taproot_signature : Decoder TaprootSignature
  pub ecdsa_signature : Decoder EcdsaSignature
  pub leaf_script : Decoder (ScriptBuf × ℕ)
  -- Values that the `ValueDecoder` frames.
  pub amount : Decoder ℕ
  pub xonly_public_key : Decoder XOnlyPublicKey
  pub sp_v0_info : Decoder SpV0Info
  pub sp_v0_label : Decoder ℕ
  pub txid : Decoder Txid
  pub vout : Decoder ℕ
  pub sequence : Decoder ℕ
  pub time : Decoder ℕ
  pub height : Decoder ℕ
  pub transaction : Decoder Transaction
  pub tx_out : Decoder TxOut
  pub sighash_type : Decoder PsbtSighashType
  pub witness : Decoder Witness
  pub tap_node_hash : Decoder ℕ
  pub compressed_public_key : Decoder PublicKey
  pub dleq_proof : Decoder ℕ
  pub u32_bytes : Decoder ℕ
  pub tx_version : Decoder ℕ
  pub lock_time : Decoder LockTime
  pub count : Decoder ℕ
  pub flags : Decoder TxModifiableFlags
  -- Key data that is parsed from a slice.
  pub KeyError : Type 0
  pub HashError : Type 0
  pub XpubError : Type 0
  pub public_key_from_slice : List Byte → Outcome KeyError PublicKey
  pub compressed_from_slice : List Byte → Outcome KeyError PublicKey
  pub xonly_from_slice : List Byte → Outcome KeyError XOnlyPublicKey
  pub ripemd160_from_slice : List Byte → Outcome HashError ℕ
  pub sha256_from_slice : List Byte → Outcome HashError ℕ
  pub hash160_from_slice : List Byte → Outcome HashError ℕ
  pub hash256_from_slice : List Byte → Outcome HashError ℕ
  pub tap_leaf_hash_from_slice : List Byte → Outcome HashError TapLeafHash
  pub control_block_decode : List Byte → Option ℕ
  pub xpub_decode : List Byte → Outcome XpubError ℕ

pub record Encoders : Type 0 where
  pub compact_size : ℕ → List Byte
  pub script : ScriptBuf → List Byte
  pub key_source : KeySource → List Byte
  pub tap_tree : ℕ → List Byte
  pub tap_key_origin : List TapLeafHash × KeySource → List Byte
  pub taproot_signature : TaprootSignature → List Byte
  pub ecdsa_signature : EcdsaSignature → List Byte
  pub leaf_script : ScriptBuf × ℕ → List Byte
  pub amount : ℕ → List Byte
  pub public_key : PublicKey → List Byte
  pub xonly_public_key : XOnlyPublicKey → List Byte
  pub sp_v0_info : SpV0Info → List Byte
  pub sp_v0_label : ℕ → List Byte
  pub txid : Txid → List Byte
  pub vout : ℕ → List Byte
  pub sequence : ℕ → List Byte
  pub time : ℕ → List Byte
  pub height : ℕ → List Byte
  pub transaction : Transaction → List Byte
  pub tx_out : TxOut → List Byte
  pub sighash_type : PsbtSighashType → List Byte
  pub witness : Witness → List Byte
  pub ripemd160 : ℕ → List Byte
  pub sha256 : ℕ → List Byte
  pub hash160 : ℕ → List Byte
  pub hash256 : ℕ → List Byte
  pub xonly_leaf_hash : XOnlyPublicKey × TapLeafHash → List Byte
  pub control_block : ℕ → List Byte
  pub tap_node_hash : ℕ → List Byte
  pub compressed_public_key : PublicKey → List Byte
  pub dleq_proof : ℕ → List Byte
  pub version : ℕ → List Byte
  pub tx_version : ℕ → List Byte
  pub lock_time : LockTime → List Byte
  pub count : ℕ → List Byte
  pub flags : TxModifiableFlags → List Byte
  pub xpub : ℕ → List Byte
