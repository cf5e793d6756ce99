-- ===== src/Framing.antt =====
-- src/map/framing.rs: the frame of a key-value pair, `<keylen> <key> <valuelen> <value>`. The
-- encoding of a compact size and its decoder come from upstream; an encoder stands for the bytes
-- that it yields.
pub mod Laws
use rust_psbt.Prelude.{
  ℕ, ◌+◌, ◌-◌, ◌==◌, not, List, [], ◌∷◌, ◌++◌, length, Outcome, ok, panicked, map_err, fail_if,
  ◌>>=◌, ◌>>◌,
}
use rust_psbt.Primitives.{Byte}
use rust_psbt.Codecs.{Codecs}
use rust_psbt.Decoding.{Decoder, Pushed, ready, needs_more}

-- `KeyValueEncoder::from_sized_kv`.
unfoldable pub from_sized_kv : (ℕ → List Byte) → List Byte → List Byte → List Byte
from_sized_kv compact_size key value =
    compact_size (length key) ++ (key ++ (compact_size (length value) ++ value))

-- The pairs that `KeyValueIter` yields for a map, whose keys have the type `type_value`.
unfoldable pub key_value_iter {ℓ κ} :
    {K : Type ℓ} {V : Type κ}
    → (ℕ → List Byte)
    → ℕ
    → (K → List Byte)
    → (V → List Byte)
    → List (K × V)
    → List Byte
unfolding from_sized_kv
key_value_iter compact_size type_value key value [] = []
key_value_iter compact_size type_value key value ((k, v) ∷ entries) =
    from_sized_kv compact_size (compact_size type_value ++ key k) (value v)
    ++ key_value_iter compact_size type_value key value entries

-- `BytesKeyValueIter`: the value is its own encoding.
unfoldable pub bytes_key_value_iter {ℓ} :
    {K : Type ℓ} → (ℕ → List Byte) → ℕ → (K → List Byte) → List (K × List Byte) → List Byte
unfolding key_value_iter
bytes_key_value_iter compact_size type_value key entries =
    key_value_iter compact_size type_value key (λ bytes. bytes) entries

pub data ValueDecoderError (P E : Type 0) : Type 0 where
  length_prefix : P → ValueDecoderError P E
  wrong_length : ℕ → ℕ → ValueDecoderError P E
  inner : E → ValueDecoderError P E

pub data ValueDecoderState (P : Type 0) : Type 0 where
  reading_prefix : P → ValueDecoderState P
  reading_value : ℕ → ValueDecoderState P
  errored : ValueDecoderState P

pub record ValueDecoder (P I : Type 0) : Type 0 where
  pub inner : I
  pub state : ValueDecoderState P
  pub consumed : ℕ

module _ (compact_size : Decoder ℕ) {A : Type 0} (value : Decoder A) where
  abbrev pub ValueError : Type 0
  ValueError = ValueDecoderError compact_size.Error value.Error

  abbrev pub ValueState : Type 0
  ValueState = ValueDecoder compact_size.State value.State

  unfoldable pub value_default : ValueState
  value_default = record {
    inner = value.default;
    state = reading_prefix compact_size.default;
    consumed = 0;
  }

  -- `if matches!(self.state, ReadingPrefix(_)) { .. }`: a prefix that is complete is read.
  unfoldable pub push_prefix :
      ValueDecoderState compact_size.State
      → List Byte
      → Outcome ValueError (Pushed (ValueDecoderState compact_size.State))
  push_prefix (reading_prefix prefix) bytes = do
    p ← map_err ValueDecoderError.length_prefix (compact_size.push_bytes prefix bytes)
    elim p.status [
      | needs_more ↦
          ok (record { decoder = reading_prefix p.decoder; rest = p.rest; status = needs_more })
      | ready ↦ do
        declared ← map_err ValueDecoderError.length_prefix (compact_size.end p.decoder)
        ok (record { decoder = reading_value declared; rest = p.rest; status = ready })
    ]
  push_prefix (reading_value declared) bytes =
      ok (record { decoder = reading_value declared; rest = bytes; status = ready })
  push_prefix errored bytes = ok (record { decoder = errored; rest = bytes; status = ready })

  -- The bytes of the value, which are counted.
  unfoldable pub push_value : ValueState → List Byte → Outcome ValueError (Pushed ValueState)
  push_value d bytes = do
    p ← map_err ValueDecoderError.inner (value.push_bytes d.inner bytes)
    ok (record {
      decoder = record d {
        inner = p.decoder;
        consumed = d.consumed + (length bytes - length p.rest);
      };
      rest = p.rest;
      status = p.status;
    })

  -- What follows the prefix: the value, once the prefix is read.
  unfoldable pub after_prefix :
      ValueState
      → Pushed (ValueDecoderState compact_size.State)
      → Outcome ValueError (Pushed ValueState)
  unfolding push_value
  after_prefix d p = elim p.status [
    | needs_more ↦
        ok (record { decoder = record d { state = p.decoder }; rest = p.rest; status = needs_more })
    | ready ↦ push_value (record d { state = p.decoder }) p.rest
  ]

  unfoldable pub value_push_bytes : ValueState → List Byte → Outcome ValueError (Pushed ValueState)
  unfolding push_prefix after_prefix
  value_push_bytes d bytes = do p ← push_prefix d.state bytes; after_prefix d p

  -- The length that the prefix declared. A prefix that ends well in this state is unreachable.
  unfoldable pub declared_length : ValueDecoderState compact_size.State → Outcome ValueError ℕ
  declared_length (reading_value declared) = ok declared
  declared_length (reading_prefix prefix) =
      map_err ValueDecoderError.length_prefix (compact_size.end prefix) >>= λ _. panicked
  declared_length errored = panicked

  unfoldable pub value_end : ValueState → Outcome ValueError A
  unfolding declared_length
  value_end d = do
    declared ← declared_length d.state
    out ← map_err ValueDecoderError.inner (value.end d.inner)
    fail_if (not (d.consumed == declared)) (wrong_length declared d.consumed)
    ok out

  unfoldable pub value_read_limit : ValueState → ℕ
  value_read_limit d = elim d.state [
    | reading_prefix prefix ↦ compact_size.read_limit prefix + value.read_limit d.inner
    | reading_value declared ↦ value.read_limit d.inner
    | errored ↦ 0
  ]

  -- `impl Decoder for ValueDecoder<T>`.
  abbrev pub value_decoder : Decoder A
  value_decoder = record {
    State = ValueState;
    Error = ValueError;
    default = value_default;
    push_bytes = value_push_bytes;
    end = value_end;
    read_limit = value_read_limit;
  }

-- `ValueDecoder<T>` over the crate's decoder of compact sizes.
abbrev pub framed : Codecs → {A : Type 0} → Decoder A → Decoder A
framed c value = value_decoder c.compact_size value
