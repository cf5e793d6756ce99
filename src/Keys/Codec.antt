-- ===== src/Keys/Codec.antt =====
-- src/map/mod.rs: the codecs of the raw key of a pair and of a proprietary key, and the iterators
-- that frame the proprietary and the unknown pairs of a map.
use rust_psbt.Prelude.{
  ℕ, ◌+◌, ◌==◌, not, List, [], ◌∷◌, ◌++◌, length, Outcome, ok, err, map_err, fail_if, ◌>>=◌, ◌>>◌,
}
use rust_psbt.Primitives.{Byte}
use rust_psbt.Consts.{psbt_global_proprietary}
use rust_psbt.Decoding.{Decoder, Pushed, is_needs_more}
use rust_psbt.Codecs.{Codecs, Encoders}
use rust_psbt.Framing.{from_sized_kv}
use rust_psbt.Keys.{Key, ProprietaryKey}

pub data InvalidProprietaryKeyError : Type 0 where
  invalid : InvalidProprietaryKeyError

module _ (c : Codecs) where
  pub data KeyDecodeError : Type 0 where
    bytes : c.byte_vec.Error → KeyDecodeError
    empty : KeyDecodeError
    type_value : c.compact_size_u64.Error → KeyDecodeError
    invalid_key_data : Key → KeyDecodeError
    excluded_key : ℕ → KeyDecodeError
    invalid_proprietary_key : KeyDecodeError

  unfoldable pub key_push_bytes :
      c.byte_vec.State → List Byte → Outcome KeyDecodeError (Pushed c.byte_vec.State)
  key_push_bytes inner data' = map_err KeyDecodeError.bytes (c.byte_vec.push_bytes inner data')

  -- The body of a key: its type, whatever the decoder's status, and the key data.
  unfoldable pub parse_body : List Byte → Outcome KeyDecodeError Key
  parse_body [] = err empty
  parse_body (b ∷ body) = do
    p ←
        map_err KeyDecodeError.type_value
          (c.compact_size_u64.push_bytes c.compact_size_u64.default (b ∷ body))
    keytype ← map_err KeyDecodeError.type_value (c.compact_size_u64.end p.decoder)
    ok (record { type_value = keytype; key = p.rest })

  unfoldable pub key_end : c.byte_vec.State → Outcome KeyDecodeError Key
  unfolding parse_body
  key_end inner = do body ← map_err KeyDecodeError.bytes (c.byte_vec.end inner); parse_body body

  unfoldable pub key_read_limit : c.byte_vec.State → ℕ
  key_read_limit inner = c.byte_vec.read_limit inner

  -- `impl Decoder for KeyDecoder`.
  abbrev pub key_decoder : Decoder Key
  key_decoder = record {
    State = c.byte_vec.State;
    Error = KeyDecodeError;
    default = c.byte_vec.default;
    push_bytes = key_push_bytes;
    end = key_end;
    read_limit = key_read_limit;
  }

  -- `ProprietaryKey::try_from`.
  unfoldable pub try_from : Key → Outcome InvalidProprietaryKeyError ProprietaryKey
  try_from k = do
    fail_if (not (k.type_value == 0xFC)) invalid
    p ← map_err (λ e. invalid) (c.prefix_and_subtype.push_bytes c.prefix_and_subtype.default k.key)
    fail_if (is_needs_more p.status) invalid
    pair ← map_err (λ e. invalid) (c.prefix_and_subtype.end p.decoder)
    ok (record { prefix = pair.0; subtype = pair.1; key = p.rest })

module _ (e : Encoders) where
  -- `KeyEncoder::from_key`.
  unfoldable pub from_key : Key → List Byte
  from_key k =
      e.compact_size (length (e.compact_size k.type_value) + length k.key)
      ++ (e.compact_size k.type_value ++ k.key)

  -- `ProprietaryKeyEncoder`.
  unfoldable pub encode_proprietary : ProprietaryKey → List Byte
  encode_proprietary k =
      (e.compact_size (length k.prefix) ++ k.prefix) ++ (e.compact_size k.subtype ++ k.key)

  unfoldable pub to_key : ProprietaryKey → Key
  unfolding encode_proprietary
  to_key k = record { type_value = 0xFC; key = encode_proprietary k }

  -- `ProprietaryKeyValueIter::next` and `UnknownKeyValueIter::next`: the frame of one pair.
  unfoldable pub proprietary_pair : ProprietaryKey × List Byte → List Byte
  unfolding encode_proprietary from_sized_kv
  proprietary_pair (k, value) =
      from_sized_kv e.compact_size (e.compact_size psbt_global_proprietary ++ encode_proprietary k)
        value

  unfoldable pub unknown_pair : Key × List Byte → List Byte
  unfolding from_sized_kv
  unknown_pair (k, value) =
      from_sized_kv e.compact_size (e.compact_size k.type_value ++ k.key) value
