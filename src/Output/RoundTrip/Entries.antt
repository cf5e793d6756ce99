-- ===== src/Output/RoundTrip/Entries.antt =====
-- The maps of an output map, read back pair after pair in the order of their keys.
use rust_psbt.Prelude.{ℕ, length, ap, ◌≡◌, refl, List, [], ◌∷◌, ◌++◌, All, ok, flat_map}
use mathlib.Core.List.{append_assoc, append-nil}
use rust_psbt.Primitives.{Byte, PublicKey, XOnlyPublicKey, TapLeafHash, KeySource}
use rust_psbt.Ordered.{Ord, nat_ord}
use rust_psbt.BTreeMap.{BTreeMap, IsSorted}
use rust_psbt.Consts.{
  psbt_out_bip32_derivation, psbt_out_tap_bip32_derivation, psbt_global_proprietary,
}
use rust_psbt.Codecs.{Codecs, Encoders}
use rust_psbt.Decoding.Contracts.{Reads}
use rust_psbt.Decoding.Fields.{insert_vacant_last}
use rust_psbt.Decoding.Runs.{Runs, Runs-refl, Runs-trans, prefixed, ReadsKey}
use rust_psbt.Framing.{from_sized_kv, key_value_iter}
use rust_psbt.Keys.{Key, ProprietaryKey, key_ord, proprietary_ord}
use rust_psbt.Keys.Codec.{try_from, to_key, encode_proprietary, proprietary_pair, unknown_pair}
use rust_psbt.Output.Decoder.Stage.{
  OutputDecodeError, decoding_separator, decoding_bip32_derivation, decoding_tap_bip32_derivation,
  decoding_proprietary, decoding_unknown, from_key, push_stage,
}
use rust_psbt.Output.Decoder.{OutputDecoder, separator_round, finish, round}
use rust_psbt.Output.RoundTrip.Pairs.{read_pair}

module _ (c : Codecs) (e : Encoders) where
  module _ {K V : Type 0} ⦃o : Ord K⦄ (put : BTreeMap K V → OutputDecoder c)
      (pair : K × V → List Byte) where
    -- The decoder reads the pair of an entry whose key is above those that it has.
    abbrev pub ReadsEntry : K × V → Type 0
    ReadsEntry (k, v) =
        (before m : BTreeMap K V) (rest : List Byte)
        → IsSorted (before ++ ((k, v) ∷ m))
        → Runs (round c) (put before) (pair (k, v) ++ rest) (put (before ++ ((k, v) ∷ []))) rest

    pub read_entries :
        (before m : BTreeMap K V) (rest : List Byte)
        → IsSorted (before ++ m)
        → All ReadsEntry m
        → Runs (round c) (put before) (flat_map pair m ++ rest) (put (before ++ m)) rest
    read_entries before [] rest sorted h =
        rw (append-nil before) (Runs-refl (round c) (put before) rest)
    read_entries before ((k, v) ∷ m) rest sorted h =
        let sorted' : IsSorted ((before ++ ((k, v) ∷ [])) ++ m) =
          rw (append_assoc before ((k, v) ∷ []) m) sorted in
        let later = read_entries (before ++ ((k, v) ∷ [])) m rest sorted' h.1 in
        let later' : Runs (round c) (put (before ++ ((k, v) ∷ []))) (flat_map pair m ++ rest)
            (put (before ++ ((k, v) ∷ m))) rest =
          rw (append_assoc before ((k, v) ∷ []) m) at later in
        rw (append_assoc (pair (k, v)) (flat_map pair m) rest) (
          Runs-trans (round c) (put before) _ (put (before ++ ((k, v) ∷ []))) _
            (put (before ++ ((k, v) ∷ m))) rest (h.0 before m (flat_map pair m ++ rest) sorted)
            later')

  key_value_iter-flat_map :
      {K V : Type 0} (t : ℕ) (key : K → List Byte) (value : V → List Byte) (m : List (K × V))
      → key_value_iter e.compact_size t key value m
        ≡ flat_map (λ x. from_sized_kv e.compact_size (e.compact_size t ++ key x.0) (value x.1)) m
  unfolding key_value_iter
  key_value_iter-flat_map t key value [] = refl
  key_value_iter-flat_map t key value ((k, v) ∷ m) =
      ap (λ bytes. from_sized_kv e.compact_size (e.compact_size t ++ key k) (value v) ++ bytes)
        (key_value_iter-flat_map t key value m)

  -- An entry of a map with values of their own, read back by upstream's decoders.
  pub record IsReadBip32 (x : PublicKey × KeySource) : Type 0 where
    pub key :
        ReadsKey c e
          (record { type_value = psbt_out_bip32_derivation; key = e.public_key x.0 })
          (e.compact_size psbt_out_bip32_derivation ++ e.public_key x.0)
    pub value : Reads c.key_source x.1 (prefixed e (e.key_source x.1))
    pub parsed : c.public_key_from_slice (e.public_key x.0) ≡ ok x.0

  abbrev pub put_bip32 : OutputDecoder c → BTreeMap PublicKey KeySource → OutputDecoder c
  put_bip32 d m = record d { bip32_derivations = m; stage = decoding_separator }

  abbrev pub bip32_pair : PublicKey × KeySource → List Byte
  bip32_pair x =
      from_sized_kv e.compact_size (e.compact_size psbt_out_bip32_derivation ++ e.public_key x.0)
        (e.key_source x.1)

  read_bip32 :
      (d : OutputDecoder c) (x : PublicKey × KeySource)
      → IsReadBip32 x
      → ReadsEntry (put_bip32 d) bip32_pair x
  unfolding from_key push_stage separator_round finish
  read_bip32 d (k, v) h before m rest sorted =
      read_pair c e c.key_source (decoding_bip32_derivation _) OutputDecodeError.bip32_derivation _
        v _ _ h.key h.value refl (λ s bytes. refl) (λ s d bytes. refl)
        (record d { bip32_derivations = before }) (put_bip32 d (before ++ ((k, v) ∷ []))) rest
        (λ s ended. rw (ended, h.parsed, insert_vacant_last before k v m _ sorted) refl)

  pub record IsReadTapKeyOrigin (x : XOnlyPublicKey × (List TapLeafHash × KeySource)) : Type 0 where
    pub key :
        ReadsKey c e
          (record { type_value = psbt_out_tap_bip32_derivation; key = e.xonly_public_key x.0 })
          (e.compact_size psbt_out_tap_bip32_derivation ++ e.xonly_public_key x.0)
    pub value : Reads c.tap_key_origin x.1 (prefixed e (e.tap_key_origin x.1))
    pub parsed : c.xonly_from_slice (e.xonly_public_key x.0) ≡ ok x.0

  abbrev pub put_tap_key_origins :
      OutputDecoder c → BTreeMap XOnlyPublicKey (List TapLeafHash × KeySource) → OutputDecoder c
  put_tap_key_origins d m = record d { tap_key_origins = m; stage = decoding_separator }

  abbrev pub tap_key_origin_pair : XOnlyPublicKey × (List TapLeafHash × KeySource) → List Byte
  tap_key_origin_pair x =
      from_sized_kv e.compact_size
        (e.compact_size psbt_out_tap_bip32_derivation ++ e.xonly_public_key x.0)
        (e.tap_key_origin x.1)

  read_tap_key_origin :
      (d : OutputDecoder c) (x : XOnlyPublicKey × (List TapLeafHash × KeySource))
      → IsReadTapKeyOrigin x
      → ReadsEntry (put_tap_key_origins d) tap_key_origin_pair x
  unfolding from_key push_stage separator_round finish
  read_tap_key_origin d (k, v) h before m rest sorted =
      read_pair c e c.tap_key_origin (decoding_tap_bip32_derivation _)
        OutputDecodeError.tap_bip32_derivation _ v _ _ h.key h.value refl (λ s bytes. refl)
        (λ s d bytes. refl) (record d { tap_key_origins = before })
        (put_tap_key_origins d (before ++ ((k, v) ∷ []))) rest
        (λ s ended. rw (ended, h.parsed, insert_vacant_last before k v m _ sorted) refl)

  pub record IsReadProprietary (x : ProprietaryKey × List Byte) : Type 0 where
    pub key :
        ReadsKey c e
          (to_key e x.0)
          (e.compact_size psbt_global_proprietary ++ encode_proprietary e x.0)
    pub value : Reads c.byte_vec x.1 (prefixed e x.1)
    pub prefix :
        Reads c.prefix_and_subtype
          (x.0.prefix, x.0.subtype)
          ((e.compact_size (length x.0.prefix) ++ x.0.prefix) ++ e.compact_size x.0.subtype)

  -- A proprietary key is read back from the raw key that it is written as.
  try_from-to_key :
      (k : ProprietaryKey)
      → Reads c.prefix_and_subtype
          (k.prefix, k.subtype)
          ((e.compact_size (length k.prefix) ++ k.prefix) ++ e.compact_size k.subtype)
      → try_from c (to_key e k) ≡ ok k
  unfolding try_from to_key encode_proprietary
  try_from-to_key k reads =
      let (s, pushed, ended) = reads k.key in
      let assoc =
        append_assoc (e.compact_size (length k.prefix) ++ k.prefix) (e.compact_size k.subtype)
          k.key in
      rw (← assoc, pushed, ended) refl

  abbrev pub put_proprietaries :
      OutputDecoder c → BTreeMap ProprietaryKey (List Byte) → OutputDecoder c
  put_proprietaries d m = record d { proprietaries = m; stage = decoding_separator }

  read_proprietary :
      (d : OutputDecoder c) (x : ProprietaryKey × List Byte)
      → IsReadProprietary x
      → ReadsEntry (put_proprietaries d) (proprietary_pair e) x
  unfolding from_key push_stage separator_round finish proprietary_pair to_key
  read_proprietary d (k, v) h before m rest sorted =
      read_pair c e c.byte_vec (decoding_proprietary _) OutputDecodeError.proprietary_value _ v _ _
        h.key h.value refl (λ s bytes. refl) (λ s d bytes. refl)
        (record d { proprietaries = before }) (put_proprietaries d (before ++ ((k, v) ∷ []))) rest
        (λ s ended.
          rw (ended, try_from-to_key k h.prefix, insert_vacant_last before k v m _ sorted) refl)

  -- An unknown pair has none of the types that a field has.
  pub record IsReadUnknown (x : Key × List Byte) : Type 0 where
    pub key : ReadsKey c e x.0 (e.compact_size x.0.type_value ++ x.0.key)
    pub value : Reads c.byte_vec x.1 (prefixed e x.1)
    pub unknown : from_key c x.0 ≡ ok (decoding_unknown x.0 c.byte_vec.default)

  abbrev pub put_unknowns : OutputDecoder c → BTreeMap Key (List Byte) → OutputDecoder c
  put_unknowns d m = record d { unknowns = m; stage = decoding_separator }

  read_unknown :
      (d : OutputDecoder c) (x : Key × List Byte)
      → IsReadUnknown x
      → ReadsEntry (put_unknowns d) (unknown_pair e) x
  unfolding push_stage separator_round finish unknown_pair
  read_unknown d (k, v) h before m rest sorted =
      read_pair c e c.byte_vec (decoding_unknown k) OutputDecodeError.unknown_value k v _ _ h.key
        h.value h.unknown (λ s bytes. refl) (λ s d bytes. refl) (record d { unknowns = before })
        (put_unknowns d (before ++ ((k, v) ∷ []))) rest
        (λ s ended. rw (ended, insert_vacant_last before k v m _ sorted) refl)

  All-map :
      {A : Type 0} (P Q : A → Type 0) (xs : List A) → ((a : A) → P a → Q a) → All P xs → All Q xs
  All-map P Q [] f h = tt
  All-map P Q (x ∷ xs) f h = (f x h.0, All-map P Q xs f h.1)

  pub read_bip32s :
      (d : OutputDecoder c) (m : BTreeMap PublicKey KeySource) (rest : List Byte)
      → IsSorted m
      → All IsReadBip32 m
      → Runs
          (round c)
          (put_bip32 d [])
          (key_value_iter e.compact_size psbt_out_bip32_derivation e.public_key e.key_source m
            ++ rest)
          (put_bip32 d m)
          rest
  read_bip32s d m rest sorted h =
      rw (key_value_iter-flat_map psbt_out_bip32_derivation e.public_key e.key_source m) (
        read_entries (put_bip32 d) bip32_pair [] m rest sorted
          (All-map IsReadBip32 (ReadsEntry (put_bip32 d) bip32_pair) m (read_bip32 d) h))

  pub read_tap_key_origins :
      (d : OutputDecoder c) (m : BTreeMap XOnlyPublicKey (List TapLeafHash × KeySource))
      (rest : List Byte)
      → IsSorted m
      → All IsReadTapKeyOrigin m
      → Runs
          (round c)
          (put_tap_key_origins d [])
          (key_value_iter e.compact_size psbt_out_tap_bip32_derivation e.xonly_public_key
              e.tap_key_origin m
            ++ rest)
          (put_tap_key_origins d m)
          rest
  read_tap_key_origins d m rest sorted h =
      rw
        (key_value_iter-flat_map psbt_out_tap_bip32_derivation e.xonly_public_key e.tap_key_origin
          m)
        (read_entries (put_tap_key_origins d) tap_key_origin_pair [] m rest sorted (
          All-map IsReadTapKeyOrigin (ReadsEntry (put_tap_key_origins d) tap_key_origin_pair) m
            (read_tap_key_origin d) h))

  pub read_proprietaries :
      (d : OutputDecoder c) (m : BTreeMap ProprietaryKey (List Byte)) (rest : List Byte)
      → IsSorted m
      → All IsReadProprietary m
      → Runs
          (round c)
          (put_proprietaries d [])
          (flat_map (proprietary_pair e) m ++ rest)
          (put_proprietaries d m)
          rest
  read_proprietaries d m rest sorted h =
      read_entries (put_proprietaries d) (proprietary_pair e) [] m rest sorted (
        All-map IsReadProprietary (ReadsEntry (put_proprietaries d) (proprietary_pair e)) m
          (read_proprietary d) h)

  pub read_unknowns :
      (d : OutputDecoder c) (m : BTreeMap Key (List Byte)) (rest : List Byte)
      → IsSorted m
      → All IsReadUnknown m
      → Runs
          (round c)
          (put_unknowns d [])
          (flat_map (unknown_pair e) m ++ rest)
          (put_unknowns d m)
          rest
  read_unknowns d m rest sorted h =
      read_entries (put_unknowns d) (unknown_pair e) [] m rest sorted
        (All-map IsReadUnknown (ReadsEntry (put_unknowns d) (unknown_pair e)) m (read_unknown d) h)
